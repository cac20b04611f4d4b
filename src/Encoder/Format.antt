-- ===== src/Encoder/Format.antt =====
-- format.go: `ToJSON`, `Format` and `Minimize`; node.go: `NodeToBytesWithOptions`.
use jsonc.Prelude.{List, [], Bytes, true, codes, Result, ok, err, out_of_fuel}
use jsonc.Errors.{Error}
use jsonc.Tree.Internal.{Node}
use jsonc.Parser.State.{Warning, default_decode_options}
use jsonc.Parser.Document.{parse_document}
use jsonc.Ast.Public.{PublicNode, import_node}
use jsonc.Encoder.Options.{
  EncoderOptions, EncodeOption, default_encode_options, with_indent, apply_options,
}
use jsonc.Encoder.Values.{encode_node}

-- the node that was parsed, written
unfoldable pub written : EncoderOptions → Result Error (Node × List Warning) → Result Error Bytes
unfolding encode_node
written o (ok (n, ws)) = ok (encode_node o n)
written o (err e) = err e
written o out_of_fuel = out_of_fuel

abbrev pub json_options : EncoderOptions
json_options = record default_encode_options { strict_json_output = true }

-- `ToJSON`, and so `StripComments`
unfoldable pub to_json : Bytes → Result Error Bytes
unfolding written parse_document
to_json src = written json_options (parse_document src default_decode_options)

-- `Format`
unfoldable pub format : Bytes → List EncodeOption → Result Error Bytes
unfolding written parse_document
format src opts =
    written (apply_options opts (with_indent (codes "  ") default_encode_options))
      (parse_document src default_decode_options)

-- `Minimize`
unfoldable pub minimize : Bytes → List EncodeOption → Result Error Bytes
unfolding written parse_document
minimize src opts =
    written (apply_options opts (with_indent [] default_encode_options))
      (parse_document src default_decode_options)

-- `NodeToBytesWithOptions`, which does not fail on a node that is not nil
unfoldable pub node_to_bytes : PublicNode → List EncodeOption → Bytes
unfolding encode_node import_node
node_to_bytes n opts = encode_node (apply_options opts default_encode_options) (import_node n)
