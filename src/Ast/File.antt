-- ===== src/Ast/File.antt =====
-- node.go: `Parse`.
use jsonc.Prelude.{◌&&◌, List, ltb, if◌then◌else◌, Bytes, Result, ok, err, out_of_fuel, length}
use jsonc.Errors.{Error}
use jsonc.Tree.Internal.{Node}
use jsonc.Parser.State.{DecoderOptions, Warning}
use jsonc.Parser.Document.{parse_document}
use jsonc.Ast.Public.{PublicNode, export_node}

-- `File`
pub record File : Type 0 where
  pub root : PublicNode
  pub warnings : List Warning

pub data FileError : Type 0 where
  document_size_error : FileError
  document_error : Error → FileError

unfoldable pub as_file : Result Error (Node × List Warning) → Result FileError File
unfolding export_node
as_file (ok (n, ws)) = ok (record { root = export_node n; warnings = ws })
as_file (err e) = err (document_error e)
as_file out_of_fuel = out_of_fuel

-- `Parse`, with the options applied
unfoldable pub parse_file : Bytes → DecoderOptions → Result FileError File
unfolding as_file parse_document
parse_file src o =
    let parsed = as_file (parse_document src o) in
    if ltb 0 o.max_document_size && ltb o.max_document_size (length src)
    then err document_size_error
    else parsed
