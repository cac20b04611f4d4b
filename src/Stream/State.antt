-- ===== src/Stream/State.antt =====
-- unmarshal.go: `Decoder` up to the conversion of a node to a Go value; parser.go: `valueEnd`.
use jsonc.Prelude.{
  ℕ, suc, ◌+◌, ◌-◌, Bool, true, false, not, ◌&&◌, List, [], ◌∷◌, ltb, if◌then◌else◌, Bytes, length,
  take, Option, none, some, Result, ok, err, out_of_fuel,
}
use jsonc.Token.{Token, TokenKind}
use jsonc.Errors.{Error}
use jsonc.Tree.Shape.{update}
use jsonc.Tree.Internal.{Node, NodeInfo}
use jsonc.Scanner.Cursor.{position}
use jsonc.Scanner.Next.{skip_blanks}
use jsonc.Parser.State.{
  Parser, new_parser, DecoderOptions, Failure, M, ◌>>=◌, pure, peek, remaining,
}
use jsonc.Parser.Comments.{collect_head_comments, append_comment_block}
use jsonc.Parser.AnyValue.{parse_value}
use jsonc.Parser.Document.{strip_bom, reported}

-- the errors of a decoder: that of its reader, `ErrDocumentSize`, and those of the parser
pub data StreamError : Type 0 where
  read_error size_error : StreamError
  parse_error : Error → StreamError

-- `loaded`, `p` and `err`: before the input is read; with the parser of the input; and with the error that every later
-- call returns, where the parser is not used again.
pub data Phase : Type 0 where
  unloaded : Phase
  running : Parser → Phase
  stopped : StreamError → Phase

-- `Decoder`. `input` has what `io.ReadAll` gives of the reader each time that it is called: all that is left, or none
-- where the reader fails; it gives nothing more behind that.
pub record Decoder : Type 0 where
  pub input : List (Option Bytes)
  pub opts : DecoderOptions
  pub phase : Phase
  pub bom : ℕ
  pub consumed : ℕ

-- `NewDecoder`, with the options applied
abbrev pub new_decoder : List (Option Bytes) → DecoderOptions → Decoder
new_decoder input opts = record {
  input = input;
  opts = opts;
  phase = unloaded;
  bom = 0;
  consumed = 0;
}

abbrev stop : StreamError → Decoder → Option StreamError × Decoder
stop e d = (some e, record d { phase = stopped e })

-- the end of `ensureLoaded`, with the outcome of `stripBOM`
unfoldable pub load_text : Result Error Bytes → Bytes → Decoder → Option StreamError × Decoder
unfolding new_parser
load_text (ok src) bytes d =
    (none, record d { phase = running (new_parser src d.opts); bom = length bytes - length src })
load_text (err e) bytes d = stop (parse_error e) d
load_text out_of_fuel bytes d = (none, d)

unfoldable pub load_bytes : Bytes → Decoder → Option StreamError × Decoder
unfolding load_text strip_bom
load_bytes bytes d =
    let limit = d.opts.max_document_size in
    if ltb 0 limit && ltb limit (length bytes)
    then stop size_error d
    else load_text (strip_bom bytes) bytes d

-- `io.LimitReader` where there is a limit
abbrev pub limited : ℕ → Bytes → Bytes
limited limit bytes = if ltb 0 limit then take (limit + 1) bytes else bytes

unfoldable pub load : List (Option Bytes) → Decoder → Option StreamError × Decoder
unfolding load_bytes
load [] d = load_bytes [] d
load (none ∷ later) d = (some read_error, record d { input = later })
load (some bytes ∷ later) d =
    load_bytes (limited d.opts.max_document_size bytes) (record d { input = later })

abbrev pub ensure_phase : Phase → Decoder → Option StreamError × Decoder
ensure_phase unloaded d = load d.input d
ensure_phase (running p) d = (none, d)
ensure_phase (stopped e) d = (none, d)

-- `ensureLoaded`
unfoldable pub ensure_loaded : Decoder → Option StreamError × Decoder
unfolding load
ensure_loaded d = ensure_phase d.phase d

unfoldable pub value_end_at : Option Token → M ℕ
unfolding skip_blanks
value_end_at (some t) p = ok (t.pos.offset, p)
value_end_at none p = let sc = skip_blanks p.sc in ok ((position sc).offset, record p { sc = sc })

-- `valueEnd`
unfoldable pub value_end : M ℕ
unfolding value_end_at
value_end p = value_end_at p.lookahead p

abbrev pub is_eof : TokenKind → Bool
is_eof TokenKind.eof = true
is_eof _ = false

-- `if lead != "" { … }`
unfoldable pub add_lead : Bytes → NodeInfo → NodeInfo
unfolding append_comment_block
add_lead [] i = i
add_lead (c ∷ cs) i = record i { head_comment = append_comment_block (c ∷ cs) i.head_comment }

unfoldable pub next_at : Bool → Bytes → M (Option (Node × ℕ))
unfolding parse_value value_end add_lead remaining
next_at true lead = pure none
next_at false lead = do
  root ← λ p. parse_value (suc (remaining p)) p
  stop ← value_end
  pure (some (update (add_lead lead) root, stop))

abbrev pub reset : Parser → Parser
reset p = record p { depth = 0; keys = 0; nodes = 0 }

-- what `nextValue` does with the parser
unfoldable pub next_root : M (Option (Node × ℕ))
unfolding collect_head_comments peek next_at
next_root p = (do lead ← collect_head_comments; t ← peek; next_at (is_eof t.kind) lead) (reset p)

-- what `nextValue` returns; `no_value` is `io.EOF`, and `never` is proved not to occur
pub data Outcome : Type 0 where
  value : Node → Outcome
  no_value never : Outcome
  failed : StreamError → Outcome

unfoldable pub settle_next :
    Decoder → Result Failure (Option (Node × ℕ) × Parser) → Outcome × Decoder
settle_next d (ok (none, q)) = (no_value, record d { phase = running q })
settle_next d (ok (some (n, offset), q)) =
    (value n, record d { phase = running q; consumed = d.bom + offset })
settle_next d (err f) =
    let e = parse_error (reported f) in (failed e, record d { phase = stopped e })
settle_next d out_of_fuel = (never, d)

-- `nextValue`, which is called once the input is loaded
unfoldable pub next_phase : Phase → Decoder → Outcome × Decoder
unfolding settle_next next_root
next_phase unloaded d = (no_value, d)
next_phase (stopped e) d = (failed e, d)
next_phase (running p) d = settle_next d (next_root p)

unfoldable pub next_value : Decoder → Outcome × Decoder
unfolding next_phase
next_value d = next_phase d.phase d

abbrev pub unless_failed :
    {A : Type 0}
    → (StreamError → A)
    → (Decoder → A × Decoder)
    → Option StreamError × Decoder
    → A × Decoder
unless_failed fail go (some e, d) = (fail e, d)
unless_failed fail go (none, d) = go d

-- `DecodeContext` up to the node, whose conversion, with the errors of its own, is left out
unfoldable pub decode_node : Decoder → Outcome × Decoder
unfolding ensure_loaded next_value
decode_node d = unless_failed failed next_value (ensure_loaded d)

abbrev pub settle_more : Decoder → Result Failure (Bool × Parser) → Bool × Decoder
settle_more d (ok (b, q)) = (b, record d { phase = running q })
settle_more d (err f) = (false, d)
settle_more d out_of_fuel = (false, d)

unfoldable pub more_run : M Bool
unfolding collect_head_comments peek
more_run = do lead ← collect_head_comments; t ← peek; pure (not (is_eof t.kind))

unfoldable pub more_phase : Phase → Decoder → Bool × Decoder
unfolding more_run
more_phase unloaded d = (false, d)
more_phase (stopped e) d = (false, d)
more_phase (running p) d = settle_more d (more_run p)

unfoldable pub more_loaded : Decoder → Bool × Decoder
unfolding more_phase
more_loaded d = more_phase d.phase d

-- `More`
unfoldable pub more : Decoder → Bool × Decoder
unfolding ensure_loaded more_loaded
more d = unless_failed (λ _. false) more_loaded (ensure_loaded d)

-- `InputOffset`
abbrev pub input_offset : Decoder → ℕ
input_offset d = d.consumed
