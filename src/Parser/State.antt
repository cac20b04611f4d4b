-- ===== src/Parser/State.antt =====
-- parser.go: the parser's state, its lookahead token, and its limits.
use jsonc.Prelude.{
  ℕ, ◌+◌, ◌-◌, Bool, true, false, ◌&&◌, List, [], ◌∷◌, ◌++◌, ltb, if◌then◌else◌, Bytes, Option,
  none, some, Result, ok, err, out_of_fuel, length,
}
use jsonc.Token.{Token, TokenKind, Position}
use jsonc.Errors.{Error, Message, syntax_error, max_depth_exceeded, max_nodes_exceeded}
use jsonc.Scanner.Cursor.{Cursor, rest, position, token, Scan}
use jsonc.Scanner.Next.{Flags, next, skip_blanks, begin}

-- The options that the parser reads. A limit of 0 is none; so is a negative one in the program.
pub record DecoderOptions : Type 0 where
  pub strict_json : Bool
  pub allow_duplicate_keys : Bool
  pub max_depth : ℕ
  pub max_keys : ℕ
  pub max_nodes : ℕ
  pub max_document_size : ℕ

-- `defaultDecodeOptions`
abbrev pub default_decode_options : DecoderOptions
default_decode_options = record {
  strict_json = false;
  allow_duplicate_keys = false;
  max_depth = 100;
  max_keys = 0;
  max_nodes = 0;
  max_document_size = 0;
}

pub data Warning : Type 0 where
  duplicate_key : Position → Bytes → Warning
  dropped_comment : Position → Warning

-- `lookahead` is `tok` while `have` is true. `scan_error` is `err`.
pub record Parser : Type 0 where
  pub sc : Cursor
  pub lookahead : Option Token
  pub scan_error : Option Error
  pub opts : DecoderOptions
  pub depth : ℕ
  pub keys : ℕ
  pub nodes : ℕ
  pub warnings : List Warning
  pub text : Bytes

-- `newParser`
unfoldable pub new_parser : Bytes → DecoderOptions → Parser
new_parser src opts = record {
  sc = begin src;
  lookahead = none;
  scan_error = none;
  opts = opts;
  depth = 0;
  keys = 0;
  nodes = 0;
  warnings = [];
  text = src;
}

-- An error leaves with the scan error that stands behind it, if any. What else the parser's state
-- is then has no effect: no method runs on it again.
pub record Failure : Type 0 where
  pub raised : Error
  pub behind : Option Error

abbrev pub M : Type 0 → Type 0
M A = Parser → Result Failure (A × Parser)

abbrev pub chain :
    {A B : Type 0} → Result Failure (A × Parser) → (A → M B) → Result Failure (B × Parser)
chain (ok (a, q)) f = f a q
chain (err e) f = err e
chain out_of_fuel f = out_of_fuel

infixl 5 ◌>>=◌ ◌>>◌
abbrev pub ◌>>=◌ : {A B : Type 0} → M A → (A → M B) → M B
◌>>=◌ m f p = chain (m p) f

abbrev pub ◌>>◌ : {A B : Type 0} → M A → M B → M B
m >> k = m >>= λ _. k

abbrev pub pure : {A : Type 0} → A → M A
pure a p = ok (a, p)

abbrev pub throw : {A : Type 0} → Error → M A
throw e p = err (record { raised = e; behind = p.scan_error })

-- `&SyntaxError{Message: m, Pos: pos}`
abbrev pub fail : {A : Type 0} → Message → Position → M A
fail m pos = throw (syntax_error m pos)

abbrev pub modify : (Parser → Parser) → M (Unit {0})
modify f p = ok (tt, f p)

abbrev pub flags_of : Parser → Flags
flags_of p = record { strict_json = p.opts.strict_json; raw_only = false }

-- `peek` where it has scanned. An error of the scanner gives a `tokenError` where the token would
-- begin.
unfoldable pub scanned : Scan → M Token
unfolding skip_blanks
scanned (ok (t, sc)) p = ok (t, record p { sc = sc; lookahead = some t; scan_error = none })
scanned (err e) p =
    let t = token TokenKind.error [] (position (skip_blanks p.sc)) in
    ok (t, record p { lookahead = some t; scan_error = some e })
scanned out_of_fuel p = out_of_fuel

unfoldable pub peek_at : Option Token → M Token
unfolding scanned next
peek_at none p = scanned (next (flags_of p) p.sc) p
peek_at (some t) p = ok (t, p)

-- `peek`
unfoldable pub peek : M Token
unfolding peek_at
peek p = peek_at p.lookahead p

-- `k != tokenEOF && k != tokenError`
unfoldable pub is_consumable : TokenKind → Bool
is_consumable TokenKind.eof = false
is_consumable TokenKind.error = false
is_consumable _ = true

-- `bump`
unfoldable pub bump : M (Unit {0})
unfolding peek is_consumable
bump = do t ← peek; modify λ p. if is_consumable t.kind then record p { lookahead = none } else p

-- a counter that a limit other than 0 bounds
abbrev pub exceeds : ℕ → ℕ → Bool
exceeds n limit = ltb 0 limit && ltb limit n

-- `enterDepth`
unfoldable pub enter_depth : M (Unit {0})
unfolding peek
enter_depth p =
    let q = record p { depth = p.depth + 1 } in
    let failed : Result Failure (Unit {0} × Parser) =
      (do t ← peek; fail max_depth_exceeded t.pos) q in
    if exceeds q.depth q.opts.max_depth then failed else ok (tt, q)

-- `exitDepth`
unfoldable pub exit_depth : M (Unit {0})
exit_depth = modify λ p. record p { depth = p.depth - 1 }

-- `bumpNodeCount`
unfoldable pub bump_node_count : M (Unit {0})
unfolding peek
bump_node_count p =
    let q = record p { nodes = p.nodes + 1 } in
    let failed : Result Failure (Unit {0} × Parser) =
      (do t ← peek; fail max_nodes_exceeded t.pos) q in
    if exceeds q.nodes q.opts.max_nodes then failed else ok (tt, q)

-- `warnf`
abbrev pub warn : Warning → M (Unit {0})
warn w = modify λ p. record p { warnings = p.warnings ++ w ∷ [] }

unfoldable pub held : Option Token → ℕ
unfolding is_consumable
held none = 0
held (some t) = if is_consumable t.kind then 1 else 0

-- The bytes not yet consumed, a lookahead token that `bump` takes counting as one: a bound on the
-- rounds of a loop that consumes tokens.
unfoldable pub remaining : Parser → ℕ
unfolding held
remaining p = length (rest p.sc) + held p.lookahead
