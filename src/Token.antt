-- ===== src/Token.antt =====
-- token.go and `Position` of errors.go.
use jsonc.Prelude.{ℕ, Bytes, Bool, true, false}

pub record Position : Type 0 where
  pub line : ℕ
  pub column : ℕ
  pub offset : ℕ

pub data TokenKind : Type 0 where
  error stream_start stream_end object_start object_end array_start array_end : TokenKind
  name_separator value_separator string number true_word false_word null_word : TokenKind
  line_comment block_comment newline eof : TokenKind

pub record Token : Type 0 where
  pub kind : TokenKind
  pub value : Bytes
  pub pos : Position

-- `k == tokenLineComment || k == tokenBlockComment`
abbrev pub is_comment : TokenKind → Bool
is_comment TokenKind.line_comment = true
is_comment TokenKind.block_comment = true
is_comment _ = false
