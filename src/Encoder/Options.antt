-- ===== src/Encoder/Options.antt =====
-- options.go: the encode options that the writer of syntax trees reads.
use jsonc.Prelude.{ℕ, zero, suc, Bool, false, List, [], ◌∷◌, Bytes}

-- `encoderOptions`, less what only the encoding of Go values reads
pub record EncoderOptions : Type 0 where
  pub indent : Bytes
  pub escape_html : Bool
  pub array_multiline : Bool
  pub trailing_comma : Bool
  pub strict_json_output : Bool

-- `defaultEncodeOptions`
abbrev pub default_encode_options : EncoderOptions
default_encode_options = record {
  indent = [];
  escape_html = false;
  array_multiline = false;
  trailing_comma = false;
  strict_json_output = false;
}

abbrev pub EncodeOption : Type 0
EncodeOption = EncoderOptions → EncoderOptions

-- `WithIndent`
abbrev pub with_indent : Bytes → EncodeOption
with_indent indent o = record o { indent = indent }

abbrev spaces : ℕ → Bytes
spaces zero = []
spaces (suc n) = b' ' ∷ spaces n

-- `WithIndentN`; a negative number is as zero
abbrev pub with_indent_n : ℕ → EncodeOption
with_indent_n n o = record o { indent = spaces n }

-- `WithEscapeHTML`
abbrev pub with_escape_html : Bool → EncodeOption
with_escape_html b o = record o { escape_html = b }

-- `WithArrayMultiline`
abbrev pub with_array_multiline : Bool → EncodeOption
with_array_multiline b o = record o { array_multiline = b }

-- `WithTrailingComma`
abbrev pub with_trailing_comma : Bool → EncodeOption
with_trailing_comma b o = record o { trailing_comma = b }

-- `WithStrictJSONOutput`
abbrev pub with_strict_json_output : Bool → EncodeOption
with_strict_json_output b o = record o { strict_json_output = b }

-- `for _, opt := range opts { opt(o) }`
abbrev pub apply_options : List EncodeOption → EncodeOption
apply_options [] o = o
apply_options (f ∷ fs) o = apply_options fs (f o)
