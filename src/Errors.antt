-- ===== src/Errors.antt =====
-- errors.go: positions and the errors of the scanner and the parser. A message is a constructor
-- for each format string, with the values that the format prints; the printing is not modelled.
use jsonc.Prelude.{ℕ, Bytes}
use jsonc.Token.{Token, Position}

pub data Encoding : Type 0 where
  utf32_be utf32_le utf16_be utf16_le : Encoding

pub data Message : Type 0 where
  unsupported_encoding : Encoding → Message
  unexpected_character : ℕ → Message
  unexpected_slash : Message
  unexpected_after_slash : ℕ → Message
  control_in_line_comment : ℕ → Message
  control_in_block_comment : ℕ → Message
  unterminated_block_comment : Message
  control_in_string : ℕ → Message
  unterminated_string : Message
  incomplete_escape : Message
  incomplete_unicode_escape : Message
  invalid_hex_digit : ℕ → Message
  unknown_escape : ℕ → Message
  expected_digit_after_minus : Message
  expected_digit_in_number : Message
  expected_digit : ℕ → Message
  leading_zeros : Message
  expected_digit_after_point : Message
  expected_digit_after_point_got : ℕ → Message
  expected_digit_in_exponent : Message
  expected_digit_after_exponent_sign : Message
  expected_digit_in_exponent_got : ℕ → Message
  expected_word : Bytes → Message
  expected_word_end : Bytes → Message
  expected_value_got_eof : Message
  expected_value_got : Token → Message
  comments_before_value : Message
  expected_key_or_close : Token → Message
  expected_key : Token → Message
  expected_comma_or_brace : Token → Message
  expected_comma_or_bracket : Token → Message
  expected_colon : Token → Message
  invalid_object_key : Message
  invalid_string : Message
  max_keys_exceeded : Message
  max_depth_exceeded : Message
  max_nodes_exceeded : Message
  extra_data : Token → Message
  wrong_children : Bytes → ℕ → Message

pub data Feature : Type 0 where
  line_comment block_comment trailing_comma : Feature

pub data Error : Type 0 where
  syntax_error : Message → Position → Error
  strict_json_error : Feature → Position → Error
  duplicate_key_error : Bytes → Position → Error

-- The position that an error reports.
unfoldable pub error_pos : Error → Position
error_pos (syntax_error m p) = p
error_pos (strict_json_error f p) = p
error_pos (duplicate_key_error k p) = p
