-- ===== src/Tests/Streams.antt =====
-- Calls of a decoder, and the theorems on it at concrete inputs.
use jsonc.Prelude.{[], ◌∷◌, none, ◌≡◌, refl, suc, Bytes, codes, some, length}
use jsonc.Parser.State.{default_decode_options}
use jsonc.Stream.State.{
  Decoder, no_value, failed, size_error, read_error, new_decoder, decode_node, more, input_offset,
}
use jsonc.Stream.Calls.{fresh, decoded, asked, Reached-Fine, Ends, new_decoder-Ends}
use jsonc.Stream.Sound.{Fine}
use jsonc.Stream.Sticky.{Stays, decode_node-Stays}

abbrev reading : Bytes → Decoder
reading bytes = new_decoder (some bytes ∷ []) default_decode_options

abbrev two_values : Bytes
two_values = codes "1 [2] // end"

abbrev third_call : Decoder
third_call = (decode_node (more (decode_node (reading two_values)).1).1).1

third_call-offset : input_offset third_call ≡ 12
unfolding decode_node more
third_call-offset = refl

third_call-end : (decode_node third_call).0 ≡ no_value
unfolding decode_node more
third_call-end = refl

Reached-Fine_example : Fine default_decode_options (decode_node third_call).0
Reached-Fine_example = Reached-Fine (decoded (asked (decoded fresh)))

new_decoder-Ends_example : Ends (suc (length two_values)) (reading two_values)
new_decoder-Ends_example = new_decoder-Ends two_values default_decode_options

abbrev too_large : Decoder
too_large =
    new_decoder (some two_values ∷ []) (record default_decode_options { max_document_size = 4 })

too_large-fails : decode_node too_large ≡ (failed size_error, (decode_node too_large).1)
unfolding decode_node
too_large-fails = refl

decode_node-Stays_example : Stays size_error (decode_node too_large).1
decode_node-Stays_example =
    decode_node-Stays too_large (decode_node too_large).1 size_error (λ e. cc) too_large-fails

-- The reader fails once and is read again.
abbrev retried : Decoder
retried = new_decoder (none ∷ some two_values ∷ []) default_decode_options

retried-fails : (decode_node retried).0 ≡ failed read_error
unfolding decode_node
retried-fails = refl

retried-reads : (decode_node (decode_node retried).1).0 ≡ (decode_node (reading two_values)).0
unfolding decode_node
retried-reads = refl
