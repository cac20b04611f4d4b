-- ===== src/Lib.antt =====
-- The library jsonc: a model of the JSONC package in Go, and the theorems that make it correct.
--
-- The program. `scanner.go` turns the text into tokens, one for each call of `next`, and keeps the
-- line, the column and the offset. `strings.go` decodes quoted strings. `parser.go` reads tokens with
-- one token of lookahead and builds a tree of nodes, with the comments on the nodes, under limits on
-- depth, keys and nodes. `unmarshal.go` and `node.go` offer the parser as functions on documents.
--
-- The model.
--   * Token, Errors: token.go and the error types of errors.go. A message is a constructor with the
--     parts that the program formats; its text is left out. The token text of a `SyntaxError` is too.
--   * Scanner: scanner.go. A `Cursor` is the rest of the text with the position, so that `src` and
--     `pos` of the program are one field, and `next` gives the token with the new cursor. Scanner/Next
--     has `next` and the switch of `scanNext`; Comments, Strings and Numbers have the methods of their
--     names; Cursor has `advance` and the tests on bytes.
--   * Strings: strings.go, in Unquote. Utf8 is what the Go specification and the standard library
--     say of ranging over a string and of `utf8` and `utf16`.
--   * Tree: the internal node of node.go. A node's fields other than its children are a record, and
--     the tree is generic in it. Valid says what a well-formed tree is.
--   * Parser: parser.go as a state-passing monad with errors. State has the lookahead and the limits,
--     Comments the loops over comments, Members the member index, Values the scalars and members,
--     Objects, Arrays and AnyValue the values of these kinds, with what containers share in Containers,
--     Document the root, the byte-order marks,
--     `parseDocumentWarnings` and `Valid`. The other modules there hold the proofs: Frame and Step say
--     what a run leaves of the state, the modules in Sound and Loop what each method guarantees.
--   * Ast: the public half of node.go. Public has `Node` with the conversions from and to the internal
--     node, Walk has `Walk`, `Filter` and `Validate`, File has `Parse`.
--   * Excerpt: `FormatError` of errors.go in Lines, with the error's text as an argument; a slice beyond
--     the end of a line, which panics, is `none`. Starts, Window and Shown hold proofs.
--   * Text and Integers: what the program uses of the packages `strings` and `strconv`.
--   * Pointer: JSON Pointers in path.go and patch.go. Tokens splits and decodes them, Resolve follows
--     them in a tree.
--   * Path: path.go. Expression has `PathString` and `PathPointer`, Read has `Path.Read` with what is
--     built on it, and `Node.String`. Pointers, Decimal, Trimmed and Written hold proofs.
--   * Patch: patch.go. Edit has `opAdd` and `opRemove`, Replace `opReplace`, Copy `opCopy`, Move
--     `opMove`, Numbers and Equal the equality of numbers and nodes, Apply `opTest`, the dispatch and
--     `Patch.Apply`. The program changes a deep copy in place, in which no node is shared; the model
--     gives the changed tree. The other modules there hold proofs.
--   * Encoder: the writer of syntax trees in encode.go, and format.go. Options has the encode options,
--     Quote the quotation of strings, Comments the comments and Values the rest of the writer; Format
--     has `ToJSON`, `Format`, `Minimize` and `NodeToBytes`. The buffer that the methods write to is the
--     text that they return. Forms, Unquoted, Spelled, ReadBack and Inline hold proofs, as do Runes and
--     Reference in Strings, and Grammar and Accepted in Scanner, which say what strings the scanner
--     reads.
--   * Stream: `Decoder` in unmarshal.go, which takes one value after the other from an input. State has
--     the code: `decode` is `Decode` up to the node, `more` is `More`; `loaded`, `p` and `err` are one
--     `Phase`. What `io.ReadAll` gives of the reader each time is a field of the decoder, none where the
--     reader fails, which sets no error and so is tried again. Steps, Sound, Calls and Sticky hold proofs.
--   * Tags: the tags of struct fields in tags.go. Fields has `parseTagPair`; Merged holds proofs.
--
-- Numbers and bytes. A byte is a number, a Go string a list of bytes. Counters are natural numbers: the
-- program's ints count bytes, tokens and nodes of a text in memory and do not overflow. A negative
-- limit means no limit in the program, as 0 does, so limits are natural numbers too.
--
-- Fuel. A loop of the parser consumes a token in every round but the last, and a token takes at least
-- a byte; so `suc (remaining p)`, the bytes left with the lookahead counting one, is enough, and so it
-- is for the nesting of values. The loop over a string's bytes has one unit for every byte and one
-- more. That no fuel runs out is proved, not assumed.
--
-- Aliasing. The program keeps pointers to members that it has appended and writes comments through
-- them; the model appends a member once its comments are settled. A node's `rawBytes` aliases the
-- input; the model has its bytes.
--
-- Not modelled: encoding and decoding by reflection, with `ParsePatch` and the relayout of marshaler
-- output; the changes through paths (`Path.Replace`, `Append`, `Delete`); the conversion of what a
-- `Decoder` reads to Go values; the texts of error messages.
pub mod Prelude
pub mod Errors
pub mod Token
pub mod Scanner
pub mod Strings
pub mod Tree
pub mod Parser
pub mod Stream
pub mod Tags
pub mod Ast
pub mod Excerpt
pub mod Text
pub mod Pointer
pub mod Path
pub mod Integers
pub mod Patch
pub mod Encoder
mod Tests
