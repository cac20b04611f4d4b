-- ===== src/Parser/Containers.antt =====
-- parser.go: what `parseObject` and `parseArray` share.
use jsonc.Prelude.{
  ℕ, ◌+◌, ◌-◌, Bool, ◌&&◌, List, [], leb, is_empty, if◌then◌else◌, Bytes, ok, length, take, drop,
}
use jsonc.Token.{Token, Position}
use jsonc.Errors.{Feature, strict_json_error}
use jsonc.Tree.Shape.{tree, of_list, update}
use jsonc.Tree.Internal.{Node, NodeKind, new_info}
use jsonc.Parser.State.{M, ◌>>=◌, ◌>>◌, pure, throw, bump}
use jsonc.Parser.Comments.{collect_trailing_inline_comment, set_comment}

-- the trailing comma of strict JSON
unfoldable pub check_trailing_comma : Bool → Position → M (Unit {0})
check_trailing_comma comma pos p =
    if comma && p.opts.strict_json
    then throw (strict_json_error Feature.trailing_comma pos) p
    else ok (tt, p)

-- `p.data[open:close]`, where it lies in the text
abbrev pub source_slice : ℕ → ℕ → Bytes → Bytes
source_slice start stop text =
    if leb stop (length text) then take (stop - start) (drop start text) else []

-- A container at its closing token: what both branches share.
unfoldable pub close_container : NodeKind → Token → Token → Bool → Bytes → List Node → M Node
unfolding check_trailing_comma bump collect_trailing_inline_comment
close_container kind opened closed comma foot children = do
  check_trailing_comma comma closed.pos
  bump
  c ← collect_trailing_inline_comment
  λ p. ok (
    tree
        (record (new_info kind opened.pos) {
          comment = c;
          foot_comment = foot;
          raw_bytes = source_slice opened.pos.offset (closed.pos.offset + 1) p.text;
        })
        (of_list children),
    p,
  )

-- `if c := p.collectTrailingInlineComment(); c != "" { n.comment = c }`
unfoldable pub take_comment : Node → M Node
unfolding collect_trailing_inline_comment
take_comment n = do
  c ← collect_trailing_inline_comment
  pure (if is_empty c then n else update (set_comment c) n)
