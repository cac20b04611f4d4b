-- ===== src/Parser/ValueLoop.antt =====
-- `parseValue` ends within its fuel in a well-formed value, or in an error.
use jsonc.Prelude.{ℕ, zero, suc, ◌<◌, true, ◌≡◌, refl, some, arith, fails}
use jsonc.Token.{Token, TokenKind}
use jsonc.Tree.Internal.{Node}
use jsonc.Parser.State.{Parser, M, is_consumable, remaining}
use jsonc.Parser.AnyValue.{parse_value_at, parse_value}
use jsonc.Parser.Frame.{Frame, Runs, Runs-then, peek-Runs}
use jsonc.Parser.Step.{Parsed, Ready}
use jsonc.Parser.ValueSound.{
  Inner, AtToken, parse_string_value-Runs, parse_number_value-Runs, parse_bool_value-Runs,
  parse_null_value-Runs,
}
use jsonc.Parser.ObjectLoop.{parse_object-Runs}
use jsonc.Parser.ArrayLoop.{parse_array-Runs}

at :
    {p q : Parser} {t : Token} {k : TokenKind}
    → Frame p q
    → q.lookahead ≡ some t
    → t.kind ≡ k
    → is_consumable k ≡ true
    → AtToken p q t
at f l e c = record { frame = f; stands = l; taken = rw e c }

parse_value_at-Runs :
    (k : TokenKind) (t : Token) (inner : M Node) (p q : Parser)
    → t.kind ≡ k
    → Ready p
    → Frame p q
    → q.lookahead ≡ some t
    → Inner (remaining p) inner
    → Runs (Parsed p) (parse_value_at k t inner q)
unfolding parse_value_at is_consumable
parse_value_at-Runs TokenKind.object_start t inner p q e h f l ih =
    parse_object-Runs inner p q t h (at f l e refl) ih
parse_value_at-Runs TokenKind.array_start t inner p q e h f l ih =
    parse_array-Runs inner p q t h (at f l e refl) ih
parse_value_at-Runs TokenKind.string t inner p q e h f l ih =
    parse_string_value-Runs p q t h (at f l e refl)
parse_value_at-Runs TokenKind.number t inner p q e h f l ih =
    parse_number_value-Runs p q t h (at f l e refl)
parse_value_at-Runs TokenKind.true_word t inner p q e h f l ih =
    parse_bool_value-Runs p q t h (at f l e refl)
parse_value_at-Runs TokenKind.false_word t inner p q e h f l ih =
    parse_bool_value-Runs p q t h (at f l e refl)
parse_value_at-Runs TokenKind.null_word t inner p q e h f l ih =
    parse_null_value-Runs p q t h (at f l e refl)
parse_value_at-Runs _ t inner p q e h f l ih = fails tt

-- Fuel above what remains of the input is enough for a value, however deeply it nests.
pub parse_value-Runs :
    (fuel : ℕ) (p : Parser) → remaining p < fuel → Ready p → Runs (Parsed p) (parse_value fuel p)
unfolding parse_value
parse_value-Runs zero p lt h = absurd (omega arith)
parse_value-Runs (suc fuel) p lt h = Runs-then (peek-Runs p h.clean) λ t q a.
    parse_value_at-Runs t.kind t (parse_value fuel) p q refl h a.0 a.1
      λ r less k. parse_value-Runs fuel r (omega arith) k
