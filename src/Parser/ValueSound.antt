-- ===== src/Parser/ValueSound.antt =====
-- Scalars and members: what `parseStringValue` and its kin, and `parseMember`, guarantee.
use jsonc.Prelude.{
  ℕ, ◌+◌, ◌≤◌, ◌<◌, true, [], ◌≡◌, ◌≢◌, refl, Bytes, some, ok, err, out_of_fuel, arith, add-zero,
  holds, fails,
}
use jsonc.Token.{Token, TokenKind}
use jsonc.Strings.Unquote.{Unquoted, unquote_string}
use jsonc.Strings.Total.{unquote_string-ne-out_of_fuel}
use jsonc.Tree.Shape.{tree, nil}
use jsonc.Tree.Internal.{Node, NodeInfo, NodeKind}
use jsonc.Tree.Valid.{
  IsMember, member, container_level, scalar_value, is_scalar, height, size, comment_free,
  has_no_comment, Within,
}
use jsonc.Parser.State.{Parser, DecoderOptions, M, chain, is_consumable, remaining}
use jsonc.Parser.Values.{
  finish_scalar, string_node, parse_string_value, parse_number_value, parse_bool_value,
  parse_null_value, require_string, require_colon, key_text, member_node, parse_member,
}
use jsonc.Parser.Frame.{Frame, Frame-trans, Runs, Runs-then, peek-Runs, bump-Runs}
use jsonc.Parser.CommentFrame.{skip_dropped_comments-Runs}
use jsonc.Parser.Step.{
  Step, Step-of_Frame, Step-trans, Good, Good-at, Parsed, Ready, Ready-Step, bump_node_count-Runs,
}

-- At a token `t` that stands in the lookahead of `q`, and that `bump` takes.
pub record AtToken (p q : Parser) (t : Token) : Type 0 where
  pub frame : Frame p q
  pub stands : q.lookahead ≡ some t
  pub taken : is_consumable t.kind ≡ true

-- a scalar adds no level
flat :
    {limit d : ℕ} (k : NodeKind)
    → is_scalar k ≡ true
    → Within limit d
    → Within limit (d + (container_level k + 0))
flat NodeKind.object e w = cc
flat NodeKind.array e w = cc
flat NodeKind.key_value e w = cc
flat NodeKind.comment e w = cc
flat {limit} {d} _ e w = rw (add-zero d) w

-- A scalar with no comment is a good value.
finish_scalar-Runs :
    (p q : Parser) (t : Token) (i : NodeInfo)
    → Ready p
    → AtToken p q t
    → is_scalar i.kind ≡ true
    → has_no_comment i ≡ true
    → Runs (Parsed p) (finish_scalar (tree i nil) q)
unfolding height size comment_free
finish_scalar-Runs p q t i h a s e =
    Runs-then (bump-Runs q t a.frame.clean a.stands a.taken) λ _ q1 b.
      Runs-then (bump_node_count-Runs q1 b.0.clean) λ _ q2 c.
        let f = Step-trans (Step-of_Frame (Frame-trans a.frame b.0)) c.0 in
        holds (record {
          after = f;
          took = omega (arith, a.frame.fewer, b.1, c.0.fewer);
          value = scalar_value s;
          good = record { deep = flat i.kind s h.depth; silent = λ _. rw e };
          sized = omega (arith, a.frame.nodes, b.0.nodes, c.1);
        })

module _ (p q : Parser) (t : Token) (h : Ready p) (a : AtToken p q t) where
  string_node-Runs : (m : Unquoted Bytes) → m ≢ out_of_fuel → Runs (Parsed p) (string_node m t q)
  unfolding string_node
  string_node-Runs (ok value) ne = finish_scalar-Runs p q t _ h a refl refl
  string_node-Runs (err e) ne = fails tt
  string_node-Runs out_of_fuel ne = absurd (ne refl)

  pub parse_string_value-Runs : Runs (Parsed p) (parse_string_value t q)
  unfolding parse_string_value
  parse_string_value-Runs =
      string_node-Runs (unquote_string t.value) (unquote_string-ne-out_of_fuel t.value)

  pub parse_number_value-Runs : Runs (Parsed p) (parse_number_value t q)
  unfolding parse_number_value
  parse_number_value-Runs = finish_scalar-Runs p q t _ h a refl refl

  pub parse_bool_value-Runs : Runs (Parsed p) (parse_bool_value t q)
  unfolding parse_bool_value
  parse_bool_value-Runs = finish_scalar-Runs p q t _ h a refl refl

  pub parse_null_value-Runs : Runs (Parsed p) (parse_null_value t q)
  unfolding parse_null_value
  parse_null_value-Runs = finish_scalar-Runs p q t _ h a refl refl

-- The parser of values does what it should on every state with less than `bound` remaining.
abbrev pub Inner : ℕ → M Node → Type 0
Inner bound inner = (q : Parser) → remaining q < bound → Ready q → Runs (Parsed q) (inner q)

-- A member read from `p`.
pub record MemberParsed (p : Parser) (r : Node × Parser) : Type 0 where
  pub after : Step p r.1
  pub took : remaining r.1 < remaining p
  pub member_shape : IsMember r.0
  pub good : Good p.opts p.depth r.0
  pub sized : p.nodes + size r.0 ≤ r.1.nodes

module _ {B : Type 0} {R : B × Parser → Type 0} where
  require_string-then :
      (k : TokenKind) (t : Token) (p : Parser) (f : Unit {0} → M B)
      → (k ≡ TokenKind.string → Runs R (f tt p))
      → Runs R (chain (require_string k t p) f)
  unfolding require_string
  require_string-then TokenKind.string t p f h = h refl
  require_string-then _ t p f h = fails tt

  require_colon-then :
      (k : TokenKind) (t : Token) (p : Parser) (f : Unit {0} → M B)
      → (k ≡ TokenKind.name_separator → Runs R (f tt p))
      → Runs R (chain (require_colon k t p) f)
  unfolding require_colon
  require_colon-then TokenKind.name_separator t p f h = h refl
  require_colon-then _ t p f h = fails tt

  key_text-then :
      (m : Unquoted Bytes) (t : Token) (p : Parser) (f : Bytes → M B)
      → m ≢ out_of_fuel
      → ((key : Bytes) → Runs R (f key p))
      → Runs R (chain (key_text m t p) f)
  unfolding key_text
  key_text-then (ok key) t p f ne h = h key
  key_text-then (err e) t p f ne h = fails tt
  key_text-then out_of_fuel t p f ne h = absurd (ne refl)

consumable_of : {k k' : TokenKind} → k ≡ k' → is_consumable k' ≡ true → is_consumable k ≡ true
consumable_of e h = rw e h

member-Good :
    {o : DecoderOptions} {d : ℕ} {head : Bytes} {v : Node} (t : Token) (key : Bytes)
    → (o.strict_json ≡ true → head ≡ [])
    → Good o d v
    → Good o d (member_node head t key v)
unfolding height comment_free
member-Good {o} {d} {head} {v} t key silent g = record {
  deep = ground (arith, g.deep);
  silent = λ s. rw (silent s, g.silent s);
}

pub parse_member-Runs :
    (inner : M Node) (head : Bytes) (p : Parser)
    → Ready p
    → Inner (remaining p) inner
    → (p.opts.strict_json ≡ true → head ≡ [])
    → Runs (MemberParsed p) (parse_member inner head p)
unfolding parse_member is_consumable height size comment_free
parse_member-Runs inner head p h ih silent = Runs-then (peek-Runs p h.clean) λ t q1 a1.
    require_string-then t.kind t q1 _ λ e.
      key_text-then (unquote_string t.value) t q1 _ (unquote_string-ne-out_of_fuel t.value) λ key.
        Runs-then (bump-Runs q1 t a1.0.clean a1.1 (consumable_of e refl)) λ _ q2 a2.
          Runs-then (skip_dropped_comments-Runs q2 a2.0.clean) λ _ q3 a3.
            Runs-then (peek-Runs q3 a3.clean) λ colon q4 a4.
              require_colon-then colon.kind colon q4 _ λ e'.
                Runs-then (bump-Runs q4 colon a4.0.clean a4.1 (consumable_of e' refl)) λ _ q5 a5.
                  Runs-then (skip_dropped_comments-Runs q5 a5.0.clean) λ _ q6 a6.
                    let f = Frame-trans a1.0 (
                      Frame-trans a2.0 (Frame-trans a3 (Frame-trans a4.0 (Frame-trans a5.0 a6)))) in
                    let less : remaining q6 < remaining p =
                      omega (arith, a1.0.fewer, a2.1, a3.fewer, a4.0.fewer, a5.1, a6.fewer) in
                    Runs-then (ih q6 less (Ready-Step h (Step-of_Frame f))) λ v q7 a7.
                      Runs-then (bump_node_count-Runs q7 a7.after.clean) λ _ q8 a8. holds (record {
                        after = Step-trans (Step-of_Frame f) (Step-trans a7.after a8.0);
                        took = omega (arith, a7.took, a8.0.fewer);
                        member_shape = member refl a7.value;
                        good = member-Good t key silent (Good-at f.opts f.depth a7.good);
                        sized = omega (arith, a7.sized, a8.1, f.nodes);
                      })
