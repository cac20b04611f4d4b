-- ===== src/Parser/ArraySound.antt =====
-- `parseArray` ends within its fuel in a well-formed array, or in an error.
use jsonc.Prelude.{
  ℕ, ◌+◌, ◌≤◌, ◌<◌, Bool, true, false, List, [], ◌∷◌, ◌++◌, ◌≡◌, refl, sym, ◌∙◌, Bytes, some, arith,
  holds, fails, Ensures-weaken,
}
use jsonc.Token.{Token, TokenKind}
use jsonc.Tree.Shape.{of_list, update}
use jsonc.Tree.Internal.{Node}
use jsonc.Tree.Valid.{
  IsValue, AreValues, no_values, more_values, heights, size, sizes, comments_free, Within,
}
use jsonc.Parser.State.{Parser, DecoderOptions, M, is_consumable, remaining}
use jsonc.Parser.Comments.{append_comment_block, add_foot, add_head}
use jsonc.Parser.Arrays.{ArrayState, after_element, array_element}
use jsonc.Parser.Frame.{Clean, Frame-refl, Frame-trans, Runs, Runs-then, peek-Runs, bump-Runs}
use jsonc.Parser.CommentFrame.{collect_head_comments-Runs}
use jsonc.Parser.Step.{Step, Step-of_Frame, Step-trans, Good, Good-at, Parsed, Ready}
use jsonc.Parser.Touch.{
  Touched, update-Touched, add_foot-IsComment, add_head-IsComment, append_comment_block-silent,
  take_comment-Runs, attach_after_comma-Runs,
}

-- Every element is a value, read at depth `d`.
abbrev pub Each : DecoderOptions → ℕ → List Node → Type 0
Each o d [] = Unit {0}
Each o d (n ∷ ns) = IsValue n × Good o d n × Each o d ns

-- What holds of the loop's variables in the state `p`; `base` nodes had been counted before them.
pub record Holding (p : Parser) (base : ℕ) (s : ArrayState) : Type 0 where
  pub each : Each p.opts p.depth s.elements
  pub sized : base + sizes (of_list s.elements) ≤ p.nodes
  pub head : p.opts.strict_json ≡ true → s.pending_head ≡ []
  pub foot : p.opts.strict_json ≡ true → s.foot ≡ []

-- It holds on while the parser takes steps.
pub Holding-Step :
    {p q : Parser} {base : ℕ} {s : ArrayState} → Holding p base s → Step p q → Holding q base s
Holding-Step h f = record {
  each = rw (f.opts, f.depth) h.each;
  sized = omega (arith, h.sized, f.counted);
  head = rw f.opts h.head;
  foot = rw f.opts h.foot;
}

-- An element that waits for its last comments.
record Pending (p : Parser) (base : ℕ) (s : ArrayState) (n : Node) : Type 0 where
  each : Each p.opts p.depth s.elements
  sized : base + sizes (of_list s.elements) + size n ≤ p.nodes
  value : IsValue n
  good : Good p.opts p.depth n
  head : s.pending_head ≡ []
  foot : p.opts.strict_json ≡ true → s.foot ≡ []

Pending-Step :
    {p q : Parser} {base : ℕ} {s : ArrayState} {n : Node}
    → Pending p base s n
    → Step p q
    → Pending q base s n
Pending-Step h f = record {
  each = rw (f.opts, f.depth) h.each;
  sized = omega (arith, h.sized, f.counted);
  value = h.value;
  good = Good-at (sym f.opts) (sym f.depth) h.good;
  head = h.head;
  foot = rw f.opts h.foot;
}

Pending-Touched :
    {p : Parser} {base : ℕ} {s : ArrayState} {n n' : Node}
    → Pending p base s n
    → Touched p.opts n n'
    → Pending p base s n'
Pending-Touched {p} h t = record {
  each = h.each;
  sized = omega (arith, h.sized, t.sized);
  value = t.value h.value;
  good = t.good p.depth h.good;
  head = h.head;
  foot = h.foot;
}

module _ (o : DecoderOptions) (d : ℕ) where
  Each-concat :
      (ns : List Node) (n : Node) → Each o d ns → IsValue n → Good o d n → Each o d (ns ++ n ∷ [])
  Each-concat [] n h v g = (v, g, tt)
  Each-concat (m ∷ ns) n h v g = (h.0, h.1, Each-concat ns n h.2 v g)

  pub AreValues-of_list : (ns : List Node) → Each o d ns → AreValues (of_list ns)
  AreValues-of_list [] h = no_values
  AreValues-of_list (n ∷ ns) h = more_values h.0 (AreValues-of_list ns h.2)

  pub heights-of_list :
      (ns : List Node)
      → Within o.max_depth d
      → Each o d ns
      → Within o.max_depth (d + heights (of_list ns))
  unfolding heights
  heights-of_list [] w h = ground arith
  heights-of_list (n ∷ ns) w h = ground (arith, h.1.deep, heights-of_list ns w h.2)

  pub comments_free-of_list :
      (ns : List Node) → Each o d ns → o.strict_json ≡ true → comments_free (of_list ns) ≡ true
  unfolding comments_free
  comments_free-of_list [] h s = refl
  comments_free-of_list (n ∷ ns) h s = rw (h.1.silent s, comments_free-of_list ns h.2 s)

sizes-concat :
    (ns : List Node) (n : Node) → sizes (of_list (ns ++ n ∷ [])) ≡ sizes (of_list ns) + size n
unfolding sizes
sizes-concat [] n = omega arith
sizes-concat (m ∷ ns) n = omega (arith, sizes-concat ns n)

Pending-Holding :
    {p : Parser} {base : ℕ} {s : ArrayState} {n : Node} (foot : Bytes) (comma : Bool)
    → Pending p base s n
    → (p.opts.strict_json ≡ true → foot ≡ [])
    → Holding p base (record {
      elements = s.elements ++ n ∷ [];
      foot = foot;
      pending_head = s.pending_head;
      just_consumed_comma = comma;
    })
Pending-Holding {p} {base} {s} {n} foot comma h f = record {
  each = Each-concat p.opts p.depth s.elements n h.each h.value h.good;
  sized = omega (arith, h.sized, sizes-concat s.elements n);
  head = λ _. h.head;
  foot = f;
}

abbrev pub Rounded : Parser → ℕ → ArrayState × Parser → Type 0
Rounded p base r = Step p r.1 × Holding r.1 base r.0

after_element-Runs :
    (k : TokenKind) (t : Token) (between : Bytes) (n : Node) (s : ArrayState) (base : ℕ)
    (p : Parser)
    → t.kind ≡ k
    → Clean p
    → p.lookahead ≡ some t
    → (p.opts.strict_json ≡ true → between ≡ [])
    → Pending p base s n
    → Runs (Rounded p base) (after_element k t between n s p)
unfolding after_element is_consumable
after_element-Runs TokenKind.value_separator t between n s base p e c l b h =
    Runs-then (bump-Runs p t c l (rw e refl)) λ _ q a.
      let h' =
        Pending-Step
          (Pending-Touched h (update-Touched p.opts (add_foot between) n (add_foot-IsComment b)))
          (Step-of_Frame a.0) in
      Runs-then (attach_after_comma-Runs (update (add_foot between) n) q a.0.clean) λ n' r a'.
        let h'' = Pending-Step (Pending-Touched h' a'.1) (Step-of_Frame a'.0) in
        holds (
          Step-trans (Step-of_Frame a.0) (Step-of_Frame a'.0),
          Pending-Holding s.foot true h'' h''.foot,
        )
after_element-Runs TokenKind.array_end t between n s base p e c l b h = holds (
  Step-of_Frame (Frame-refl c),
  Pending-Holding (append_comment_block s.foot between) s.just_consumed_comma h
      (append_comment_block-silent p.opts h.foot b),
)
after_element-Runs _ t between n s base p e c l b h = fails tt

-- An element just parsed, with the comments before it, waits for those behind it.
Pending-new :
    {p q : Parser} {base : ℕ} {s : ArrayState} {n : Node}
    → Holding p base s
    → Parsed p (n, q)
    → Pending q base
        (record s { pending_head = []; just_consumed_comma = false })
        (update (add_head s.pending_head) n)
Pending-new {p} {q} {base} {s} {n} h m =
    let touch = update-Touched p.opts (add_head s.pending_head) n (add_head-IsComment h.head) in
    record {
      each = rw (m.after.opts, m.after.depth) h.each;
      sized = omega (arith, h.sized, m.sized, touch.sized);
      value = touch.value m.value;
      good = Good-at (sym m.after.opts) (sym m.after.depth) (touch.good p.depth m.good);
      head = refl;
      foot = rw m.after.opts h.foot;
    }

-- A round at an element takes tokens, and the invariant holds on.
pub array_element-Runs :
    (inner : M Node) (s : ArrayState) (base : ℕ) (p : Parser)
    → Ready p
    → Runs (Parsed p) (inner p)
    → Holding p base s
    → Runs (λ r. Rounded p base r × (remaining r.1 < remaining p)) (array_element inner s p)
unfolding array_element
array_element-Runs inner s base p h ih hold = Runs-then ih λ n q1 a1.
    let w1 = Pending-new hold a1 in
    Runs-then (take_comment-Runs (update (add_head s.pending_head) n) q1 a1.after.clean) λ n' q2 a2.
      Runs-then (collect_head_comments-Runs q2 a2.0.clean) λ between q3 a3.
        Runs-then (peek-Runs q3 a3.0.clean) λ t q4 a4.
          let f = Step-of_Frame (Frame-trans a2.0 (Frame-trans a3.0 a4.0)) in
          Ensures-weaken
            (after_element-Runs t.kind t between n' _ base q4 refl a4.0.clean a4.1
              (rw (a4.0.opts ∙ a3.0.opts) a3.1) (Pending-Step (Pending-Touched w1 a2.1) f))
            (λ r k. (
              (Step-trans (Step-trans a1.after f) k.0, k.1),
              omega (arith, k.0.fewer, f.fewer, a1.took),
            ))
            λ _ _. tt
