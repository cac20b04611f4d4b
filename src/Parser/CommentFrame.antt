-- ===== src/Parser/CommentFrame.antt =====
-- The parser's loops over comments end within their fuel, leave the state alone as the small steps
-- do, and find no comment in strict JSON.
use jsonc.Prelude.{
  ℕ, zero, suc, ◌<◌, true, [], ◌∷◌, ◌++◌, ◌≡◌, ◌≢◌, refl, sym, ◌∙◌, ap, Bytes, Result, arith, holds,
  Ensures-weaken,
}
use jsonc.Token.{Token, TokenKind, is_comment}
use jsonc.Parser.State.{Parser, M, Failure, is_consumable, remaining, dropped_comment}
use jsonc.Parser.Comments.{
  Trivia, line_break, comment, other, trivia, non_blank, write_comment, collect_loop,
  collect_head_comments, collect_trailing_inline_comment, collect_turn, skip_turn, inline_turn,
  skip_loop, skip_dropped_comments,
}
use jsonc.Parser.Frame.{
  Clean, Frame, Frame-trans, Runs, Runs-then, Peeked, peek-Runs, Consumed, bump-Runs,
}

pub trivia_consumable :
    (k : TokenKind) (c : Trivia) → trivia k ≡ c → c ≢ other → is_consumable k ≡ true
unfolding trivia is_consumable
trivia_consumable TokenKind.eof c e ne = absurd (ne (sym e))
trivia_consumable TokenKind.error c e ne = absurd (ne (sym e))
trivia_consumable _ c e ne = refl

trivia_comment : (k : TokenKind) → trivia k ≡ comment → is_comment k ≡ true
unfolding trivia
trivia_comment TokenKind.line_comment e = refl
trivia_comment TokenKind.block_comment e = refl
trivia_comment _ e = cc

-- In strict JSON the text collected is empty.
abbrev pub Silent : Parser → Bytes → Type 0
Silent p c = p.opts.strict_json ≡ true → c ≡ []

abbrev pub Collected : Parser → Bytes × Parser → Type 0
Collected p r = Frame p r.1 × Silent p r.0

pub not_strict :
    {A : Type 0} (p q : Parser) (t : Token)
    → Peeked p (t, q)
    → trivia t.kind ≡ comment
    → p.opts.strict_json ≡ true
    → A
not_strict p q t h k s =
    absurd (
      grind (arith, trivia_comment t.kind k, h.0.clean (ap (λ o. o.strict_json) h.0.opts ∙ s), h.1))

pub later : {p q : Parser} {c : Bytes} → Frame p q → Silent p c → Silent q c
later f h s = h (sym (ap (λ o. o.strict_json) f.opts) ∙ s)

resume :
    {p q : Parser} {m : Result Failure (Bytes × Parser)}
    → Frame p q
    → Runs (Collected q) m
    → Runs (Collected p) m
resume f h =
    Ensures-weaken h (λ w g. (Frame-trans f g.0, λ x. g.1 (ap (λ o. o.strict_json) f.opts ∙ x)))
      λ _ _. tt

pub non_blank-nil : {c : Bytes} → c ≡ [] → non_blank c ≡ []
unfolding non_blank
non_blank-nil e = rw e

collect_turn-Runs :
    (k : Trivia) (t : Token) (sb : Bytes) (again : Bytes → M Bytes) (p q : Parser)
    → trivia t.kind ≡ k
    → Peeked p (t, q)
    → Silent p sb
    → ((c : Bytes) (r : Parser)
        → Consumed {A = Unit {0}} q (tt, r)
        → Silent r c
        → Runs (Collected r) (again c r))
    → Runs (Collected p) (collect_turn k t sb again q)
unfolding collect_turn
collect_turn-Runs line_break t sb again p q e h s ih =
    Runs-then (bump-Runs q t h.0.clean h.1 (trivia_consumable t.kind line_break e (cc)))
      λ _ r b. let f = Frame-trans h.0 b.0 in resume f (ih sb r b (later f s))
collect_turn-Runs comment t sb again p q e h s ih =
    Runs-then (bump-Runs q t h.0.clean h.1 (trivia_consumable t.kind comment e (cc))) λ _ r b.
      let f = Frame-trans h.0 b.0 in
      resume f (ih (write_comment sb t.value) r b (later f (not_strict p q t h e)))
collect_turn-Runs other t sb again p q e h s ih = holds (h.0, λ x. non_blank-nil (s x))

collect_loop-Runs :
    (fuel : ℕ) (sb : Bytes) (p : Parser)
    → remaining p < fuel
    → Clean p
    → Silent p sb
    → Runs (Collected p) (collect_loop fuel sb p)
unfolding collect_loop
collect_loop-Runs zero sb p lt c e = absurd (omega arith)
collect_loop-Runs (suc fuel) sb p lt c e = Runs-then (peek-Runs p c) λ t q h.
    collect_turn-Runs (trivia t.kind) t sb (collect_loop fuel) p q refl h e
      λ c r b s. collect_loop-Runs fuel c r (omega (arith, h.0.fewer)) b.0.clean s

pub collect_head_comments-Runs :
    (p : Parser) → Clean p → Runs (Collected p) (collect_head_comments p)
unfolding collect_head_comments
collect_head_comments-Runs p c =
    collect_loop-Runs (suc (remaining p)) [] p (omega arith) c λ _. refl

inline_turn-Runs :
    (k : Trivia) (t : Token) (p q : Parser)
    → trivia t.kind ≡ k
    → Peeked p (t, q)
    → Runs (Collected p) (inline_turn k t q)
unfolding inline_turn
inline_turn-Runs comment t p q e h =
    Runs-then (bump-Runs q t h.0.clean h.1 (trivia_consumable t.kind comment e (cc)))
      λ _ r b. holds (Frame-trans h.0 b.0, not_strict p q t h e)
inline_turn-Runs _ t p q e h = holds (h.0, λ _. refl)

pub collect_trailing_inline_comment-Runs :
    (p : Parser) → Clean p → Runs (Collected p) (collect_trailing_inline_comment p)
unfolding collect_trailing_inline_comment
collect_trailing_inline_comment-Runs p c =
    Runs-then (peek-Runs p c) λ t q h. inline_turn-Runs (trivia t.kind) t p q refl h

-- a run that gives no value
abbrev pub Framed : {A : Type 0} → Parser → A × Parser → Type 0
Framed p r = Frame p r.1

skip_turn-Runs :
    (k : Trivia) (t : Token) (again : M (Unit {0})) (p q : Parser)
    → trivia t.kind ≡ k
    → Peeked p (t, q)
    → ((r : Parser) → Consumed {A = Unit {0}} q (tt, r) → Runs (Framed r) (again r))
    → Runs (Framed p) (skip_turn k t again q)
unfolding skip_turn
skip_turn-Runs line_break t again p q e h ih =
    Runs-then (bump-Runs q t h.0.clean h.1 (trivia_consumable t.kind line_break e (cc)))
      λ _ r b. Ensures-weaken (ih r b) (λ w g. Frame-trans (Frame-trans h.0 b.0) g) λ _ _. tt
skip_turn-Runs comment t again p q e h ih =
    let q' = record q { warnings = q.warnings ++ dropped_comment t.pos ∷ [] } in
    let f : Frame q q' = record {
      opts = refl;
      depth = refl;
      nodes = refl;
      text = refl;
      fewer = unfold remaining in omega arith;
      clean = h.0.clean;
    } in
    Runs-then (bump-Runs q' t h.0.clean h.1 (trivia_consumable t.kind comment e (cc))) λ _ r b.
      Ensures-weaken (ih r (Frame-trans f b.0, omega (arith, b.1, f.fewer)))
        (λ w g. Frame-trans (Frame-trans h.0 (Frame-trans f b.0)) g) λ _ _. tt
skip_turn-Runs other t again p q e h ih = holds h.0

skip_loop-Runs :
    (fuel : ℕ) (p : Parser) → remaining p < fuel → Clean p → Runs (Framed p) (skip_loop fuel p)
unfolding skip_loop
skip_loop-Runs zero p lt c = absurd (omega arith)
skip_loop-Runs (suc fuel) p lt c = Runs-then (peek-Runs p c) λ t q h.
    skip_turn-Runs (trivia t.kind) t (skip_loop fuel) p q refl h
      λ r b. skip_loop-Runs fuel r (omega (arith, h.0.fewer)) b.0.clean

pub skip_dropped_comments-Runs : (p : Parser) → Clean p → Runs (Framed p) (skip_dropped_comments p)
unfolding skip_dropped_comments
skip_dropped_comments-Runs p c = skip_loop-Runs (suc (remaining p)) p (omega arith) c
