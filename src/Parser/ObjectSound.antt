-- ===== src/Parser/ObjectSound.antt =====
-- `parseObject`: what each round of its loop keeps, and what the whole guarantees.
use jsonc.Prelude.{
  ℕ, ◌+◌, ◌≤◌, ◌<◌, Bool, true, false, [], ◌∷◌, ◌++◌, ◌≡◌, refl, sym, ◌∙◌, inl, inr, Bytes, Option,
  none, some, arith, holds, fails, Ensures-weaken, Bool-cases,
}
use jsonc.Token.{Token, TokenKind, Position}
use jsonc.Tree.Shape.{info, update}
use jsonc.Tree.Internal.{Node}
use jsonc.Tree.Valid.{IsMember, size}
use jsonc.Parser.State.{Parser, M, is_consumable, remaining, exceeds}
use jsonc.Parser.Comments.{append_comment_block, add_foot}
use jsonc.Parser.Members.{Members, key_of, find, add, make_room}
use jsonc.Parser.Members.Laws.{Sound}
use jsonc.Parser.Members.Upkeep.{Sound-add}
use jsonc.Parser.Objects.{ObjectState, resolve_duplicate, count_key, after_member, object_member}
use jsonc.Parser.Frame.{
  Clean, Frame, Frame-refl, Frame-trans, Runs, Runs-then, peek-Runs, bump-Runs,
}
use jsonc.Parser.CommentFrame.{collect_head_comments-Runs}
use jsonc.Parser.Step.{Step, Step-of_Frame, Step-trans, Good, Good-at, Ready}
use jsonc.Parser.ValueSound.{Inner, MemberParsed, parse_member-Runs}
use jsonc.Parser.Touch.{
  Touched, update-Touched, add_foot-IsComment, append_comment_block-silent, take_comment-Runs,
  attach_after_comma-Runs,
}
use jsonc.Parser.ObjectState.{
  EachLive, live_size, EachLive-concat, live_size-concat, EachLive-make_room, live_size-make_room,
}

-- What holds of the loop's variables in the state `p`; `base` nodes had been counted before them.
pub record Holding (p : Parser) (base : ℕ) (s : ObjectState) : Type 0 where
  pub sound : Sound s.index s.members
  pub each : EachLive p.opts p.depth s.members
  pub sized : base + live_size s.members ≤ p.nodes
  pub head : p.opts.strict_json ≡ true → s.pending_head ≡ []
  pub foot : p.opts.strict_json ≡ true → s.foot ≡ []

-- It holds on while the parser takes steps.
pub Holding-Step :
    {p q : Parser} {base : ℕ} {s : ObjectState} → Holding p base s → Step p q → Holding q base s
Holding-Step {p} {q} {base} {s} h f = record {
  sound = h.sound;
  each = rw (f.opts, f.depth) h.each;
  sized = omega (arith, h.sized, f.counted);
  head = rw f.opts h.head;
  foot = rw f.opts h.foot;
}

-- Comments join the pending head.
pub Holding-head :
    {p : Parser} {base : ℕ} {s : ObjectState} {c : Bytes}
    → Holding p base s
    → (p.opts.strict_json ≡ true → c ≡ [])
    → Holding p base (record s { pending_head = append_comment_block s.pending_head c })
Holding-head {p} h k = record {
  sound = h.sound;
  each = h.each;
  sized = h.sized;
  head = append_comment_block-silent p.opts h.head k;
  foot = h.foot;
}

-- the warning about a duplicate, or the error
resolve_duplicate-Runs :
    (o : Option ℕ) (n : Node) (cs : Members) (p : Parser)
    → Clean p
    → Runs (λ r. Frame p r.1 × (r.0 ≡ make_room o cs)) (resolve_duplicate o n cs p)
unfolding resolve_duplicate remaining
resolve_duplicate-Runs none n cs p c = holds (Frame-refl c, refl)
resolve_duplicate-Runs (some i) n cs p c = elim (Bool-cases p.opts.allow_duplicate_keys) [
  | inl e ↦ rw e (
      holds (
        record {
          opts = refl;
          depth = refl;
          nodes = refl;
          text = refl;
          fewer = omega arith;
          clean = c;
        },
        refl,
      ))
  | inr e ↦ rw e (fails tt)
]

count_key-Runs : (pos : Position) (p : Parser) → Clean p → Runs (λ r. Frame p r.1) (count_key pos p)
unfolding count_key remaining
count_key-Runs pos p c = elim (Bool-cases (exceeds (p.keys + 1) p.opts.max_keys)) [
  | inl e ↦ rw e (fails tt)
  | inr e ↦ rw e (
      holds (record {
        opts = refl;
        depth = refl;
        nodes = refl;
        text = refl;
        fewer = omega arith;
        clean = c;
      }))
]

-- A member `n` that waits for its last comments, in the state `p`.
record Pending (p : Parser) (base : ℕ) (s : ObjectState) (n : Node) : Type 0 where
  joined : (n' : Node) → key_of n' ≡ key_of n → Sound s.index (s.members ++ some n' ∷ [])
  each : EachLive p.opts p.depth s.members
  sized : base + live_size s.members + size n ≤ p.nodes
  shape : IsMember n
  good : Good p.opts p.depth n
  head : s.pending_head ≡ []
  foot : p.opts.strict_json ≡ true → s.foot ≡ []

Pending-Step :
    {p q : Parser} {base : ℕ} {s : ObjectState} {n : Node}
    → Pending p base s n
    → Step p q
    → Pending q base s n
Pending-Step {s} h f = record {
  joined = h.joined;
  each = rw (f.opts, f.depth) h.each;
  sized = omega (arith, h.sized, f.counted);
  shape = h.shape;
  good = Good-at (sym f.opts) (sym f.depth) h.good;
  head = h.head;
  foot = rw f.opts h.foot;
}

Pending-Touched :
    {p : Parser} {base : ℕ} {s : ObjectState} {n n' : Node}
    → Pending p base s n
    → Touched p.opts n n'
    → Pending p base s n'
Pending-Touched {p} h t = record {
  joined = λ m e. h.joined m (e ∙ t.key);
  each = h.each;
  sized = omega (arith, h.sized, t.sized);
  shape = t.member_shape h.shape;
  good = t.good p.depth h.good;
  head = h.head;
  foot = h.foot;
}

-- It joins the members, with its comma or without.
Pending-Holding :
    {p : Parser} {base : ℕ} {s : ObjectState} {n : Node} (foot : Bytes) (comma : Bool)
    → Pending p base s n
    → (p.opts.strict_json ≡ true → foot ≡ [])
    → Holding p base (record {
      members = s.members ++ some n ∷ [];
      index = s.index;
      foot = foot;
      pending_head = s.pending_head;
      just_consumed_comma = comma;
    })
Pending-Holding {p} {base} {s} {n} foot comma h f = record {
  sound = h.joined n refl;
  each = EachLive-concat s.members n h.each h.shape h.good;
  sized = omega (arith, h.sized, live_size-concat s.members n);
  head = λ _. h.head;
  foot = f;
}

abbrev pub Rounded : Parser → ℕ → ObjectState × Parser → Type 0
Rounded p base r = Step p r.1 × Holding r.1 base r.0

after_member-Runs :
    (k : TokenKind) (t : Token) (between : Bytes) (n : Node) (s : ObjectState) (base : ℕ)
    (p : Parser)
    → t.kind ≡ k
    → Clean p
    → p.lookahead ≡ some t
    → (p.opts.strict_json ≡ true → between ≡ [])
    → Pending p base s n
    → Runs (Rounded p base) (after_member k t between n s p)
unfolding after_member is_consumable
after_member-Runs TokenKind.value_separator t between n s base p e c l b h =
    Runs-then (bump-Runs p t c l (rw e refl)) λ _ q a.
      let h' =
        Pending-Step
          (Pending-Touched h (update-Touched p.opts (add_foot between) n (add_foot-IsComment b)))
          (Step-of_Frame a.0) in
      Runs-then (attach_after_comma-Runs (update (add_foot between) n) q a.0.clean) λ n' r a'.
        let h'' = Pending-Step (Pending-Touched h' a'.1) (Step-of_Frame a'.0) in
        holds (
          Step-trans (Step-of_Frame a.0) (Step-of_Frame a'.0),
          Pending-Holding s.foot true h'' h''.foot,
        )
after_member-Runs TokenKind.object_end t between n s base p e c l b h = holds (
  Step-of_Frame (Frame-refl c),
  Pending-Holding (append_comment_block s.foot between) s.just_consumed_comma h
      (append_comment_block-silent p.opts h.foot b),
)
after_member-Runs _ t between n s base p e c l b h = fails tt

-- A member just parsed waits for its comments, once it has been entered in the index.
Pending-new :
    {p q : Parser} {base : ℕ} {s : ObjectState} {n : Node} (ms : Members)
    → Holding p base s
    → MemberParsed p (n, q)
    → ms ≡ make_room (find s.index s.members (key_of n)) s.members
    → Pending q base
        (record {
          members = ms;
          index = add s.index ms n;
          foot = s.foot;
          pending_head = [];
          just_consumed_comma = false;
        })
        n
Pending-new {p} {q} {base} {s} {n} ms h m e =
    let o = find s.index s.members (key_of n) in
    record {
      joined = λ n' k. rw e (Sound-add s.index s.members n n' h.sound k);
      each =
          rw (e, m.after.opts, m.after.depth)
            (EachLive-make_room p.opts p.depth o s.members h.each);
      sized = rw e (omega (arith, h.sized, m.sized, live_size-make_room o s.members));
      shape = m.member_shape;
      good = Good-at (sym m.after.opts) (sym m.after.depth) m.good;
      head = refl;
      foot = rw m.after.opts h.foot;
    }

-- A round at a member's key takes tokens, and the invariant holds on.
pub object_member-Runs :
    (inner : M Node) (s : ObjectState) (base : ℕ) (p : Parser)
    → Ready p
    → Inner (remaining p) inner
    → Holding p base s
    → Runs (λ r. Rounded p base r × (remaining r.1 < remaining p)) (object_member inner s p)
unfolding object_member
object_member-Runs inner s base p h ih hold =
    Runs-then (parse_member-Runs inner s.pending_head p h ih hold.head) λ n q1 a1.
      Runs-then
        (resolve_duplicate-Runs (find s.index s.members (key_of n)) n s.members q1 a1.after.clean)
        λ ms q2 a2. Runs-then (count_key-Runs (info n).pos q2 a2.0.clean) λ _ q3 a3.
          let w3 =
            Pending-Step (Pending-new ms hold a1 a2.1) (Step-of_Frame (Frame-trans a2.0 a3)) in
          Runs-then (take_comment-Runs n q3 a3.clean) λ n' q4 a4.
            Runs-then (collect_head_comments-Runs q4 a4.0.clean) λ between q5 a5.
              Runs-then (peek-Runs q5 a5.0.clean) λ t q6 a6.
                let f = Step-of_Frame (Frame-trans a4.0 (Frame-trans a5.0 a6.0)) in
                let g = Step-trans a1.after (Step-trans (Step-of_Frame (Frame-trans a2.0 a3)) f) in
                Ensures-weaken
                  (after_member-Runs t.kind t between n' _ base q6 refl a6.0.clean a6.1
                    (rw (a6.0.opts ∙ a5.0.opts) a5.1) (Pending-Step (Pending-Touched w3 a4.1) f))
                  (λ r k. (
                    (Step-trans g k.0, k.1),
                    omega (arith, k.0.fewer, f.fewer, a3.fewer, a2.0.fewer, a1.took),
                  ))
                  λ _ _. tt
