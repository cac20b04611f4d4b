-- ===== src/Parser/Touch.antt =====
-- Writes to a node's comment fields: they keep its key, its shape and its size, and in strict JSON
-- they write nothing.
use jsonc.Prelude.{
  ℕ, Bool, true, false, [], ◌∷◌, ◌≡◌, refl, ◌∙◌, is_empty, if◌then◌else◌, Bytes, arith, holds,
}
use jsonc.Tree.Shape.{tree, info, update}
use jsonc.Tree.Internal.{Node, NodeInfo}
use jsonc.Tree.Valid.{
  IsValue, scalar_value, array_value, object_value, IsMember, member, height, size, comment_free,
  has_no_comment,
}
use jsonc.Parser.State.{Parser, DecoderOptions}
use jsonc.Parser.Comments.{
  append_comment_block, set_comment, add_foot, add_head, attach, attach_after_comma,
}
use jsonc.Parser.Containers.{take_comment}
use jsonc.Parser.Frame.{Clean, Frame, Runs, Runs-then}
use jsonc.Parser.CommentFrame.{collect_trailing_inline_comment-Runs}
use jsonc.Parser.Step.{Good}

-- A write that keeps kind and key, and that writes no comment in strict JSON.
pub record IsComment (o : DecoderOptions) (f : NodeInfo → NodeInfo) : Type 0 where
  pub kind : (i : NodeInfo) → (f i).kind ≡ i.kind
  pub key : (i : NodeInfo) → (f i).key ≡ i.key
  pub silent :
      o.strict_json ≡ true → (i : NodeInfo) → has_no_comment i ≡ true → has_no_comment (f i) ≡ true

-- What such writes leave of a node.
pub record Touched (o : DecoderOptions) (n n' : Node) : Type 0 where
  pub key : (info n').key ≡ (info n).key
  pub sized : size n' ≡ size n
  pub value : IsValue n → IsValue n'
  pub member_shape : IsMember n → IsMember n'
  pub good : (d : ℕ) → Good o d n → Good o d n'

pub Touched-refl : {o : DecoderOptions} {n : Node} → Touched o n n
Touched-refl = record {
  key = refl;
  sized = refl;
  value = λ h. h;
  member_shape = λ h. h;
  good = λ d g. g;
}

pub Touched-trans :
    {o : DecoderOptions} {a b c : Node} → Touched o a b → Touched o b c → Touched o a c
Touched-trans f g = record {
  key = g.key ∙ f.key;
  sized = g.sized ∙ f.sized;
  value = λ h. g.value (f.value h);
  member_shape = λ h. g.member_shape (f.member_shape h);
  good = λ d h. g.good d (f.good d h);
}

update-IsValue :
    (f : NodeInfo → NodeInfo) {n : Node}
    → ((i : NodeInfo) → (f i).kind ≡ i.kind)
    → IsValue n
    → IsValue (update f n)
update-IsValue f k (scalar_value {i} e) = scalar_value (rw (k i) e)
update-IsValue f k (array_value {i} e ts) = array_value (k i ∙ e) ts
update-IsValue f k (object_value {i} e ts d) = object_value (k i ∙ e) ts d

update-IsMember :
    (f : NodeInfo → NodeInfo) {n : Node}
    → ((i : NodeInfo) → (f i).kind ≡ i.kind)
    → IsMember n
    → IsMember (update f n)
update-IsMember f k (member {i} e v) = member (k i ∙ e) v

pub update-Touched :
    (o : DecoderOptions) (f : NodeInfo → NodeInfo) (n : Node)
    → IsComment o f
    → Touched o n (update f n)
unfolding size height comment_free
update-Touched o f (tree i ts) c = record {
  key = c.key i;
  sized = refl;
  value = update-IsValue f c.kind;
  member_shape = update-IsMember f c.kind;
  good = λ d g. record {
    deep = rw (c.kind i) g.deep;
    silent = λ s. ground (arith, c.silent s i, g.silent s);
  };
}

append_comment_block-nil : {a b : Bytes} → a ≡ [] → b ≡ [] → append_comment_block a b ≡ []
unfolding append_comment_block
append_comment_block-nil e q = rw (e, q)

empty_nil : (c : Bytes) → is_empty c ≡ true → c ≡ []
empty_nil [] e = refl
empty_nil (x ∷ xs) e = cc

pub append_comment_block-silent :
    (o : DecoderOptions) {a b : Bytes}
    → (o.strict_json ≡ true → a ≡ [])
    → (o.strict_json ≡ true → b ≡ [])
    → o.strict_json ≡ true
    → append_comment_block a b ≡ []
append_comment_block-silent o f g s = append_comment_block-nil (f s) (g s)

module _ {o : DecoderOptions} {c : Bytes} (none_in_strict : o.strict_json ≡ true → c ≡ []) where
  pub set_comment-IsComment : IsComment o (set_comment c)
  set_comment-IsComment = record {
    kind = λ i. refl;
    key = λ i. refl;
    silent = λ s i e. rw (none_in_strict s) (ground arith);
  }

  pub add_foot-IsComment : IsComment o (add_foot c)
  add_foot-IsComment = record {
    kind = λ i. refl;
    key = λ i. refl;
    silent = λ s i e.
        rw (append_comment_block-nil (empty_nil i.foot_comment (ground arith)) (none_in_strict s))
          (ground arith);
  }

  pub add_head-IsComment : IsComment o (add_head c)
  add_head-IsComment = record {
    kind = λ i. refl;
    key = λ i. refl;
    silent = λ s i e.
        rw (append_comment_block-nil (empty_nil i.head_comment (ground arith)) (none_in_strict s))
          (ground arith);
  }

  attach-IsComment : IsComment o (attach c)
  unfolding attach
  attach-IsComment = record {
    kind = λ i. ground arith;
    key = λ i. ground arith;
    silent = λ s i e. rw (none_in_strict s) e;
  }

-- The two methods that give a node the comment behind it.
abbrev pub Commented : Parser → Node → Node × Parser → Type 0
Commented p n r = Frame p r.1 × Touched p.opts n r.0

optional-Touched :
    (o : DecoderOptions) (c : Bytes) (n : Node) (b : Bool)
    → (o.strict_json ≡ true → c ≡ [])
    → Touched o n (if b then n else update (set_comment c) n)
optional-Touched o c n true h = Touched-refl
optional-Touched o c n false h = update-Touched o (set_comment c) n (set_comment-IsComment h)

pub take_comment-Runs : (n : Node) (p : Parser) → Clean p → Runs (Commented p n) (take_comment n p)
unfolding take_comment
take_comment-Runs n p h =
    Runs-then (collect_trailing_inline_comment-Runs p h)
      λ c q k. holds (k.0, optional-Touched p.opts c n (is_empty c) k.1)

pub attach_after_comma-Runs :
    (n : Node) (p : Parser) → Clean p → Runs (Commented p n) (attach_after_comma n p)
unfolding attach_after_comma
attach_after_comma-Runs n p h =
    Runs-then (collect_trailing_inline_comment-Runs p h)
      λ c q k. holds (k.0, update-Touched p.opts (attach c) n (attach-IsComment k.1))
