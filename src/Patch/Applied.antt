-- ===== src/Patch/Applied.antt =====
-- Where `Patch.Apply` fails.
use jsonc.Prelude.{
  ℕ, ◌+◌, List, [], ◌∷◌, ◌++◌, ◌≡◌, refl, ap, subst, Result, ok, err, out_of_fuel, ◌>>=◌, arith,
  length,
}
use jsonc.Ast.Public.{PublicNode}
use jsonc.Pointer.Tokens.{PointerError}
use jsonc.Patch.Apply.{PatchOp, PatchError, apply_op, apply_from, apply, named}

-- The operations before the one that the error names succeed one after the other, and it fails on what they leave,
-- with the error's cause.
pub data FailsAt (i : ℕ) (ps : List PatchOp) (root : PublicNode) (e : PatchError) : Type 0 where
  fails_at :
      (xs ys : List PatchOp) (mid : PublicNode)
      → ps ≡ xs ++ e.op ∷ ys
      → e.index ≡ i + length xs
      → apply_from i xs root ≡ ok mid
      → apply_op mid e.op ≡ err e.cause
      → FailsAt i ps root e

FailsAt-step :
    (i : ℕ) (p : PatchOp) (ps : List PatchOp) (root next : PublicNode) (e : PatchError)
    → apply_op root p ≡ ok next
    → FailsAt (i + 1) ps next e
    → FailsAt i (p ∷ ps) root e
unfolding apply_from
FailsAt-step i p ps root next e h (fails_at xs ys mid a b c d) =
    fails_at (p ∷ xs) ys mid (ap (λ zs. p ∷ zs) a) (omega (arith, b)) (rw h c) d

apply_round :
    (i : ℕ) (p : PatchOp) (ps : List PatchOp) (root : PublicNode) (e : PatchError)
    (r : Result PointerError PublicNode)
    → apply_op root p ≡ r
    → ((next : PublicNode) → apply_from (i + 1) ps next ≡ err e → FailsAt (i + 1) ps next e)
    → named i p r >>= (λ next. apply_from (i + 1) ps next) ≡ err e
    → FailsAt i (p ∷ ps) root e
apply_round i p ps root e (ok next) h rest x = FailsAt-step i p ps root next e h (rest next x)
apply_round i p ps root e (err c) h rest x =
    let q : record { index = i; op = p; cause = c } ≡ e = cc in
    subst (FailsAt i (p ∷ ps) root) q
      (fails_at [] ps root refl (omega arith) (unfold apply_from in refl) h)
apply_round i p ps root e out_of_fuel h rest x = cc

apply_from-FailsAt :
    (i : ℕ) (ps : List PatchOp) (root : PublicNode) (e : PatchError)
    → apply_from i ps root ≡ err e
    → FailsAt i ps root e
unfolding apply_from
apply_from-FailsAt i [] root e x = cc
apply_from-FailsAt i (p ∷ ps) root e x =
    apply_round i p ps root e (apply_op root p) refl (λ next. apply_from-FailsAt (i + 1) ps next e)
      x

-- The error of a patch names the operation at its index; the operations before it form a patch that
-- succeeds, and the operation fails with the error's cause on what that patch returns.
pub apply-FailsAt :
    (ps : List PatchOp) (root : PublicNode) (e : PatchError)
    → apply ps root ≡ err e
    → FailsAt 0 ps root e
unfolding apply
apply-FailsAt ps root e x = apply_from-FailsAt 0 ps root e x
