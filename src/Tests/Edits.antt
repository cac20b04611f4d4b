-- ===== src/Tests/Edits.antt =====
-- The theorems on patches at concrete inputs.
use jsonc.Prelude.{◌≡◌, ◌⊎◌, refl, true, false, bytes_eq, codes, [], ◌∷◌, some, ok, err, ◌>>=◌}
use jsonc.Ast.Public.{PublicNode, array_node}
use jsonc.Tree.Shape.{tree, cons, nil}
use jsonc.Pointer.Tokens.{pointer_tokens, test_failed}
use jsonc.Pointer.Resolve.{resolve_target}
use jsonc.Patch.Edit.{op_remove}
use jsonc.Patch.Removed.{Removal, op_remove-Removal}
use jsonc.Patch.Move.{op_move}
use jsonc.Patch.Moved.{op_move-resolve_target}
use jsonc.Patch.Numbers.{numbers_equal}
use jsonc.Patch.SameNumber.{SameNumber, numbers_equal-SameNumber}
use jsonc.Patch.Apply.{PatchOp, apply, op_test}
use jsonc.Patch.Applied.{FailsAt, apply-FailsAt}
use jsonc.Patch.Tested.{comparable, op_test-op_add}
use jsonc.Tests.{seven, one_seven, two_sevens, public_info, no_dash, zero_token, added}

removed : op_remove two_sevens (codes "/0") ≡ ok one_seven
unfolding op_remove
removed = refl

op_remove-Removal_example : Removal two_sevens one_seven (codes "0" ∷ [])
op_remove-Removal_example =
    op_remove-Removal two_sevens one_seven (codes "/0") (codes "0" ∷ []) zero_token removed

moved :
    op_move two_sevens (codes "/1") (codes "/0")
    ≡ ok (tree (public_info array_node 0) (cons (seven 1) (cons (seven 5) nil)))
unfolding op_move
moved = refl

other_path : bytes_eq (codes "/1") (codes "/0") ≡ false
unfolding bytes_eq
other_path = refl

op_move-resolve_target_example :
    (v : PublicNode) × (pointer_tokens (codes "/1") >>= (λ ts. resolve_target two_sevens ts) ≡ ok v)
    × (resolve_target
          (tree (public_info array_node 0) (cons (seven 1) (cons (seven 5) nil)))
          (codes "0" ∷ [])
        ≡ ok v)
op_move-resolve_target_example =
    op_move-resolve_target two_sevens
      (tree (public_info array_node 0) (cons (seven 1) (cons (seven 5) nil))) (codes "/1")
      (codes "/0") (codes "0" ∷ []) zero_token no_dash other_path moved

same_number : numbers_equal (codes "-1.50E2") (codes "-15e+1") ≡ true
unfolding numbers_equal
same_number = refl

other_number : numbers_equal (codes "1.50e2") (codes "-150") ≡ false
unfolding numbers_equal
other_number = refl

-- texts that are no JSON numbers
leading_zero : numbers_equal (codes "01") (codes "1") ≡ true
unfolding numbers_equal
leading_zero = refl

bare_point : numbers_equal (codes "1.") (codes "1") ≡ true
unfolding numbers_equal
bare_point = refl

numbers_equal-SameNumber_example :
    (codes "-1.50E2" ≡ codes "-15e+1") ⊎ SameNumber (codes "-1.50E2") (codes "-15e+1")
numbers_equal-SameNumber_example =
    numbers_equal-SameNumber (codes "-1.50E2") (codes "-15e+1") same_number

abbrev add_first : PatchOp
add_first = record { op = codes "add"; path = codes "/0"; source = []; value = some (seven 5) }

abbrev test_root : PatchOp
test_root = record { op = codes "test"; path = []; source = []; value = some one_seven }

failed :
    apply (add_first ∷ test_root ∷ []) one_seven
    ≡ err (record { index = 1; op = test_root; cause = test_failed [] })
unfolding apply
failed = refl

apply-FailsAt_example :
    FailsAt 0
      (add_first ∷ test_root ∷ [])
      one_seven
      (record { index = 1; op = test_root; cause = test_failed [] })
apply-FailsAt_example =
    apply-FailsAt (add_first ∷ test_root ∷ []) one_seven
      (record { index = 1; op = test_root; cause = test_failed [] }) failed

comparable-seven : comparable (seven 5) ≡ true
unfolding comparable
comparable-seven = refl

op_test-op_add_example : op_test two_sevens (codes "/0") (some (seven 5)) ≡ ok two_sevens
op_test-op_add_example =
    op_test-op_add one_seven (seven 5) two_sevens (codes "/0") (codes "0" ∷ []) zero_token no_dash
      comparable-seven added
