-- ===== src/Patch/Apply.antt =====
-- patch.go: `PatchOp`, `opTest`, `applyOp` and `Patch.Apply`, on a document that is not nil.
use jsonc.Prelude.{
  ℕ, ◌+◌, List, [], ◌∷◌, if◌then◌else◌, Bytes, codes, bytes_eq, Option, none, some, Result, ok, err,
  out_of_fuel, ◌>>=◌,
}
use jsonc.Ast.Public.{PublicNode}
use jsonc.Pointer.Tokens.{PointerError, requires_value, test_failed, unknown_op, pointer_tokens}
use jsonc.Pointer.Resolve.{resolve_target}
use jsonc.Patch.Edit.{op_add, op_remove}
use jsonc.Patch.Replace.{op_replace}
use jsonc.Patch.Copy.{op_copy}
use jsonc.Patch.Move.{op_move}
use jsonc.Patch.Equal.{node_equal}

-- `PatchOp`; `value` may be nil
pub record PatchOp : Type 0 where
  pub op : Bytes
  pub path : Bytes
  pub source : Bytes
  pub value : Option PublicNode

-- `opTest`; with no tokens `resolveTarget` gives the root
unfoldable pub op_test : PublicNode → Bytes → Option PublicNode → Result PointerError PublicNode
unfolding pointer_tokens resolve_target node_equal
op_test root path none = err requires_value
op_test root path (some v) = pointer_tokens path >>= λ tokens.
    resolve_target root tokens >>= λ target.
    if node_equal target v then ok root else err (test_failed path)

-- `applyOp`
unfoldable pub apply_op : PublicNode → PatchOp → Result PointerError PublicNode
unfolding op_add op_remove op_replace op_move op_copy op_test bytes_eq
apply_op root p =
    if bytes_eq p.op (codes "add")
    then op_add root p.path p.value
    else if bytes_eq p.op (codes "remove")
    then op_remove root p.path
    else if bytes_eq p.op (codes "replace")
    then op_replace root p.path p.value
    else if bytes_eq p.op (codes "move")
    then op_move root p.source p.path
    else if bytes_eq p.op (codes "copy")
    then op_copy root p.source p.path
    else if bytes_eq p.op (codes "test")
    then op_test root p.path p.value
    else err (unknown_op p.op)

-- what the error of `Apply` names: the index of the operation, the operation and its error
pub record PatchError : Type 0 where
  pub index : ℕ
  pub op : PatchOp
  pub cause : PointerError

-- `fmt.Errorf("op[%d] %s %q: %w", i, op.Op, op.Path, err)`
abbrev pub named : ℕ → PatchOp → Result PointerError PublicNode → Result PatchError PublicNode
named i p (ok n) = ok n
named i p (err e) = err (record { index = i; op = p; cause = e })
named i p out_of_fuel = out_of_fuel

-- the loop of `Apply`, from the operation with the index
unfoldable pub apply_from : ℕ → List PatchOp → PublicNode → Result PatchError PublicNode
unfolding apply_op
apply_from i [] root = ok root
apply_from i (p ∷ ps) root = named i p (apply_op root p) >>= λ next. apply_from (i + 1) ps next

-- `Patch.Apply`
unfoldable pub apply : List PatchOp → PublicNode → Result PatchError PublicNode
unfolding apply_from
apply ps root = apply_from 0 ps root
