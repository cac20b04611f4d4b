-- ===== src/Patch/Copy.antt =====
-- patch.go: `opCopy`.
use jsonc.Prelude.{[], ◌∷◌, ◌++◌, ◌≡◌, ◌≢◌, List, Bytes, some, Result, ok, ◌>>=◌}
use jsonc.Ast.Public.{PublicNode}
use jsonc.Pointer.Tokens.{PointerError, pointer_tokens}
use jsonc.Pointer.Resolve.{resolve_target}
use jsonc.Patch.Edit.{op_add, dash}
use jsonc.Patch.Added.{then_ok, op_add-resolve_target}

-- `opCopy`
unfoldable pub op_copy : PublicNode → Bytes → Bytes → Result PointerError PublicNode
unfolding pointer_tokens resolve_target op_add
op_copy root source path = pointer_tokens source >>= λ tokens.
    resolve_target root tokens >>= λ v. op_add root path (some v)

-- After a successful copy to a path that does not end in the token `-`, the path leads to the node
-- that the source path led to before the copy.
pub op_copy-resolve_target :
    (root root' : PublicNode) (source path : Bytes) (tokens : List Bytes)
    → pointer_tokens path ≡ ok tokens
    → ((us : List Bytes) → tokens ≢ us ++ dash ∷ [])
    → op_copy root source path ≡ ok root'
    → (v : PublicNode) × (pointer_tokens source >>= (λ ts. resolve_target root ts) ≡ ok v)
      × (resolve_target root' tokens ≡ ok v)
unfolding op_copy
op_copy-resolve_target root root' source path tokens p ne e =
    let r =
      then_ok (pointer_tokens source)
        (λ ts. resolve_target root ts >>= λ v. op_add root path (some v)) e in
    let w = then_ok (resolve_target root r.0) (λ v. op_add root path (some v)) r.2 in
    (w.0, rw r.1 w.1, op_add-resolve_target root w.0 root' path tokens p ne w.2)
