-- ===== src/Ast/Exact.antt =====
-- The public tree and the parser's tree stand for each other.
use jsonc.Prelude.{Bool, true, false, [], ◌∷◌, ◌≡◌, ◌⊎◌, inl, inr, refl, Bytes, ok, bytes_eq_iff}
use jsonc.Strings.Unquote.{unquote_string}
use jsonc.Tree.Shape.{Forest, tree, nil, cons}
use jsonc.Ast.Public.{
  PublicKind, PublicStyle, PublicInfo, PublicNode, export_kind, import_kind, export_style,
  import_style, unnamed_kind, unnamed_style, export_info, import_info, import_raw_key,
  plain_string_token, spells, export_node, export_nodes, import_node, import_nodes,
}

abbrev pub is_named_kind : PublicKind → Bool
is_named_kind (unnamed_kind _) = false
is_named_kind _ = true

abbrev pub is_named_style : PublicStyle → Bool
is_named_style (unnamed_style _) = false
is_named_style _ = true

-- Kind and style have a name, and the raw key is empty or one string token that spells the key.
pub record ExactInfo (i : PublicInfo) : Type 0 where
  pub kind : is_named_kind i.kind ≡ true
  pub style : is_named_style i.style ≡ true
  pub raw_key :
      (i.raw_key ≡ [])
      ⊎ ((unquote_string i.raw_key ≡ ok i.key) × (plain_string_token i.raw_key ≡ true))

-- That holds of all nodes of the tree.
unfoldable mutual
  pub Exact : PublicNode → Type 0
  Exact (tree i ts) = ExactInfo i × AllExact ts

  pub AllExact : Forest PublicInfo → Type 0
  AllExact nil = Unit {0}
  AllExact (cons t ts) = Exact t × AllExact ts

export-import_kind : (k : PublicKind) → is_named_kind k ≡ true → export_kind (import_kind k) ≡ k
unfolding export_kind import_kind
export-import_kind (unnamed_kind _) e = cc
export-import_kind _ e = refl

export-import_style :
    (s : PublicStyle) → is_named_style s ≡ true → export_style (import_style s) ≡ s
unfolding export_style import_style
export-import_style (unnamed_style _) e = cc
export-import_style _ e = refl

import_raw_key_self :
    (raw key : Bytes)
    → (raw ≡ []) ⊎ ((unquote_string raw ≡ ok key) × (plain_string_token raw ≡ true))
    → import_raw_key raw key ≡ raw
unfolding import_raw_key spells
import_raw_key_self raw key (inl e) = rw e refl
import_raw_key_self [] key (inr h) = refl
import_raw_key_self (c ∷ cs) key (inr (u, p)) = rw (u, p, (bytes_eq_iff key key).1 refl) refl

export-import_info : (i : PublicInfo) → ExactInfo i → export_info (import_info i) ≡ i
unfolding export_info import_info
export-import_info i h =
    rw
      (
        export-import_kind i.kind h.kind,
        export-import_style i.style h.style,
        import_raw_key_self i.raw_key i.key h.raw_key,
      )
      refl

mutual
  unfolding Exact export_node import_node

  export-import_tree : (n : PublicNode) → Exact n → export_node (import_node n) ≡ n
  export-import_tree (tree i ts) h =
      rw (export-import_info i h.0, export_nodes-import_nodes ts h.1) refl

  export_nodes-import_nodes :
      (ts : Forest PublicInfo) → AllExact ts → export_nodes (import_nodes ts) ≡ ts
  export_nodes-import_nodes nil h = refl
  export_nodes-import_nodes (cons t ts) h =
      rw (export-import_tree t h.0, export_nodes-import_nodes ts h.1) refl

-- A public tree whose kinds and styles have a name, and whose raw keys are empty or spell the
-- key as one string token, comes back unchanged from the parser's form.
pub export_node-import_node : (n : PublicNode) → Exact n → export_node (import_node n) ≡ n
export_node-import_node n h = export-import_tree n h
