-- ===== src/Tags/Merged.antt =====
-- How the tags of a struct field combine.
use jsonc.Prelude.{
  ◌≢◌, ◌⊎◌, ◌==◌, ◌++◌, Bool, true, false, ◌||◌, List, [], ◌∷◌, if◌then◌else◌, ◌≡◌, refl, sym, ◌∙◌,
  ap, subst, inl, inr, Bytes, bytes_eq, bytes_eq_iff, codes, Option, none, some, Bool-cases, arith,
}
use jsonc.Tags.Fields.{
  FieldInfo, zero_field_info, split_tag, cut_prefix, shared_option, jsonc_option, with_default,
  each_option, tag_name, parse_tag_pair,
}

-- whether a word is among the options
unfoldable pub mentions : Bytes → List Bytes → Bool
mentions w [] = false
mentions w (o ∷ os) = bytes_eq o w || mentions w os

-- One word excludes another.
excludes :
    (w v : Bytes) → bytes_eq w v ≡ false → (o : Bytes) → bytes_eq o w ≡ true → bytes_eq o v ≡ false
excludes w v h o k = subst (λ x. bytes_eq x v ≡ false) (sym ((bytes_eq_iff o w).0 k)) h

-- A flag that a step sets at one word.
each_option-flag :
    (s : Bytes → FieldInfo → FieldInfo) (f : FieldInfo → Bool) (w : Bytes)
    → ((o : Bytes) (fi : FieldInfo) → f (s o fi) ≡ (bytes_eq o w || f fi))
    → (os : List Bytes) (fi : FieldInfo) → f (each_option s os fi) ≡ (mentions w os || f fi)
unfolding each_option mentions
each_option-flag s f w law [] fi = refl
each_option-flag s f w law (o ∷ os) fi =
    let r = each_option-flag s f w law os (s o fi) in
    let l = law o fi in r ∙ ap (λ x. mentions w os || x) l ∙ ground arith

-- A field that no step touches.
each_option-untouched :
    {A : Type 0} (s : Bytes → FieldInfo → FieldInfo) (f : FieldInfo → A)
    → ((o : Bytes) (fi : FieldInfo) → f (s o fi) ≡ f fi)
    → (os : List Bytes) (fi : FieldInfo) → f (each_option s os fi) ≡ f fi
unfolding each_option
each_option-untouched s f law [] fi = refl
each_option-untouched s f law (o ∷ os) fi = each_option-untouched s f law os (s o fi) ∙ law o fi

shared_option-omit_empty :
    (o : Bytes) (fi : FieldInfo)
    → (shared_option o fi).omit_empty ≡ (bytes_eq o (codes "omitempty") || fi.omit_empty)
unfolding shared_option
shared_option-omit_empty o fi = ground arith

shared_option-omit_zero :
    (o : Bytes) (fi : FieldInfo)
    → (shared_option o fi).omit_zero ≡ (bytes_eq o (codes "omitzero") || fi.omit_zero)
unfolding shared_option bytes_eq
shared_option-omit_zero o fi =
    let k : bytes_eq o (codes "omitempty") ≡ true → bytes_eq o (codes "omitzero") ≡ false =
      excludes (codes "omitempty") (codes "omitzero") refl o in
    ground arith

shared_option-as_string :
    (o : Bytes) (fi : FieldInfo)
    → (shared_option o fi).as_string ≡ (bytes_eq o (codes "string") || fi.as_string)
unfolding shared_option bytes_eq
shared_option-as_string o fi =
    let k : bytes_eq o (codes "omitempty") ≡ true → bytes_eq o (codes "string") ≡ false =
      excludes (codes "omitempty") (codes "string") refl o in
    let l : bytes_eq o (codes "omitzero") ≡ true → bytes_eq o (codes "string") ≡ false =
      excludes (codes "omitzero") (codes "string") refl o in
    ground arith

with_default-commented :
    (v : Option Bytes) (fi : FieldInfo) → (with_default v fi).commented ≡ fi.commented
with_default-commented none fi = refl
with_default-commented (some v) fi = refl

jsonc_option-commented :
    (o : Bytes) (fi : FieldInfo)
    → (jsonc_option o fi).commented ≡ (bytes_eq o (codes "commented") || fi.commented)
unfolding jsonc_option
jsonc_option-commented o fi =
    let k = with_default-commented (cut_prefix o (codes "default=")) fi in ground arith

with_default-required :
    (v : Option Bytes) (fi : FieldInfo) → (with_default v fi).required ≡ fi.required
with_default-required none fi = refl
with_default-required (some v) fi = refl

jsonc_option-required :
    (o : Bytes) (fi : FieldInfo)
    → (jsonc_option o fi).required ≡ (bytes_eq o (codes "required") || fi.required)
unfolding jsonc_option bytes_eq
jsonc_option-required o fi =
    let k : bytes_eq o (codes "commented") ≡ true → bytes_eq o (codes "required") ≡ false =
      excludes (codes "commented") (codes "required") refl o in
    let l = with_default-required (cut_prefix o (codes "default=")) fi in ground arith

-- the first of two values that is there
abbrev first_of : Option Bytes → Option Bytes → Option Bytes
first_of (some v) w = some v
first_of none w = w

first_of-first_of : (u v w : Option Bytes) → first_of u (first_of v w) ≡ first_of (first_of u v) w
first_of-first_of (some _) v w = refl
first_of-first_of none v w = refl

abbrev default_of : FieldInfo → Option Bytes
default_of fi = if fi.has_default then some fi.default_value else none

-- the value of the last option that gives a default
unfoldable last_default : List Bytes → Option Bytes
last_default [] = none
last_default (o ∷ os) = first_of (last_default os) (cut_prefix o (codes "default="))

default_of-with_default :
    (v : Option Bytes) (fi : FieldInfo)
    → default_of (with_default v fi) ≡ first_of v (default_of fi)
default_of-with_default none fi = refl
default_of-with_default (some v) fi = refl

-- A word without the prefix gives no default.
no_default :
    (w : Bytes)
    → cut_prefix w (codes "default=") ≡ none
    → (o : Bytes) → bytes_eq o w ≡ true
    → cut_prefix o (codes "default=") ≡ none
no_default w h o k =
    subst (λ x. cut_prefix x (codes "default=") ≡ none) (sym ((bytes_eq_iff o w).0 k)) h

default_of-jsonc_option :
    (o : Bytes) (fi : FieldInfo)
    → default_of (jsonc_option o fi) ≡ first_of (cut_prefix o (codes "default=")) (default_of fi)
unfolding jsonc_option cut_prefix
default_of-jsonc_option o fi = elim (Bool-cases (bytes_eq o (codes "commented"))) [
  | inl a ↦ rw a (rw (no_default (codes "commented") refl o a) refl)
  | inr a ↦ elim (Bool-cases (bytes_eq o (codes "required"))) [
    | inl b ↦ rw a (rw b (rw (no_default (codes "required") refl o b) refl))
    | inr b ↦ rw a (rw b (default_of-with_default (cut_prefix o (codes "default=")) fi))
  ]
]

each_option-default_of :
    (os : List Bytes) (fi : FieldInfo)
    → default_of (each_option jsonc_option os fi) ≡ first_of (last_default os) (default_of fi)
unfolding each_option last_default
each_option-default_of [] fi = refl
each_option-default_of (o ∷ os) fi =
    each_option-default_of os (jsonc_option o fi)
    ∙ ap (first_of (last_default os)) (default_of-jsonc_option o fi)
    ∙ first_of-first_of (last_default os) (cut_prefix o (codes "default=")) (default_of fi)

-- what the options of the json tag have no bearing on
abbrev own : FieldInfo → Bytes × Bool × Bool × Option Bytes
own fi = (fi.name, fi.commented, fi.required, default_of fi)

own-shared_option : (o : Bytes) (fi : FieldInfo) → own (shared_option o fi) ≡ own fi
unfolding shared_option
own-shared_option o fi = ground arith

-- what the options of the jsonc tag alone have no bearing on
abbrev shared : FieldInfo → Bytes × Bool × Bool × Bool
shared fi = (fi.name, fi.omit_empty, fi.omit_zero, fi.as_string)

shared-with_default : (v : Option Bytes) (fi : FieldInfo) → shared (with_default v fi) ≡ shared fi
shared-with_default none fi = refl
shared-with_default (some v) fi = refl

shared-jsonc_option : (o : Bytes) (fi : FieldInfo) → shared (jsonc_option o fi) ≡ shared fi
unfolding jsonc_option
shared-jsonc_option o fi =
    let k = shared-with_default (cut_prefix o (codes "default=")) fi in ground arith

-- An option gives a default, which it has behind the prefix.
pub data Gives : Bytes → Bytes → Type 0 where
  gives : (v : Bytes) → Gives (codes "default=" ++ v) v

-- The default that options give: that of the last option which gives one.
pub data LastDefault : List Bytes → Option Bytes → Type 0 where
  no_options : LastDefault [] none
  later : {o v : Bytes} {os : List Bytes} → LastDefault os (some v) → LastDefault (o ∷ os) (some v)
  this :
      {o v : Bytes} {os : List Bytes}
      → LastDefault os none
      → Gives o v
      → LastDefault (o ∷ os) (some v)
  neither :
      {o : Bytes} {os : List Bytes}
      → LastDefault os none
      → ((v : Bytes) → ¬ Gives o v)
      → LastDefault (o ∷ os) none

cut_prefix-append : (p v : Bytes) → cut_prefix (p ++ v) p ≡ some v
unfolding cut_prefix
cut_prefix-append [] v = refl
cut_prefix-append (c ∷ p) v = let k : c == c ≡ true = ground arith in rw k (cut_prefix-append p v)

append-cut_prefix : (o p v : Bytes) → cut_prefix o p ≡ some v → o ≡ p ++ v
unfolding cut_prefix
append-cut_prefix o [] v e = cc
append-cut_prefix [] (d ∷ p) v e = absurd cc
append-cut_prefix (c ∷ o) (d ∷ p) v e = elim (Bool-cases (c == d)) [
  | inl x ↦
      let q : c ≡ d = ground arith in
      let k : o ≡ p ++ v = append-cut_prefix o p v (rw x at e) in rw (q, k) refl
  | inr x ↦ absurd (let k : ◌≡◌ {A = Option Bytes} none (some v) = rw x at e in cc)
]

Gives-cut_prefix : (o v : Bytes) → cut_prefix o (codes "default=") ≡ some v → Gives o v
Gives-cut_prefix o v e =
    subst (λ x. Gives x v) (sym (append-cut_prefix o (codes "default=") v e)) (gives v)

cut_prefix-Gives : {o v : Bytes} → Gives o v → cut_prefix o (codes "default=") ≡ some v
cut_prefix-Gives (gives v) = cut_prefix-append (codes "default=") v

LastDefault-step :
    (o : Bytes) (os : List Bytes) (r p : Option Bytes)
    → LastDefault os r
    → cut_prefix o (codes "default=") ≡ p
    → LastDefault (o ∷ os) (first_of r p)
LastDefault-step o os (some v) p l e = later l
LastDefault-step o os none (some v) l e = this l (Gives-cut_prefix o v e)
LastDefault-step o os none none l e =
    neither l
      λ v g. (let k : ◌≡◌ {A = Option Bytes} none (some v) = sym e ∙ cut_prefix-Gives g in cc)

last_default-LastDefault : (os : List Bytes) → LastDefault os (last_default os)
unfolding last_default
last_default-LastDefault [] = no_options
last_default-LastDefault (o ∷ os) =
    LastDefault-step o os (last_default os) (cut_prefix o (codes "default="))
      (last_default-LastDefault os) refl

tag_name-cases : (j c n : Bytes) → n ≡ tag_name j c → ((c ≡ []) × (n ≡ j)) ⊎ ((c ≢ []) × (n ≡ c))
tag_name-cases j [] n e = inl (refl, e)
tag_name-cases j (x ∷ c) n e = inr (λ k. cc, e)

-- Two names of which neither is a dash.
no_dash :
    (j c : Bytes)
    → (bytes_eq j (codes "-") || bytes_eq c (codes "-")) ≡ false
    → (j ≢ codes "-") × (c ≢ codes "-")
no_dash j c h = (
  λ e.
      (let k : bytes_eq j (codes "-") ≡ true = (bytes_eq_iff j (codes "-")).1 e in
        let x : true ≡ false = rw k at h in cc),
  λ e.
      (let k : bytes_eq c (codes "-") ≡ true = (bytes_eq_iff c (codes "-")).1 e in
        let x : true ≡ false = ground arith in cc),
)

-- A field whose tags have these names and options: the name is that of the jsonc tag if it has one, the
-- options of encoding/json count in either tag, and the others in the jsonc tag, of the defaults the last.
pub record Merged (j c : Bytes × List Bytes) (fi : FieldInfo) : Type 0 where
  json_name : j.0 ≢ codes "-"
  jsonc_name : c.0 ≢ codes "-"
  name : ((c.0 ≡ []) × (fi.name ≡ j.0)) ⊎ ((c.0 ≢ []) × (fi.name ≡ c.0))
  omit_empty :
      fi.omit_empty ≡ (mentions (codes "omitempty") j.1 || mentions (codes "omitempty") c.1)
  omit_zero : fi.omit_zero ≡ (mentions (codes "omitzero") j.1 || mentions (codes "omitzero") c.1)
  as_string : fi.as_string ≡ (mentions (codes "string") j.1 || mentions (codes "string") c.1)
  commented : fi.commented ≡ mentions (codes "commented") c.1
  required : fi.required ≡ mentions (codes "required") c.1
  default_value : LastDefault c.1 (if fi.has_default then some fi.default_value else none)

or_last : (x y : Bool) → (y || (x || false)) ≡ (x || y)
or_last x y = ground arith

no_more : (x : Bool) → (x || false) ≡ x
no_more x = ground arith

first_of-none : (v : Option Bytes) → first_of v none ≡ v
first_of-none none = refl
first_of-none (some v) = refl

-- A flag that the options of either tag set.
either :
    (f : FieldInfo → Bool) (w : Bytes)
    → ((o : Bytes) (fi : FieldInfo) → f (shared_option o fi) ≡ (bytes_eq o w || f fi))
    → ((o : Bytes) (fi : FieldInfo) → f (jsonc_option o fi) ≡ f fi)
    → (js cs : List Bytes) (fi : FieldInfo) → f fi ≡ false
    → f (
        each_option jsonc_option cs
          (each_option shared_option cs (each_option shared_option js fi)))
      ≡ (mentions w js || mentions w cs)
either f w law other js cs fi h =
    each_option-untouched jsonc_option f other cs
      (each_option shared_option cs (each_option shared_option js fi))
    ∙ each_option-flag shared_option f w law cs (each_option shared_option js fi)
    ∙ ap (λ x. mentions w cs || x) (each_option-flag shared_option f w law js fi)
    ∙ ap (λ x. mentions w cs || (mentions w js || x)) h
    ∙ or_last (mentions w js) (mentions w cs)

-- What the options of either tag leave alone.
own-each_option :
    (js cs : List Bytes) (fi : FieldInfo)
    → own (each_option shared_option cs (each_option shared_option js fi)) ≡ own fi
own-each_option js cs fi =
    each_option-untouched shared_option own own-shared_option cs (each_option shared_option js fi)
    ∙ each_option-untouched shared_option own own-shared_option js fi

-- A flag that the options of the jsonc tag set.
jsonc_only :
    (f : FieldInfo → Bool) (w : Bytes)
    → ((o : Bytes) (fi : FieldInfo) → f (jsonc_option o fi) ≡ (bytes_eq o w || f fi))
    → (cs : List Bytes) (fi : FieldInfo) → f fi ≡ false
    → f (each_option jsonc_option cs fi) ≡ mentions w cs
jsonc_only f w law cs fi h =
    each_option-flag jsonc_option f w law cs fi
    ∙ ap (λ x. mentions w cs || x) h
    ∙ no_more (mentions w cs)

each_option-Merged :
    (j c : Bytes × List Bytes)
    → (bytes_eq j.0 (codes "-") || bytes_eq c.0 (codes "-")) ≡ false
    → Merged j c (
        each_option jsonc_option c.1 (
          each_option shared_option c.1
            (each_option shared_option j.1 (record zero_field_info { name = tag_name j.0 c.0 }))))
each_option-Merged j c h =
    let start = record zero_field_info { name = tag_name j.0 c.0 } in
    let fi = each_option shared_option c.1 (each_option shared_option j.1 start) in
    let k = own-each_option j.1 c.1 start in
    record {
      json_name = (no_dash j.0 c.0 h).0;
      jsonc_name = (no_dash j.0 c.0 h).1;
      name = tag_name-cases j.0 c.0 (each_option jsonc_option c.1 fi).name (
          each_option-untouched jsonc_option (λ fi. fi.name)
            (λ o fi. ap (λ x. x.0) (shared-jsonc_option o fi)) c.1 fi
          ∙ ap (λ x. x.0) k);
      omit_empty =
          either (λ fi. fi.omit_empty) (codes "omitempty") shared_option-omit_empty
            (λ o fi. ap (λ x. x.1) (shared-jsonc_option o fi)) j.1 c.1 start refl;
      omit_zero =
          either (λ fi. fi.omit_zero) (codes "omitzero") shared_option-omit_zero
            (λ o fi. ap (λ x. x.2) (shared-jsonc_option o fi)) j.1 c.1 start refl;
      as_string =
          either (λ fi. fi.as_string) (codes "string") shared_option-as_string
            (λ o fi. ap (λ x. x.3) (shared-jsonc_option o fi)) j.1 c.1 start refl;
      commented =
          jsonc_only (λ fi. fi.commented) (codes "commented") jsonc_option-commented c.1 fi
            (ap (λ x. x.1) k);
      required =
          jsonc_only (λ fi. fi.required) (codes "required") jsonc_option-required c.1 fi
            (ap (λ x. x.2) k);
      default_value =
          subst (LastDefault c.1)
            (sym (
              each_option-default_of c.1 fi
              ∙ ap (first_of (last_default c.1)) (ap (λ x. x.3) k)
              ∙ first_of-none (last_default c.1)))
            (last_default-LastDefault c.1);
    }

-- Of a field that is not skipped, neither tag has the name "-"; its name is that of the jsonc tag, or of
-- the json tag where that is empty; "omitempty", "omitzero" and "string" count in either tag,
-- "commented", "required" and the last "default=" in the jsonc tag alone.
pub parse_tag_pair-Merged :
    (json_tag jsonc_tag : Bytes)
    → (parse_tag_pair json_tag jsonc_tag).skip ≡ false
    → Merged (split_tag json_tag) (split_tag jsonc_tag) (parse_tag_pair json_tag jsonc_tag)
unfolding parse_tag_pair
parse_tag_pair-Merged json_tag jsonc_tag h =
    let j = split_tag json_tag in
    let c = split_tag jsonc_tag in
    elim (Bool-cases (bytes_eq j.0 (codes "-") || bytes_eq c.0 (codes "-"))) [
      | inl b ↦ let k : true ≡ false = rw b at h in absurd cc
      | inr b ↦ rw b (each_option-Merged j c b)
    ]
