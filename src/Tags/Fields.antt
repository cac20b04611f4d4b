-- ===== src/Tags/Fields.antt =====
-- `fieldInfo`, `splitTag` and `parseTagPair` of tags.go.
use jsonc.Prelude.{
  ℕ, Bool, true, false, ◌||◌, ◌==◌, List, [], ◌∷◌, if◌then◌else◌, Bytes, bytes_eq, codes, Option,
  none, some,
}

-- `fieldInfo`
pub record FieldInfo : Type 0 where
  pub name : Bytes
  pub index : List ℕ
  pub omit_empty : Bool
  pub omit_zero : Bool
  pub as_string : Bool
  pub commented : Bool
  pub required : Bool
  pub skip : Bool
  pub default_value : Bytes
  pub has_default : Bool
  pub comment : Bytes
  pub tagged : Bool

-- `var fi fieldInfo`
abbrev pub zero_field_info : FieldInfo
zero_field_info = record {
  name = [];
  index = [];
  omit_empty = false;
  omit_zero = false;
  as_string = false;
  commented = false;
  required = false;
  skip = false;
  default_value = [];
  has_default = false;
  comment = [];
  tagged = false;
}

-- `strings.Split` at a comma, the first part and the others
unfoldable pub split_comma : Bytes → Bytes × List Bytes
split_comma [] = ([], [])
split_comma (c ∷ cs) =
    let r = split_comma cs in if c == b',' then ([], r.0 ∷ r.1) else (c ∷ r.0, r.1)

-- `splitTag`; of the empty tag too the parts are the empty name and no options
unfoldable pub split_tag : Bytes → Bytes × List Bytes
unfolding split_comma
split_tag [] = ([], [])
split_tag (c ∷ cs) = split_comma (c ∷ cs)

-- `strings.CutPrefix`
unfoldable pub cut_prefix : Bytes → Bytes → Option Bytes
cut_prefix text [] = some text
cut_prefix [] (d ∷ ds) = none
cut_prefix (c ∷ cs) (d ∷ ds) = if c == d then cut_prefix cs ds else none

-- the switch on the options of either tag
unfoldable pub shared_option : Bytes → FieldInfo → FieldInfo
shared_option o fi =
    if bytes_eq o (codes "omitempty")
    then record fi { omit_empty = true }
    else if bytes_eq o (codes "omitzero")
    then record fi { omit_zero = true }
    else if bytes_eq o (codes "string")
    then record fi { as_string = true }
    else fi

abbrev pub with_default : Option Bytes → FieldInfo → FieldInfo
with_default (some v) fi = record fi { default_value = v; has_default = true }
with_default none fi = fi

-- the switch on the options of the jsonc tag
unfoldable pub jsonc_option : Bytes → FieldInfo → FieldInfo
jsonc_option o fi =
    if bytes_eq o (codes "commented")
    then record fi { commented = true }
    else if bytes_eq o (codes "required")
    then record fi { required = true }
    else with_default (cut_prefix o (codes "default=")) fi

-- `for _, opt := range opts`
unfoldable pub each_option : (Bytes → FieldInfo → FieldInfo) → List Bytes → FieldInfo → FieldInfo
each_option s [] fi = fi
each_option s (o ∷ os) fi = each_option s os (s o fi)

-- the switch on the names
abbrev pub tag_name : Bytes → Bytes → Bytes
tag_name json_name (c ∷ cs) = c ∷ cs
tag_name json_name [] = json_name

-- `parseTagPair`
unfoldable pub parse_tag_pair : Bytes → Bytes → FieldInfo
unfolding split_tag shared_option jsonc_option each_option
parse_tag_pair json_tag jsonc_tag =
    let (json_name, json_options) = split_tag json_tag in
    let (jsonc_name, jsonc_options) = split_tag jsonc_tag in
    if bytes_eq json_name (codes "-") || bytes_eq jsonc_name (codes "-")
    then record zero_field_info { skip = true }
    else each_option jsonc_option jsonc_options (
        each_option shared_option jsonc_options (
          each_option shared_option json_options
            (record zero_field_info { name = tag_name json_name jsonc_name })))
