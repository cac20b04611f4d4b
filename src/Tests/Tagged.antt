-- ===== src/Tests/Tagged.antt =====
-- Tags of struct fields, and the theorems on them at concrete inputs.
use jsonc.Prelude.{bytes_eq, ◌≡◌, refl, true, false, Bytes, codes, []}
use jsonc.Tags.Fields.{split_tag, cut_prefix, parse_tag_pair}
use jsonc.Tags.Merged.{Merged, parse_tag_pair-Merged}

abbrev json_tag : Bytes
json_tag = codes "id,omitempty,required"

abbrev jsonc_tag : Bytes
jsonc_tag = codes ",default=1,string,default=2"

two_tags-default : (parse_tag_pair json_tag jsonc_tag).default_value ≡ codes "2"
unfolding parse_tag_pair bytes_eq cut_prefix
two_tags-default = refl

two_tags-required : (parse_tag_pair json_tag jsonc_tag).required ≡ false
unfolding parse_tag_pair bytes_eq cut_prefix
two_tags-required = refl

dash-skip : (parse_tag_pair (codes "-,string") []).skip ≡ true
unfolding parse_tag_pair bytes_eq cut_prefix
dash-skip = refl

two_tags-kept : (parse_tag_pair json_tag jsonc_tag).skip ≡ false
unfolding parse_tag_pair bytes_eq cut_prefix
two_tags-kept = refl

parse_tag_pair-Merged_example :
    Merged (split_tag json_tag) (split_tag jsonc_tag) (parse_tag_pair json_tag jsonc_tag)
parse_tag_pair-Merged_example = parse_tag_pair-Merged json_tag jsonc_tag two_tags-kept
