-- ===== src/Paths/Tests.antt =====
-- Project roots, run at concrete paths.
use codeintel.Base.{
  ◌≡◌, refl, ◌↔◌, false, none, some, [], Text, codes, text_eq, has_prefix, contains, space_width,
  trim_left_from, trim_left, is_blank, trim_right, trim_space,
}
use codeintel.Paths.{
  split_slash, join_slash, clean_segment, clean_segments, clean, trim_left_slash, trim_right_slash,
  normalize_project_root, trim_project_root,
}
use codeintel.Paths.Roots.{IsPlain}
use codeintel.Paths.Normal.{normalized_root}

abbrev service : Text
service = codes "services/api"

abbrev padded : Text
padded = codes " services/api\n"

clean_sample : clean (codes "a/./b//../c/") ≡ codes "a/c"
unfolding clean split_slash join_slash clean_segments clean_segment text_eq has_prefix
clean_sample = refl

clean_rooted_sample : clean (codes "/../a") ≡ codes "/a"
unfolding clean split_slash join_slash clean_segments clean_segment text_eq has_prefix
clean_rooted_sample = refl

service_normal : normalize_project_root padded ≡ some service
unfolding normalize_project_root clean split_slash join_slash clean_segments clean_segment text_eq
    has_prefix contains space_width trim_left_from trim_left is_blank trim_right trim_space
    trim_left_slash trim_right_slash
service_normal = refl

climbing_sample : normalize_project_root (codes "../other") ≡ none
unfolding normalize_project_root clean split_slash join_slash clean_segments clean_segment text_eq
    has_prefix contains space_width trim_left_from trim_left is_blank trim_right trim_space
climbing_sample = refl

climbing_trimmed : trim_project_root (codes "../other") ≡ []
unfolding trim_project_root
climbing_trimmed = rw (trim_project_root, climbing_sample)

normalized_root_example :
    (normalize_project_root padded ≡ some service)
    ↔ ((trim_space padded ≡ service) × IsPlain service × (contains service (codes "\\") ≡ false))
normalized_root_example = normalized_root padded service refl
