-- ===== src/Registry/Tests.antt =====
-- Runs of the name validation of src/registry/mod.rs, and its theorems at concrete names.
use bpm.Prelude.{ℕ, ◌≡◌, ◌⊎◌, refl, true, false, ok, err, ◌++◌, [], ◌∷◌, leb, All, Elem}
use bpm.Prelude.Text.{txt, strip_prefix, split_once}
use bpm.PathSafety.{validate_package_path}
use bpm.Registry.{
  valid_alphanumeric, valid_segment_byte, valid_name_segment, valid_npm_name, is_valid_npm_name,
  is_valid_npm_read_name,
}
use bpm.Registry.Spec.{version_not_found, range_to_string, select_range, published, matches}
use bpm.Registry.Select.{in_range, select_range_outcomes}
use bpm.Registry.Digits.{digits, digits-IsOrder, plugin}
use bpm.Registry.Names.{npm_name_placed}

scoped_valid : valid_npm_name (txt "@Scope/pkg") true ≡ true
unfolding valid_npm_name valid_name_segment valid_alphanumeric valid_segment_byte strip_prefix
    split_once
scoped_valid = refl

dots_invalid : is_valid_npm_read_name (txt "../up") ≡ false
unfolding is_valid_npm_read_name valid_npm_name valid_name_segment valid_alphanumeric
    valid_segment_byte strip_prefix split_once
dots_invalid = refl

plain_valid : is_valid_npm_name (txt "left-pad") ≡ true
unfolding is_valid_npm_name valid_npm_name valid_name_segment valid_alphanumeric valid_segment_byte
    strip_prefix split_once
plain_valid = refl

npm_name_placed_example :
    validate_package_path (txt "node_modules/" ++ txt "@Scope/pkg")
    ≡ ok (txt "node_modules/" ++ txt "@Scope/pkg")
npm_name_placed_example = npm_name_placed true (txt "@Scope/pkg") scoped_valid

select_range_outcomes_example :
    ((v : ℕ) × (select_range digits (txt "plugin") (2 ∷ []) plugin ≡ ok v)
      × Elem v (published digits plugin.versions)
      × (matches digits (2 ∷ []) v ≡ true)
      × All (λ w. leb w v ≡ true) (in_range digits (2 ∷ []) plugin))
    ⊎ ((select_range digits (txt "plugin") (2 ∷ []) plugin
          ≡ err (version_not_found (txt "plugin") (range_to_string digits (2 ∷ []))))
        × (in_range digits (2 ∷ []) plugin ≡ []))
select_range_outcomes_example =
    select_range_outcomes digits digits-IsOrder (txt "plugin") (2 ∷ []) plugin
