-- ===== src/PathSafety/Witnesses.antt =====
-- The theorems on path_safety.rs at concrete inputs.
use bpm.Prelude.{◌≡◌, refl, ◌≢◌, ◌↔◌, true, [], ok, ◌++◌, all, Elem, inl, inr}
use bpm.Prelude.Text.{
  Text, txt, text_eq, contains, strip_prefix, starts_with, split, trim_end, to_ascii_lowercase,
}
use bpm.PathSafety.{
  is_normalized_relative, validate_package_path, validate_workspace_target, validate_bin_name,
  validate_bin_target, without_dot_slash, is_device_name, is_control, is_dot_or_space,
}
use bpm.PathSafety.Normalized.{IsNormalized}
use bpm.PathSafety.Paths.{HasPackage, validate_package_path_iff}
use bpm.PathSafety.Inside.{StaysInside, validated-StaysInside, traversal_refused}
use bpm.PathSafety.BinName.{IsPortable, validate_bin_name_iff}

abbrev pkg_path : Text
pkg_path = txt "node_modules/a"

validate_package_path_iff_example :
    (validate_package_path pkg_path ≡ ok pkg_path)
    ↔ ((pkg_path ≡ pkg_path) × IsNormalized pkg_path × HasPackage (split b'/' pkg_path))
validate_package_path_iff_example = validate_package_path_iff pkg_path pkg_path

bin_target_ok : validate_bin_target (txt "./lib/a.js") ≡ ok (txt "lib/a.js")
unfolding validate_bin_target without_dot_slash is_normalized_relative split contains text_eq
    starts_with strip_prefix
bin_target_ok = refl

validated-StaysInside_example : StaysInside (txt "lib/a.js")
validated-StaysInside_example =
    validated-StaysInside (txt "./lib/a.js") (txt "lib/a.js") (inr (inr bin_target_ok))

dotdot_inside : Elem (txt "..") (split b'/' (txt "a/../b"))
unfolding split
dotdot_inside = inr (inl refl)

traversal_refused_example :
    (validate_package_path (txt "a/../b") ≢ ok [])
    × (validate_workspace_target (txt "a/../b") ≢ ok [])
    × (validate_bin_target (txt "a/../b") ≢ ok [])
traversal_refused_example = traversal_refused (txt "a/../b") [] dotdot_inside

bin_name_ok : validate_bin_name (txt "cli. ") ≡ ok (txt "cli")
unfolding validate_bin_name is_device_name is_control is_dot_or_space contains text_eq trim_end
    to_ascii_lowercase
bin_name_ok = refl

validate_bin_name_iff_example : (validate_bin_name (txt "cli. ") ≡ ok (txt "cli")) ↔ (
    IsPortable (txt "cli")
    × ((tail : Text) × (txt "cli. " ≡ txt "cli" ++ tail) × (all is_dot_or_space tail ≡ true)))
validate_bin_name_iff_example = validate_bin_name_iff (txt "cli. ") (txt "cli")
