-- ===== src/PathSafety/Tests.antt =====
-- Runs of the validators of path_safety.rs on inputs of its own tests.
use bpm.Prelude.{◌≡◌, refl, false, some, ok}
use bpm.Prelude.Text.{
  txt, text_eq, contains, strip_prefix, starts_with, split, split_once, trim_end,
  to_ascii_lowercase,
}
use bpm.PathSafety.{
  is_normalized_relative, has_node_modules, validate_package_path, validate_bin_name,
  is_device_name, is_control, is_dot_or_space, validate_bin_target, without_dot_slash,
  scoped_string_bin_name,
}

nested_package :
    validate_package_path (txt "node_modules/a/node_modules/@s/p")
    ≡ ok (txt "node_modules/a/node_modules/@s/p")
unfolding validate_package_path is_normalized_relative has_node_modules split contains text_eq
    starts_with
nested_package = refl

drive_prefix : is_normalized_relative (txt "C:/foo") ≡ false
unfolding is_normalized_relative split contains text_eq starts_with
drive_prefix = refl

trimmed_name : validate_bin_name (txt "my-cli. .") ≡ ok (txt "my-cli")
unfolding validate_bin_name is_device_name is_control is_dot_or_space contains text_eq trim_end
    to_ascii_lowercase
trimmed_name = refl

dotted_target : validate_bin_target (txt "./lib/runner.js") ≡ ok (txt "lib/runner.js")
unfolding validate_bin_target without_dot_slash is_normalized_relative split contains text_eq
    starts_with strip_prefix
dotted_target = refl

scoped_name : scoped_string_bin_name (txt "@scope/pkg") ≡ some (txt "pkg")
unfolding scoped_string_bin_name split split_once
scoped_name = refl
