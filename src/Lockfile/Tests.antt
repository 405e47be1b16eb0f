-- ===== src/Lockfile/Tests.antt =====
-- A small lock through lockfile.rs, and the theorems at it.
use mathlib.Core.List.{Permᴰ}
use bpm.Prelude.{◌≡◌, ap, refl, ◌≢◌, false, none, some, [], ◌∷◌, All, ok, Result, ℕ}
use bpm.Prelude.Text.{
  Text, txt, text_eq, contains, strip_prefix, starts_with, split, trim_end, to_ascii_lowercase,
}
use bpm.Prelude.Map.{text_lt}
use bpm.PathSafety.{
  is_normalized_relative, has_node_modules, validate_package_path, validate_bin_name,
  validate_bin_target, without_dot_slash, is_device_name, is_control, is_dot_or_space,
}
use bpm.Lockfile.Schema.{
  registry, PackageEntry, PackageResolution, Lockfile, new_lockfile, default_resolution,
}
use bpm.Lockfile.{
  check_bin, check_package, validate_package_safety, check_paths, find_entry, check_source,
  has_path, check_target, validate_targets, check_resolution, validate_v2, Json, from_document,
  from_json, legal_relative_path,
}
use bpm.Lockfile.Valid.{IsSafeEntry}
use bpm.Lockfile.Canonical.{IsCanonical}
use bpm.Lockfile.Reading.{from_json-IsSafeEntry, from_json-IsCanonical}
use bpm.Lockfile.Writing.{to_json, to_json_order}

abbrev entry : Text → Text → PackageEntry
entry path name = record {
  path = path;
  name = name;
  version = txt "1.0.0";
  resolved = txt "https://r/x.tgz";
  workspace_target = none;
  integrity = some (txt "sha512-abc");
  link = false;
  dev = false;
  optional = false;
  os = [];
  cpu = [];
  bin = (txt "cli", txt "./cli.js") ∷ [];
  dependencies = [];
}

abbrev foo : PackageEntry
foo = entry (txt "node_modules/foo") (txt "foo")

abbrev zoo : PackageEntry
zoo = entry (txt "node_modules/zoo") (txt "zoo")

abbrev foo_resolution : PackageResolution
foo_resolution = record {
  source = registry (txt "https://r/");
  dev_optional = false;
  peer = false;
  libc = [];
  dependencies = (txt "zoo", record { spec = txt "^1.0.0"; target = txt "node_modules/zoo" }) ∷ [];
  optional_dependencies = [];
  peer_dependencies = [];
  optional_peers = [];
  peer_context = [];
  workspace_target = none;
  has_install_script = false;
}

abbrev sample : Lockfile
sample = record (new_lockfile (txt "bpm")) {
  packages = foo ∷ zoo ∷ [];
  resolution = record default_resolution { packages = (foo.path, foo_resolution) ∷ [] };
}

-- a codec that knows one document
abbrev codec : ℕ → Lockfile → Json
codec version lockfile = record { version_probe = λ t. ok version; document = λ t. ok lockfile }

read_sample : from_json (codec 2 sample) [] ≡ ok sample
unfolding from_json from_document validate_package_safety check_package check_bin
    validate_package_path validate_bin_name validate_bin_target without_dot_slash is_device_name
    is_control is_dot_or_space is_normalized_relative has_node_modules split contains text_eq
    starts_with strip_prefix trim_end to_ascii_lowercase validate_v2 check_paths check_resolution
    check_source validate_targets check_target has_path find_entry legal_relative_path text_lt
read_sample = refl

from_json-IsSafeEntry_example : All IsSafeEntry sample.packages
from_json-IsSafeEntry_example = from_json-IsSafeEntry (codec 2 sample) [] sample read_sample

from_json-IsCanonical_example :
    (◌≡◌ {A = Result Lockfile Text} (ok sample) (ok sample)) × IsCanonical sample
from_json-IsCanonical_example = from_json-IsCanonical (codec 2 sample) [] sample refl read_sample

abbrev print : Lockfile → Result Text Text
print l = ok l.generator

different : foo.path ≢ zoo.path
unfolding text_eq
different e = cc (ap (text_eq foo.path) e)

to_json_order_example :
    to_json print sample ≡ to_json print (record sample { packages = zoo ∷ foo ∷ [] })
to_json_order_example =
    to_json_order print sample (zoo ∷ foo ∷ []) (Permᴰ.swap refl refl) ((different, tt), (tt, tt))
