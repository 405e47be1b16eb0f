-- ===== src/Lockfile.antt =====
-- src/lockfile.rs: reading, validating and canonicalising `bpm.lock`. The JSON codec (serde_json)
-- is a parameter; an error keeps its values and not its rendered message.
pub mod Schema
pub mod Valid
pub mod Canonical
pub mod Reading
pub mod Writing
mod Tests
use bpm.Prelude.{
  ℕ, Bool, true, false, not, ◌&&◌, ◌||◌, Option, none, some, List, [], ◌∷◌, leb, ◌==◌,
  if◌then◌else◌, length, all, any, map, Result, ok, err, ◌>>=◌,
}
use bpm.Prelude.Text.{Text, txt, text_eq, is_empty, contains, starts_with, split}
use bpm.Prelude.Map
use bpm.Prelude.Map.{Map, text_lt}
use bpm.PathSafety.{
  PathSafetyError, is_valid_component, has_drive_prefix, validate_package_path, validate_bin_name,
  validate_bin_target,
}
use bpm.Registry.{is_valid_npm_read_name}
use Schema.{
  LockSource, registry, workspace, file, tarball, git, patch, LockDependency, PeerProvider,
  PackageResolution, ResolutionMetadata, PackageEntry, Lockfile, default_resolution,
  bpm_lock_version, legacy_lock_version,
}

-- The cases of `LockfileError::Invalid`, each with the values that its message shows.
pub data Invalid : Type 0 where
  path_not_normalized : Text → Invalid
  out_of_order : Text → Invalid
  name_of_unknown_path : Text → Invalid
  name_empty : Text → Invalid
  name_same : Text → Invalid
  name_unsafe : Text → Invalid
  metadata_of_unknown_path : Text → Invalid
  registry_incomplete : Text → Invalid
  workspace_incomplete : Text → Invalid
  file_incomplete : Text → Invalid
  tarball_incomplete : Text → Invalid
  git_incomplete : Text → Invalid
  patch_incomplete : Text → Invalid
  missing_target : Text → Text → Text → Text → Invalid
  missing_peer : Text → Text → Text → Invalid

pub data LockfileError : Type 0 where
  -- the codec's message
  parse : Text → LockfileError
  unsupported_version : ℕ → LockfileError
  invalid : Invalid → LockfileError
  unsafe_path : Text → PathSafetyError → LockfileError
  unsafe_bin_name : Text → Text → PathSafetyError → LockfileError
  unsafe_bin_target : Text → Text → PathSafetyError → LockfileError

-- The checks of a loop return nothing but the first error.
abbrev pub Checked : Type 0
Checked = Result (Unit {0}) LockfileError

abbrev pub passed : Checked
passed = ok tt

abbrev pub for_each {ℓ} : {A : Type ℓ} → (A → Checked) → List A → Checked
for_each check [] = passed
for_each check (x ∷ xs) = check x >>= λ _. for_each check xs

-- `map_err` over a result that is not needed
abbrev pub checked {ℓ κ} : {A : Type ℓ} {E : Type κ} → Result A E → (E → LockfileError) → Checked
checked (ok a) f = passed
checked (err e) f = err (f e)

unfoldable pub is_ascii_hexdigit : ℕ → Bool
is_ascii_hexdigit b =
    (leb b'0' b && leb b b'9') || (leb b'a' b && leb b b'f') || (leb b'A' b && leb b b'F')

-- On a text of 40 hexadecimal digits the scalar values are the bytes.
unfoldable pub is_full_git_commit : Text → Bool
unfolding is_ascii_hexdigit
is_full_git_commit value = length value == 40 && all is_ascii_hexdigit value

unfoldable pub legal_relative_path : Text → Bool
legal_relative_path path =
    not (is_empty path)
    && not (starts_with (txt "/") path)
    && not (starts_with (txt "\\") path)
    && not (contains b'\\' path)
    && not (
        any (λ part. is_empty part || text_eq part (txt ".") || text_eq part (txt ".."))
          (split b'/' path))
    && not (has_drive_prefix path)

-- one round of the inner loop of `validate_package_safety`
unfoldable pub check_bin : Text → Text × Text → Checked
check_bin path (name, target) =
    checked (validate_bin_name name) (unsafe_bin_name path name) >>= λ _.
    checked (validate_bin_target target) (unsafe_bin_target path target)

unfoldable pub check_package : PackageEntry → Checked
check_package entry =
    (if not entry.link
      then checked (validate_package_path entry.path) (unsafe_path entry.path)
      else passed)
    >>= λ _. for_each (check_bin entry.path) entry.bin

unfoldable pub validate_package_safety : Lockfile → Checked
validate_package_safety lockfile = for_each check_package lockfile.packages

-- the first loop of `validate_v2`, from the path that came before
unfoldable pub check_paths : Option Text → List PackageEntry → Checked
check_paths previous [] = passed
check_paths previous (entry ∷ entries) =
    let rest = check_paths (some entry.path) entries in
    if not (legal_relative_path entry.path)
    then err (invalid (path_not_normalized entry.path))
    else if elim previous [ none ↦ false | some value ↦ not (text_lt value entry.path) ]
    then err (invalid (out_of_order entry.path))
    else rest

-- `self.packages.iter().find(|entry| entry.path == *path)`
unfoldable pub find_entry : Text → List PackageEntry → Option PackageEntry
find_entry path [] = none
find_entry path (entry ∷ entries) =
    if text_eq entry.path path then some entry else find_entry path entries

unfoldable pub check_registry_name : List PackageEntry → Text × Text → Checked
check_registry_name entries (path, canonical_name) = elim (find_entry path entries) [
  | none ↦ err (invalid (name_of_unknown_path path))
  | some entry ↦
      if is_empty canonical_name
      then err (invalid (name_empty path))
      else if text_eq canonical_name entry.name
      then err (invalid (name_same path))
      else if not (is_valid_npm_read_name canonical_name)
      then err (invalid (name_unsafe path))
      else passed
]

-- `is_none_or(str::is_empty)`
abbrev pub absent_or_empty : Option Text → Bool
absent_or_empty none = true
absent_or_empty (some value) = is_empty value

-- `option.as_deref() != Some(text)`
abbrev pub differs_from : Option Text → Text → Bool
differs_from none text = true
differs_from (some value) text = not (text_eq value text)

unfoldable pub check_source : Text → PackageEntry → PackageResolution → LockSource → Checked
check_source path entry metadata (registry url) =
    if is_empty url || is_empty entry.resolved || absent_or_empty entry.integrity
    then err (invalid (registry_incomplete path))
    else passed
check_source path entry metadata (workspace relative_path) =
    if not entry.link
      || differs_from metadata.workspace_target relative_path
      || not (legal_relative_path relative_path)
    then err (invalid (workspace_incomplete path))
    else passed
check_source path entry metadata (file source_path) =
    if not entry.link || differs_from metadata.workspace_target source_path
    then err (invalid (file_incomplete path))
    else passed
check_source path entry metadata (tarball url) =
    if is_empty url || is_empty entry.resolved
    then err (invalid (tarball_incomplete path))
    else passed
check_source path entry metadata (git url reference resolved_commit) =
    if is_empty url || is_empty entry.resolved || not (is_full_git_commit resolved_commit)
    then err (invalid (git_incomplete path))
    else passed
check_source path entry metadata (patch source patch_path) =
    if is_empty patch_path || is_empty entry.resolved || absent_or_empty entry.integrity
    then err (invalid (patch_incomplete path))
    else passed

-- `paths.contains(...)`
unfoldable pub has_path : List PackageEntry → Text → Bool
has_path [] path = false
has_path (entry ∷ entries) path = text_eq entry.path path || has_path entries path

unfoldable pub check_target : List PackageEntry → Text → Text → Text × LockDependency → Checked
check_target entries path group (name, dependency) =
    if not (has_path entries dependency.target)
    then err (invalid (missing_target group name path dependency.target))
    else passed

unfoldable pub validate_targets : Text → Text → Map LockDependency → List PackageEntry → Checked
validate_targets path group dependencies entries =
    for_each (check_target entries path group) dependencies

unfoldable pub check_peer : List PackageEntry → Text → Text × PeerProvider → Checked
check_peer entries path (peer, provider) =
    if not (has_path entries provider.path)
    then err (invalid (missing_peer peer path provider.path))
    else passed

-- one round of the last loop of `validate_v2`
unfoldable pub check_resolution : List PackageEntry → Text × PackageResolution → Checked
check_resolution entries (path, metadata) = elim (find_entry path entries) [
  | none ↦ err (invalid (metadata_of_unknown_path path))
  | some entry ↦ check_source path entry metadata metadata.source >>= λ _.
      validate_targets path (txt "dependencies") metadata.dependencies entries >>= λ _.
      validate_targets path (txt "optionalDependencies") metadata.optional_dependencies entries
      >>= λ _.
          validate_targets path (txt "peerDependencies") metadata.peer_dependencies entries >>= λ _.
          for_each (check_peer entries path) metadata.peer_context
]

unfoldable pub validate_v2 : Lockfile → Checked
validate_v2 lockfile = check_paths none lockfile.packages >>= λ _.
    for_each (check_registry_name lockfile.packages) lockfile.resolution.registry_names >>= λ _.
    for_each (check_resolution lockfile.packages) lockfile.resolution.packages

-- serde_json: the version probe and the whole document, each with its error message.
pub record Json : Type 0 where
  pub version_probe : Text → Result ℕ Text
  pub document : Text → Result Lockfile Text

abbrev pub with_parse_error {ℓ} : {A : Type ℓ} → Result A Text → Result A LockfileError
with_parse_error (ok a) = ok a
with_parse_error (err message) = err (parse message)

unfoldable pub from_document : ℕ → Lockfile → Result Lockfile LockfileError
from_document version lockfile = validate_package_safety lockfile >>= λ _.
    if version == legacy_lock_version
    then ok
        (record lockfile { lockfile_version = bpm_lock_version; resolution = default_resolution })
    else (validate_v2 lockfile >>= λ _. ok lockfile)

unfoldable pub from_json : Json → Text → Result Lockfile LockfileError
from_json json text = with_parse_error (json.version_probe text) >>= λ version.
    if not (version == legacy_lock_version) && not (version == bpm_lock_version)
    then err (unsupported_version version)
    else (with_parse_error (json.document text) >>= from_document version)

unfoldable pub registry_name_for : Lockfile → PackageEntry → Text
registry_name_for lockfile entry = elim (Map.get entry.path lockfile.resolution.registry_names) [
  | none ↦ entry.name
  | some name ↦ name
]
