-- ===== src/Lockfile/Reading.antt =====
-- `Lockfile::from_json` of lockfile.rs: what a lock that was read satisfies, by its version.
use bpm.Prelude.{
  ℕ, ◌≡◌, refl, ◌≢◌, ◌==◌, if◌then◌else◌, All, All-imp, arith, inl, inr, Result, ok, err, ◌>>=◌,
  ◌⊎◌, Bool-cases,
}
use bpm.Prelude.Text.{Text}
use bpm.Lockfile.Schema.{Lockfile, default_resolution, bpm_lock_version, legacy_lock_version}
use bpm.Lockfile.{
  passed, LockfileError, check_package, validate_package_safety, validate_v2, Json, from_document,
  from_json,
}
use bpm.Lockfile.Valid.{both_passed, for_each-passed, safe_entry, IsSafeEntry}
use bpm.Lockfile.Canonical.{IsCanonical, validate_v2-IsCanonical}

-- `from_json` replaces the version and drops the resolution of a legacy lock.
abbrev pub migrated : Lockfile → Lockfile
migrated d = record d { lockfile_version = bpm_lock_version; resolution = default_resolution }

document_checked :
    (version : ℕ) (d : Lockfile) {l : Lockfile}
    → from_document version d ≡ ok l
    → (validate_package_safety d ≡ passed)
      × ((version ≡ 1) × (l ≡ migrated d) ⊎ (version ≢ 1) × (validate_v2 d ≡ passed) × (l ≡ d))
unfolding from_document
document_checked version d {l} h =
    let current : Result Lockfile LockfileError = validate_v2 d >>= λ _. ok d in
    let (safe, rest) =
      both_passed (validate_package_safety d)
        (if version == legacy_lock_version then ok (migrated d) else current) h in
    elim (Bool-cases (version == legacy_lock_version)) [
      | inl old ↦ (safe, inl (ground arith, ground arith))
      | inr new ↦
          let (valid, same) = both_passed (validate_v2 d) (ok d) (rw new at rest) in
          (safe, inr (ground arith, valid, ground arith))
    ]

module _ (json : Json) (text : Text) where
  read_steps :
      {l : Lockfile}
      → from_json json text ≡ ok l
      → (version : ℕ) × (d : Lockfile) × (json.version_probe text ≡ ok version)
        × (json.document text ≡ ok d)
        × (from_document version d ≡ ok l)
  unfolding from_json
  read_steps {l} h = go (json.version_probe text) refl (json.document text) refl
    where
      go :
          (v : Result ℕ Text)
          → json.version_probe text ≡ v
          → (r : Result Lockfile Text) → json.document text ≡ r
          → (version : ℕ) × (d : Lockfile) × (json.version_probe text ≡ ok version)
            × (json.document text ≡ ok d)
            × (from_document version d ≡ ok l)
      go (ok v) ev (ok d) ed = (v, d, ev, ed, ground (arith, ev, ed))
      go (ok v) ev (err m) ed = absurd (ground (arith, ev, ed))
      go (err m) ev r ed = absurd (ground (arith, ev))

  -- In a lock that was read, of either version, each package that is no link stays inside the
  -- project and lies under a `node_modules`, and each executable has a portable name and a target
  -- inside its package.
  pub from_json-IsSafeEntry :
      (l : Lockfile) → from_json json text ≡ ok l → All IsSafeEntry l.packages
  from_json-IsSafeEntry l h =
      let (version, d, _, _, checked) = read_steps {l = l} h in
      let (safe, same) = document_checked version d {l = l} checked in packages_safe d safe same
    where
      entries_safe :
          (d : Lockfile) → validate_package_safety d ≡ passed → All IsSafeEntry d.packages
      entries_safe d safe =
          All-imp safe_entry d.packages
            (for_each-passed check_package d.packages (unfold validate_package_safety in safe))

      packages_safe :
          {version : ℕ} (d : Lockfile)
          → validate_package_safety d ≡ passed
          → ((version ≡ 1) × (l ≡ migrated d) ⊎ (version ≢ 1) × (validate_v2 d ≡ passed) × (l ≡ d))
          → All IsSafeEntry l.packages
      packages_safe d safe (inl (_, e)) = rw e (entries_safe d safe)
      packages_safe d safe (inr (_, _, e)) = rw e (entries_safe d safe)

  -- A lock of the current version that was read is the document itself, and canonical: the paths
  -- are normalized and strictly increase, and every dependency, optional dependency, peer and
  -- peer provider of a resolution leads to a package of the lock.
  pub from_json-IsCanonical :
      (l : Lockfile)
      → json.version_probe text ≡ ok 2
      → from_json json text ≡ ok l
      → (json.document text ≡ ok l) × IsCanonical l
  from_json-IsCanonical l two h =
      let (version, d, probed, read, checked) = read_steps {l = l} h in
      let is_two : version ≡ 2 = cc (probed, two) in
      go version d is_two read (document_checked version d {l = l} checked).1
    where
      go :
          (version : ℕ) (d : Lockfile)
          → version ≡ 2
          → json.document text ≡ ok d
          → ((version ≡ 1) × (l ≡ migrated d) ⊎ (version ≢ 1) × (validate_v2 d ≡ passed) × (l ≡ d))
          → (json.document text ≡ ok l) × IsCanonical l
      go version d two read (inl (one, _)) = absurd (omega arith)
      go version d two read (inr (_, valid, e)) =
          (rw e read, rw e (validate_v2-IsCanonical d valid))
