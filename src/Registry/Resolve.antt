-- ===== src/Registry/Resolve.antt =====
-- src/registry/mod.rs: one version of a packument, with the URL of its tarball. The codecs of an
-- integrity string and the scheme of a URL are parameters.
use bpm.Prelude.{
  ℕ, ◌||◌, Option, none, some, List, ◌++◌, ◌==◌, if◌then◌else◌, Result, ok, err, ◌>>=◌,
}
use bpm.Prelude.Text.{Text, txt, text_eq, is_empty, trim_end}
use bpm.Prelude.Map.{get}
use bpm.Prelude.Words.{trim_start}
use bpm.Prelude.Decimal.{decimal}
use bpm.Integrity.{
  IntegrityError, invalid_format, unsupported_algorithm, bad_encoding, bad_length, parse,
}
use bpm.Registry.Spec.{
  Semver, RegistryError, version_not_found, missing_dist, unsupported_tarball_source,
  invalid_integrity, PackageSpec, VersionMetadata, Packument, select_version,
}

-- `Display` of the errors of an integrity string
unfoldable pub integrity_error_to_string : IntegrityError → Text
integrity_error_to_string (invalid_format s) = txt "invalid integrity string: " ++ s
integrity_error_to_string (unsupported_algorithm s) =
    txt "unsupported integrity algorithm: " ++ (s ++ txt " (only sha512 is supported)")
integrity_error_to_string (bad_encoding s) = txt "invalid digest encoding: " ++ s
integrity_error_to_string (bad_length n) = txt "sha512 digest must be 64 bytes, got " ++ decimal n

pub record Codecs : Type 0 where
  pub base64_encode : List ℕ → Text
  pub base64_decode : Text → Result (List ℕ) Text
  pub hex_decode : Text → Result (List ℕ) Text
  pub byte_length : Text → ℕ
  -- the scheme of an absolute URL
  pub url_scheme : Text → Option Text

unfoldable pub resolve_tarball_url : Codecs → Text → Text → Text → Text → Result Text RegistryError
resolve_tarball_url codecs registry tarball package_name version =
    elim (codecs.url_scheme tarball) [
      | some scheme ↦
          if text_eq scheme (txt "http") || text_eq scheme (txt "https")
          then ok tarball
          else err (unsupported_tarball_source package_name version scheme)
      | none ↦
          ok
            (trim_end (λ c. c == b'/') registry ++ (txt "/" ++ trim_start (λ c. c == b'/') tarball))
    ]

module _ (semver : Semver) (codecs : Codecs) where
  pub record ResolvedArtifact : Type 0 where
    pub name : Text
    pub version : semver.Version
    pub tarball_url : Text
    pub integrity : Text
    pub metadata : VersionMetadata semver

  -- a version without a name has the one that was asked for
  abbrev named : Text → VersionMetadata semver → VersionMetadata semver
  named name metadata = if is_empty metadata.name then record metadata { name = name } else metadata

  abbrev check_integrity : Text → Text → Text → Result (List ℕ) RegistryError
  check_integrity name version integrity =
      elim (parse codecs.base64_encode codecs.base64_decode codecs.hex_decode codecs.byte_length
        integrity) [
          | ok digest ↦ ok digest
          | err e ↦ err (invalid_integrity name version (integrity_error_to_string e))
        ]

  -- the checks of the metadata of the selected version
  unfoldable pub resolved_artifact :
      Text → Text → semver.Version → VersionMetadata semver → Result ResolvedArtifact RegistryError
  resolved_artifact name registry version found =
      let metadata = named name found in
      let printed = semver.version_to_string version in
      if is_empty metadata.dist.tarball || is_empty metadata.dist.integrity
      then err (missing_dist name printed)
      else check_integrity name printed metadata.dist.integrity >>= (λ digest.
        resolve_tarball_url codecs registry metadata.dist.tarball name printed >>= (λ url.
          ok (record {
            name = metadata.name;
            version = version;
            tarball_url = url;
            integrity = metadata.dist.integrity;
            metadata = metadata;
          })))

  unfoldable pub resolve_packument :
      PackageSpec semver → Packument semver → Text → Result ResolvedArtifact RegistryError
  resolve_packument spec packument registry =
      select_version semver spec.name spec.req packument >>= (λ version.
        elim (get (semver.version_to_string version) packument.versions) [
          | none ↦ err (version_not_found spec.name (semver.version_to_string version))
          | some metadata ↦ resolved_artifact spec.name registry version metadata
        ])
