-- ===== src/Registry/Digits.antt =====
-- Versions of one digit, for the tests: a requirement is `^` and a digit, and only that version
-- satisfies it.
use bpm.Prelude.{
  ◌++◌, ℕ, ◌+◌, ◌-◌, false, ◌&&◌, none, some, List, [], ◌∷◌, ◌==◌, leb, if◌then◌else◌, length,
  Result, ok, err, arith,
}
use bpm.Prelude.Text.{Text, txt, starts_with}
use bpm.Registry.Spec.{Semver, VersionMetadata, Packument}
use bpm.Registry.Resolve.{Codecs}
use bpm.Registry.Select.{IsOrder}

abbrev digit_version : Text → Result ℕ Text
digit_version [] = err (txt "empty")
digit_version (c ∷ []) = if leb b'0' c && leb c b'9' then ok (c - 48) else err (txt "no digit")
digit_version (c ∷ d ∷ s) = err (txt "too long")

abbrev digit_requirement : Text → Result ℕ Text
digit_requirement [] = err (txt "empty")
digit_requirement (c ∷ s) = if c == b'^' then digit_version s else err (txt "no operator")

abbrev pub digits : Semver
digits = record {
  Version = ℕ;
  Requirement = ℕ;
  parse_version = digit_version;
  parse_requirement = digit_requirement;
  version_to_string = λ v. (v + 48) ∷ [];
  requirement_to_string = λ r. b'^' ∷ (r + 48) ∷ [];
  satisfies = λ r v. r == v;
  version_eq = λ v w. v == w;
  version_le = leb;
}

pub digits-IsOrder : IsOrder digits
digits-IsOrder = record {
  total = λ v w h. ground (arith, h);
  trans = λ u v w h k. ground (arith, h, k);
}

abbrev pub zeros : List ℕ
zeros =
    let eight : List ℕ = 0 ∷ 0 ∷ 0 ∷ 0 ∷ 0 ∷ 0 ∷ 0 ∷ 0 ∷ [] in
    eight ++ (eight ++ (eight ++ (eight ++ (eight ++ (eight ++ (eight ++ eight))))))

-- codecs that know one digest and no hex, and see no scheme
abbrev pub codecs : Codecs
codecs = record {
  base64_encode = λ b. txt "AA";
  base64_decode = λ t. ok zeros;
  hex_decode = λ t. err (txt "no hex");
  byte_length = length;
  url_scheme = λ t. if starts_with (txt "https:") t then some (txt "https") else none;
}

abbrev pub metadata_of : Text → ℕ → List (Text × Text) → VersionMetadata digits
metadata_of name version peers = record {
  name = name;
  version = version;
  deprecated = none;
  dependencies = [];
  optional_dependencies = [];
  peer_dependencies = peers;
  peer_dependencies_meta = [];
  bin = [];
  dist = record { tarball = txt "p.tgz"; integrity = txt "sha512-AA"; shasum = none };
  engines = [];
  os = [];
  cpu = [];
  libc = [];
  has_install_script = false;
  has_shrinkwrap = false;
}

-- two versions of `plugin`, each for its own version of `react`
abbrev pub plugin : Packument digits
plugin = record {
  name = txt "plugin";
  dist_tags = [];
  versions =
      (txt "1", metadata_of (txt "plugin") 1 ((txt "react", txt "^6") ∷ []))
      ∷ (txt "2", metadata_of (txt "plugin") 2 ((txt "react", txt "^7") ∷ []))
      ∷ [];
}
