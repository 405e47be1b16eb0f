-- ===== src/Registry/Spec.antt =====
-- src/registry/mod.rs: version ranges, package specs, and the choice of a version from a packument.
-- Versions and single requirements are those of the `semver` crate, a URL's scheme is that of the
-- `url` crate, and the check of an integrity string is a function given by the client.
use bpm.Prelude.{
  ℕ, Bool, true, false, not, ◌&&◌, ◌||◌, Option, none, some, List, [], ◌∷◌, ◌++◌, ◌==◌,
  if◌then◌else◌, all, any, Result, ok, err, ◌>>=◌,
}
use bpm.Prelude.Text.{Text, txt, text_eq, is_empty}
use bpm.Prelude.Map.{Map, get, contains_key}
use bpm.Prelude.Words.{trim, split_whitespace}
use bpm.Prelude.Sort.{sort_by}
use bpm.Registry.{is_valid_npm_read_name}

-- what the code uses of `semver`
pub record Semver : Type 1 where
  pub Version : Type 0
  pub Requirement : Type 0
  pub parse_version : Text → Result Version Text
  pub parse_requirement : Text → Result Requirement Text
  pub version_to_string : Version → Text
  pub requirement_to_string : Requirement → Text
  pub satisfies : Requirement → Version → Bool
  pub version_eq : Version → Version → Bool
  pub version_le : Version → Version → Bool

pub data RegistryError : Type 0 where
  invalid_spec : Text → Text → RegistryError
  no_versions : (package_name : Text) → RegistryError
  version_not_found : (package_name req : Text) → RegistryError
  missing_dist : (package_name version : Text) → RegistryError
  unsupported_tarball_source : (package_name version scheme : Text) → RegistryError
  invalid_integrity : (package_name version detail : Text) → RegistryError

pub record Dist : Type 0 where
  pub tarball : Text
  pub integrity : Text
  pub shasum : Option Text

-- `split("||")`: the piece in front, and those behind it
abbrev push_first : ℕ → List Text → List Text
push_first c [] = (c ∷ []) ∷ []
push_first c (p ∷ ps) = (c ∷ p) ∷ ps

unfoldable pub split_bars : Text → List Text
split_bars [] = [] ∷ []
split_bars (c ∷ []) = (c ∷ []) ∷ []
split_bars (c ∷ d ∷ s) =
    let behind = split_bars s in
    let rest = split_bars (d ∷ s) in
    if c == b'|' && d == b'|' then [] ∷ behind else push_first c rest

abbrev is_operator_char : ℕ → Bool
is_operator_char c = c == b'>' || c == b'<' || c == b'=' || c == b'^' || c == b'~'

abbrev pub is_operator : Text → Bool
is_operator token = not (is_empty token) && all is_operator_char token

-- the operator that waits for its operand, with the token glued to it
abbrev pub glued : Option Text → Text → Text
glued none token = token
glued (some operator) token = operator ++ token

-- the loop over the tokens: the comparators behind those found so far
unfoldable pub comparators_of : Option Text → List Text → List Text
comparators_of none [] = []
comparators_of (some operator) [] = operator ∷ []
comparators_of pending (token ∷ tokens) =
    let more = comparators_of (some (glued pending token)) tokens in
    let next = glued pending token ∷ comparators_of none tokens in
    if is_operator token then more else next

abbrev ends_with_comma : Text → Bool
ends_with_comma [] = false
ends_with_comma (c ∷ []) = c == b','
ends_with_comma (c ∷ d ∷ s) = ends_with_comma (d ∷ s)

-- the loop that joins the comparators
unfoldable pub join_comparators : Text → List Text → Text
join_comparators joined [] = joined
join_comparators joined (comparator ∷ comparators) =
    join_comparators
      (if is_empty joined
        then joined ++ comparator
        else if ends_with_comma joined
        then joined ++ (txt " " ++ comparator)
        else joined ++ (txt ", " ++ comparator))
      comparators

abbrev pub normalize_comparator_whitespace : Text → Text
normalize_comparator_whitespace part =
    join_comparators [] (comparators_of none (split_whitespace part))

-- `rfind(char)`: what stands before and behind the last occurrence
unfoldable pub rsplit_once : ℕ → Text → Option (Text × Text)
rsplit_once c [] = none
rsplit_once c (d ∷ s) = elim (rsplit_once c s) [
  | some parts ↦ some (d ∷ parts.0, parts.1)
  | none ↦ if d == c then some ([], s) else none
]

-- the name and the request of a trimmed spec
unfoldable pub split_spec : Text → Text × Option Text
split_spec spec = elim (rsplit_once b'@' spec) [
  | none ↦ (spec, none)
  | some parts ↦ if is_empty parts.0 then (spec, none) else (parts.0, some parts.1)
]

abbrev pub starts_range : Text → Bool
starts_range [] = false
starts_range (c ∷ s) = c == b'^' || c == b'~' || c == b'>' || c == b'<' || c == b'=' || c == b'*'

module _ (semver : Semver) where
  -- `VersionRange`: alternatives
  abbrev pub VersionRange : Type 0
  VersionRange = List semver.Requirement

  pub data VersionRequest : Type 0 where
    latest : VersionRequest
    exact : semver.Version → VersionRequest
    range : List semver.Requirement → VersionRequest

  pub record PackageSpec : Type 0 where
    pub name : Text
    pub req : VersionRequest

  -- the error of an empty alternative; `unwrap_err` has one, since no requirement is empty
  abbrev empty_part : Result semver.Requirement Text → Text
  empty_part (err why) = why
  empty_part (ok r) = txt "called `Result::unwrap_err()` on an `Ok` value"

  -- `VersionRange::parse`, alternative by alternative
  unfoldable pub parse_parts : List Text → Result VersionRange Text
  parse_parts [] = ok []
  parse_parts (p ∷ parts) =
      let part = normalize_comparator_whitespace (trim p) in
      let rest = parse_parts parts in
      if is_empty part
      then err (empty_part (semver.parse_requirement (trim part)))
      else semver.parse_requirement part >>= (λ r. rest >>= (λ rs. ok (r ∷ rs)))

  abbrev pub parse_range : Text → Result VersionRange Text
  parse_range value = parse_parts (split_bars value)

  abbrev pub matches : VersionRange → semver.Version → Bool
  matches ranges version = any (λ r. semver.satisfies r version) ranges

  -- `Display`: the requirements, joined by ` || `
  unfoldable pub range_to_string : VersionRange → Text
  range_to_string [] = []
  range_to_string (r ∷ []) = semver.requirement_to_string r
  range_to_string (r ∷ r' ∷ rs) =
      semver.requirement_to_string r ++ (txt " || " ++ range_to_string (r' ∷ rs))

  abbrev with_invalid {ℓ} : {A : Type ℓ} → Text → Text → Result A Text → Result A RegistryError
  with_invalid spec what (ok a) = ok a
  with_invalid spec what (err e) = err (invalid_spec spec (what ++ (txt ": " ++ e)))

  abbrev range_request : Result VersionRange RegistryError → Result VersionRequest RegistryError
  range_request r = r >>= (λ ranges. ok (range ranges))

  -- the request of a spec, trimmed; without one it is `latest`
  unfoldable pub parse_request : Text → Option Text → Result VersionRequest RegistryError
  parse_request spec none = ok latest
  parse_request spec (some req) =
      let s = trim req in
      if is_empty s || text_eq s (txt "latest")
      then ok latest
      else if starts_range s
      then range_request (with_invalid spec (txt "bad range '" ++ (s ++ txt "'")) (parse_range s))
      else elim (semver.parse_version s) [
        | ok v ↦ ok (exact v)
        | err e ↦
            range_request
              (with_invalid spec (txt "bad version '" ++ (s ++ txt "'")) (parse_range s))
      ]

  unfoldable pub parse_spec : Text → Result PackageSpec RegistryError
  parse_spec text =
      let spec = trim text in
      let parts = split_spec spec in
      if is_empty spec
      then err (invalid_spec spec (txt "spec is empty"))
      else if not (is_valid_npm_read_name parts.0)
      then err (invalid_spec spec (txt "'" ++ (parts.0 ++ txt "' is not a valid npm package name")))
      else parse_request spec parts.1 >>= (λ req. ok (record { name = parts.0; req = req }))

  pub record VersionMetadata : Type 0 where
    pub name : Text
    pub version : semver.Version
    pub deprecated : Option Text
    pub dependencies : Map Text
    pub optional_dependencies : Map Text
    pub peer_dependencies : Map Text
    -- whether the peer is optional
    pub peer_dependencies_meta : Map Bool
    pub bin : Map Text
    pub dist : Dist
    pub engines : Map Text
    pub os : List Text
    pub cpu : List Text
    pub libc : List Text
    pub has_install_script : Bool
    pub has_shrinkwrap : Bool

  pub record Packument : Type 0 where
    pub name : Text
    pub dist_tags : Map Text
    pub versions : Map VersionMetadata

  -- the keys that are versions
  unfoldable pub published : Map VersionMetadata → List semver.Version
  published [] = []
  published ((k, metadata) ∷ versions) =
      let rest = published versions in
      elim (semver.parse_version k) [ ok v ↦ v ∷ rest | err e ↦ rest ]

  unfoldable pub filter_matching : VersionRange → List semver.Version → List semver.Version
  filter_matching ranges [] = []
  filter_matching ranges (v ∷ vs) =
      let rest = filter_matching ranges vs in if matches ranges v then v ∷ rest else rest

  -- `pop`
  unfoldable pub last_of : List semver.Version → Option semver.Version
  last_of [] = none
  last_of (v ∷ []) = some v
  last_of (v ∷ w ∷ vs) = last_of (w ∷ vs)

  abbrev pub no_metadata : Map VersionMetadata → Bool
  no_metadata [] = true
  no_metadata (e ∷ es) = false

  unfoldable pub select_latest : Text → Option Text → Result semver.Version RegistryError
  select_latest name none = err (no_versions name)
  select_latest name (some tag) = elim (semver.parse_version tag) [
    | ok v ↦ ok v
    | err e ↦ err (version_not_found name (txt "latest (" ++ (tag ++ txt ")")))
  ]

  unfoldable pub select_range :
      Text → VersionRange → Packument → Result semver.Version RegistryError
  select_range name r packument =
      elim (last_of
        (sort_by semver.version_le (filter_matching r (published packument.versions)))) [
          | some v ↦ ok v
          | none ↦ err (version_not_found name (range_to_string r))
        ]

  unfoldable pub select_request :
      Text → VersionRequest → Packument → Result semver.Version RegistryError
  select_request name latest packument = select_latest name (get (txt "latest") packument.dist_tags)
  select_request name (exact v) packument =
      if contains_key (semver.version_to_string v) packument.versions
      then ok v
      else err (version_not_found name (txt "=" ++ semver.version_to_string v))
  select_request name (range r) packument = select_range name r packument

  unfoldable pub select_version :
      Text → VersionRequest → Packument → Result semver.Version RegistryError
  select_version name req packument =
      if no_metadata packument.versions
      then err (no_versions name)
      else select_request name req packument
