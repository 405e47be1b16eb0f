-- ===== src/Resolver/Overrides.antt =====
-- src/resolver/overrides.rs: the rule that overrides a request. The parts of a requirement of the
-- `semver` crate are a function; reading the rules from package.json is not here.
pub mod Applicable
pub mod Specific
mod Tests
use bpm.Prelude.{
  ℕ, zero, suc, ◌+◌, ◌-◌, Bool, true, false, not, ◌&&◌, ◌||◌, Option, none, some, List, [], ◌∷◌,
  ◌++◌, ◌==◌, ltb, if◌then◌else◌, any, length, Result, ok, err, min,
}
use bpm.Prelude.Text.{Text, txt, text_eq}
use bpm.Prelude.Map.{text_lt}
use bpm.Registry.Spec.{
  Semver, RegistryError, PackageSpec, VersionRequest, latest, exact, range, parse_spec,
}

pub record Selector : Type 0 where
  pub name : Text
  pub req : Option Text

pub record OverrideRule : Type 0 where
  pub ancestors : List Selector
  pub package_name : Text
  pub package_req : Option Text
  pub spec : Text
  pub key : Text

-- a comparator of a requirement
pub record Comparator : Type 0 where
  pub major : ℕ
  pub minor : Option ℕ
  pub patch : Option ℕ

pub record Requirements (semver : Semver) : Type 0 where
  pub comparators : semver.Requirement → List Comparator
  -- `Version::new`
  pub new_version : ℕ → ℕ → ℕ → semver.Version

abbrev or_zero : Option ℕ → ℕ
or_zero none = 0
or_zero (some n) = n

-- `saturating_add(1)` of a `u64`
abbrev pub next : ℕ → ℕ
next n = min (n + 1) 18_446_744_073_709_551_615

-- `&ancestors[offset..]`
unfoldable pub skip {ℓ} : {A : Type ℓ} → ℕ → List A → List A
skip zero xs = xs
skip (suc n) [] = []
skip (suc n) (x ∷ xs) = skip n xs

module _ (semver : Semver) (requirements : Requirements semver) where
  unfoldable pub versions_of : List Comparator → List semver.Version
  versions_of [] = []
  versions_of (c ∷ cs) =
      requirements.new_version c.major (or_zero c.minor) (or_zero c.patch)
      ∷ requirements.new_version c.major (or_zero c.minor) (next (or_zero c.patch))
      ∷ requirements.new_version (next c.major) 0 0
      ∷ versions_of cs

  unfoldable pub ranges_intersect : semver.Requirement → semver.Requirement → Bool
  ranges_intersect left right =
      any (λ v. semver.satisfies left v && semver.satisfies right v)
        (requirements.new_version 0 0 0
          ∷ versions_of (requirements.comparators left ++ requirements.comparators right))

  abbrev some_intersects : Result semver.Requirement Text → List semver.Requirement → Bool
  some_intersects (err e) request = false
  some_intersects (ok selector) request = any (ranges_intersect selector) request

  abbrev pub satisfied : Result semver.Requirement Text → semver.Version → Bool
  satisfied (err e) version = false
  satisfied (ok req) version = semver.satisfies req version

  abbrev exactly :
      Result semver.Version Text → Result semver.Requirement Text → semver.Version → Bool
  exactly (ok version) selector requested = semver.version_eq version requested
  exactly (err e) selector requested = satisfied selector requested

  abbrev selected : Text → Result (PackageSpec semver) RegistryError → Bool
  selected req (err e) = true
  selected req (ok parsed) = elim parsed.req [
    | exact version ↦ exactly (semver.parse_version req) (semver.parse_requirement req) version
    | latest ↦ true
    | range request ↦ some_intersects (semver.parse_requirement req) request
  ]

  unfoldable pub request_matches_selector : Option Text → Text → Bool
  request_matches_selector none requested = true
  request_matches_selector (some req) requested =
      selected req (parse_spec semver (txt "override-probe@" ++ requested))

  -- one selector against the ancestor at its place
  abbrev pub ancestor_matches : Selector → Text × semver.Version → Bool
  ancestor_matches selector (name, version) = text_eq selector.name name && (elim selector.req [
    | none ↦ true
    | some req ↦ satisfied (semver.parse_requirement req) version
  ])

  -- `zip` and `all`
  unfoldable pub all_match : List Selector → List (Text × semver.Version) → Bool
  all_match [] ancestors = true
  all_match (s ∷ selectors) [] = true
  all_match (s ∷ selectors) (a ∷ ancestors) = ancestor_matches s a && all_match selectors ancestors

  unfoldable pub ancestors_match : List Selector → List (Text × semver.Version) → Bool
  ancestors_match selectors ancestors =
      if ltb (length ancestors) (length selectors)
      then false
      else all_match selectors (skip (length ancestors - length selectors) ancestors)

  -- the three filters
  unfoldable pub applies : Text → Text → List (Text × semver.Version) → OverrideRule → Bool
  applies package_name requested ancestors rule =
      text_eq rule.package_name package_name
      && (ancestors_match rule.ancestors ancestors
          && request_matches_selector rule.package_req requested)

  unfoldable pub applying : (OverrideRule → Bool) → List OverrideRule → List OverrideRule
  applying p [] = []
  applying p (rule ∷ rules) = let rest = applying p rules in if p rule then rule ∷ rest else rest

  -- less by the number of ancestors, then by the key
  unfoldable pub rule_lt : OverrideRule → OverrideRule → Bool
  rule_lt a b =
      ltb (length a.ancestors) (length b.ancestors)
      || length a.ancestors == length b.ancestors && text_lt a.key b.key

  -- `max_by`: of the greatest rules the last one
  unfoldable pub greatest : List OverrideRule → Option OverrideRule
  greatest [] = none
  greatest (rule ∷ rules) = elim (greatest rules) [
    | none ↦ some rule
    | some best ↦ if rule_lt best rule then some rule else some best
  ]

  abbrev spec_or : Text → Option OverrideRule → Text
  spec_or requested none = requested
  spec_or requested (some rule) = rule.spec

  unfoldable pub effective_spec_for :
      List OverrideRule → Text → Text → List (Text × semver.Version) → Text
  effective_spec_for rules package_name requested ancestors =
      spec_or requested (greatest (applying (applies package_name requested ancestors) rules))
