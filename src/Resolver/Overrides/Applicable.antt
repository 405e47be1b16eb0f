-- ===== src/Resolver/Overrides/Applicable.antt =====
-- src/resolver/overrides.rs: when a rule applies, told apart from the code's own tests.
use bpm.Prelude.{
  ℕ, zero, suc, ◌+◌, ◌-◌, ◌≤◌, ◌++◌, ◌↔◌, length, length-append, ok, err, Result, true, none, some,
  List, [], ◌∷◌, ◌≡◌, refl, ap, ◌∙◌, ◌⊎◌, inl, inr, arith, Bool-cases, Option-cases,
}
use bpm.Prelude.Text.{Text, text_eq, text_eq→eq, text_eq_iff}
use bpm.Registry.Spec.{Semver}
use bpm.Resolver.Overrides.{
  skip, Selector, ancestor_matches, all_match, ancestors_match, request_matches_selector,
  OverrideRule, Requirements, applies,
}

Result-cases : {A E : Type 0} (r : Result A E) → ((a : A) × (r ≡ ok a)) ⊎ ((e : E) × (r ≡ err e))
Result-cases (ok a) = inl (a, refl)
Result-cases (err e) = inr (e, refl)

skip-length {ℓ} : {A : Type ℓ} (outer inner : List A) → skip (length outer) (outer ++ inner) ≡ inner
unfolding skip
skip-length [] inner = refl
skip-length (x ∷ outer) inner = skip-length outer inner

skip_split {ℓ} :
    {A : Type ℓ} (n : ℕ) (xs : List A)
    → n ≤ length xs
    → (outer : List A) × (xs ≡ outer ++ skip n xs) × (length (skip n xs) ≡ length xs - n)
unfolding skip
skip_split zero xs h = ([], refl, omega arith)
skip_split (suc n) [] h = absurd (omega (arith, h))
skip_split (suc n) (x ∷ xs) h =
    let (outer, e, k) = skip_split n xs (omega (arith, h)) in
    (x ∷ outer, ap (λ l. x ∷ l) e, omega (arith, k))

module _ (semver : Semver) (requirements : Requirements semver) where
  -- The ancestor has the name, and a version that meets the requirement if there is one.
  abbrev pub IsNamed : Selector → Text × semver.Version → Type 0
  IsNamed selector ancestor =
      (selector.name ≡ ancestor.0)
      × ((selector.req ≡ none)
          ⊎ ((text : Text) × (req : semver.Requirement) × (selector.req ≡ some text)
              × (semver.parse_requirement text ≡ ok req)
              × (semver.satisfies req ancestor.1 ≡ true)))

  -- one ancestor for each selector
  abbrev pub AreNamed : List Selector → List (Text × semver.Version) → Type 0
  AreNamed [] [] = Unit
  AreNamed [] (a ∷ ancestors) = ⊥
  AreNamed (s ∷ selectors) [] = ⊥
  AreNamed (s ∷ selectors) (a ∷ ancestors) = IsNamed s a × AreNamed selectors ancestors

  -- The rule is about the package, its selectors name the innermost ancestors one by one, and its
  -- requirement allows the request.
  pub record IsApplicable (package_name requested : Text) (ancestors : List (Text × semver.Version))
      (rule : OverrideRule) : Type 0 where
    pub about_package : rule.package_name ≡ package_name
    pub outer : List (Text × semver.Version)
    pub inner : List (Text × semver.Version)
    pub is_path : ancestors ≡ outer ++ inner
    pub named : AreNamed rule.ancestors inner
    pub allows : request_matches_selector semver requirements rule.package_req requested ≡ true

  AreNamed-length :
      (ss : List Selector) (as' : List (Text × semver.Version))
      → AreNamed ss as'
      → length ss ≡ length as'
  AreNamed-length [] [] h = refl
  AreNamed-length [] (a ∷ as') h = absurd h
  AreNamed-length (s ∷ ss) [] h = absurd h
  AreNamed-length (s ∷ ss) (a ∷ as') h = omega (arith, AreNamed-length ss as' h.1)

  matches-IsNamed :
      (s : Selector) (a : Text × semver.Version)
      → ancestor_matches semver requirements s a ≡ true
      → IsNamed s a
  matches-IsNamed s (name, version) h = elim (Bool-cases (text_eq s.name name)) [
    | inr other ↦ absurd (ground (arith, h, other))
    | inl same ↦ (
      text_eq→eq s.name name same,
      elim (Option-cases s.req) [
        | inl free ↦ inl free
        | inr (text, e) ↦ elim (Result-cases (semver.parse_requirement text)) [
          | inl (req, k) ↦ inr (text, req, e, k, ground (arith, h, same, e, k))
          | inr (m, k) ↦ absurd (ground (arith, h, same, e, k))
        ]
      ],
    )
  ]

  IsNamed-matches :
      (s : Selector) (a : Text × semver.Version)
      → IsNamed s a
      → ancestor_matches semver requirements s a ≡ true
  IsNamed-matches s (name, version) (e, inl free) =
      let same : text_eq s.name name ≡ true = (text_eq_iff s.name name).1 e in
      ground (arith, same, free)
  IsNamed-matches s (name, version) (e, inr (text, req, k, parsed, fits)) =
      let same : text_eq s.name name ≡ true = (text_eq_iff s.name name).1 e in
      ground (arith, same, k, parsed, fits)

  all_match-AreNamed :
      (ss : List Selector) (as' : List (Text × semver.Version))
      → length ss ≡ length as'
      → (all_match semver requirements ss as' ≡ true) ↔ AreNamed ss as'
  unfolding all_match
  all_match-AreNamed [] [] h = (λ k. tt, λ k. refl)
  all_match-AreNamed [] (a ∷ as') h = absurd (omega (arith, h))
  all_match-AreNamed (s ∷ ss) [] h = absurd (omega (arith, h))
  all_match-AreNamed (s ∷ ss) (a ∷ as') h =
      let rest = all_match-AreNamed ss as' (omega (arith, h)) in
      (
        λ k.
            let (here, later) : (ancestor_matches semver requirements s a ≡ true)
                × (all_match semver requirements ss as' ≡ true) =
              (ground (arith, k), ground (arith, k)) in
            (matches-IsNamed s a here, rest.0 later),
        λ n. ground (arith, IsNamed-matches s a n.0, rest.1 n.1),
      )

  module _ (package_name requested : Text) (ancestors : List (Text × semver.Version)) where
    pub applies-IsApplicable :
        (rule : OverrideRule)
        → applies semver requirements package_name requested ancestors rule ≡ true
        → IsApplicable package_name requested ancestors rule
    unfolding applies ancestors_match
    applies-IsApplicable rule h =
        let n = length ancestors - length rule.ancestors in
        let about : text_eq rule.package_name package_name ≡ true = ground (arith, h) in
        let enough : length rule.ancestors ≤ length ancestors = ground (arith, h) in
        let matching : all_match semver requirements rule.ancestors (skip n ancestors) ≡ true =
          ground (arith, h) in
        let (outer, parts, size) = skip_split n ancestors (omega arith) in
        record {
          about_package = text_eq→eq rule.package_name package_name about;
          outer = outer;
          inner = skip n ancestors;
          is_path = parts;
          named =
              (all_match-AreNamed rule.ancestors (skip n ancestors) (omega (arith, size, enough))).0
                matching;
          allows = ground (arith, h);
        }

    pub IsApplicable-applies :
        (rule : OverrideRule)
        → IsApplicable package_name requested ancestors rule
        → applies semver requirements package_name requested ancestors rule ≡ true
    unfolding applies ancestors_match
    IsApplicable-applies rule r =
        let size = AreNamed-length rule.ancestors r.inner r.named in
        let sum : length ancestors ≡ length r.outer + length r.inner =
          ap length r.is_path ∙ length-append r.outer r.inner in
        let start : length ancestors - length rule.ancestors ≡ length r.outer =
          omega (arith, size, sum) in
        let rest : skip (length ancestors - length rule.ancestors) ancestors ≡ r.inner =
          ap (λ n. skip n ancestors) start
          ∙ ap (skip (length r.outer)) r.is_path
          ∙ skip-length r.outer r.inner in
        let matching = (all_match-AreNamed rule.ancestors r.inner size).1 r.named in
        let about = (text_eq_iff rule.package_name package_name).1 r.about_package in
        ground (arith, about, rest, matching, r.allows, size, sum)
