-- ===== src/Registry/Select.antt =====
-- src/registry/mod.rs: the version that a request selects is published, fits the request, and no
-- other that does so is greater.
use bpm.Prelude.{
  true, false, none, some, List, [], ◌∷◌, ◌≡◌, refl, ap, inl, inr, ◌⊎◌, arith, All, Elem,
  Bool-cases, Option-cases, ok, err, ◌∙◌,
}
use bpm.Prelude.Text.{Text}
use bpm.Prelude.Sort.{sort_by, IsSortedBy, sort_by-IsSortedBy, sort_by-All_of, Elem-sort_by}
use bpm.Registry.Spec.{
  Semver, version_not_found, range_to_string, Packument, matches, published, filter_matching,
  last_of, select_range,
}

-- the order of versions
pub record IsOrder (semver : Semver) : Type 0 where
  pub total : (v w : semver.Version) → semver.version_le v w ≡ false → semver.version_le w v ≡ true
  pub trans :
      (u v w : semver.Version)
      → semver.version_le u v ≡ true
      → semver.version_le v w ≡ true
      → semver.version_le u w ≡ true

module _ (semver : Semver) where
  filter_matching-Elem :
      (r : List semver.Requirement) (v : semver.Version) (vs : List semver.Version)
      → Elem v (filter_matching semver r vs)
      → Elem v vs × (matches semver r v ≡ true)
  unfolding filter_matching
  filter_matching-Elem r v [] m = absurd m
  filter_matching-Elem r v (w ∷ vs) m = elim (Bool-cases (matches semver r w)) [
    | inr misses ↦ let (e, y) = filter_matching-Elem r v vs (rw misses at m) in (inr e, y)
    | inl fits ↦ elim (rw fits at m) [
      | inl e ↦ (inl e, ap (matches semver r) e ∙ fits)
      | inr n ↦ let (e, y) = filter_matching-Elem r v vs n in (inr e, y)
    ]
  ]

  last_of-Elem :
      (v : semver.Version) (vs : List semver.Version) → last_of semver vs ≡ some v → Elem v vs
  unfolding last_of
  last_of-Elem v [] h = cc
  last_of-Elem v (w ∷ []) h = inl (cc h)
  last_of-Elem v (w ∷ x ∷ vs) h = inr (last_of-Elem v (x ∷ vs) h)

  All-at {κ} :
      (P : semver.Version → Type κ) (v : semver.Version) (vs : List semver.Version)
      → All P vs
      → Elem v vs
      → P v
  All-at P v [] h m = absurd m
  All-at P v (w ∷ vs) h (inl e) = rw e (h.0)
  All-at P v (w ∷ vs) h (inr m) = All-at P v vs h.1 m

  pub only : (order : IsOrder semver) (v w : semver.Version) → w ≡ v → semver.version_le w v ≡ true
  only order v w e = elim (Bool-cases (semver.version_le w v)) [
    | inl le ↦ le
    | inr gt ↦ ground (arith, gt, e, order.total w v gt)
  ]

  last_of-greatest :
      (order : IsOrder semver) (v : semver.Version) (vs : List semver.Version)
      → IsSortedBy semver.version_le vs
      → last_of semver vs ≡ some v
      → All (λ w. semver.version_le w v ≡ true) vs
  unfolding last_of
  last_of-greatest order v [] sorted h = tt
  last_of-greatest order v (w ∷ []) sorted h = (only order v w (cc h), tt)
  last_of-greatest order v (w ∷ x ∷ vs) sorted h = (
    All-at (λ y. semver.version_le w y ≡ true) v (x ∷ vs) sorted.0 (last_of-Elem v (x ∷ vs) h),
    last_of-greatest order v (x ∷ vs) sorted.1 h,
  )

  last_of-none : (vs : List semver.Version) → last_of semver vs ≡ none → vs ≡ []
  unfolding last_of
  last_of-none [] h = refl
  last_of-none (w ∷ []) h = cc
  last_of-none (w ∷ x ∷ vs) h = let e = last_of-none (x ∷ vs) h in cc

  empty_of : (vs : List semver.Version) → sort_by semver.version_le vs ≡ [] → vs ≡ []
  empty_of [] h = refl
  empty_of (w ∷ vs) h = absurd (sort_by-All_of semver.version_le (λ x. ⊥) (w ∷ vs) (rw h tt)).0

  -- the published versions in a range
  abbrev pub in_range : List semver.Requirement → Packument semver → List semver.Version
  in_range r packument = filter_matching semver r (published semver packument.versions)

  -- For a range, the greatest of the published versions in it is selected, and where there is none
  -- the error says so.
  pub select_range_outcomes :
      (order : IsOrder semver) (name : Text) (r : List semver.Requirement)
      (packument : Packument semver)
      → ((v : semver.Version) × (select_range semver name r packument ≡ ok v)
          × Elem v (published semver packument.versions)
          × (matches semver r v ≡ true)
          × All (λ w. semver.version_le w v ≡ true) (in_range r packument))
        ⊎ ((select_range semver name r packument
              ≡ err (version_not_found name (range_to_string semver r)))
            × (in_range r packument ≡ []))
  unfolding select_range
  select_range_outcomes order name r packument =
      let found = in_range r packument in
      let sorted = sort_by semver.version_le found in
      elim (Option-cases (last_of semver sorted)) [
        | inl nothing ↦
            inr (rw (nothing, select_range) refl, empty_of found (last_of-none sorted nothing))
        | inr (v, e) ↦
            let (here, fits) =
              filter_matching-Elem r v (published semver packument.versions)
                (Elem-sort_by semver.version_le v found (last_of-Elem v sorted e)) in
            inl (
              v,
              rw (e, select_range) refl,
              here,
              fits,
              sort_by-All_of semver.version_le (λ w. semver.version_le w v ≡ true) found
                  (last_of-greatest order v sorted
                    (sort_by-IsSortedBy semver.version_le order.total order.trans found) e),
            )
      ]
