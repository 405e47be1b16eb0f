-- ===== src/Resolver/Placement/Choice.antt =====
-- src/resolver/placement.rs: what the version that is placed owes to its peers.
use bpm.Prelude.{
  Bool, true, false, List, [], ◌∷◌, ◌++◌, All-append, All-imp, ◌≡◌, refl, sym, ap, ◌∙◌, ◌⊎◌, inl,
  inr, arith, All, Elem, Bool-cases, Result, ok, ok_steps,
}
use bpm.Prelude.Text.{Text}
use bpm.Prelude.Sort.{sort_by, IsSortedBy, sort_by-IsSortedBy, sort_by-All_of, Elem-sort_by}
use bpm.Registry.Select.{IsOrder, only}
use mathlib.Core.Path.{subst}
use bpm.Registry.Spec.{Semver, RegistryError, Packument, exact, published}
use bpm.Registry.Resolve.{Codecs, ResolvedArtifact, resolve_packument}
use bpm.Resolver.Placement.{
  Nodes, reverse_onto, peer_candidate_matches, backtrack, descending, choose_version,
}

module _ {A : Type 0} where
  reverse_onto-All_of {κ} :
      (P : A → Type κ) (done xs : List A) → All P (reverse_onto done xs) → All P done × All P xs
  unfolding reverse_onto
  reverse_onto-All_of P done [] h = (h, tt)
  reverse_onto-All_of P done (x ∷ xs) h =
      let (both, rest) = reverse_onto-All_of P (x ∷ done) xs h in (both.1, (both.0, rest))

  Elem-reverse_onto :
      (a : A) (done xs : List A) → Elem a (reverse_onto done xs) → Elem a done ⊎ Elem a xs
  unfolding reverse_onto
  Elem-reverse_onto a done [] m = inl m
  Elem-reverse_onto a done (x ∷ xs) m = elim (Elem-reverse_onto a (x ∷ done) xs m) [
    | inl (inl e) ↦ inr (inl e)
    | inl (inr n) ↦ inl n
    | inr n ↦ inr (inr n)
  ]

  Elem-reverse : (a : A) (xs : List A) → Elem a (reverse_onto [] xs) → Elem a xs
  Elem-reverse a xs m = elim (Elem-reverse_onto a [] xs m) [ inl n ↦ absurd n | inr n ↦ n ]

  Elem-middle : (before : List A) (v : A) (after : List A) → Elem v (before ++ v ∷ after)
  Elem-middle [] v after = inl refl
  Elem-middle (b ∷ before) v after = inr (Elem-middle before v after)

  module _ (le : A → A → Bool) where
    abbrev at_least : A → A → Bool
    at_least a b = le b a

    -- a sorted list the other way round
    reverse_onto-IsSortedBy :
        (done xs : List A)
        → IsSortedBy at_least done
        → IsSortedBy le xs
        → All (λ x. All (λ d. le d x ≡ true) done) xs
        → IsSortedBy at_least (reverse_onto done xs)
    unfolding reverse_onto
    reverse_onto-IsSortedBy done [] h k m = h
    reverse_onto-IsSortedBy done (x ∷ xs) h k m =
        reverse_onto-IsSortedBy (x ∷ done) xs (m.0, h) k.1 (add_bound xs k.0 m.1)
      where
        add_bound :
            (ys : List A)
            → All (λ y. le x y ≡ true) ys
            → All (λ y. All (λ d. le d y ≡ true) done) ys
            → All (λ y. All (λ d. le d y ≡ true) (x ∷ done)) ys
        add_bound [] a b = tt
        add_bound (y ∷ ys) a b = ((a.0, b.0), add_bound ys a.1 b.1)

    no_element : (xs : List A) → All (λ x. All (λ d. le d x ≡ true) []) xs
    no_element [] = tt
    no_element (x ∷ xs) = (tt, no_element xs)

    behind :
        (before : List A) (v : A) (after : List A)
        → IsSortedBy at_least (before ++ v ∷ after)
        → All (λ w. le w v ≡ true) after
    behind [] v after h = h.0
    behind (b ∷ before) v after h = behind before v after h.1

module _ (semver : Semver) (codecs : Codecs) (nodes : Nodes semver)
    (parent registry_name registry_base : Text) (packument : Packument semver) where
  -- the candidate of a version
  abbrev pub candidate_of : semver.Version → Result (ResolvedArtifact semver codecs) RegistryError
  candidate_of version =
      resolve_packument semver codecs (record { name = registry_name; req = exact version })
        packument registry_base

  abbrev pub peers_fit : ResolvedArtifact semver codecs → Bool
  peers_fit artifact = peer_candidate_matches semver nodes artifact.metadata parent

  -- The version is a candidate, and its peers do not fit.
  abbrev pub IsMisfit : semver.Version → Type 0
  IsMisfit version =
      (artifact : ResolvedArtifact semver codecs) × (candidate_of version ≡ ok artifact)
      × (peers_fit artifact ≡ false)

  -- The candidate of a published version whose peers fit, and no greater published version is one
  -- whose peers fit.
  abbrev pub IsChosen : ResolvedArtifact semver codecs → Type 0
  IsChosen chosen =
      (version : semver.Version) × Elem version (published semver packument.versions)
      × (candidate_of version ≡ ok chosen)
      × (peers_fit chosen ≡ true)
      × All (λ w. (semver.version_le w version ≡ true) ⊎ IsMisfit w)
          (published semver packument.versions)

  -- the first version whose peers fit
  abbrev IsFirst : List semver.Version → ResolvedArtifact semver codecs → Type 0
  IsFirst versions chosen =
      (before : List semver.Version) × (version : semver.Version) × (after : List semver.Version)
      × (versions ≡ before ++ version ∷ after)
      × All IsMisfit before
      × (candidate_of version ≡ ok chosen)
      × (peers_fit chosen ≡ true)

  backtrack_outcomes :
      (versions : List semver.Version) (resolved chosen : ResolvedArtifact semver codecs)
      → backtrack semver codecs nodes parent registry_name registry_base packument versions resolved
        ≡ ok chosen
      → IsFirst versions chosen ⊎ ((chosen ≡ resolved) × All IsMisfit versions)
  unfolding backtrack
  backtrack_outcomes [] resolved chosen h = inr (cc h, tt)
  backtrack_outcomes (v ∷ vs) resolved chosen h =
      let (candidate, e, rest) = ok_steps _ (candidate_of v) h in
      elim (Bool-cases (peers_fit candidate)) [
        | inl fit ↦
            let k : ok candidate ≡ ok chosen = rw fit at rest in
            let same : candidate ≡ chosen = cc k in
            inl ([], v, vs, refl, tt, e ∙ k, ap peers_fit (sym same) ∙ fit)
        | inr misfit ↦ elim (backtrack_outcomes vs resolved chosen (rw misfit at rest)) [
          | inl (before, w, after, parts, none_fits, f, fit) ↦ inl (
            v ∷ before,
            w,
            after,
            ap (λ l. v ∷ l) parts,
            ((candidate, e, misfit), none_fits),
            f,
            fit,
          )
          | inr (same, all_misfit) ↦ inr (same, ((candidate, e, misfit), all_misfit))
        ]
      ]

  -- what holds of the versions from the greatest on holds of the published ones
  published_of {κ} :
      (P : semver.Version → Type κ)
      → All P (descending semver codecs nodes parent registry_name registry_base packument)
      → All P (published semver packument.versions)
  published_of P h =
      let versions = published semver packument.versions in
      sort_by-All_of semver.version_le P versions
        (reverse_onto-All_of P [] (sort_by semver.version_le versions) h).1

  module _ (order : IsOrder semver) where
    IsChosen-of_first :
        (chosen : ResolvedArtifact semver codecs)
        → IsFirst
            (descending semver codecs nodes parent registry_name registry_base packument)
            chosen
        → IsChosen chosen
    IsChosen-of_first chosen (before, v, after, parts, misfits, candidate, fit) =
        let versions = published semver packument.versions in
        let sorted =
          reverse_onto-IsSortedBy semver.version_le [] (sort_by semver.version_le versions) tt
            (sort_by-IsSortedBy semver.version_le order.total order.trans versions)
            (no_element semver.version_le (sort_by semver.version_le versions)) in
        let lower =
          behind semver.version_le before v after
            (subst (IsSortedBy (at_least semver.version_le)) parts sorted) in
        (
          v,
          Elem-sort_by semver.version_le v versions (
              Elem-reverse v (sort_by semver.version_le versions)
                (subst (Elem v) (sym parts) (Elem-middle before v after))),
          candidate,
          fit,
          published_of _ (
              subst (All (λ w. (semver.version_le w v ≡ true) ⊎ IsMisfit w)) (sym parts) (
                All-append _ before (v ∷ after) (All-imp (λ w m. inr m) before misfits)
                  (inl (only semver order v v refl), All-imp (λ w l. inl l) after lower))),
        )

    -- What is placed is what the request resolved to where its peers fit, or where those of no
    -- published version do; else it is the candidate of the greatest published version whose peers
    -- fit.
    pub choose_version_outcomes :
        (resolved chosen : ResolvedArtifact semver codecs)
        → choose_version semver codecs nodes parent registry_name registry_base packument resolved
          ≡ ok chosen
        → ((chosen ≡ resolved)
            × ((peers_fit resolved ≡ true) ⊎ All IsMisfit (published semver packument.versions)))
          ⊎ ((peers_fit resolved ≡ false) × IsChosen chosen)
    unfolding choose_version
    choose_version_outcomes resolved chosen h = elim (Bool-cases (peers_fit resolved)) [
      | inl fit ↦ inl (ground (arith, h, fit), inl fit)
      | inr misfit ↦ elim (backtrack_outcomes _ resolved chosen (rw misfit at h)) [
        | inl first ↦ inr (misfit, IsChosen-of_first chosen first)
        | inr (same, none_fits) ↦ inl (same, inr (published_of IsMisfit none_fits))
      ]
    ]
