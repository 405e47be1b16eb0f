-- ===== src/Gc/Policy/Ordered.antt =====
-- gc/policy.rs: the candidates that may be deleted and the order in which they are, told apart from
-- the code's own tests.
use mathlib.Core.List.{Perm, perm_middle}
use mathlib.Core.List.Perm
use bpm.Prelude.{
  ℕ, ◌+◌, ◌<◌, ◌≡◌, refl, true, false, List, [], ◌∷◌, ◌++◌, All, All-imp, arith, inl, inr, ◌⊎◌,
  Bool-cases,
}
use bpm.Prelude.Int.{ℤ, pos_part, neg_part, ◌≤ℤ◌}
use bpm.Prelude.Text.{Text}
use bpm.Prelude.Map.{text_lt, text_le_trans, text_lt_asym}
use bpm.Prelude.Sort.{IsSortedBy}
use bpm.Gc.Policy.{
  DeletionRank, plan, graph, derived, image, artifact, PolicyCandidate, rank, key_le, candidate_le,
  is_eligible, eligible_of,
}

-- What depends on others goes before them.
abbrev pub deletion_order : List DeletionRank
deletion_order = plan ∷ graph ∷ derived ∷ image ∷ artifact ∷ []

abbrev pub GoesBefore : DeletionRank → DeletionRank → Type 0
GoesBefore r s =
    (before between after : List DeletionRank) × (deletion_order
      ≡ before ++ (r ∷ (between ++ (s ∷ after))))

-- `a` is earlier than `b`
abbrev pub Earlier : ℤ → ℤ → Type 0
Earlier a b = pos_part a + neg_part b < pos_part b + neg_part a

-- `x` was used earlier than `y`, or at the same time and its kind goes before that of `y`, or both
-- are the same and the identifier of `y` is not before that of `x`.
abbrev pub GoesFirst : PolicyCandidate → PolicyCandidate → Type 0
GoesFirst x y =
    Earlier x.effective_access_ms y.effective_access_ms
    ⊎ ((x.effective_access_ms ≤ℤ y.effective_access_ms)
        × (y.effective_access_ms ≤ℤ x.effective_access_ms)
        × (GoesBefore x.deletion_rank y.deletion_rank
            ⊎ ((x.deletion_rank ≡ y.deletion_rank) × (text_lt y.object_id x.object_id ≡ false))))

-- each of the candidates goes first before all that follow
abbrev pub AreInOrder : List PolicyCandidate → Type 0
AreInOrder [] = Unit
AreInOrder (c ∷ cs) = All (GoesFirst c) cs × AreInOrder cs

rank_lt : (r s : DeletionRank) → rank r < rank s → GoesBefore r s
unfolding rank
rank_lt plan plan h = absurd (omega (arith, h))
rank_lt plan graph h = ([], [], derived ∷ image ∷ artifact ∷ [], refl)
rank_lt plan derived h = ([], graph ∷ [], image ∷ artifact ∷ [], refl)
rank_lt plan image h = ([], graph ∷ derived ∷ [], artifact ∷ [], refl)
rank_lt plan artifact h = ([], graph ∷ derived ∷ image ∷ [], [], refl)
rank_lt graph plan h = absurd (omega (arith, h))
rank_lt graph graph h = absurd (omega (arith, h))
rank_lt graph derived h = (plan ∷ [], [], image ∷ artifact ∷ [], refl)
rank_lt graph image h = (plan ∷ [], derived ∷ [], artifact ∷ [], refl)
rank_lt graph artifact h = (plan ∷ [], derived ∷ image ∷ [], [], refl)
rank_lt derived plan h = absurd (omega (arith, h))
rank_lt derived graph h = absurd (omega (arith, h))
rank_lt derived derived h = absurd (omega (arith, h))
rank_lt derived image h = (plan ∷ graph ∷ [], [], artifact ∷ [], refl)
rank_lt derived artifact h = (plan ∷ graph ∷ [], image ∷ [], [], refl)
rank_lt image plan h = absurd (omega (arith, h))
rank_lt image graph h = absurd (omega (arith, h))
rank_lt image derived h = absurd (omega (arith, h))
rank_lt image image h = absurd (omega (arith, h))
rank_lt image artifact h = (plan ∷ graph ∷ derived ∷ [], [], [], refl)
rank_lt artifact plan h = absurd (omega (arith, h))
rank_lt artifact graph h = absurd (omega (arith, h))
rank_lt artifact derived h = absurd (omega (arith, h))
rank_lt artifact image h = absurd (omega (arith, h))
rank_lt artifact artifact h = absurd (omega (arith, h))

rank_eq : (r s : DeletionRank) → rank r ≡ rank s → r ≡ s
unfolding rank
rank_eq plan plan h = refl
rank_eq plan graph h = absurd (omega (arith, h))
rank_eq plan derived h = absurd (omega (arith, h))
rank_eq plan image h = absurd (omega (arith, h))
rank_eq plan artifact h = absurd (omega (arith, h))
rank_eq graph plan h = absurd (omega (arith, h))
rank_eq graph graph h = refl
rank_eq graph derived h = absurd (omega (arith, h))
rank_eq graph image h = absurd (omega (arith, h))
rank_eq graph artifact h = absurd (omega (arith, h))
rank_eq derived plan h = absurd (omega (arith, h))
rank_eq derived graph h = absurd (omega (arith, h))
rank_eq derived derived h = refl
rank_eq derived image h = absurd (omega (arith, h))
rank_eq derived artifact h = absurd (omega (arith, h))
rank_eq image plan h = absurd (omega (arith, h))
rank_eq image graph h = absurd (omega (arith, h))
rank_eq image derived h = absurd (omega (arith, h))
rank_eq image image h = refl
rank_eq image artifact h = absurd (omega (arith, h))
rank_eq artifact plan h = absurd (omega (arith, h))
rank_eq artifact graph h = absurd (omega (arith, h))
rank_eq artifact derived h = absurd (omega (arith, h))
rank_eq artifact image h = absurd (omega (arith, h))
rank_eq artifact artifact h = refl

le_cases :
    (a b : ℤ) (i j : ℕ) (s t : Text)
    → key_le a i s b j t ≡ true
    → Earlier a b ⊎ ((a ≤ℤ b) × (b ≤ℤ a) × ((i < j) ⊎ ((i ≡ j) × (text_lt t s ≡ false))))
unfolding key_le
le_cases a b i j s t h = ground (arith, h)

GoesFirst-of_le : (x y : PolicyCandidate) → candidate_le x y ≡ true → GoesFirst x y
unfolding candidate_le
GoesFirst-of_le x y h =
    elim (le_cases x.effective_access_ms y.effective_access_ms (rank x.deletion_rank)
      (rank y.deletion_rank) x.object_id y.object_id h) [
        | inl earlier ↦ inl earlier
        | inr (f, g, inl lower) ↦ inr (f, g, inl (rank_lt x.deletion_rank y.deletion_rank lower))
        | inr (f, g, inr (same, ids)) ↦
            inr (f, g, inr (rank_eq x.deletion_rank y.deletion_rank same, ids))
      ]

pub AreInOrder-of_sorted : (cs : List PolicyCandidate) → IsSortedBy candidate_le cs → AreInOrder cs
AreInOrder-of_sorted [] h = tt
AreInOrder-of_sorted (c ∷ cs) h = (All-imp (GoesFirst-of_le c) cs h.0, AreInOrder-of_sorted cs h.1)

abbrev pub MayGo : ℤ → PolicyCandidate → Type 0
MayGo cutoff c = (c.protected ≡ false) × (c.effective_access_ms ≤ℤ cutoff)

abbrev pub MustStay : ℤ → PolicyCandidate → Type 0
MustStay cutoff c = (c.protected ≡ true) ⊎ Earlier cutoff c.effective_access_ms

-- The candidates are those that may go, selected or left over and in order, and those that must
-- stay.
pub record IsSplit (cutoff : ℤ) (candidates selected cut : List PolicyCandidate) : Type 0 where
  pub may_go : All (MayGo cutoff) (selected ++ cut)
  pub in_order : AreInOrder (selected ++ cut)
  pub others : List PolicyCandidate
  pub must_stay : All (MustStay cutoff) others
  pub all_there : Perm ((selected ++ cut) ++ others) candidates

module _ (cutoff : ℤ) where
  pub eligible_of-MayGo : (cs : List PolicyCandidate) → All (MayGo cutoff) (eligible_of cutoff cs)
  unfolding eligible_of is_eligible
  eligible_of-MayGo [] = tt
  eligible_of-MayGo (c ∷ cs) = elim (Bool-cases (is_eligible cutoff c)) [
    | inl yes' ↦ rw yes' ((ground arith, ground arith), eligible_of-MayGo cs)
    | inr no' ↦ rw no' (eligible_of-MayGo cs)
  ]

  stays : (c : PolicyCandidate) → is_eligible cutoff c ≡ false → MustStay cutoff c
  unfolding is_eligible
  stays c h = ground (arith, h)

  -- every candidate may go or must stay
  pub eligible_of-rest :
      (cs : List PolicyCandidate)
      → (others : List PolicyCandidate) × All (MustStay cutoff) others
        × Perm (eligible_of cutoff cs ++ others) cs
  unfolding eligible_of
  eligible_of-rest [] = ([], tt, Perm.refl [])
  eligible_of-rest (c ∷ cs) =
      let (others, stay, p) = eligible_of-rest cs in
      elim (Bool-cases (is_eligible cutoff c)) [
        | inl yes' ↦ (others, stay, rw yes' (Perm.cons c p))
        | inr no' ↦ (
          c ∷ others,
          (stays c no', stay),
          rw no' (Perm.trans (perm_middle (eligible_of cutoff cs) others) (Perm.cons c p)),
        )
      ]

key_total :
    (a b : ℤ) (i j : ℕ) (s t : Text) → key_le a i s b j t ≡ false → key_le b j t a i s ≡ true
unfolding key_le
key_total a b i j s t h = ground (arith, text_lt_asym t s)

key_trans :
    (a b c : ℤ) (i j k : ℕ) (s t u : Text)
    → key_le a i s b j t ≡ true
    → key_le b j t c k u ≡ true
    → key_le a i s c k u ≡ true
unfolding key_le
key_trans a b c i j k s t u h l = ground (arith, text_le_trans s t u)

pub le_total : (x y : PolicyCandidate) → candidate_le x y ≡ false → candidate_le y x ≡ true
unfolding candidate_le
le_total x y h =
    key_total x.effective_access_ms y.effective_access_ms (rank x.deletion_rank)
      (rank y.deletion_rank) x.object_id y.object_id h

pub le_trans :
    (x y z : PolicyCandidate)
    → candidate_le x y ≡ true
    → candidate_le y z ≡ true
    → candidate_le x z ≡ true
unfolding candidate_le
le_trans x y z h k =
    key_trans x.effective_access_ms y.effective_access_ms z.effective_access_ms
      (rank x.deletion_rank) (rank y.deletion_rank) (rank z.deletion_rank) x.object_id y.object_id
      z.object_id h k
