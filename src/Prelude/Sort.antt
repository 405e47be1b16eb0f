-- ===== src/Prelude/Sort.antt =====
-- Rust's stable `sort_by`, as insertion sort by a Boolean order.
use bpm.Prelude.Tests.{if◌then◌else◌, Bool-cases}
use bpm.Prelude.Lists.{All, All-imp, Elem}
use mathlib.Core.Path.{◌≡◌, refl, ap, ◌∙◌, subst, subst₂}
use mathlib.Core.Logic.{◌⊎◌, inl, inr}
use mathlib.Core.Bool.{Bool, true, false, ◌&&◌}
use mathlib.Core.List.{List, [], ◌∷◌, Perm, Permᴰ}
use mathlib.Core.List.Perm
use native.Mathlib.Omega.{arith}

module _ {A : Type 0} (le : A → A → Bool) where
  unfoldable pub insert_by : A → List A → List A
  insert_by x [] = x ∷ []
  insert_by x (y ∷ ys) = let rest = insert_by x ys in if le x y then x ∷ y ∷ ys else y ∷ rest

  unfoldable pub sort_by : List A → List A
  unfolding insert_by
  sort_by [] = []
  sort_by (x ∷ xs) = insert_by x (sort_by xs)

  abbrev pub IsSortedBy : List A → Type 0
  IsSortedBy [] = Unit
  IsSortedBy (x ∷ xs) = All (λ y. le x y ≡ true) xs × IsSortedBy xs

  pub insert_by-perm : (x : A) (xs : List A) → Perm (insert_by x xs) (x ∷ xs)
  unfolding insert_by
  insert_by-perm x [] = Perm.refl (x ∷ [])
  insert_by-perm x (y ∷ ys) = elim (Bool-cases (le x y)) [
    | inl first ↦ rw first (Perm.refl (x ∷ y ∷ ys))
    | inr later ↦ rw later (Perm.trans (Perm.cons y (insert_by-perm x ys)) (Perm.swap x y ys))
  ]

  -- `sort_by` permutes
  pub sort_by-perm : (xs : List A) → Perm (sort_by xs) xs
  unfolding sort_by
  sort_by-perm [] = Perm.refl []
  sort_by-perm (x ∷ xs) = Perm.trans (insert_by-perm x (sort_by xs)) (Perm.cons x (sort_by-perm xs))

  pub insert_by-All {κ} :
      (P : A → Type κ) (x : A) (xs : List A) → P x → All P xs → All P (insert_by x xs)
  unfolding insert_by
  insert_by-All P x [] p h = (p, tt)
  insert_by-All P x (y ∷ ys) p h = elim (Bool-cases (le x y)) [
    | inl first ↦ rw first (p, h)
    | inr later ↦ rw later (h.0, insert_by-All P x ys p h.1)
  ]

  pub sort_by-All {κ} : (P : A → Type κ) (xs : List A) → All P xs → All P (sort_by xs)
  unfolding sort_by
  sort_by-All P [] h = tt
  sort_by-All P (x ∷ xs) h = insert_by-All P x (sort_by xs) h.0 (sort_by-All P xs h.1)

  pub Elem-insert_by : (a x : A) (xs : List A) → Elem a (insert_by x xs) → (a ≡ x) ⊎ Elem a xs
  unfolding insert_by
  Elem-insert_by a x [] m = m
  Elem-insert_by a x (y ∷ ys) m = elim (Bool-cases (le x y)) [
    | inl first ↦ rw first at m
    | inr later ↦ elim (rw later at m) [
      | inl e ↦ inr (inl e)
      | inr n ↦ elim (Elem-insert_by a x ys n) [ inl e ↦ inl e | inr k ↦ inr (inr k) ]
    ]
  ]

  insert_by-All_of {κ} :
      (P : A → Type κ) (x : A) (xs : List A) → All P (insert_by x xs) → P x × All P xs
  unfolding insert_by
  insert_by-All_of P x [] h = h
  insert_by-All_of P x (y ∷ ys) h = elim (Bool-cases (le x y)) [
    | inl first ↦ rw first at h
    | inr later ↦
        let found = rw later at h in
        let (p, rest) = insert_by-All_of P x ys found.1 in (p, (found.0, rest))
  ]

  -- what holds of all of the sorted list holds of all of the list
  pub sort_by-All_of {κ} : (P : A → Type κ) (xs : List A) → All P (sort_by xs) → All P xs
  unfolding sort_by
  sort_by-All_of P [] h = tt
  sort_by-All_of P (x ∷ xs) h =
      let (p, rest) = insert_by-All_of P x (sort_by xs) h in (p, sort_by-All_of P xs rest)

  pub Elem-sort_by : (a : A) (xs : List A) → Elem a (sort_by xs) → Elem a xs
  unfolding sort_by
  Elem-sort_by a [] m = m
  Elem-sort_by a (x ∷ xs) m = elim (Elem-insert_by a x (sort_by xs) m) [
    | inl e ↦ inl e
    | inr n ↦ inr (Elem-sort_by a xs n)
  ]

  -- a sorted list is left as it is
  pub sort_by_of_IsSortedBy : (xs : List A) → IsSortedBy xs → sort_by xs ≡ xs
  unfolding sort_by
  sort_by_of_IsSortedBy [] h = refl
  sort_by_of_IsSortedBy (x ∷ []) h = refl
  sort_by_of_IsSortedBy (x ∷ y ∷ ys) h =
      ap (insert_by x) (sort_by_of_IsSortedBy (y ∷ ys) h.1) ∙ rw (h.0.0, insert_by)

  -- the order tells any two elements of the list apart
  abbrev pub AllApart : List A → Type 0
  AllApart [] = Unit
  AllApart (x ∷ xs) = All (λ y. (le x y && le y x) ≡ false) xs × AllApart xs

  All-perm : (P : A → Type 0) {xs ys : List A} → Permᴰ xs ys → All P xs → All P ys
  All-perm P Permᴰ.nil h = tt
  All-perm P (Permᴰ.cons e p) h = (subst P e h.0, All-perm P p h.1)
  All-perm P (Permᴰ.swap e f) h = (subst P f h.1.0, (subst P e h.0, h.1.1))
  All-perm P (Permᴰ.trans p q) h = All-perm P q (All-perm P p h)

  AllApart-swap : (a b : A) (l : List A) → AllApart (a ∷ b ∷ l) → AllApart (b ∷ a ∷ l)
  AllApart-swap a b l h = ((ground (arith, h.0.0), h.1.0), (h.0.1, h.1.1))

  AllApart-perm : {xs ys : List A} → Permᴰ xs ys → AllApart xs → AllApart ys
  AllApart-perm Permᴰ.nil h = tt
  AllApart-perm (Permᴰ.cons {a = a} {l₂ = l} e p) h =
      subst (λ b. AllApart (b ∷ l)) e
        (All-perm (λ y. (le a y && le y a) ≡ false) p h.0, AllApart-perm p h.1)
  AllApart-perm (Permᴰ.swap {a = a} {b = b} {l = l} e f) h =
      subst₂ (λ x y. AllApart (x ∷ y ∷ l)) f e (AllApart-swap a b l h)
  AllApart-perm (Permᴰ.trans p q) h = AllApart-perm q (AllApart-perm p h)

  module _ (total : (x y : A) → le x y ≡ false → le y x ≡ true)
      (trans : (x y z : A) → le x y ≡ true → le y z ≡ true → le x z ≡ true) where
    insert_by-IsSortedBy : (x : A) (xs : List A) → IsSortedBy xs → IsSortedBy (insert_by x xs)
    unfolding insert_by
    insert_by-IsSortedBy x [] h = (tt, tt)
    insert_by-IsSortedBy x (y ∷ ys) h = elim (Bool-cases (le x y)) [
      | inl first ↦ rw first ((first, All-imp (λ z yz. trans x y z first yz) ys h.0), h)
      | inr later ↦ rw later (
        insert_by-All (λ z. le y z ≡ true) x ys (total x y later) h.0,
        insert_by-IsSortedBy x ys h.1,
      )
    ]

    -- `sort_by` sorts
    pub sort_by-IsSortedBy : (xs : List A) → IsSortedBy (sort_by xs)
    unfolding sort_by
    sort_by-IsSortedBy [] = tt
    sort_by-IsSortedBy (x ∷ xs) = insert_by-IsSortedBy x (sort_by xs) (sort_by-IsSortedBy xs)

    -- two elements that the order tells apart may be inserted either way round
    insert_by_comm :
        (x y : A) (l : List A)
        → (le x y && le y x) ≡ false
        → insert_by x (insert_by y l) ≡ insert_by y (insert_by x l)
    unfolding insert_by
    insert_by_comm x y [] apart = ground (arith, total x y, total y x)
    insert_by_comm x y (z ∷ l) apart = ground (
      arith,
      insert_by_comm x y l apart,
      total x y,
      total y x,
      total x z,
      total y z,
      trans x y z,
      trans y x z,
      trans x z y,
      trans y z x,
    )

    -- Two lists with the same elements have one sorted form, if the order tells them apart.
    pub sort_by-eq_of_perm : {xs ys : List A} → Permᴰ xs ys → AllApart xs → sort_by xs ≡ sort_by ys
    unfolding sort_by
    sort_by-eq_of_perm Permᴰ.nil h = refl
    sort_by-eq_of_perm (Permᴰ.cons e p) h = rw e (ap (insert_by _) (sort_by-eq_of_perm p h.1))
    sort_by-eq_of_perm (Permᴰ.swap {a = a} {b = b} {l = l} e f) h =
        rw (← e, ← f) (insert_by_comm a b (sort_by l) h.0.0)
    sort_by-eq_of_perm (Permᴰ.trans p q) h =
        sort_by-eq_of_perm p h ∙ sort_by-eq_of_perm q (AllApart-perm p h)
