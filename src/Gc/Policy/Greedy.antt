-- ===== src/Gc/Policy/Greedy.antt =====
-- The loop of `GcPolicy::evaluate` of gc/policy.rs over the eligible candidates.
use bpm.Prelude.{
  ℕ, ◌+◌, ◌<◌, ◌≤◌, ◌≡◌, none, some, refl, sym, ap, ◌∙◌, true, false, Option, List, [], ◌∷◌, ◌++◌,
  ok, arith, inl, inr, ◌⊎◌, Bool-cases, Option-cases,
}
use mathlib.Core.List.{append_assoc, append-nil}
use mathlib.Core.Path.{subst}
use bpm.Prelude.Decimal.{checked_add, u64_mod}
use bpm.Gc.Policy.{PolicyCandidate, reached, select, bytes_to_reclaim}

abbrev pub sum_sizes : List PolicyCandidate → ℕ
sum_sizes [] = 0
sum_sizes (c ∷ cs) = c.size_bytes + sum_sizes cs

-- `cut` are the candidates left when the loop stops. Before each one taken the bytes asked for
-- were not reached, and the loop stops early only when they are.
pub record IsGreedy (to_reclaim : Option ℕ) (bytes : ℕ) (taken cut : List PolicyCandidate)
    : Type 0 where
  pub needed :
      (before : List PolicyCandidate) (c : PolicyCandidate) (after : List PolicyCandidate)
      → taken ≡ before ++ c ∷ after
      → reached to_reclaim (bytes + sum_sizes before) ≡ false
  pub enough : (cut ≡ []) ⊎ (reached to_reclaim (bytes + sum_sizes taken) ≡ true)

take_one :
    (r : Option ℕ) (bytes : ℕ) (c : PolicyCandidate) (taken cut : List PolicyCandidate)
    → reached r bytes ≡ false
    → IsGreedy r (bytes + c.size_bytes) taken cut
    → IsGreedy r bytes (c ∷ taken) cut
take_one r bytes c taken cut short g = record {
  needed = steps;
  enough = elim g.enough [
    | inl e ↦ inl e
    | inr h ↦ inr (subst (λ n. reached r n ≡ true) (omega arith) h)
  ];
}
  where
    steps :
        (before : List PolicyCandidate) (d : PolicyCandidate) (after : List PolicyCandidate)
        → (c ∷ taken) ≡ before ++ d ∷ after
        → reached r (bytes + sum_sizes before) ≡ false
    steps [] d after e = subst (λ n. reached r n ≡ false) (omega arith) short
    steps (f ∷ before) d after e =
        let same : c ≡ f = cc e in
        let tails : taken ≡ before ++ d ∷ after = cc e in
        let sizes : bytes + c.size_bytes + sum_sizes before ≡ bytes + sum_sizes (f ∷ before) =
          omega (arith, ap (λ (x : PolicyCandidate). x.size_bytes) same) in
        subst (λ n. reached r n ≡ false) sizes (g.needed before d after tails)

-- The same, by the cap: before each one taken more than the cap would have remained, and the
-- selection stops early only where no more than the cap remains.
pub record IsNeeded (cap : Option ℕ) (total : ℕ) (taken cut : List PolicyCandidate) : Type 0 where
  pub needed :
      (limit : ℕ) (before : List PolicyCandidate) (c : PolicyCandidate)
      (after : List PolicyCandidate)
      → cap ≡ some limit
      → taken ≡ before ++ c ∷ after
      → limit + sum_sizes before < total
  pub enough : (cut ≡ []) ⊎ ((limit : ℕ) × (cap ≡ some limit) × (total ≤ limit + sum_sizes taken))

pub IsNeeded-of_greedy :
    (cap : Option ℕ) (total : ℕ) (taken cut : List PolicyCandidate)
    → IsGreedy (bytes_to_reclaim cap total) 0 taken cut
    → IsNeeded cap total taken cut
IsNeeded-of_greedy none total taken cut g = record {
  needed = λ limit before c after e parts. absurd (cc e);
  enough = elim g.enough [ inl e ↦ inl e | inr h ↦ absurd (cc h) ];
}
IsNeeded-of_greedy (some cap) total taken cut g = record {
  needed = λ limit before c after e parts.
      let same : cap ≡ limit = cc e in ground (arith, g.needed before c after parts, same);
  enough = elim g.enough [ inl e ↦ inl e | inr h ↦ inr (cap, refl, ground (arith, h)) ];
}

-- what the loop adds to the selection `out` with `total` bytes
pub record IsOutcome (r : Option ℕ) (chosen : List PolicyCandidate) (bytes : ℕ)
    (cs : List PolicyCandidate) (out : List PolicyCandidate × ℕ) : Type 0 where
  pub taken : List PolicyCandidate
  pub cut : List PolicyCandidate
  pub parts : cs ≡ taken ++ cut
  pub adds : out.0 ≡ chosen ++ taken
  pub sums : out.1 ≡ bytes + sum_sizes taken
  pub fits : out.1 < u64_mod
  pub greedy : IsGreedy r bytes taken cut

stop :
    (r : Option ℕ) (chosen : List PolicyCandidate) (bytes : ℕ) (cs : List PolicyCandidate)
    → bytes < u64_mod
    → (cs ≡ []) ⊎ (reached r bytes ≡ true)
    → IsOutcome r chosen bytes cs (chosen, bytes)
stop r chosen bytes cs small ends = record {
  taken = [];
  cut = cs;
  parts = refl;
  adds = sym (append-nil chosen);
  sums = omega arith;
  fits = small;
  greedy = record {
    needed = λ before c after e. absurd (no_middle before c after e);
    enough = elim ends [
      | inl e ↦ inl e
      | inr h ↦ inr (subst (λ n. reached r n ≡ true) (omega arith) h)
    ];
  };
}
  where
    no_middle :
        (before : List PolicyCandidate) (c : PolicyCandidate) (after : List PolicyCandidate)
        → [] ≡ before ++ c ∷ after
        → ⊥
    no_middle [] c after e = cc
    no_middle (b ∷ before) c after e = cc

pub select_outcome :
    (r : Option ℕ) (chosen : List PolicyCandidate) (bytes : ℕ) (cs : List PolicyCandidate)
    {out : List PolicyCandidate × ℕ}
    → bytes < u64_mod
    → select r chosen bytes cs ≡ ok out
    → IsOutcome r chosen bytes cs out
unfolding select
select_outcome r chosen bytes [] {out} small h =
    let e : (chosen, bytes) ≡ out = cc h in
    subst (IsOutcome r chosen bytes []) e (stop r chosen bytes [] small (inl refl))
select_outcome r chosen bytes (c ∷ cs) {out} small h = elim (Bool-cases (reached r bytes)) [
  | inl done ↦
      let e : (chosen, bytes) ≡ out = ground (arith, done) in
      subst (IsOutcome r chosen bytes (c ∷ cs)) e (stop r chosen bytes (c ∷ cs) small (inr done))
  | inr short ↦ elim (Option-cases (checked_add bytes c.size_bytes)) [
    | inl over ↦ absurd (ground (arith, short, over))
    | inr (sum, e) ↦
        let is_sum : sum ≡ bytes + c.size_bytes = unfold checked_add in ground (arith, e) in
        let sum_fits : bytes + c.size_bytes < u64_mod = unfold checked_add in ground (arith, e) in
        let rest : select r (chosen ++ c ∷ []) (bytes + c.size_bytes) cs ≡ ok out =
          ground (arith, short, e, is_sum) in
        let o =
          select_outcome r (chosen ++ c ∷ []) (bytes + c.size_bytes) cs {out = out} sum_fits rest in
        record {
          taken = c ∷ o.taken;
          cut = o.cut;
          parts = ap (λ x. c ∷ x) o.parts;
          adds = o.adds ∙ append_assoc chosen (c ∷ []) o.taken;
          sums = omega (arith, o.sums);
          fits = o.fits;
          greedy = take_one r bytes c o.taken o.cut short o.greedy;
        }
  ]
]
