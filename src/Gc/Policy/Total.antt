-- ===== src/Gc/Policy/Total.antt =====
-- Where `GcPolicy::evaluate` of gc/policy.rs has an answer.
use bpm.Prelude.{
  ℕ, ◌+◌, ◌≤◌, ◌<◌, ◌≡◌, refl, true, Option, List, [], ◌∷◌, ◌++◌, ltb, leb, ok, arith, inl, inr,
  Bool-cases,
}
use bpm.Prelude.Int.{ℤ, pos, negsuc, ◌-ℤ◌, leb_ℤ, ◌≤ℤ◌}
use bpm.Prelude.Sort.{sort_by, insert_by}
use bpm.Prelude.Decimal.{checked_add, u64_mod}
use bpm.Prelude.Time.{as_millis}
use bpm.Gc.Policy.{
  PolicyCandidate, GcPolicy, PolicyEvaluation, candidate_le, eligible_of, reached, select,
  bytes_to_reclaim, cutoff_of, finish, evaluate, try_i64, checked_sub, i64_max,
}
use bpm.Gc.Policy.Greedy.{sum_sizes}

sum_sizes-insert :
    (c : PolicyCandidate) (cs : List PolicyCandidate)
    → sum_sizes (insert_by candidate_le c cs) ≡ c.size_bytes + sum_sizes cs
unfolding insert_by
sum_sizes-insert c [] = refl
sum_sizes-insert c (d ∷ cs) = elim (Bool-cases (candidate_le c d)) [
  | inl first ↦ rw first refl
  | inr later ↦ rw later (omega (arith, sum_sizes-insert c cs))
]

sum_sizes-sort : (cs : List PolicyCandidate) → sum_sizes (sort_by candidate_le cs) ≡ sum_sizes cs
unfolding sort_by
sum_sizes-sort [] = refl
sum_sizes-sort (c ∷ cs) =
    omega (arith, sum_sizes-insert c (sort_by candidate_le cs), sum_sizes-sort cs)

select_succeeds :
    (r : Option ℕ) (chosen : List PolicyCandidate) (bytes : ℕ) (cs : List PolicyCandidate)
    → bytes + sum_sizes cs < u64_mod
    → (out : List PolicyCandidate × ℕ) × (select r chosen bytes cs ≡ ok out)
unfolding select checked_add
select_succeeds r chosen bytes [] h = ((chosen, bytes), refl)
select_succeeds r chosen bytes (c ∷ cs) h = elim (Bool-cases (reached r bytes)) [
  | inl done ↦ ((chosen, bytes), rw done refl)
  | inr short ↦
      let fits : ltb (bytes + c.size_bytes) u64_mod ≡ true = ground arith in
      rw (short, fits)
        (select_succeeds r (chosen ++ c ∷ []) (bytes + c.size_bytes) cs (omega arith))
]

cutoff_succeeds :
    (policy : GcPolicy) (now_ms : ℤ)
    → as_millis policy.grace ≤ i64_max
    → negsuc i64_max ≤ℤ (now_ms -ℤ pos (as_millis policy.grace))
    → (now_ms -ℤ pos (as_millis policy.grace)) ≤ℤ pos i64_max
    → cutoff_of policy now_ms ≡ ok (now_ms -ℤ pos (as_millis policy.grace))
unfolding cutoff_of try_i64 checked_sub
cutoff_succeeds policy now_ms g low high =
    let a : leb (as_millis policy.grace) i64_max ≡ true = ground arith in
    let b : leb_ℤ (negsuc i64_max) (now_ms -ℤ pos (as_millis policy.grace)) ≡ true =
      ground (arith, low) in
    let d : leb_ℤ (now_ms -ℤ pos (as_millis policy.grace)) (pos i64_max) ≡ true =
      ground (arith, high) in
    rw a (rw (b, d) refl)

-- Where the grace period in milliseconds and the time that it ago was fit an `i64`, and the sizes of
-- the eligible candidates add up to a `u64`, the policy is evaluated without an error.
pub evaluate_succeeds :
    (policy : GcPolicy) (now_ms : ℤ) (total : ℕ) (candidates : List PolicyCandidate)
    → as_millis policy.grace ≤ i64_max
    → negsuc i64_max ≤ℤ (now_ms -ℤ pos (as_millis policy.grace))
    → (now_ms -ℤ pos (as_millis policy.grace)) ≤ℤ pos i64_max
    → sum_sizes (eligible_of (now_ms -ℤ pos (as_millis policy.grace)) candidates) < u64_mod
    → (ev : PolicyEvaluation) × (evaluate policy now_ms total candidates ≡ ok ev)
unfolding evaluate
evaluate_succeeds policy now_ms total candidates g low high sizes =
    let cutoff = now_ms -ℤ pos (as_millis policy.grace) in
    let ordered = sort_by candidate_le (eligible_of cutoff candidates) in
    let (out, e) =
      select_succeeds (bytes_to_reclaim policy.max_size_bytes total) [] 0 ordered
        (omega (arith, sum_sizes-sort (eligible_of cutoff candidates))) in
    (finish policy total out, rw (cutoff_succeeds policy now_ms g low high, e) refl)
