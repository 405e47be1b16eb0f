-- ===== src/Gc/Policy/Selection.antt =====
-- What `GcPolicy::evaluate` of gc/policy.rs selects.
use mathlib.Core.List.{Perm}
use mathlib.Core.List.Perm
use bpm.Prelude.{
  ℕ, ◌-◌, ◌<◌, ◌≤◌, ◌↔◌, ◌≡◌, none, some, Bool, refl, true, Option, List, [], ◌++◌, All, ok,
  ok_steps, arith,
}
use mathlib.Core.Path.{subst}
use bpm.Prelude.Int.{ℤ, pos, ◌-ℤ◌}
use bpm.Prelude.Sort.{sort_by, IsSortedBy, sort_by-IsSortedBy, sort_by-perm, sort_by-All}
use bpm.Prelude.Decimal.{u64_mod}
use bpm.Prelude.Time.{as_millis}
use bpm.Gc.Policy.Greedy.{
  sum_sizes, IsGreedy, IsOutcome, select_outcome, IsNeeded, IsNeeded-of_greedy,
}
use bpm.Gc.Policy.Ordered.{
  le_total, le_trans, MayGo, AreInOrder-of_sorted, IsSplit, eligible_of-MayGo, eligible_of-rest,
}
use bpm.Gc.Policy.{
  PolicyCandidate, GcPolicy, PolicyEvaluation, candidate_le, eligible_of, select, bytes_to_reclaim,
  within, cutoff_of, finish, evaluate, try_i64, checked_sub,
}

within_iff :
    (cap : Option ℕ) (remaining : ℕ) (reachable : Bool)
    → reachable ≡ within cap remaining
    → (reachable ≡ true) ↔ ((limit : ℕ) → cap ≡ some limit → remaining ≤ limit)
within_iff none remaining reachable e = (λ h limit f. absurd (cc f), λ h. e)
within_iff (some cap) remaining reachable e = (
  λ h limit f. let same : cap ≡ limit = cc f in ground (arith, e, h, same),
  λ h. ground (arith, e, h cap refl),
)

module _ (policy : GcPolicy) (now_ms : ℤ) (total : ℕ) (candidates : List PolicyCandidate) where
  ordered : ℤ → List PolicyCandidate
  ordered cutoff = sort_by candidate_le (eligible_of cutoff candidates)

  cutoff_is :
      {cutoff : ℤ}
      → cutoff_of policy now_ms ≡ ok cutoff
      → cutoff ≡ now_ms -ℤ pos (as_millis policy.grace)
  unfolding cutoff_of try_i64 checked_sub
  cutoff_is h = ground arith

  outcome :
      {ev : PolicyEvaluation}
      → evaluate policy now_ms total candidates ≡ ok ev
      → (cutoff : ℤ) × (out : List PolicyCandidate × ℕ) × (cutoff
          ≡ now_ms -ℤ pos (as_millis policy.grace))
        × IsOutcome (bytes_to_reclaim policy.max_size_bytes total) [] 0 (ordered cutoff) out
        × (ev ≡ finish policy total out)
  unfolding evaluate ordered
  outcome {ev} h =
      let (cutoff, c_ok, h1) = ok_steps _ (cutoff_of policy now_ms) h in
      let (out, s_ok, h2) =
        ok_steps _
          (select (bytes_to_reclaim policy.max_size_bytes total) [] 0
            (sort_by candidate_le (eligible_of cutoff candidates)))
          h1 in
      (cutoff, out, cutoff_is c_ok, select_outcome _ [] 0 _ {out = out} (omega arith) s_ok, cc h2)

  cutoff0 : ℤ
  cutoff0 = now_ms -ℤ pos (as_millis policy.grace)

  evaluated :
      {ev : PolicyEvaluation}
      → evaluate policy now_ms total candidates ≡ ok ev
      → (cut : List PolicyCandidate) × (ordered cutoff0 ≡ ev.selected ++ cut)
        × (ev.selected_bytes ≡ sum_sizes ev.selected)
        × (ev.selected_bytes < u64_mod)
        × (ev.remaining_bytes ≡ total - ev.selected_bytes)
        × (ev.cap_reachable ≡ within policy.max_size_bytes ev.remaining_bytes)
        × IsGreedy (bytes_to_reclaim policy.max_size_bytes total) 0 ev.selected cut
  unfolding cutoff0
  evaluated {ev} h =
      let (cutoff, out, at, o, e) = outcome {ev = ev} h in
      let chosen : out.0 ≡ o.taken = o.adds in
      let sums : out.1 ≡ sum_sizes out.0 = rw chosen (omega (arith, o.sums)) in
      rw e (o.cut, rw (← at, chosen) o.parts, sums, o.fits, refl, refl, rw chosen o.greedy)

  split :
      (selected cut : List PolicyCandidate)
      → ordered cutoff0 ≡ selected ++ cut
      → IsSplit cutoff0 candidates selected cut
  unfolding ordered
  split selected cut e =
      let eligible = eligible_of cutoff0 candidates in
      let (others, stay, p) = eligible_of-rest cutoff0 candidates in
      record {
        may_go = subst (All (MayGo cutoff0)) e (
            sort_by-All candidate_le (MayGo cutoff0) eligible
              (eligible_of-MayGo cutoff0 candidates));
        in_order = AreInOrder-of_sorted (selected ++ cut) (
            subst (IsSortedBy candidate_le) e
              (sort_by-IsSortedBy candidate_le le_total le_trans eligible));
        others = others;
        must_stay = stay;
        all_there =
            Perm.trans
              (Perm.append_right others
                (subst (λ l. Perm l eligible) e (sort_by-perm candidate_le eligible)))
              p;
      }

  -- The candidates are, in some order, those selected and left over, which are unprotected and were
  -- not used after the start of the grace period, and others, each of which is protected or was used
  -- after it. Those selected, and behind them those left over, are in the order of the time of use,
  -- at equal times plans before graphs, derived objects, images and artifacts, and for equal kinds
  -- in the order of the identifiers.
  pub evaluate_selection :
      (ev : PolicyEvaluation)
      → evaluate policy now_ms total candidates ≡ ok ev
      → (cut : List PolicyCandidate) × IsSplit
          (now_ms -ℤ pos (as_millis policy.grace))
          candidates
          ev.selected
          cut
  unfolding cutoff0
  evaluate_selection ev h =
      let (cut, e, sums, fits, rest, cap, greedy) = evaluated {ev = ev} h in
      (cut, split ev.selected cut e)

  -- The selected bytes are the sum of the selected sizes and fit a `u64`, the rest is what remains,
  -- and the cap counts as reachable exactly when, if there is one, the rest is no more than the cap.
  -- Before each selected candidate more than the cap would have remained, and candidates that may go
  -- are left over only where there is a cap and no more than the cap remains.
  pub evaluate_bytes :
      (ev : PolicyEvaluation)
      → evaluate policy now_ms total candidates ≡ ok ev
      → (ev.selected_bytes ≡ sum_sizes ev.selected)
        × (ev.selected_bytes < u64_mod)
        × (ev.remaining_bytes ≡ total - ev.selected_bytes)
        × ((ev.cap_reachable ≡ true)
            ↔ ((limit : ℕ) → policy.max_size_bytes ≡ some limit → ev.remaining_bytes ≤ limit))
        × ((cut : List PolicyCandidate) × IsSplit
              (now_ms -ℤ pos (as_millis policy.grace))
              candidates
              ev.selected
              cut
            × IsNeeded policy.max_size_bytes total ev.selected cut)
  unfolding cutoff0
  evaluate_bytes ev h =
      let (cut, e, sums, fits, rest, cap, greedy) = evaluated {ev = ev} h in
      (
        sums,
        fits,
        rest,
        within_iff policy.max_size_bytes ev.remaining_bytes ev.cap_reachable cap,
        (
          cut,
          split ev.selected cut e,
          IsNeeded-of_greedy policy.max_size_bytes total ev.selected cut greedy,
        ),
      )
