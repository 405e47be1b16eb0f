-- ===== src/Gc/Policy/Tests.antt =====
-- Three candidates through the policy of gc/policy.rs, and the theorems at them.
use bpm.Prelude.{
  ◌≡◌, ◌<◌, ◌≤◌, ◌↔◌, ◌*◌, ◌-◌, refl, false, true, some, List, [], ◌∷◌, ◌++◌, arith, ok, ℕ, Bool,
}
use bpm.Prelude.Int.{pos, ◌-ℤ◌}
use bpm.Prelude.Text.{Text, txt, text_eq}
use bpm.Prelude.Map.{text_lt}
use bpm.Prelude.Sort.{sort_by, insert_by}
use bpm.Prelude.Decimal.{
  checked_add, u64_mod, decimal, is_ascii_digit, parse_digits, digits_value, checked_mul,
}
use bpm.Prelude.Time.{from_secs}
use bpm.Gc.Policy.{
  PolicyCandidate, GcPolicy, PolicyEvaluation, DeletionRank, plan, image, graph, rank, key_le,
  candidate_le, is_eligible, eligible_of, select, cutoff_of, try_i64, checked_sub, evaluate,
  split_digits, split_number_and_suffix, parse_positive_integer, duration_unit, byte_unit,
  parse_duration, parse_byte_size, seconds_per_day,
}
use bpm.Gc.Policy.Greedy.{sum_sizes, IsNeeded}
use bpm.Gc.Policy.Ordered.{IsSplit}
use bpm.Gc.Policy.Selection.{evaluate_selection, evaluate_bytes}
use bpm.Gc.Policy.Total.{evaluate_succeeds}
use bpm.Gc.Policy.Parsing.{parse_duration_roundtrip}

abbrev candidate : ℕ → DeletionRank → Text → ℕ → Bool → PolicyCandidate
candidate at kind id size kept = record {
  effective_access_ms = pos at;
  deletion_rank = kind;
  object_id = id;
  size_bytes = size;
  protected = kept;
}

abbrev old_image : PolicyCandidate
old_image = candidate 10 image (txt "a") 40 false

abbrev old_plan : PolicyCandidate
old_plan = candidate 10 plan (txt "b") 30 false

abbrev kept_graph : PolicyCandidate
kept_graph = candidate 5 graph (txt "c") 30 true

abbrev recent_plan : PolicyCandidate
recent_plan = candidate 9500 plan (txt "d") 30 false

abbrev older_plan : PolicyCandidate
older_plan = candidate 11 plan (txt "e") 30 false

abbrev objects : List PolicyCandidate
objects = old_image ∷ kept_graph ∷ older_plan ∷ recent_plan ∷ old_plan ∷ []

abbrev capped : GcPolicy
capped = record { grace = from_secs 1; max_size_bytes = some 100 }

abbrev outcome : PolicyEvaluation
outcome = record {
  selected = old_plan ∷ old_image ∷ [];
  selected_bytes = 70;
  remaining_bytes = 90;
  cap_reachable = true;
}

capped_run : evaluate capped (pos 10_000) 160 objects ≡ ok outcome
unfolding evaluate cutoff_of try_i64 checked_sub ◌-ℤ◌ select checked_add eligible_of is_eligible
    sort_by insert_by candidate_le key_le rank text_lt
capped_run = refl

read_age : parse_duration (txt "30d") ≡ ok (from_secs (30 * seconds_per_day))
unfolding parse_duration split_number_and_suffix split_digits parse_positive_integer duration_unit
    checked_mul is_ascii_digit parse_digits digits_value text_eq
read_age = refl

read_size : parse_byte_size (txt "50GB") ≡ ok 50_000_000_000
unfolding parse_byte_size split_number_and_suffix split_digits parse_positive_integer byte_unit
    checked_mul is_ascii_digit parse_digits digits_value text_eq
read_size = refl

evaluate_selection_example :
    (cut : List PolicyCandidate) × IsSplit (pos 10_000 -ℤ pos 1000) objects outcome.selected cut
evaluate_selection_example = evaluate_selection capped (pos 10_000) 160 objects outcome capped_run

evaluate_bytes_example :
    (70 ≡ sum_sizes outcome.selected)
    × (70 < u64_mod)
    × (90 ≡ 160 - 70)
    × ((outcome.cap_reachable ≡ true)
        ↔ ((limit : ℕ) → capped.max_size_bytes ≡ some limit → 90 ≤ limit))
    × ((cut : List PolicyCandidate) × IsSplit (pos 10_000 -ℤ pos 1000) objects outcome.selected cut
        × IsNeeded (some 100) 160 outcome.selected cut)
evaluate_bytes_example = evaluate_bytes capped (pos 10_000) 160 objects outcome capped_run

evaluate_succeeds_example :
    (ev : PolicyEvaluation) × (evaluate capped (pos 10_000) 160 objects ≡ ok ev)
unfolding ◌-ℤ◌ eligible_of is_eligible
evaluate_succeeds_example =
    evaluate_succeeds capped (pos 10_000) 160 objects (omega arith) (omega arith) (omega arith)
      (omega arith)

parse_duration_roundtrip_example :
    parse_duration (decimal 30 ++ txt "d") ≡ ok (from_secs (30 * 86400))
unfolding duration_unit text_eq
parse_duration_roundtrip_example =
    parse_duration_roundtrip 30 (txt "d") 86400 refl (omega arith) (omega arith)
