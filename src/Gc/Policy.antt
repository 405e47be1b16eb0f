-- ===== src/Gc/Policy.antt =====
-- src/gc/policy.rs: the grammar of ages and sizes, and the selection of what is collected. A `u64`
-- or `i64` is a number in its range; every operation on them is checked in the source.
pub mod Parsing
pub mod Greedy
pub mod Ordered
pub mod Selection
pub mod Total
mod Tests
use bpm.Prelude.{
  ℕ, zero, suc, ◌+◌, ◌-◌, ◌*◌, ◌^◌, Bool, true, false, not, ◌&&◌, ◌||◌, Option, none, some, List,
  [], ◌∷◌, ◌++◌, ltb, leb, ◌==◌, if◌then◌else◌, length, all, Result, ok, err, ◌>>=◌,
}
use bpm.Prelude.Int.{ℤ, pos, negsuc, ◌-ℤ◌, leb_ℤ, ltb_ℤ}
use bpm.Prelude.Text.{Text, txt, text_eq, is_empty}
use bpm.Prelude.Map.{text_lt}
use bpm.Prelude.Sort.{sort_by}
use bpm.Prelude.Decimal.{is_ascii_digit, parse_digits, checked_mul, checked_add, decimal}
use bpm.Prelude.Time.{Duration, from_secs, as_millis}

abbrev pub seconds_per_minute : ℕ
seconds_per_minute = 60

abbrev pub seconds_per_hour : ℕ
seconds_per_hour = 60 * seconds_per_minute

abbrev pub seconds_per_day : ℕ
seconds_per_day = 24 * seconds_per_hour

abbrev pub seconds_per_week : ℕ
seconds_per_week = 7 * seconds_per_day

abbrev pub default_grace : Duration
default_grace = from_secs (30 * seconds_per_day)

pub record PolicyError : Type 0 where
  pub input : Text
  pub reason : Text

abbrev pub policy_error : Text → Text → PolicyError
policy_error input reason = record { input = input; reason = reason }

-- `ok_or_else`
abbrev pub or_error {ℓ} : {A : Type ℓ} → Option A → PolicyError → Result A PolicyError
or_error none e = err e
or_error (some a) e = ok a

-- the bytes that `take_while(u8::is_ascii_digit)` takes, and the rest
abbrev put_digit : ℕ → Text × Text → Text × Text
put_digit c (digits, rest) = (c ∷ digits, rest)

unfoldable pub split_digits : Text → Text × Text
split_digits [] = ([], [])
split_digits (c ∷ s) =
    let rest = put_digit c (split_digits s) in if is_ascii_digit c then rest else ([], c ∷ s)

unfoldable pub split_number_and_suffix : Text → Result (Text × Text) PolicyError
split_number_and_suffix input =
    if not (all (λ c. ltb c 128) input)
    then err (policy_error input (txt "only ASCII input is accepted"))
    else if is_empty (split_digits input).0 || is_empty (split_digits input).1
    then err (policy_error input (txt "a positive integer and unit suffix are required"))
    else ok (split_digits input)

unfoldable pub parse_positive_integer : Text → Text → Result ℕ PolicyError
parse_positive_integer input digits =
    or_error (parse_digits digits) (policy_error input (txt "numeric value is too large"))
    >>= λ value.
        if value == 0
        then err (policy_error input (txt "value must be greater than zero"))
        else ok value

unfoldable pub duration_unit : Text → Option ℕ
duration_unit suffix =
    if text_eq suffix (txt "s")
    then some 1
    else if text_eq suffix (txt "m")
    then some seconds_per_minute
    else if text_eq suffix (txt "h")
    then some seconds_per_hour
    else if text_eq suffix (txt "d")
    then some seconds_per_day
    else if text_eq suffix (txt "w")
    then some seconds_per_week
    else none

unfoldable pub parse_duration : Text → Result Duration PolicyError
parse_duration input = split_number_and_suffix input >>= λ parts.
    or_error (duration_unit parts.1) (
      policy_error input
        (txt "expected a positive integer followed by s, m, h, d, or w (for example `30d`)"))
    >>= λ unit_seconds. parse_positive_integer input parts.0 >>= λ value.
        or_error (checked_mul value unit_seconds)
          (policy_error input (txt "duration is too large to represent safely"))
        >>= λ seconds. ok (from_secs seconds)

unfoldable pub byte_unit : Text → Option ℕ
byte_unit suffix =
    if text_eq suffix (txt "B")
    then some 1
    else if text_eq suffix (txt "KB")
    then some 1_000
    else if text_eq suffix (txt "MB")
    then some 1_000_000
    else if text_eq suffix (txt "GB")
    then some 1_000_000_000
    else if text_eq suffix (txt "TB")
    then some 1_000_000_000_000
    else none

abbrev pub i64_max : ℕ
i64_max = 2 ^ 63 - 1

unfoldable pub parse_byte_size : Text → Result ℕ PolicyError
parse_byte_size input = split_number_and_suffix input >>= λ parts.
    or_error (byte_unit parts.1) (
      policy_error input
        (txt "expected a positive integer followed by B, KB, MB, GB, or TB (for example `50GB`)"))
    >>= λ multiplier. parse_positive_integer input parts.0 >>= λ value.
        or_error (checked_mul value multiplier)
          (policy_error input (txt "size is too large to represent safely"))
        >>= λ bytes.
            if ltb i64_max bytes
            then err (
                policy_error input
                  (txt "size exceeds the metadata database limit of 9223372036854775807 bytes"))
            else ok bytes

pub data DeletionRank : Type 0 where
  plan graph derived image artifact : DeletionRank

-- the derived order: by declaration
unfoldable pub rank : DeletionRank → ℕ
rank plan = 0
rank graph = 1
rank derived = 2
rank image = 3
rank artifact = 4

pub record PolicyCandidate : Type 0 where
  pub effective_access_ms : ℤ
  pub deletion_rank : DeletionRank
  pub object_id : Text
  pub size_bytes : ℕ
  pub protected : Bool

pub record GcPolicy : Type 0 where
  pub grace : Duration
  pub max_size_bytes : Option ℕ

abbrev pub default_policy : GcPolicy
default_policy = record { grace = default_grace; max_size_bytes = none }

pub record PolicyEvaluation : Type 0 where
  pub selected : List PolicyCandidate
  pub selected_bytes : ℕ
  pub remaining_bytes : ℕ
  pub cap_reachable : Bool

-- `i64::try_from` of a number that is not negative, and `checked_sub` of `i64`
unfoldable pub try_i64 : ℕ → Option ℕ
try_i64 n = if leb n i64_max then some n else none

unfoldable pub checked_sub : ℤ → ℕ → Option ℤ
checked_sub a n =
    let d = a -ℤ pos n in if leb_ℤ (negsuc i64_max) d && leb_ℤ d (pos i64_max) then some d else none

-- `i64::to_string`
unfoldable pub signed_decimal : ℤ → Text
signed_decimal (pos n) = decimal n
signed_decimal (negsuc n) = b'-' ∷ decimal (suc n)

unfoldable pub is_eligible : ℤ → PolicyCandidate → Bool
is_eligible cutoff c = not c.protected && leb_ℤ c.effective_access_ms cutoff

unfoldable pub eligible_of : ℤ → List PolicyCandidate → List PolicyCandidate
eligible_of cutoff [] = []
eligible_of cutoff (c ∷ cs) =
    let rest = eligible_of cutoff cs in if is_eligible cutoff c then c ∷ rest else rest

-- the order of the triples (access, rank, id): `cmp` is not `Greater`
unfoldable pub key_le : ℤ → ℕ → Text → ℤ → ℕ → Text → Bool
key_le a i s b j t =
    if ltb_ℤ a b
    then true
    else if ltb_ℤ b a
    then false
    else if ltb i j
    then true
    else if ltb j i
    then false
    else not (text_lt t s)

unfoldable pub candidate_le : PolicyCandidate → PolicyCandidate → Bool
unfolding key_le
candidate_le left right =
    key_le left.effective_access_ms (rank left.deletion_rank) left.object_id
      right.effective_access_ms (rank right.deletion_rank) right.object_id

abbrev pub reached : Option ℕ → ℕ → Bool
reached none bytes = false
reached (some required) bytes = leb required bytes

-- the loop over the eligible candidates
unfoldable pub select :
    Option ℕ
    → List PolicyCandidate
    → ℕ
    → List PolicyCandidate
    → Result (List PolicyCandidate × ℕ) PolicyError
select to_reclaim selected bytes [] = ok (selected, bytes)
select to_reclaim selected bytes (c ∷ cs) =
    let go_on : Result (List PolicyCandidate × ℕ) PolicyError =
      elim (checked_add bytes c.size_bytes) [
        | none ↦ err (
            policy_error c.object_id
              (txt "selected object sizes overflow the supported byte count"))
        | some sum ↦ select to_reclaim (selected ++ c ∷ []) sum cs
      ] in
    if reached to_reclaim bytes then ok (selected, bytes) else go_on

-- `max_size_bytes.map(|cap| total.saturating_sub(cap))`
abbrev pub bytes_to_reclaim : Option ℕ → ℕ → Option ℕ
bytes_to_reclaim none total = none
bytes_to_reclaim (some cap) total = some (total - cap)

-- `is_none_or(|cap| remaining <= cap)`
abbrev pub within : Option ℕ → ℕ → Bool
within none remaining = true
within (some cap) remaining = leb remaining cap

unfoldable pub cutoff_of : GcPolicy → ℤ → Result ℤ PolicyError
cutoff_of policy now_ms =
    or_error (try_i64 (as_millis policy.grace)) (
      policy_error (decimal (as_millis policy.grace) ++ txt "ms")
        (txt "grace period is too large to compare with timestamps"))
    >>= λ grace_ms. or_error (checked_sub now_ms grace_ms) (
        policy_error (signed_decimal now_ms)
          (txt "current time is earlier than the configured grace period"))

-- `remaining_bytes`, `cap_reachable` and the record
abbrev pub finish : GcPolicy → ℕ → List PolicyCandidate × ℕ → PolicyEvaluation
finish policy total (selected, bytes) = record {
  selected = selected;
  selected_bytes = bytes;
  remaining_bytes = total - bytes;
  cap_reachable = within policy.max_size_bytes (total - bytes);
}

unfoldable pub evaluate :
    GcPolicy → ℤ → ℕ → List PolicyCandidate → Result PolicyEvaluation PolicyError
evaluate policy now_ms total candidates = cutoff_of policy now_ms >>= λ cutoff.
    select (bytes_to_reclaim policy.max_size_bytes total) [] 0
      (sort_by candidate_le (eligible_of cutoff candidates))
    >>= λ outcome. ok (finish policy total outcome)
