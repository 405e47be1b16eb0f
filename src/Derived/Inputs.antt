-- ===== src/Derived/Inputs.antt =====
-- src/derived/key.rs: what the key of a derived image tells of its inputs.
use bpm.Prelude.{
  ℕ, Option, none, some, List, [], ◌∷◌, ◌++◌, map, length, ◌≡◌, ◌≢◌, ◌⊎◌, ◌↔◌, inl, inr, refl, ap,
  arith, Bool-cases,
}
use bpm.Prelude.Text.{Text, txt, text_eq, text_eq→eq, text_ne_of}
use bpm.Prelude.Map.{Map, get}
use bpm.Prelude.Sort.{sort_by}
use bpm.Prelude.Bytes.{
  bytes, bytes-injective, write_le-IsReadable, write_bytes-IsReadable, append-same_length,
}
use bpm.Prelude.Readable.{append-cancel}
use bpm.Derived.Key.{
  DerivedInputs, TargetDescriptor, RuntimeIdentity, write_tagged, write_optional_field,
  option_bytes, write_phases, entry_le, write_environment, write_header, write_counted_environment,
  write_versions, key_bytes, derived_key,
}

pub write_tagged-IsReadable :
    (t u : Text) (a b s r : List ℕ)
    → write_tagged t a s ≡ write_tagged u b r
    → (t ≡ u) × (a ≡ b) × (s ≡ r)
unfolding write_tagged
write_tagged-IsReadable t u a b s r h =
    let (l, h1) = write_le-IsReadable 3 (length t) (length u) _ _ h in
    let (e, h2) = append-same_length t u _ _ l h1 in
    let (f, end) = write_bytes-IsReadable a b s r h2 in (e, f, end)

write_optional_field-IsReadable :
    (tag : Text) (a b : Option (List ℕ)) (s r : List ℕ)
    → write_optional_field tag a s ≡ write_optional_field tag b r
    → (a ≡ b) × (s ≡ r)
unfolding write_optional_field
write_optional_field-IsReadable tag none none s r h =
    let (_, _, h1) = write_tagged-IsReadable _ _ _ _ _ _ h in
    let (_, _, end) = write_tagged-IsReadable tag tag _ _ s r h1 in (refl, end)
write_optional_field-IsReadable tag none (some b) s r h =
    let (_, e, _) = write_tagged-IsReadable _ _ _ _ _ _ h in absurd (ground (arith, e))
write_optional_field-IsReadable tag (some a) none s r h =
    let (_, e, _) = write_tagged-IsReadable _ _ _ _ _ _ h in absurd (ground (arith, e))
write_optional_field-IsReadable tag (some a) (some b) s r h =
    let (_, _, h1) = write_tagged-IsReadable _ _ _ _ _ _ h in
    let (_, e, end) = write_tagged-IsReadable tag tag a b s r h1 in (ap some e, end)

option_bytes-injective : (a b : Option Text) → option_bytes a ≡ option_bytes b → a ≡ b
option_bytes-injective none none h = refl
option_bytes-injective none (some b) h = cc
option_bytes-injective (some a) none h = cc
option_bytes-injective (some a) (some b) h = ap some (bytes-injective a b (cc h))

-- an optional text
option_text-IsReadable :
    (tag : Text) (a b : Option Text) (s r : List ℕ)
    → write_optional_field tag (option_bytes a) s ≡ write_optional_field tag (option_bytes b) r
    → (a ≡ b) × (s ≡ r)
option_text-IsReadable tag a b s r h =
    let (e, end) = write_optional_field-IsReadable tag (option_bytes a) (option_bytes b) s r h in
    (option_bytes-injective a b e, end)

-- a text
text-IsReadable :
    (tag : Text) (a b : Text) (s r : List ℕ)
    → write_tagged tag (bytes a) s ≡ write_tagged tag (bytes b) r
    → (a ≡ b) × (s ≡ r)
text-IsReadable tag a b s r h =
    let (_, e, end) = write_tagged-IsReadable tag tag (bytes a) (bytes b) s r h in
    (bytes-injective a b e, end)

-- the phases in order, each with its command
abbrev pub phase_commands : Map Text → List Text → List (Text × Option Text)
phase_commands scripts = map (λ phase. (phase, get phase scripts))

-- The phases end where the number of the environment's entries stands.
write_phases-Agree :
    (x y : Map Text) (ps qs : List Text) (a b s r : List ℕ)
    → write_phases x ps (write_tagged (txt "environment.count") a s)
      ≡ write_phases y qs (write_tagged (txt "environment.count") b r)
    → (phase_commands x ps ≡ phase_commands y qs) × (a ≡ b) × (s ≡ r)
unfolding write_phases
write_phases-Agree x y [] [] a b s r h =
    let (_, e, end) = write_tagged-IsReadable _ _ _ _ _ _ h in (refl, e, end)
write_phases-Agree x y [] (q ∷ qs) a b s r h =
    let (e, _, _) = write_tagged-IsReadable _ _ _ _ _ _ h in absurd (ground (arith, e))
write_phases-Agree x y (p ∷ ps) [] a b s r h =
    let (e, _, _) = write_tagged-IsReadable _ _ _ _ _ _ h in absurd (ground (arith, e))
write_phases-Agree x y (p ∷ ps) (q ∷ qs) a b s r h =
    let (e, h1) = text-IsReadable (txt "script.phase") p q _ _ h in
    let (f, h2) = option_text-IsReadable (txt "script.command") (get p x) (get q y) _ _ h1 in
    let (g, k, end) = write_phases-Agree x y ps qs a b s r h2 in (cc (e, f, g), k, end)

write_environment-Agree :
    (xs ys : List (List ℕ × List ℕ)) (s r : List ℕ)
    → length xs ≡ length ys
    → write_environment xs s ≡ write_environment ys r
    → (xs ≡ ys) × (s ≡ r)
unfolding write_environment
write_environment-Agree [] [] s r l h = (refl, h)
write_environment-Agree [] (y ∷ ys) s r l h = absurd (omega (arith, l))
write_environment-Agree (x ∷ xs) [] s r l h = absurd (omega (arith, l))
write_environment-Agree ((n, v) ∷ xs) ((m, w) ∷ ys) s r l h =
    let (_, e, h1) = write_tagged-IsReadable _ _ _ _ _ _ h in
    let (_, f, h2) = write_tagged-IsReadable _ _ _ _ _ _ h1 in
    let (g, end) = write_environment-Agree xs ys s r (omega (arith, l)) h2 in (cc (e, f, g), end)

-- What identifies a derived image. Of the scripts these are the phases' commands, and the
-- environment has no order.
pub record InputFacts : Type 0 where
  pub source_artifact : List ℕ
  pub source_revision : Option Text
  pub dependency_graph : List ℕ
  pub target : TargetDescriptor
  pub runtime : RuntimeIdentity
  pub commands : List (Text × Option Text)
  pub environment : List (List ℕ × List ℕ)
  pub runner_version : ℕ
  pub policy_version : ℕ

abbrev pub input_facts : DerivedInputs → InputFacts
input_facts i = record {
  source_artifact = i.source_artifact;
  source_revision = i.source_revision;
  dependency_graph = i.dependency_graph;
  target = i.target;
  runtime = i.runtime;
  commands = phase_commands i.scripts i.phases;
  environment = sort_by entry_le i.environment;
  runner_version = i.runner_version;
  policy_version = i.policy_version;
}

-- the fields in front of the phases
record HeaderFacts : Type 0 where
  source_artifact : List ℕ
  source_revision : Option Text
  dependency_graph : List ℕ
  target : TargetDescriptor
  runtime : RuntimeIdentity

abbrev header_facts : DerivedInputs → HeaderFacts
header_facts i = record {
  source_artifact = i.source_artifact;
  source_revision = i.source_revision;
  dependency_graph = i.dependency_graph;
  target = i.target;
  runtime = i.runtime;
}

write_header-Agree :
    (a b : DerivedInputs) (s r : List ℕ)
    → write_header a s ≡ write_header b r
    → (header_facts a ≡ header_facts b) × (s ≡ r)
unfolding write_header
write_header-Agree a b s r h0 =
    let (_, e1, h1) = write_tagged-IsReadable _ _ _ _ _ _ h0 in
    let (e2, h2) =
      option_text-IsReadable (txt "source.revision") a.source_revision b.source_revision _ _ h1 in
    let (_, e3, h3) = write_tagged-IsReadable _ _ _ _ _ _ h2 in
    let (e4, h4) = text-IsReadable (txt "target.os") a.target.os b.target.os _ _ h3 in
    let (e5, h5) =
      text-IsReadable (txt "target.architecture") a.target.architecture b.target.architecture _ _
        h4 in
    let (e6, h6) = text-IsReadable (txt "target.family") a.target.family b.target.family _ _ h5 in
    let (e7, h7) = text-IsReadable (txt "target.abi") a.target.abi b.target.abi _ _ h6 in
    let (_, e8, h8) = write_tagged-IsReadable _ _ _ _ _ _ h7 in
    let (e9, h9) =
      text-IsReadable (txt "runtime.version") a.runtime.version b.runtime.version _ _ h8 in
    let (e10, h10) =
      text-IsReadable (txt "runtime.modules_abi") a.runtime.modules_abi b.runtime.modules_abi _ _
        h9 in
    let (e11, end) =
      option_text-IsReadable (txt "runtime.napi_version") a.runtime.napi_version
        b.runtime.napi_version s r h10 in
    (cc (e1, e2, e3, e4, e5, e6, e7, e8, e9, e10, e11), end)

write_versions-injective :
    (m n k l : ℕ) → write_versions m n ≡ write_versions k l → (m ≡ k) × (n ≡ l)
unfolding write_versions
write_versions-injective m n k l h =
    let (_, e, h1) = write_tagged-IsReadable _ _ _ _ _ _ h in
    let (_, f, _) = write_tagged-IsReadable _ _ _ _ _ _ h1 in
    let (g, _) = write_le-IsReadable 3 m k [] [] e in
    let (i, _) = write_le-IsReadable 3 n l [] [] f in (g, i)

-- What the hasher is fed tells all of the inputs but the scripts that are no phase and the order of
-- the environment.
pub key_bytes-injective :
    (a b : DerivedInputs) → key_bytes a ≡ key_bytes b → input_facts a ≡ input_facts b
unfolding key_bytes write_counted_environment
key_bytes-injective a b h =
    let (e, h1) = write_header-Agree a b _ _ (append-cancel (txt "bpm-derived-v2" ++ 0 ∷ []) h) in
    let (f, count, h2) = write_phases-Agree a.scripts b.scripts a.phases b.phases _ _ _ _ h1 in
    let (l, _) =
      write_le-IsReadable 7 (length (sort_by entry_le a.environment))
        (length (sort_by entry_le b.environment)) [] [] count in
    let (g, h3) =
      write_environment-Agree (sort_by entry_le a.environment) (sort_by entry_le b.environment) _ _
        l h2 in
    let (i, j) =
      write_versions-injective a.runner_version a.policy_version b.runner_version b.policy_version
        h3 in
    cc (e, f, g, i, j)

-- the phases with their commands, written
write_commands : List (Text × Option Text) → List ℕ → List ℕ
write_commands [] rest = rest
write_commands ((phase, command) ∷ commands) rest =
    write_tagged (txt "script.phase") (bytes phase) (
      write_optional_field (txt "script.command") (option_bytes command)
        (write_commands commands rest))

write_phases-eq :
    (scripts : Map Text) (phases : List Text) (rest : List ℕ)
    → write_phases scripts phases rest ≡ write_commands (phase_commands scripts phases) rest
unfolding write_phases write_commands
write_phases-eq scripts [] rest = refl
write_phases-eq scripts (phase ∷ phases) rest = rw (write_phases-eq scripts phases rest) refl

key_bytes_of_facts :
    (a b : DerivedInputs) → input_facts a ≡ input_facts b → key_bytes a ≡ key_bytes b
unfolding key_bytes write_header
key_bytes_of_facts a b h =
    let e1 : a.source_artifact ≡ b.source_artifact = ap (λ (f : InputFacts). f.source_artifact) h in
    let e2 : a.source_revision ≡ b.source_revision = ap (λ (f : InputFacts). f.source_revision) h in
    let e3 : a.dependency_graph ≡ b.dependency_graph =
      ap (λ (f : InputFacts). f.dependency_graph) h in
    let e4 : a.target ≡ b.target = ap (λ (f : InputFacts). f.target) h in
    let e5 : a.runtime ≡ b.runtime = ap (λ (f : InputFacts). f.runtime) h in
    let e6 = ap (λ (f : InputFacts). f.commands) h in
    let e7 = ap (λ (f : InputFacts). f.environment) h in
    let e8 : a.runner_version ≡ b.runner_version = ap (λ (f : InputFacts). f.runner_version) h in
    let e9 : a.policy_version ≡ b.policy_version = ap (λ (f : InputFacts). f.policy_version) h in
    rw
      (
        write_phases-eq a.scripts a.phases,
        write_phases-eq b.scripts b.phases,
        e1,
        e2,
        e3,
        e4,
        e5,
        e6,
        e7,
        e8,
        e9,
      )
      refl

-- Two keys are equal exactly where the inputs have equal facts or different bytes of the same hash.
pub derived_key_iff {ℓ} :
    {Hash : Type ℓ} (hash : List ℕ → Hash) (a b : DerivedInputs)
    → (derived_key hash a ≡ derived_key hash b) ↔ (
        (input_facts a ≡ input_facts b)
        ⊎ ((key_bytes a ≢ key_bytes b) × (hash (key_bytes a) ≡ hash (key_bytes b))))
derived_key_iff hash a b = (
  λ h. elim (Bool-cases (text_eq (key_bytes a) (key_bytes b))) [
    | inl same ↦ inl (key_bytes-injective a b (text_eq→eq _ _ same))
    | inr other ↦ inr (text_ne_of _ _ other, h)
  ],
  λ c. elim c [ inl e ↦ ap hash (key_bytes_of_facts a b e) | inr d ↦ d.1 ],
)
