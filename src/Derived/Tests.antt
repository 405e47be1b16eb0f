-- ===== src/Derived/Tests.antt =====
-- Inputs of a derived image, and the properties applied to them.
use bpm.Prelude.{ℕ, List, [], ◌∷◌, none, some, ◌≡◌, ◌≢◌, ◌⊎◌, ◌↔◌, refl}
use bpm.Prelude.Text.{txt}
use bpm.Derived.Key.{DerivedInputs, key_bytes, derived_key, write_tagged}
use bpm.Derived.Inputs.{input_facts, derived_key_iff}

abbrev built : DerivedInputs
built = record {
  source_artifact = 1 ∷ 2 ∷ [];
  source_revision = none;
  dependency_graph = 3 ∷ [];
  target = record {
    os = txt "linux";
    architecture = txt "x86_64";
    family = txt "unix";
    abi = txt "gnu";
  };
  runtime = record {
    executable = 7 ∷ [];
    version = txt "22.17.0";
    modules_abi = txt "127";
    napi_version = some (txt "10");
  };
  phases = txt "install" ∷ [];
  scripts = (txt "install", txt "node build.js") ∷ [];
  environment = (txt "Z", txt "last") ∷ (txt "A", txt "first") ∷ [];
  runner_version = 1;
  policy_version = 1;
}

abbrev other_runner : DerivedInputs
other_runner = record built { runner_version = 2 }

a_field :
    write_tagged (txt "ab") (5 ∷ []) []
    ≡ 2 ∷ 0 ∷ 0 ∷ 0 ∷ 97 ∷ 98 ∷ 1 ∷ 0 ∷ 0 ∷ 0 ∷ 0 ∷ 0 ∷ 0 ∷ 0 ∷ 5 ∷ []
unfolding write_tagged bpm.Prelude.Bytes.write_le bpm.Prelude.Bytes.write_bytes
    bpm.Prelude.Bytes.write_u64
a_field = refl

-- with the bytes themselves as their hash
derived_key_iff_example :
    (derived_key (λ (b : List ℕ). b) built ≡ derived_key (λ (b : List ℕ). b) other_runner) ↔ (
      (input_facts built ≡ input_facts other_runner)
      ⊎ ((key_bytes built ≢ key_bytes other_runner) × (key_bytes built ≡ key_bytes other_runner)))
derived_key_iff_example = derived_key_iff (λ (b : List ℕ). b) built other_runner
