-- ===== src/Derived/Key.antt =====
-- src/derived/key.rs: the preimage of the key of a derived image. The hash (blake3) is a parameter;
-- an `OsString` is the list of its encoded bytes.
use bpm.Prelude.{ℕ, Bool, not, ◌&&◌, ◌||◌, Option, none, some, List, [], ◌∷◌, ◌++◌, length}
use bpm.Prelude.Text.{Text, txt, text_eq}
use bpm.Prelude.Map.{Map, get, text_lt}
use bpm.Prelude.Sort.{sort_by}
use bpm.Prelude.Bytes.{bytes, write_le, write_bytes}

pub record TargetDescriptor : Type 0 where
  pub os : Text
  pub architecture : Text
  pub family : Text
  pub abi : Text

pub record RuntimeIdentity : Type 0 where
  pub executable : List ℕ
  pub version : Text
  pub modules_abi : Text
  pub napi_version : Option Text

pub record DerivedInputs : Type 0 where
  pub source_artifact : List ℕ
  pub source_revision : Option Text
  pub dependency_graph : List ℕ
  pub target : TargetDescriptor
  pub runtime : RuntimeIdentity
  pub phases : List Text
  pub scripts : Map Text
  pub environment : List (List ℕ × List ℕ)
  pub runner_version : ℕ
  pub policy_version : ℕ

-- `write_field`: the tag behind its 32-bit length and the value behind its 64-bit length
unfoldable pub write_tagged : Text → List ℕ → List ℕ → List ℕ
write_tagged tag value rest = write_le 3 (length tag) (tag ++ write_bytes value rest)

unfoldable pub write_optional_field : Text → Option (List ℕ) → List ℕ → List ℕ
write_optional_field tag (some value) rest =
    write_tagged (txt "presence") (1 ∷ []) (write_tagged tag value rest)
write_optional_field tag none rest =
    write_tagged (txt "presence") (0 ∷ []) (write_tagged tag [] rest)

-- `map(str::as_bytes)`
abbrev pub option_bytes : Option Text → Option (List ℕ)
option_bytes none = none
option_bytes (some s) = some (bytes s)

-- the loop over the phases
unfoldable pub write_phases : Map Text → List Text → List ℕ → List ℕ
write_phases scripts [] rest = rest
write_phases scripts (phase ∷ phases) rest = write_tagged (txt "script.phase") (bytes phase) (
    write_optional_field (txt "script.command") (option_bytes (get phase scripts))
      (write_phases scripts phases rest))

-- `left.0.cmp(right.0).then(left.1.cmp(right.1))` is not greater
unfoldable pub entry_le : List ℕ × List ℕ → List ℕ × List ℕ → Bool
entry_le (n, v) (m, w) = text_lt n m || text_eq n m && not (text_lt w v)

unfoldable pub write_environment : List (List ℕ × List ℕ) → List ℕ → List ℕ
write_environment [] rest = rest
write_environment ((name, value) ∷ environment) rest =
    write_tagged (txt "environment.name") name
      (write_tagged (txt "environment.value") value (write_environment environment rest))

-- the fields in front of the phases
unfoldable pub write_header : DerivedInputs → List ℕ → List ℕ
write_header inputs rest = write_tagged (txt "source") inputs.source_artifact (
    write_optional_field (txt "source.revision") (option_bytes inputs.source_revision) (
      write_tagged (txt "dependency_graph") inputs.dependency_graph (
        write_tagged (txt "target.os") (bytes inputs.target.os) (
          write_tagged (txt "target.architecture") (bytes inputs.target.architecture) (
            write_tagged (txt "target.family") (bytes inputs.target.family) (
              write_tagged (txt "target.abi") (bytes inputs.target.abi) (
                write_tagged (txt "runtime.executable") inputs.runtime.executable (
                  write_tagged (txt "runtime.version") (bytes inputs.runtime.version) (
                    write_tagged (txt "runtime.modules_abi") (bytes inputs.runtime.modules_abi) (
                      write_optional_field (txt "runtime.napi_version")
                        (option_bytes inputs.runtime.napi_version) rest))))))))))

-- the sorted environment, with the number of its entries
unfoldable pub write_counted_environment : List (List ℕ × List ℕ) → List ℕ → List ℕ
write_counted_environment sorted rest =
    write_tagged (txt "environment.count") (write_le 7 (length sorted) [])
      (write_environment sorted rest)

unfoldable pub write_versions : ℕ → ℕ → List ℕ
write_versions runner policy =
    write_tagged (txt "runner_version") (write_le 3 runner [])
      (write_tagged (txt "policy_version") (write_le 3 policy []) [])

-- what the hasher is fed
unfoldable pub key_bytes : DerivedInputs → List ℕ
key_bytes inputs =
    (txt "bpm-derived-v2" ++ 0 ∷ [])
    ++ write_header inputs (
        write_phases inputs.scripts inputs.phases (
          write_counted_environment (sort_by entry_le inputs.environment)
            (write_versions inputs.runner_version inputs.policy_version)))

abbrev pub derived_key {ℓ} : {Hash : Type ℓ} → (List ℕ → Hash) → DerivedInputs → Hash
derived_key hash inputs = hash (key_bytes inputs)
