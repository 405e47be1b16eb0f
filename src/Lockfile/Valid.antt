-- ===== src/Lockfile/Valid.antt =====
-- What the checks of lockfile.rs establish when they pass.
use bpm.Prelude.{
  ℕ, ◌≡◌, refl, true, all→All, false, not, ◌||◌, List, [], ◌∷◌, ◌++◌, if◌then◌else◌, all, any, All,
  All-imp, arith, inl, inr, Result, ok, err, ◌>>=◌, ◌⊎◌,
}
use mathlib.Core.Path.{subst}
use bpm.Prelude.Text.{Text, txt, text_eq, is_empty, split}
use bpm.PathSafety.{
  is_valid_component, is_normalized_relative, validate_package_path, validate_bin_name,
  validate_bin_target, is_dot_or_space,
}
use bpm.PathSafety.Paths.{HasPackage, validate_package_path_iff}
use bpm.PathSafety.Inside.{StaysInside, validated-StaysInside, validate_bin_target_stable}
use bpm.PathSafety.BinName.{IsPortable, validate_bin_name_sound}
use bpm.Lockfile.Schema.{PackageEntry}
use bpm.Lockfile.{
  Checked, passed, for_each, checked, check_bin, check_package, legal_relative_path, LockfileError,
  unsafe_path, unsafe_bin_name, unsafe_bin_target,
}

pub both_passed {ℓ} :
    {A : Type ℓ} {a : A} (m : Checked) (k : Result A LockfileError)
    → (m >>= λ _. k) ≡ ok a
    → (m ≡ passed) × (k ≡ ok a)
both_passed (ok u) k h = (refl, h)
both_passed (err e) k h = cc

pub for_each-passed {ℓ} :
    {A : Type ℓ} (check : A → Checked) (xs : List A)
    → for_each check xs ≡ passed
    → All (λ x. check x ≡ passed) xs
for_each-passed check [] h = tt
for_each-passed check (x ∷ xs) h =
    let (a, b) = both_passed (check x) (for_each check xs) h in (a, for_each-passed check xs b)

pub checked-passed {ℓ κ} :
    {A : Type ℓ} {E : Type κ} (r : Result A E) (f : E → LockfileError)
    → checked r f ≡ passed
    → (a : A) × (r ≡ ok a)
checked-passed (ok a) f h = (a, refl)
checked-passed (err e) f h = cc

part_valid :
    (part : Text)
    → (is_empty part || text_eq part (txt ".") || text_eq part (txt ".."))
      ≡ not (is_valid_component part)
unfolding is_valid_component
part_valid part = ground arith

parts_valid :
    (parts : List Text)
    → not (any (λ p. is_empty p || text_eq p (txt ".") || text_eq p (txt "..")) parts)
      ≡ all is_valid_component parts
parts_valid [] = refl
parts_valid (p ∷ ps) = ground (arith, part_valid p, parts_valid ps)

-- The lockfile's own test of relative paths agrees with the one of path_safety.rs on every text.
pub legal_relative_path-eq : (path : Text) → legal_relative_path path ≡ is_normalized_relative path
unfolding legal_relative_path is_normalized_relative
legal_relative_path-eq path = ground (arith, parts_valid (split b'/' path))

-- An executable of a package: the name is a portable file name and behind it only dots and spaces,
-- and the target, up to a leading `./`, stays inside the package.
pub record IsSafeBin (bin : Text × Text) : Type 0 where
  pub command :
      (n : Text) × (tail : Text) × IsPortable n
      × (bin.0 ≡ n ++ tail)
      × All (λ c. (c ≡ b'.') ⊎ (c ≡ b' ')) tail
  pub target : (q : Text) × StaysInside q × ((bin.1 ≡ q) ⊎ (bin.1 ≡ txt "./" ++ q))

pub record IsSafeEntry (entry : PackageEntry) : Type 0 where
  pub placed : entry.link ≡ false → StaysInside entry.path × HasPackage (split b'/' entry.path)
  pub bins : All IsSafeBin entry.bin

dot_or_space : (c : ℕ) → is_dot_or_space c ≡ true → (c ≡ b'.') ⊎ (c ≡ b' ')
unfolding is_dot_or_space
dot_or_space c h = ground (arith, h)

safe_bin : (path : Text) (bin : Text × Text) → check_bin path bin ≡ passed → IsSafeBin bin
unfolding check_bin
safe_bin path (name, target) h =
    let (named, targeted) =
      both_passed (checked (validate_bin_name name) (unsafe_bin_name path name))
        (checked (validate_bin_target target) (unsafe_bin_target path target)) h in
    let (n, n_ok) = checked-passed (validate_bin_name name) (unsafe_bin_name path name) named in
    let (q, q_ok) =
      checked-passed (validate_bin_target target) (unsafe_bin_target path target) targeted in
    let (portable, (tail, e, dots)) = validate_bin_name_sound name n n_ok in
    record {
      command =
          (n, tail, portable, e, All-imp dot_or_space tail (all→All is_dot_or_space tail dots));
      target = (
        q,
        validated-StaysInside target q (inr (inr q_ok)),
        (validate_bin_target_stable target q q_ok).1,
      );
    }

placed_path :
    (path q : Text)
    → validate_package_path path ≡ ok q
    → StaysInside path × HasPackage (split b'/' path)
placed_path path q h =
    let (e, n, p) = (validate_package_path_iff path q).0 h in
    (subst StaysInside e (validated-StaysInside path q (inl h)), p)

pub safe_entry : (entry : PackageEntry) → check_package entry ≡ passed → IsSafeEntry entry
unfolding check_package
safe_entry entry h =
    let location : Checked =
      if not entry.link
      then checked (validate_package_path entry.path) (unsafe_path entry.path)
      else passed in
    let (a, b) = both_passed location (for_each (check_bin entry.path) entry.bin) h in
    record {
      placed = λ solid.
          let (q, q_ok) =
            checked-passed (validate_package_path entry.path) (unsafe_path entry.path)
              (rw solid at a) in
          placed_path entry.path q q_ok;
      bins =
          All-imp (safe_bin entry.path) entry.bin
            (for_each-passed (check_bin entry.path) entry.bin b);
    }
