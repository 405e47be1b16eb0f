-- ===== src/PathSafety/Inside.antt =====
-- No path that a validator of path_safety.rs returns can leave the directory that it is joined to.
use bpm.Prelude.{
  ℕ, ◌≡◌, refl, ◌≢◌, false, some, List, [], ◌∷◌, ◌++◌, ◌==◌, All, Elem, arith, inl, inr, ok, ◌⊎◌,
  Bool-cases, Option-cases,
}
use mathlib.Core.Path.{subst}
use bpm.Prelude.Text.{
  Text, txt, text_eq, text_eq_refl, is_empty, contains, split, strip_prefix, join,
}
use bpm.Prelude.TextLaws.{split-join, Free, strip_prefix-eq, contains-append}
use bpm.PathSafety.{
  is_valid_component, has_drive_prefix, validate_package_path, validate_workspace_target,
  validate_bin_target, without_dot_slash,
}
use bpm.PathSafety.Normalized.{IsNormalized, walk, entered, walk-of_valid, accepts, accepted}
use bpm.PathSafety.Paths.{AllValid, validate_package_path_iff, no_empty}

-- Walking the components of `q` from any stack of directories enters them one by one and never
-- leaves a directory that was on the stack.
abbrev pub StaysInside : Text → Type 0
StaysInside q =
    (stack : List Text) → walk stack (split b'/' q) ≡ some (entered stack (split b'/' q))

inside : (q : Text) → IsNormalized q → StaysInside q
inside q n stack = walk-of_valid stack (split b'/' q) n.components

workspace_sound : (t q : Text) → validate_workspace_target t ≡ ok q → (q ≡ t) × IsNormalized t
unfolding validate_workspace_target
workspace_sound t q h = (ground arith, accepts t (ground arith))

without_cases : (t : Text) → (without_dot_slash t ≡ t) ⊎ (t ≡ txt "./" ++ without_dot_slash t)
unfolding without_dot_slash strip_prefix
without_cases t = elim (Option-cases (strip_prefix (txt "./") t)) [
  | inl e ↦ inl (rw e)
  | inr (r, e) ↦ inr (rw e (strip_prefix-eq (txt "./") t e))
]

bin_target_normal :
    (t : Text) {q : Text}
    → validate_bin_target t ≡ ok q
    → (q ≡ without_dot_slash t) × IsNormalized q
unfolding validate_bin_target
bin_target_normal t {q} h =
    let e : q ≡ without_dot_slash t = ground arith in
    (e, rw e (accepts (without_dot_slash t) (ground arith)))

-- What any of the three validators returns stays inside the directory that it is joined to.
pub validated-StaysInside :
    (path q : Text)
    → (validate_package_path path ≡ ok q)
      ⊎ ((validate_workspace_target path ≡ ok q) ⊎ (validate_bin_target path ≡ ok q))
    → StaysInside q
validated-StaysInside path q (inl h) =
    let (e, n, _) = (validate_package_path_iff path q).0 h in rw e (inside path n)
validated-StaysInside path q (inr (inl h)) =
    let (e, n) = workspace_sound path q h in rw e (inside path n)
validated-StaysInside path q (inr (inr h)) = inside q (bin_target_normal path h).1

not_dotdot : (cs : List Text) → AllValid cs → ¬ Elem (txt "..") cs
unfolding is_valid_component
not_dotdot [] v m = m
not_dotdot (c ∷ cs) v (inl e) = ground (arith, v.0, text_eq_refl (txt ".."))
not_dotdot (c ∷ cs) v (inr m) = not_dotdot cs v.1 m

split-dot_slash : (q : Text) → split b'/' (txt "./" ++ q) ≡ txt "." ∷ split b'/' q
unfolding split
split-dot_slash q = refl

drop_dot : (cs : List Text) → Elem (txt "..") (txt "." ∷ cs) → Elem (txt "..") cs
drop_dot cs (inl e) = cc e
drop_dot cs (inr m) = m

dotdot_stays :
    (t : Text) → Elem (txt "..") (split b'/' t) → Elem (txt "..") (split b'/' (without_dot_slash t))
dotdot_stays t m = elim (without_cases t) [
  | inl e ↦ rw e m
  | inr e ↦ drop_dot (split b'/' (without_dot_slash t)) (
      subst (Elem (txt "..")) (split-dot_slash (without_dot_slash t))
        (subst (λ x. Elem (txt "..") (split b'/' x)) e m))
]

-- A path with a component `..` is refused by each of the three validators.
pub traversal_refused :
    (path q : Text)
    → Elem (txt "..") (split b'/' path)
    → (validate_package_path path ≢ ok q)
      × (validate_workspace_target path ≢ ok q)
      × (validate_bin_target path ≢ ok q)
traversal_refused path q m = (
  λ h. not_dotdot (split b'/' path) ((validate_package_path_iff path q).0 h).1.components m,
  λ h. not_dotdot (split b'/' path) (workspace_sound path q h).1.components m,
  λ h.
      let (e, n) = bin_target_normal path h in
      not_dotdot (split b'/' (without_dot_slash path))
        (subst (λ x. AllValid (split b'/' x)) e n.components) (dotdot_stays path m),
)

dot_slash_invalid : (q : Text) → ¬ IsNormalized (txt "./" ++ q)
unfolding is_valid_component
dot_slash_invalid q n =
    let v : AllValid (txt "." ∷ split b'/' q) = subst AllValid (split-dot_slash q) n.components in
    ground (arith, v.0, text_eq_refl (txt "."))

unchanged : (r : Text) → IsNormalized r → without_dot_slash r ≡ r
unchanged r n = elim (without_cases r) [
  | inl same ↦ same
  | inr dotted ↦ absurd (dot_slash_invalid (without_dot_slash r) (subst IsNormalized dotted n))
]

accepts_again : (r : Text) → IsNormalized r → validate_bin_target r ≡ ok r
unfolding validate_bin_target
accepts_again r n = elim (Bool-cases (is_empty r)) [
  | inl empty ↦ absurd (no_empty r n empty)
  | inr full ↦ rw (unchanged r n, full, accepted r n)
]

-- What `validate_bin_target` returns it accepts unchanged, and it is the target itself or the
-- target without a leading `./`.
pub validate_bin_target_stable :
    (t q : Text)
    → validate_bin_target t ≡ ok q
    → (validate_bin_target q ≡ ok q) × ((t ≡ q) ⊎ (t ≡ txt "./" ++ q))
validate_bin_target_stable t q h =
    let (e, n) = bin_target_normal t h in
    (
      accepts_again q n,
      elim (without_cases t) [ inl same ↦ inl (cc (e, same)) | inr dotted ↦ inr (rw e dotted) ],
    )

module _ (c d : ℕ) (differ : (d == c) ≡ false) where
  contains-join : (ps : List Text) → All (Free c) ps → contains c (join d ps) ≡ false
  unfolding join contains
  contains-join [] h = refl
  contains-join (p ∷ []) h = h.0
  contains-join (p ∷ q ∷ ps) h =
      rw contains-append (ground (arith, h.0, contains-join (q ∷ ps) h.1))

-- A path `node_modules/<name>/...` of valid components, none with a slash or a backslash inside,
-- is accepted unchanged.
pub well_formed_accepted :
    (name : Text) (rest : List Text)
    → AllValid (name ∷ rest)
    → All (Free b'/') (name ∷ rest)
    → All (Free b'\\') (name ∷ rest)
    → let path = join b'/' (txt "node_modules" ∷ name ∷ rest) in
      validate_package_path path ≡ ok path
unfolding contains has_drive_prefix is_valid_component join text_eq
well_formed_accepted name rest v slash back =
    let comps : List Text = txt "node_modules" ∷ name ∷ rest in
    let pieces : split b'/' (join b'/' comps) ≡ comps = split-join b'/' comps (cc) (refl, slash) in
    (validate_package_path_iff (join b'/' comps) (join b'/' comps)).1 (
      refl,
      record {
        components = rw pieces (refl, v);
        portable = contains-join b'\\' b'/' refl comps (refl, back);
        no_drive = refl;
      },
      ([], name, rest, pieces),
    )
