-- ===== src/Registry/Names.antt =====
-- The package names that src/registry/mod.rs takes are safe as paths under `node_modules`.
use bpm.Prelude.{
  ℕ, ◌≡◌, refl, ap, ◌∙◌, Bool, true, false, [], ◌∷◌, ◌++◌, ◌==◌, all, arith, inl, inr, ◌⊎◌,
  Bool-cases, Option-cases, ok,
}
use bpm.Prelude.Text.{Text, txt, text_eq, contains, strip_prefix, split_once, join}
use bpm.Prelude.TextLaws.{Free, strip_prefix-eq, split_once-eq}
use bpm.PathSafety.{is_valid_component, validate_package_path}
use bpm.PathSafety.Inside.{well_formed_accepted}
use bpm.Registry.{
  valid_alphanumeric, valid_segment_byte, valid_name_segment, valid_npm_name, is_valid_npm_name,
  is_valid_npm_read_name,
}

module _ (up : Bool) where
  bytes-Free :
      (c : ℕ)
      → valid_segment_byte up c ≡ false
      → (s : Text) → all (valid_segment_byte up) s ≡ true
      → Free c s
  unfolding contains
  bytes-Free c h [] k = refl
  bytes-Free c h (d ∷ s) k = elim (Bool-cases (d == c)) [
    | inl same ↦
        let e : d ≡ c = ground arith in absurd (ground (arith, ap (valid_segment_byte up) e))
    | inr other ↦ ground (arith, other, bytes-Free c h s)
  ]

  separators_invalid : (valid_segment_byte up b'/' ≡ false) × (valid_segment_byte up b'\\' ≡ false)
  unfolding valid_segment_byte
  separators_invalid = (ground arith, ground arith)

  -- a component that begins with neither dot is a valid one
  no_dot_valid : (c : ℕ) (s : Text) → (c == b'.') ≡ false → is_valid_component (c ∷ s) ≡ true
  unfolding is_valid_component text_eq
  no_dot_valid c s h = ground arith

  segment_valid : (s : Text) → valid_name_segment s up ≡ true → is_valid_component s ≡ true
  unfolding valid_name_segment valid_alphanumeric
  segment_valid [] h = cc
  segment_valid (c ∷ s) h = no_dot_valid c s (ground arith)

  segment_bytes : (s : Text) → valid_name_segment s up ≡ true → all (valid_segment_byte up) s ≡ true
  unfolding valid_name_segment
  segment_bytes [] h = refl
  segment_bytes (c ∷ s) h = ground arith

  segment-Free : (s : Text) → valid_name_segment s up ≡ true → Free b'/' s × Free b'\\' s
  segment-Free s h = (
    bytes-Free b'/' separators_invalid.0 s (segment_bytes s h),
    bytes-Free b'\\' separators_invalid.1 s (segment_bytes s h),
  )

  pub Shape : Text → Type 0
  Shape name =
      (valid_name_segment name up ≡ true)
      ⊎ ((scope : Text) × (pkg : Text) × (name ≡ txt "@" ++ scope ++ b'/' ∷ pkg)
          × (valid_name_segment scope up ≡ true)
          × (valid_name_segment pkg up ≡ true))

  name-Shape : (name : Text) → valid_npm_name name up ≡ true → Shape name
  unfolding valid_npm_name Shape
  name-Shape name h = elim (Option-cases (strip_prefix (txt "@") name)) [
    | inl e ↦ inl (ground (arith, e))
    | inr (rest, e) ↦ elim (Option-cases (split_once b'/' rest)) [
      | inl f ↦ absurd (ground (arith, e, f))
      | inr ((scope, pkg), f) ↦ inr (
        scope,
        pkg,
        strip_prefix-eq (txt "@") name e ∙ ap (λ r. b'@' ∷ r) (split_once-eq b'/' rest scope pkg f),
        ground (arith, e, f),
        ground (arith, e, f),
      )
    ]
  ]

  placed :
      (name : Text)
      → Shape name
      → validate_package_path (txt "node_modules/" ++ name) ≡ ok (txt "node_modules/" ++ name)
  unfolding Shape join contains
  placed name (inl v) =
      well_formed_accepted name [] (segment_valid name v, tt) ((segment-Free name v).0, tt)
        ((segment-Free name v).1, tt)
  placed name (inr (scope, pkg, e, vs, vp)) = rw e (
      well_formed_accepted (b'@' ∷ scope) (pkg ∷ [])
        (no_dot_valid b'@' scope refl, (segment_valid pkg vp, tt))
        ((segment-Free scope vs).0, ((segment-Free pkg vp).0, tt))
        ((segment-Free scope vs).1, ((segment-Free pkg vp).1, tt)))

-- Every name that the registry client accepts, to read or to publish, gives under `node_modules/`
-- a package path that passes its validation unchanged.
pub npm_name_placed :
    (allow_uppercase : Bool) (name : Text)
    → valid_npm_name name allow_uppercase ≡ true
    → validate_package_path (txt "node_modules/" ++ name) ≡ ok (txt "node_modules/" ++ name)
npm_name_placed up name h = placed up name (name-Shape up name h)

alphanumeric_lower : (c : ℕ) → valid_alphanumeric false c ≡ true → valid_alphanumeric true c ≡ true
unfolding valid_alphanumeric
alphanumeric_lower c h = ground arith

byte_lower : (c : ℕ) → valid_segment_byte false c ≡ true → valid_segment_byte true c ≡ true
unfolding valid_segment_byte
byte_lower c h = ground arith

bytes_lower :
    (s : Text) → all (valid_segment_byte false) s ≡ true → all (valid_segment_byte true) s ≡ true
bytes_lower [] h = refl
bytes_lower (c ∷ s) h = ground (arith, byte_lower c, bytes_lower s)

segment_lower : (s : Text) → valid_name_segment s false ≡ true → valid_name_segment s true ≡ true
unfolding valid_name_segment
segment_lower [] h = cc
segment_lower (c ∷ s) h = ground (arith, alphanumeric_lower c, bytes_lower (c ∷ s))

-- A name that may be published may also be read.
pub publish_name_readable :
    (name : Text) → is_valid_npm_name name ≡ true → is_valid_npm_read_name name ≡ true
unfolding is_valid_npm_name is_valid_npm_read_name valid_npm_name
publish_name_readable name h = elim (Option-cases (strip_prefix (txt "@") name)) [
  | inl e ↦ ground (arith, e, segment_lower name)
  | inr (rest, e) ↦ elim (Option-cases (split_once b'/' rest)) [
    | inl f ↦ absurd (ground (arith, e, f))
    | inr ((scope, pkg), f) ↦ ground (arith, e, f, segment_lower scope, segment_lower pkg)
  ]
]
