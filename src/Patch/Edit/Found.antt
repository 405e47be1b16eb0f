-- ===== src/Patch/Edit/Found.antt =====
-- Which entry of the tarball `find_target` of patch.rs takes.
use bpm.Prelude.{
  ℕ, zero, suc, ◌+◌, ◌≡◌, ◌≢◌, ◌==◌, All-imp, refl, sym, ap, ◌∙◌, ◌⊎◌, inl, inr, Bool, true, false,
  Option, none, some, List, [], ◌∷◌, ◌++◌, All, arith, Bool-cases, Option-cases,
}
use bpm.Prelude.Text.{Text, txt, text_eq, text_eq→eq, text_ne_of, split_once, contains}
use bpm.Prelude.TextLaws.{split_once-eq}
use bpm.Patch.{TarEntry}
use bpm.Patch.Edit.{last_position, is_below_root, position, find_target}

abbrev pub entry_at : List TarEntry → ℕ → Option TarEntry
entry_at [] n = none
entry_at (e ∷ es) zero = some e
entry_at (e ∷ es) (suc n) = entry_at es n

-- the target below one directory, whose name may be empty
abbrev pub IsBelow : Text → Text → Type 0
IsBelow target path = (dir : Text) × (contains b'/' dir ≡ false) × (path ≡ dir ++ b'/' ∷ target)

-- the entry `i` counted from `at`, with property `P` of its path
abbrev IsHit : (Text → Type 0) → ℕ → List TarEntry → ℕ → Type 0
IsHit P at es i = (k : ℕ) × (e : TarEntry) × (i ≡ at + k) × (entry_at es k ≡ some e) × P e.path

IsHit-later :
    (P : Text → Type 0) (at : ℕ) (e : TarEntry) (es : List TarEntry) (i : ℕ)
    → IsHit P (suc at) es i
    → IsHit P at (e ∷ es) i
IsHit-later P at e es i (k, f, at_k, found, p) = (suc k, f, omega (arith, at_k), found, p)

last_position-IsHit :
    (path : Text) (at : ℕ) (es : List TarEntry) {i : ℕ}
    → last_position path at es ≡ some i
    → IsHit (λ p. p ≡ path) at es i
unfolding last_position
last_position-IsHit path at [] h = cc
last_position-IsHit path at (e ∷ es) {i} h = elim (Option-cases (last_position path (suc at) es)) [
  | inr (j, later) ↦
      let same : j ≡ i = ground (arith, later, h) in
      IsHit-later _ at e es i (last_position-IsHit path (suc at) es {i = i} (later ∙ ap some same))
  | inl nothing ↦ elim (Bool-cases (text_eq e.path path)) [
    | inl here ↦
        let same : at ≡ i = ground (arith, nothing, here, h) in
        (0, e, omega (arith, same), refl, text_eq→eq e.path path here)
    | inr other ↦ absurd (ground (arith, nothing, other, h))
  ]
]

last_position-none :
    (path : Text) (at : ℕ) (es : List TarEntry)
    → last_position path at es ≡ none
    → All (λ (e : TarEntry). text_eq e.path path ≡ false) es
unfolding last_position
last_position-none path at [] h = tt
last_position-none path at (e ∷ es) h = elim (Option-cases (last_position path (suc at) es)) [
  | inr (j, later) ↦ absurd (ground (arith, later, h))
  | inl nothing ↦ (ground (arith, nothing, h), last_position-none path (suc at) es nothing)
]

position-IsHit :
    (p : Text → Bool) (at : ℕ) (es : List TarEntry) {i : ℕ}
    → position p at es ≡ some i
    → IsHit (λ path. p path ≡ true) at es i
unfolding position
position-IsHit p at [] h = cc
position-IsHit p at (e ∷ es) {i} h = elim (Bool-cases (p e.path)) [
  | inl here ↦
      let same : at ≡ i = ground (arith, here, h) in (0, e, omega (arith, same), refl, here)
  | inr other ↦
      IsHit-later _ at e es i (position-IsHit p (suc at) es {i = i} (ground (arith, other, h)))
]

position-none :
    (p : Text → Bool) (at : ℕ) (es : List TarEntry)
    → position p at es ≡ none
    → All (λ (e : TarEntry). p e.path ≡ false) es
unfolding position
position-none p at [] h = tt
position-none p at (e ∷ es) h = elim (Bool-cases (p e.path)) [
  | inl here ↦ absurd (ground (arith, here, h))
  | inr other ↦ (other, position-none p (suc at) es (ground (arith, other, h)))
]

split_once-IsBelow : (c : ℕ) (s a b : Text) → split_once c s ≡ some (a, b) → contains c a ≡ false
unfolding split_once contains
split_once-IsBelow c [] a b h = cc
split_once-IsBelow c (d ∷ s) a b h = elim (Bool-cases (d == c)) [
  | inl here ↦ ground (arith, here, h)
  | inr there ↦ elim (Option-cases (split_once c s)) [
    | inl e ↦ absurd (ground (arith, there, e, h))
    | inr ((x, y), e) ↦ ground (arith, there, e, h, split_once-IsBelow c s x y e)
  ]
]

split_once-append :
    (c : ℕ) (a b : Text) → contains c a ≡ false → split_once c (a ++ c ∷ b) ≡ some (a, b)
unfolding split_once contains
split_once-append c [] b h = ground arith
split_once-append c (d ∷ a) b h = ground (arith, h, split_once-append c a b)

is_below_root_sound : (target path : Text) → is_below_root target path ≡ true → IsBelow target path
unfolding is_below_root
is_below_root_sound target path h = elim (Option-cases (split_once b'/' path)) [
  | inl nothing ↦ absurd (ground (arith, nothing, h))
  | inr ((dir, rest), e) ↦
      let same : text_eq rest target ≡ true = ground (arith, e, h) in
      (
        dir,
        split_once-IsBelow b'/' path dir rest e,
        split_once-eq b'/' path dir rest e
            ∙ ap (λ r. dir ++ b'/' ∷ r) (text_eq→eq rest target same),
      )
]

is_below_root_complete :
    (target path : Text) → is_below_root target path ≡ false → ¬ IsBelow target path
unfolding is_below_root
is_below_root_complete target path h (dir, one, e) =
    let parts : split_once b'/' path ≡ some (dir, target) =
      ap (split_once b'/') e ∙ split_once-append b'/' dir target one in
    text_ne_of target target (ground (arith, h, parts)) refl

All-both {ℓ κ} :
    (P : TarEntry → Type ℓ) (Q : TarEntry → Type κ) (es : List TarEntry)
    → All P es
    → All Q es
    → All (λ e. P e × Q e) es
All-both P Q [] h k = tt
All-both P Q (e ∷ es) h k = ((h.0, k.0), All-both P Q es h.1 k.1)

package_is_one : contains b'/' (txt "package") ≡ false
unfolding contains
package_is_one = refl

hit :
    (entries : List TarEntry) (P Q : Text → Type 0) (i : ℕ)
    → ((path : Text) → P path → Q path)
    → IsHit P 0 entries i
    → (e : TarEntry) × (entry_at entries i ≡ some e) × Q e.path
hit entries P Q i reach (k, e, at, found, p) =
    let same : k ≡ i = omega (arith, at) in
    (e, ap (entry_at entries) (sym same) ∙ found, reach e.path p)

-- The index that is returned is that of an entry whose path is the target, or, where no entry has
-- that path, of one whose path is the target below one directory; and where none is returned, no
-- entry has either kind of path.
pub find_target_finds :
    (entries : List TarEntry) (target : Text)
    → ((i : ℕ) × (e : TarEntry) × (find_target entries target ≡ some i)
        × (entry_at entries i ≡ some e)
        × ((e.path ≡ target)
            ⊎ (All (λ (o : TarEntry). o.path ≢ target) entries × IsBelow target e.path)))
      ⊎ ((find_target entries target ≡ none)
          × All (λ (o : TarEntry). (o.path ≢ target) × ¬ IsBelow target o.path) entries)
unfolding find_target
find_target_finds entries target = elim (Option-cases (last_position target 0 entries)) [
  | inr (i, first) ↦
      let (e, at, p) =
        hit entries _ (λ p. p ≡ target) i (λ path p. p)
          (last_position-IsHit target 0 entries {i = i} first) in
      let is : find_target entries target ≡ some i = ground (arith, first) in
      inl (i, e, is, at, inl p)
  | inl none_first ↦
      let others =
        All-imp (λ o. text_ne_of (o.path) target) entries
          (last_position-none target 0 entries none_first) in
      elim (Option-cases (last_position (txt "package/" ++ target) 0 entries)) [
        | inr (i, second) ↦
            let (e, at, p) =
              hit entries _ (λ p. p ≡ txt "package/" ++ target) i (λ path p. p)
                (last_position-IsHit (txt "package/" ++ target) 0 entries {i = i} second) in
            let is : find_target entries target ≡ some i = ground (arith, none_first, second) in
            inl (i, e, is, at, inr (others, (txt "package", package_is_one, p)))
        | inl none_second ↦ elim (Option-cases (position (is_below_root target) 0 entries)) [
          | inr (i, third) ↦
              let (e, at, below) =
                hit entries _ (IsBelow target) i (is_below_root_sound target)
                  (position-IsHit (is_below_root target) 0 entries {i = i} third) in
              let is : find_target entries target ≡ some i =
                ground (arith, none_first, none_second, third) in
              inl (i, e, is, at, inr (others, below))
          | inl none_third ↦
              let nothing : find_target entries target ≡ none =
                ground (arith, none_first, none_second, none_third) in
              inr (
                nothing,
                All-both _ _ entries others (
                    All-imp (λ o. is_below_root_complete target (o.path)) entries
                      (position-none (is_below_root target) 0 entries none_third)),
              )
        ]
      ]
]
