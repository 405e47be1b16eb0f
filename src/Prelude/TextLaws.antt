-- ===== src/Prelude/TextLaws.antt =====
-- Laws of the text methods: pieces and their separator, prefixes, trimming.
use Prim.Native.Nat.{ℕ}
use mathlib.Core.Path.{◌≡◌, refl, ap, ◌∙◌}
use mathlib.Core.Logic.{inl, inr, ◌≢◌}
use mathlib.Core.Bool.{false, ◌||◌}
use mathlib.Core.Option.{some}
use mathlib.Core.List.{List, [], ◌∷◌, ◌++◌}
use native.Mathlib.Omega.{arith}
use bpm.Prelude.Tests.{Bool-cases, Option-cases, ◌==◌}
use bpm.Prelude.Lists.{All}
use bpm.Prelude.Text.{split_once, Text, contains, strip_prefix, push_front, split, join}

pub contains-append : (c : ℕ) (s t : Text) → contains c (s ++ t) ≡ (contains c s || contains c t)
unfolding contains
contains-append c [] t = refl
contains-append c (d ∷ s) t = ground (arith, contains-append c s t)

split-ne-nil : (c : ℕ) (s : Text) → split c s ≢ []
unfolding split
split-ne-nil c [] = cc
split-ne-nil c (d ∷ s) = ground arith

join-push_front : (c d : ℕ) (ps : List Text) → ps ≢ [] → join c (push_front d ps) ≡ d ∷ join c ps
unfolding join
join-push_front c d [] n = absurd (n refl)
join-push_front c d (p ∷ []) n = refl
join-push_front c d (p ∷ q ∷ ps) n = refl

join-nil-cons : (c : ℕ) (ps : List Text) → ps ≢ [] → join c ([] ∷ ps) ≡ c ∷ join c ps
unfolding join
join-nil-cons c [] n = absurd (n refl)
join-nil-cons c (p ∷ ps) n = refl

-- Splitting loses nothing.
pub join-split : (c : ℕ) (s : Text) → join c (split c s) ≡ s
unfolding split join
join-split c [] = refl
join-split c (d ∷ s) = ground (
  arith,
  join-split c s,
  join-push_front c d (split c s) (split-ne-nil c s),
  join-nil-cons c (split c s) (split-ne-nil c s),
)

abbrev pub Free : ℕ → Text → Type 0
Free c p = contains c p ≡ false

push_front-Free :
    (c d : ℕ) (ps : List Text) → (d == c) ≡ false → All (Free c) ps → All (Free c) (push_front d ps)
unfolding contains
push_front-Free c d [] n h = (ground arith, tt)
push_front-Free c d (p ∷ ps) n h = (ground arith, h.1)

-- No piece holds the separator.
pub split-Free : (c : ℕ) (s : Text) → All (Free c) (split c s)
unfolding split contains
split-Free c [] = (refl, tt)
split-Free c (d ∷ s) = ground (arith, split-Free c s, push_front-Free c d (split c s))

split-of_Free : (c : ℕ) (p : Text) → Free c p → split c p ≡ p ∷ []
unfolding split contains
split-of_Free c [] h = refl
split-of_Free c (d ∷ p) h = ground (arith, split-of_Free c p)

split-append : (c : ℕ) (p s : Text) → Free c p → split c (p ++ c ∷ s) ≡ p ∷ split c s
unfolding split contains
split-append c [] s h = ground arith
split-append c (d ∷ p) s h = ground (arith, split-append c p s)

-- Pieces free of the separator come back.
pub split-join : (c : ℕ) (ps : List Text) → ps ≢ [] → All (Free c) ps → split c (join c ps) ≡ ps
unfolding join
split-join c [] n h = absurd (n refl)
split-join c (p ∷ []) n h = split-of_Free c p h.0
split-join c (p ∷ q ∷ ps) n h =
    split-append c p (join c (q ∷ ps)) h.0 ∙ ap (λ r. p ∷ r) (split-join c (q ∷ ps) (cc) h.1)

pub strip_prefix-eq : (p s : Text) {r : Text} → strip_prefix p s ≡ some r → s ≡ p ++ r
unfolding strip_prefix
strip_prefix-eq [] s h = ground arith
strip_prefix-eq (c ∷ p) [] h = cc
strip_prefix-eq (c ∷ p) (d ∷ s) {r} h = ground (arith, strip_prefix-eq p s {r = r})

pub split_once-eq : (c : ℕ) (s a b : Text) → split_once c s ≡ some (a, b) → s ≡ a ++ c ∷ b
unfolding split_once
split_once-eq c [] a b h = cc
split_once-eq c (d ∷ s) a b h = elim (Bool-cases (d == c)) [
  | inl here ↦ ground (arith, here)
  | inr there ↦ elim (Option-cases (split_once c s)) [
    | inl e ↦ absurd (ground (arith, there, e))
    | inr ((x, y), e) ↦ ground (arith, there, e, split_once-eq c s x y e)
  ]
]
