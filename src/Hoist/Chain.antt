-- ===== src/Hoist/Chain.antt =====
-- The chain of directories that `place` of hoist.rs scans: the loop ends, and the root is last.
use bpm.Prelude.{
  ℕ, zero, suc, ◌<◌, ◌≡◌, refl, ap, ◌≢◌, false, Option, none, some, List, [], ◌∷◌, ◌++◌, length,
  length-append, All, inl, inr, arith, Option-cases,
}
use bpm.Prelude.Text.{Text, txt, is_empty, starts_with}
use bpm.Hoist.{before_last, parent_package, ancestors, chain_of}

pub length-before_last :
    (pattern s b : Text)
    → before_last pattern s ≡ some b
    → is_empty pattern ≡ false
    → length b < length s
unfolding before_last starts_with
length-before_last pattern [] b h k = ground arith
length-before_last pattern (c ∷ s) b h k = elim (Option-cases (before_last pattern s)) [
  | inl e ↦ ground (arith, e)
  | inr (r, e) ↦ ground (arith, e, length-before_last pattern s r e k)
]

-- The path of a parent is shorter, and not empty.
length-parent_package : (path q : Text) → parent_package path ≡ some q → length q < length path
unfolding parent_package
length-parent_package path q h =
    length-before_last (txt "/node_modules/") path q (ground arith) refl

before_last-cons :
    (c d : ℕ) (p s b : Text) → before_last (d ∷ p) (c ∷ s) ≡ some b → (c ≢ d) → is_empty b ≡ false
unfolding before_last starts_with
before_last-cons c d p s b h n = ground arith

parent-not_empty : (path q : Text) → parent_package path ≡ some q → is_empty q ≡ false
unfolding parent_package starts_with
parent-not_empty [] q h = ground arith
parent-not_empty (c ∷ path) q h =
    before_last-cons c b'/' (txt "node_modules/") path q (ground arith) (ground arith)

ancestors_fuel :
    (f g : ℕ) (path : Text)
    → length path < f
    → length path < g
    → ancestors f path ≡ ancestors g path
unfolding ancestors
ancestors_fuel zero g path h k = absurd (omega arith)
ancestors_fuel (suc f) zero path h k = absurd (omega arith)
ancestors_fuel (suc f) (suc g) path h k = elim (Option-cases (parent_package path)) [
  | inl e ↦ rw e
  | inr (q, e) ↦
      let shorter = length-parent_package path q e in
      rw e (
        ap (λ r. (path ++ txt "/node_modules") ∷ r)
          (ancestors_fuel f g q (omega arith) (omega arith)))
]

unfoldable pub chain_above : Option Text → List Text
chain_above none = txt "node_modules" ∷ []
chain_above (some q) = chain_of q

-- The loop of `place` never stops early: the chain of a package is its own `node_modules`, then
-- the chain of its parent, and the root's directory where it has no parent.
pub chain_of_step :
    (path : Text)
    → is_empty path ≡ false
    → chain_of path ≡ (path ++ txt "/node_modules") ∷ chain_above (parent_package path)
unfolding chain_of ancestors chain_above
chain_of_step [] h = cc
chain_of_step (c ∷ path) h = elim (Option-cases (parent_package (c ∷ path))) [
  | inl e ↦ rw e
  | inr ([], e) ↦ absurd (ground (arith, parent-not_empty (c ∷ path) [] e))
  | inr (d ∷ q, e) ↦
      let shorter = length-parent_package (c ∷ path) (d ∷ q) e in
      rw e (
        ap (λ r. ((c ∷ path) ++ txt "/node_modules") ∷ (r ++ txt "node_modules" ∷ []))
          (ancestors_fuel (suc (length path)) (suc (length (d ∷ q))) (d ∷ q) (omega arith)
            (omega arith)))
]

ancestors-ne-root : (f : ℕ) (path : Text) → All (λ d. d ≢ txt "node_modules") (ancestors f path)
unfolding ancestors
ancestors-ne-root zero path = tt
ancestors-ne-root (suc f) path = elim (Option-cases (parent_package path)) [
  | inl e ↦ rw e (longer path, tt)
  | inr (q, e) ↦ rw e (longer path, ancestors-ne-root f q)
]
  where
    longer : (p : Text) → (p ++ txt "/node_modules") ≢ txt "node_modules"
    longer p e = omega (arith, ap length e, length-append p (txt "/node_modules"))

-- the root's directory stands at the end of a chain, and nowhere else
pub chain_root :
    (path : Text)
    → (before : List Text) × (chain_of path ≡ before ++ txt "node_modules" ∷ [])
      × All (λ d. d ≢ txt "node_modules") before
unfolding chain_of
chain_root [] = ([], refl, tt)
chain_root (c ∷ path) = (
  ancestors (suc (length (c ∷ path))) (c ∷ path),
  refl,
  ancestors-ne-root (suc (length (c ∷ path))) (c ∷ path),
)
