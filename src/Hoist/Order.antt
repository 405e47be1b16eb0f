-- ===== src/Hoist/Order.antt =====
-- Sequences of `place` calls of hoist.rs: when an edge that was placed stays as it is.
use bpm.Prelude.{
  ◌≡◌, refl, sym, ◌∙◌, Bool, false, ◌&&◌, none, some, List, [], ◌∷◌, ◌++◌, All, any, Elem, inl, inr,
  arith, Bool-cases,
}
use mathlib.Core.Path.{subst}
use bpm.Prelude.Text.{Text, txt, text_eq, text_eq→eq}
use bpm.Hoist.{
  Placer, chain_of, slot, Scan, shared, blocked, root_free, scan, claim, own_dir, root_dir, place,
}
use bpm.Hoist.Chain.{chain_root}
use bpm.Hoist.Slots.{
  resolve, scan_root_free, resolve-claim_ne, resolve-claim_last, root_dir-last, Elem-last,
  place_resolves,
}

-- A requirement of the lockfile: the package at `dependent` needs `name` at `version`.
pub record Request : Type 0 where
  pub name : Text
  pub version : Text
  pub dependent : Text

abbrev pub perform : Placer → Request → Placer
perform p r = (place p r.name r.version r.dependent).0

-- The directory that the later request may claim for its dependent lies on the chain of the
-- earlier one, and the two ask for the same name.
unfoldable pub interferes : Request → Request → Bool
interferes earlier later =
    text_eq later.name earlier.name
    && any (text_eq (own_dir (chain_of later.dependent))) (chain_of earlier.dependent)

-- No request interferes with one before it. An importer that settles every package before the
-- packages below it, and the root before all, makes its requests in such an order.
abbrev pub IsSettledOrder : List Request → Type 0
IsSettledOrder [] = Unit
IsSettledOrder (r ∷ rs) = All (λ later. interferes r later ≡ false) rs × IsSettledOrder rs

unfoldable pub run : Placer → List Request → Placer
run p [] = p
run p (r ∷ rs) = run (perform p r) rs

abbrev pub Resolves : Placer → Request → Type 0
Resolves p r = resolve p r.name (chain_of r.dependent) ≡ some r.version

not_any :
    (b : Bool) (t : Text) (dirs : List Text)
    → (b && any (text_eq t) dirs) ≡ false
    → All (λ d. (text_eq t d && b) ≡ false) dirs
not_any b t [] h = tt
not_any b t (d ∷ dirs) h = (ground arith, not_any b t dirs (ground arith))

different_names :
    (t n m : Text) (dirs : List Text)
    → text_eq n m ≡ false
    → All (λ d. (text_eq t d && text_eq n m) ≡ false) dirs
different_names t n m [] h = tt
different_names t n m (d ∷ dirs) h = (ground arith, different_names t n m dirs h)

abbrev root : Text
root = txt "node_modules"

at_elem : (P : Text → Type 0) (dirs : List Text) {t : Text} → All P dirs → Elem t dirs → P t
at_elem P [] h m = absurd m
at_elem P (d ∷ dirs) h (inl e) = subst P (sym e) h.0
at_elem P (d ∷ dirs) h (inr m) = at_elem P dirs h.1 m

module _ (p : Placer) where
  free_at_root :
      (name dependent : Text)
      → All (λ d. slot p d name ≡ none) (chain_of dependent)
      → slot p root name ≡ none
  free_at_root name dependent free =
      let (before, e, _) = chain_root dependent in
      at_elem (λ d. slot p d name ≡ none) (before ++ root ∷ [])
        (subst (All (λ d. slot p d name ≡ none)) e free) (Elem-last before root)

  claim_same :
      (name version dependent : Text) {found : Text}
      → slot p root name ≡ none
      → resolve p name (chain_of dependent) ≡ some found
      → resolve (claim p root name version) name (chain_of dependent) ≡ some found
  claim_same name version dependent free h =
      let (before, e, ne) = chain_root dependent in
      rw e (resolve-claim_last p name version root before ne free (rw e at h))

  claim_at_root :
      (name version other dependent : Text) {found : Text}
      → slot p root name ≡ none
      → resolve p other (chain_of dependent) ≡ some found
      → resolve (claim p root name version) other (chain_of dependent) ≡ some found
  claim_at_root name version other dependent {found} free h =
      elim (Bool-cases (text_eq name other)) [
        | inl same ↦
            let e : name ≡ other = text_eq→eq name other same in
            subst (λ m. resolve (claim p root name version) m (chain_of dependent) ≡ some found) e
              (claim_same name version dependent free
                (subst (λ m. resolve p m (chain_of dependent) ≡ some found) (sym e) h))
        | inr different ↦
            resolve-claim_ne p name version root other (chain_of dependent)
              (different_names root name other (chain_of dependent) different)
            ∙ h
      ]

chain-root_dir : (dependent : Text) → root_dir (chain_of dependent) ≡ root
chain-root_dir dependent =
    let (before, e, _) = chain_root dependent in rw e (root_dir-last before root)

-- A request that does not interfere leaves an edge that resolves as it is.
pub place_keeps :
    (p : Placer) (r later : Request)
    → Resolves p r
    → interferes r later ≡ false
    → Resolves (perform p later) r
unfolding interferes place
place_keeps p r later found apart = go (scan p later.name later.version chain) refl
  where
    chain : List Text
    chain = chain_of later.dependent

    go :
        (s : Scan)
        → scan p later.name later.version (chain_of later.dependent) ≡ s
        → resolve (place p later.name later.version later.dependent).0 r.name (chain_of r.dependent)
          ≡ some r.version
    go (shared dir) e = rw (e, place) found
    go blocked e =
        rw (e, place)
          (resolve-claim_ne p later.name later.version (own_dir (chain_of later.dependent)) r.name
              (chain_of r.dependent)
              (not_any (text_eq later.name r.name) (own_dir (chain_of later.dependent))
                (chain_of r.dependent) apart)
            ∙ found)
    go root_free e =
        rw (e, place, chain-root_dir)
          (claim_at_root p later.name later.version r.name r.dependent
            (free_at_root p later.name later.dependent
              (scan_root_free p later.name later.version (chain_of later.dependent) e))
            found)

run_keeps :
    (p : Placer) (r : Request) (rs : List Request)
    → Resolves p r
    → All (λ later. interferes r later ≡ false) rs
    → Resolves (run p rs) r
unfolding run
run_keeps p r [] found h = found
run_keeps p r (later ∷ rs) found h =
    run_keeps (perform p later) r rs (place_keeps p r later found h.0) h.1

-- In a settled order every requirement resolves, at the end, to exactly the version that it asked
-- for, by Node's lookup from its dependent.
pub run-Resolves :
    (p : Placer) (rs : List Request) → IsSettledOrder rs → All (Resolves (run p rs)) rs
unfolding run
run-Resolves p [] h = tt
run-Resolves p (r ∷ rs) h = (
  run_keeps (perform p r) r rs (place_resolves p r.name r.version r.dependent) h.0,
  run-Resolves (perform p r) rs h.1,
)
