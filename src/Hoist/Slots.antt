-- ===== src/Hoist/Slots.antt =====
-- One call of `place` of hoist.rs: what it does to the slots, and how the edge then resolves.
use bpm.Prelude.{
  ◌≡◌, refl, sym, ◌∙◌, ◌≢◌, false, ◌&&◌, Option, none, some, List, [], ◌∷◌, ◌++◌, if◌then◌else◌,
  All, Elem, inl, inr, arith, Option-cases,
}
use bpm.Prelude.Text.{Text, txt, text_eq, text_eq→eq, text_eq_iff, text_eq_refl, text_eq_ne}
use bpm.Prelude.Map
use bpm.Prelude.Map.{get-insert}
use bpm.Hoist.{
  Placer, chain_of, slot, Scan, shared, blocked, root_free, scan, claim, own_dir, root_dir,
  slot_path, place,
}
use bpm.Hoist.Chain.{chain_root}

-- Node's lookup: the first directory of the chain that holds the name.
unfoldable pub resolve : Placer → Text → List Text → Option Text
resolve placer name [] = none
resolve placer name (dir ∷ dirs) =
    let above = resolve placer name dirs in
    elim (slot placer dir name) [ none ↦ above | some version ↦ some version ]

-- A claim writes one slot.
pub slot-claim :
    (p : Placer) (target dir name other version : Text)
    → slot (claim p target name version) dir other
      ≡ (if text_eq target dir && text_eq name other then some version else slot p dir other)
unfolding slot claim Map.get
slot-claim p target dir name other version = elim (Option-cases (Map.get target p.occupied)) [
  | inl e ↦ ground (
    arith,
    e,
    text_eq_iff target dir,
    text_eq_iff name other,
    get-insert target dir (Map.insert name version []) p.occupied,
    get-insert {V = Text} name other version [],
  )
  | inr (m, e) ↦ ground (
    arith,
    e,
    text_eq_iff target dir,
    text_eq_iff name other,
    get-insert target dir (Map.insert name version m) p.occupied,
    get-insert name other version m,
  )
]

module _ (p : Placer) (name version : Text) where
  pub scan_shared :
      (dirs : List Text) {dir : Text}
      → scan p name version dirs ≡ shared dir
      → (resolve p name dirs ≡ some version) × (slot p dir name ≡ some version) × Elem dir dirs
  unfolding scan resolve
  scan_shared [] h = absurd (ground arith)
  scan_shared (d ∷ dirs) {dir} h = elim (Option-cases (slot p d name)) [
    | inl e ↦
        let (a, b, c) = scan_shared dirs {dir = dir} (ground (arith, e)) in
        (ground (arith, e, a), b, inr c)
    | inr (w, e) ↦
        let same : w ≡ version = text_eq→eq w version (ground (arith, e)) in
        let here : d ≡ dir = ground (arith, e) in
        (ground (arith, e, same), cc (e, same, here), inl (sym here))
  ]

  pub scan_root_free :
      (dirs : List Text)
      → scan p name version dirs ≡ root_free
      → All (λ d. slot p d name ≡ none) dirs
  unfolding scan
  scan_root_free [] h = tt
  scan_root_free (d ∷ dirs) h = elim (Option-cases (slot p d name)) [
    | inl e ↦ (e, scan_root_free dirs (ground (arith, e)))
    | inr (w, e) ↦ absurd (ground (arith, e))
  ]

  resolve-claim_free :
      (t : Text) (dirs : List Text)
      → All (λ d. slot p d name ≡ none) dirs
      → Elem t dirs
      → resolve (claim p t name version) name dirs ≡ some version
  unfolding resolve
  resolve-claim_free t [] h m = absurd m
  resolve-claim_free t (d ∷ dirs) h (inl e) =
      ground (arith, e, slot-claim p t d name name version, text_eq_refl d, text_eq_refl name)
  resolve-claim_free t (d ∷ dirs) h (inr m) =
      ground (arith, h.0, slot-claim p t d name name version, resolve-claim_free t dirs h.1 m)

  -- a claim outside the directories, or of another name, is not seen
  pub resolve-claim_ne :
      (t other : Text) (dirs : List Text)
      → All (λ d. (text_eq t d && text_eq name other) ≡ false) dirs
      → resolve (claim p t name version) other dirs ≡ resolve p other dirs
  unfolding resolve
  resolve-claim_ne t other [] h = refl
  resolve-claim_ne t other (d ∷ dirs) h =
      ground (arith, h.0, slot-claim p t d name other version, resolve-claim_ne t other dirs h.1)

  -- a claim of a free slot at the end of the directories leaves what is found before it
  pub resolve-claim_last :
      (t : Text) (before : List Text) {found : Text}
      → All (λ d. d ≢ t) before
      → slot p t name ≡ none
      → resolve p name (before ++ t ∷ []) ≡ some found
      → resolve (claim p t name version) name (before ++ t ∷ []) ≡ some found
  unfolding resolve
  resolve-claim_last t [] n free h = absurd (ground (arith, free))
  resolve-claim_last t (d ∷ before) {found} n free h = ground (
    arith,
    slot-claim p t d name name version,
    text_eq_ne t d (λ e. n.0 (sym e)),
    resolve-claim_last t before {found = found} n.1 free,
  )

pub root_dir-last : (before : List Text) (t : Text) → root_dir (before ++ t ∷ []) ≡ t
root_dir-last [] t = refl
root_dir-last (d ∷ []) t = refl
root_dir-last (d ∷ e ∷ before) t = root_dir-last (e ∷ before) t

pub Elem-last : (before : List Text) (t : Text) → Elem t (before ++ t ∷ [])
Elem-last [] t = inl refl
Elem-last (d ∷ before) t = inr (Elem-last before t)

pub Elem-root : (path : Text) → Elem (root_dir (chain_of path)) (chain_of path)
Elem-root path =
    let (before, e, _) = chain_root path in
    rw e (rw root_dir-last (Elem-last before (txt "node_modules")))

own-found :
    (p : Placer) (name version : Text) (dirs : List Text)
    → dirs ≢ []
    → resolve (claim p (own_dir dirs) name version) name dirs ≡ some version
unfolding resolve
own-found p name version [] n = absurd (n refl)
own-found p name version (d ∷ dirs) n =
    ground (arith, slot-claim p d d name name version, text_eq_refl d, text_eq_refl name)

chain-ne-nil : (path : Text) → chain_of path ≢ []
chain-ne-nil path e = let (before, f, _) = chain_root path in absurd (none_there before (sym f ∙ e))
  where
    none_there : (before : List Text) → (before ++ txt "node_modules" ∷ []) ≢ []
    none_there [] e = cc
    none_there (d ∷ before) e = cc

-- After `place` the edge resolves: Node's lookup from the dependent finds exactly the version that
-- was asked for, whatever was placed before.
pub place_resolves :
    (p : Placer) (name version dependent : Text)
    → resolve (place p name version dependent).0 name (chain_of dependent) ≡ some version
unfolding place
place_resolves p name version dependent = go (scan p name version (chain_of dependent)) refl
  where
    go :
        (s : Scan)
        → scan p name version (chain_of dependent) ≡ s
        → resolve (place p name version dependent).0 name (chain_of dependent) ≡ some version
    go (shared dir) e =
        rw (e, place) (scan_shared p name version (chain_of dependent) {dir = dir} e).0
    go blocked e =
        rw (e, place) (own-found p name version (chain_of dependent) (chain-ne-nil dependent))
    go root_free e =
        rw (e, place)
          (resolve-claim_free p name version (root_dir (chain_of dependent)) (chain_of dependent)
            (scan_root_free p name version (chain_of dependent) e) (Elem-root dependent))

-- The path that `place` returns is a directory of the dependent's chain, and the name, and the
-- slot there holds the version.
pub place_path :
    (p : Placer) (name version dependent : Text)
    → (dir : Text) × ((place p name version dependent).1 ≡ slot_path dir name)
      × Elem dir (chain_of dependent)
      × (slot (place p name version dependent).0 dir name ≡ some version)
unfolding place
place_path p name version dependent = go (scan p name version (chain_of dependent)) refl
  where
    self : (t : Text) → slot (claim p t name version) t name ≡ some version
    self t = ground (arith, slot-claim p t t name name version, text_eq_refl t, text_eq_refl name)

    own : (dirs : List Text) → dirs ≢ [] → Elem (own_dir dirs) dirs
    own [] n = absurd (n refl)
    own (d ∷ dirs) n = inl refl

    go :
        (s : Scan)
        → scan p name version (chain_of dependent) ≡ s
        → (dir : Text) × ((place p name version dependent).1 ≡ slot_path dir name)
          × Elem dir (chain_of dependent)
          × (slot (place p name version dependent).0 dir name ≡ some version)
    go (shared dir) e =
        let (_, there, m) = scan_shared p name version (chain_of dependent) {dir = dir} e in
        (dir, rw (e, place), m, rw (e, place) there)
    go blocked e = (
      own_dir (chain_of dependent),
      rw (e, place),
      own (chain_of dependent) (chain-ne-nil dependent),
      rw (e, place) (self (own_dir (chain_of dependent))),
    )
    go root_free e = (
      root_dir (chain_of dependent),
      rw (e, place),
      Elem-root dependent,
      rw (e, place) (self (root_dir (chain_of dependent))),
    )
