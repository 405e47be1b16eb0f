-- ===== src/Resolver/Placement/Lookup.antt =====
-- src/resolver/placement.rs: `find_visible` and `find_visible_any` against the directories above a
-- package.
use bpm.Prelude.{
  ℕ, zero, suc, ◌<◌, Bool, true, false, none, some, [], ◌∷◌, ◌≡◌, ◌↔◌, refl, sym, ap, ◌∙◌, inl, inr,
  arith, if◌then◌else◌, length, Bool-cases, Option-cases,
}
use bpm.Prelude.Text.{Text, txt, is_empty}
use bpm.Prelude.Map.{get}
use bpm.Hoist.{before_last}
use bpm.Hoist.Chain.{length-before_last}
use bpm.Registry.Spec.{Semver}
use bpm.Resolver.Placement.{
  Node, Nodes, parent_path, child_path, find_from, find, fits, request_matches, find_visible,
  find_visible_any,
}

not_empty : (s : Text) → is_empty s ≡ false → 0 < length s
not_empty [] h = cc
not_empty (c ∷ s) h = omega arith

-- a directory above the root's is shorter
shorter : (path : Text) → is_empty path ≡ false → length (parent_path path) < length path
shorter path h = elim (Option-cases (before_last (txt "/node_modules/") path)) [
  | inl e ↦ rw e (ground (arith, h, not_empty path h))
  | inr (q, e) ↦ rw e (length-before_last (txt "/node_modules/") path q e refl)
]

module _ (semver : Semver) (nodes : Nodes semver) (name : Text) where
  -- The path of the nearest directory, from `dir` up, whose node of the name is accepted.
  pub data Nearest (accept : Node semver → Bool) : Text → Text → Type 0 where
    found :
        {dir : Text} (node : Node semver)
        → get (child_path dir name) nodes ≡ some node
        → accept node ≡ true
        → Nearest accept dir (child_path dir name)
    above :
        {dir path : Text}
        → is_empty dir ≡ false
        → ((node : Node semver) → get (child_path dir name) nodes ≡ some node → accept node ≡ false)
        → Nearest accept (parent_path dir) path
        → Nearest accept dir path

  find_from-Nearest :
      (fuel : ℕ) (accept : Node semver → Bool) (dir path : Text)
      → find_from semver fuel nodes name accept dir ≡ some path
      → Nearest accept dir path
  unfolding find_from
  find_from-Nearest zero accept dir path h = cc
  find_from-Nearest (suc fuel) accept dir path h =
      elim (Option-cases (get (child_path dir name) nodes)) [
        | inl e ↦
            let next : (if is_empty dir
                  then none
                  else find_from semver fuel nodes name accept (parent_path dir))
                ≡ some path =
              rw (e, find_from) at h in
            let e_dir : is_empty dir ≡ false = ground (arith, next) in
            above e_dir (λ node k. cc (e, k))
              (find_from-Nearest fuel accept (parent_path dir) path (ground (arith, next)))
        | inr (node, e) ↦ elim (Bool-cases (accept node)) [
          | inl fit ↦
              let here : some (child_path dir name) ≡ some path = rw (e, fit, find_from) at h in
              let same : child_path dir name ≡ path = cc here in rw (sym same) (found node e fit)
          | inr unfit ↦
              let next : (if is_empty dir
                    then none
                    else find_from semver fuel nodes name accept (parent_path dir))
                  ≡ some path =
                rw (e, unfit, find_from) at h in
              let e_dir : is_empty dir ≡ false = ground (arith, next) in
              above e_dir (λ other k. let same : node ≡ other = cc (e, k) in cc (same, unfit))
                (find_from-Nearest fuel accept (parent_path dir) path (ground (arith, next)))
        ]
      ]

  -- one round of the loop that does not end it
  find_from_above :
      (fuel : ℕ) (accept : Node semver → Bool) (dir : Text)
      → is_empty dir ≡ false
      → ((node : Node semver) → get (child_path dir name) nodes ≡ some node → accept node ≡ false)
      → find_from semver (suc fuel) nodes name accept dir
        ≡ find_from semver fuel nodes name accept (parent_path dir)
  unfolding find_from
  find_from_above fuel accept dir e unfit = elim (Option-cases (get (child_path dir name) nodes)) [
    | inl k ↦ rw (k, e, find_from) refl
    | inr (node, k) ↦ rw (k, unfit node k, e, find_from) refl
  ]

  Nearest-find_from :
      (fuel : ℕ) (accept : Node semver → Bool) (dir path : Text)
      → length dir < fuel
      → Nearest accept dir path
      → find_from semver fuel nodes name accept dir ≡ some path
  unfolding find_from
  Nearest-find_from zero accept dir path l n = absurd (omega (arith, l))
  Nearest-find_from (suc fuel) accept dir path l (found node e fit) = rw (e, fit, find_from) refl
  Nearest-find_from (suc fuel) accept dir path l (above e unfit n) =
      let less = shorter dir e in
      find_from_above fuel accept dir e unfit
      ∙ Nearest-find_from fuel accept (parent_path dir) path (omega (arith, l, less)) n

  -- The lookup returns a path exactly where it is that of the nearest accepted node of the name.
  pub find_iff :
      (accept : Node semver → Bool) (dir path : Text)
      → (find semver nodes name accept dir ≡ some path) ↔ Nearest accept dir path
  unfolding find
  find_iff accept dir path = (
    find_from-Nearest (suc (length dir)) accept dir path,
    Nearest-find_from (suc (length dir)) accept dir path (omega arith),
  )

  pub accepted_at :
      (accept : Node semver → Bool) (dir path : Text)
      → Nearest accept dir path
      → (node : Node semver) × (get path nodes ≡ some node) × (accept node ≡ true)
  accepted_at accept dir path (found node e fit) = (node, e, fit)
  accepted_at accept dir path (above e unfit n) = accepted_at accept _ path n

  narrow :
      (accept : Node semver → Bool) (dir path : Text) (node : Node semver)
      → get path nodes ≡ some node
      → accept node ≡ true
      → Nearest (λ other. true) dir path
      → Nearest accept dir path
  narrow accept dir path node at fit (found other e _) = found node at fit
  narrow accept dir path node at fit (above e none_here n) =
      above e (λ other k. absurd (ground (arith, none_here other k)))
        (narrow accept _ path node at fit n)

  -- Where a package loads a node of the name, `find_visible` returns that node exactly if its version
  -- fits the request.
  pub find_visible_loaded_iff :
      (parent spec near : Text) (node : Node semver)
      → find_visible_any semver nodes parent name ≡ some near
      → get near nodes ≡ some node
      → (find_visible semver nodes parent name spec ≡ some near)
        ↔ (request_matches semver spec node.metadata.version ≡ true)
  find_visible_loaded_iff parent spec near node loaded at = (
    λ h.
        let (other, e, fit) =
          accepted_at (fits semver spec) parent near
            ((find_iff (fits semver spec) parent near).0 h) in
        let same : other ≡ node = cc (e, at) in ap (λ n. fits semver spec n) (sym same) ∙ fit,
    λ fit. (find_iff (fits semver spec) parent near).1 (
        narrow (fits semver spec) parent near node at fit
          ((find_iff (λ other. true) parent near).0 loaded)),
  )
