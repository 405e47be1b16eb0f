-- ===== src/Graph/Identity.antt =====
-- src/graph.rs: the identifiers of a graph are hashes of one sequence of bytes, and what equal
-- identifiers tell.
use bpm.Prelude.{
  ℕ, Bool, true, false, not, ◌||◌, List, [], ◌∷◌, map, length, ◌==◌, ◌≡◌, ◌≢◌, ◌⊎◌, inl, inr, refl,
  sym, ap, ◌∙◌, arith, if◌then◌else◌, Bool-cases,
}
use bpm.Prelude.Text.{Text, txt, text_eq, text_eq→eq, text_ne_of}
use bpm.Prelude.Map.{Map}
use bpm.Prelude.Bytes.{
  Agree, IsReadable, write_bool-IsReadable, write_field-IsReadable, append-same_length,
}
use bpm.Prelude.Readable.{append-cancel, write_counted-Agree, first, section-Agree}
use bpm.Lockfile.Schema.{Lockfile}
use bpm.Workspace.{
  WorkspacePackage, WorkspaceLayout, LayoutFacts, layout_facts, write_workspace,
  write_workspace-Agree,
}
use bpm.Graph
use bpm.Graph.{
  InstallProfile, default_profile, is_default, Key, write_graph, write_prepared,
  append_prepared_images, append_install_profile, none_prepared, has_workspace, no_patterns,
  workspace_part,
}
use bpm.Graph.Canonical.{GraphFacts, graph_facts, write_graph-Agree}

-- the prepared images, where there are some
abbrev pub prepared_part : Map Key → List ℕ → List ℕ
prepared_part prepared rest =
    if not (none_prepared prepared) then append_prepared_images prepared rest else rest

-- the profile, where it is not the default
abbrev pub profile_part : InstallProfile → List ℕ → List ℕ
profile_part profile rest =
    if not (is_default profile) then append_install_profile profile rest else rest

-- Everything that identifies what is installed, each part only where there is something to tell.
abbrev pub project_bytes : Text → Lockfile → WorkspaceLayout → Map Key → InstallProfile → List ℕ
project_bytes platform lockfile ws prepared profile =
    write_graph platform lockfile
      (workspace_part ws (prepared_part prepared (profile_part profile [])))

abbrev pub no_workspace : WorkspaceLayout
no_workspace = record { patterns = []; packages = [] }

module _ {ℓ} {Hash : Type ℓ} (hash : List ℕ → Hash) (platform : Text) (lockfile : Lockfile) where
  -- Each of the identifiers is the hash of the bytes of the parts that it is given, the others left
  -- out.
  pub graph_ids_hash_project_bytes :
      (ws : WorkspaceLayout) (prepared : Map Key) (profile : InstallProfile)
      → (Graph.graph_id_for_project_with_prepared_and_profile hash platform lockfile ws prepared
            profile
          ≡ hash (project_bytes platform lockfile ws prepared profile))
        × (Graph.graph_id_for_project_with_prepared hash platform lockfile ws prepared
            ≡ hash (project_bytes platform lockfile ws prepared default_profile))
        × (Graph.graph_id_for_project_with_profile hash platform lockfile ws profile
            ≡ hash (project_bytes platform lockfile ws [] profile))
        × (Graph.graph_id_for_project hash platform lockfile ws
            ≡ hash (project_bytes platform lockfile ws [] default_profile))
        × (Graph.graph_id_with_workspace hash platform lockfile ws
            ≡ hash (project_bytes platform lockfile ws [] default_profile))
        × (Graph.graph_id_with_prepared_and_profile hash platform lockfile prepared profile
            ≡ hash (project_bytes platform lockfile no_workspace prepared profile))
        × (Graph.graph_id_with_prepared hash platform lockfile prepared
            ≡ hash (project_bytes platform lockfile no_workspace prepared default_profile))
        × (Graph.graph_id_with_profile hash platform lockfile profile
            ≡ hash (project_bytes platform lockfile no_workspace [] profile))
        × (Graph.graph_id hash platform lockfile
            ≡ hash (project_bytes platform lockfile no_workspace [] default_profile))
  unfolding Graph.graph_id_for_project_with_prepared_and_profile
      Graph.graph_id_for_project_with_prepared Graph.graph_id_for_project_with_profile
      Graph.graph_id_for_project Graph.graph_id_with_workspace
      Graph.graph_id_with_prepared_and_profile Graph.graph_id_with_prepared
      Graph.graph_id_with_profile Graph.graph_id
  graph_ids_hash_project_bytes ws prepared profile = (
    ground arith,
    ground arith,
    ground arith,
    ground arith,
    ground arith,
    ground arith,
    ground arith,
    ground arith,
    ground arith,
  )

-- a prepared image by its path and its key's bytes
abbrev pub image_facts : Text × Key → Text × List ℕ
image_facts (path, key) = (path, key.contents)

write_prepared-Agree : Agree write_prepared image_facts write_prepared image_facts
unfolding write_prepared
write_prepared-Agree (p, k) (q, l) s t h =
    let (e, rest) = write_field-IsReadable p q _ _ h in
    let (f, end) = append-same_length k.contents l.contents s t (k.sized ∙ sym l.sized) rest in
    (cc (e, f), end)

images-Agree :
    Agree append_prepared_images (map image_facts) append_prepared_images (map image_facts)
unfolding append_prepared_images
images-Agree a b s t h =
    write_counted-Agree write_prepared write_prepared image_facts image_facts write_prepared-Agree a
      b s t (append-cancel (txt "prepared-images\n") h)

profile-IsReadable : IsReadable append_install_profile
unfolding append_install_profile
profile-IsReadable a b s t h =
    let (e, rest) =
      write_bool-IsReadable a.omit_dev b.omit_dev _ _
        (append-cancel (txt "install-profile-v2\n") h) in
    let (f, end) = write_bool-IsReadable a.lifecycle_production b.lifecycle_production s t rest in
    (cc (e, f), end)

-- the first byte of a section that stands there or not
if-first :
    (p : Bool) (s t : List ℕ) (c : ℕ) → first s ≢ c → first t ≢ c → first (if p then s else t) ≢ c
if-first true s t c n m = n
if-first false s t c n m = m

images-first : (a : Map Key) (s : List ℕ) → first (append_prepared_images a s) ≡ 112
unfolding append_prepared_images first
images-first a s = refl

profile-first : (a : InstallProfile) (s : List ℕ) → first (append_install_profile a s) ≡ 105
unfolding append_install_profile first
profile-first a s = refl

workspace-first : (a : WorkspaceLayout) (s : List ℕ) → first (write_workspace a s) ≡ 119
unfolding write_workspace first
workspace-first a s = refl

default_only : (a : InstallProfile) → is_default a ≡ true → a ≡ default_profile
default_only a d =
    let (x, y) : (a.omit_dev ≡ false) × (a.lifecycle_production ≡ false) = ground (arith, d) in
    cc (x, y)

profile_equal :
    (a b : InstallProfile)
    → not (is_default a) ≡ not (is_default b)
    → (not (is_default a) ≡ true → a ≡ b)
    → a ≡ b
profile_equal a b e f = elim (Bool-cases (is_default a)) [
  | inl d ↦ default_only a d ∙ sym (default_only b (ground (arith, e, d)))
  | inr d ↦ f (ap not d)
]

-- Equal profile sections at the end are of equal profiles.
profile_part-injective : (a b : InstallProfile) → profile_part a [] ≡ profile_part b [] → a ≡ b
unfolding first
profile_part-injective a b h =
    let (present, same, _) =
      section-Agree append_install_profile (λ x. x) 105 profile-IsReadable profile-first
        (not (is_default a)) (not (is_default b)) a b [] [] (λ e. ground (arith, e))
        (λ e. ground (arith, e)) h in
    profile_equal a b present same

empty_parts :
    (ps : List Text) (qs : List WorkspacePackage)
    → (not (length qs == 0) || not (no_patterns ps)) ≡ false
    → (ps ≡ []) × (qs ≡ [])
empty_parts [] [] h = (refl, refl)
empty_parts (p ∷ ps) [] h = ground (arith, h)
empty_parts ps (q ∷ qs) h = ground (arith, h)

no_layout :
    (a : WorkspaceLayout) → has_workspace a ≡ false → layout_facts a ≡ layout_facts no_workspace
no_layout a h = let (f, g) = empty_parts a.patterns a.packages h in cc (f, g)

layouts_equal :
    (a b : WorkspaceLayout)
    → has_workspace a ≡ has_workspace b
    → (has_workspace a ≡ true → layout_facts a ≡ layout_facts b)
    → layout_facts a ≡ layout_facts b
layouts_equal a b e f = elim (Bool-cases (has_workspace a)) [
  | inl d ↦ f d
  | inr d ↦ no_layout a d ∙ sym (no_layout b (sym e ∙ d))
]

images_equal :
    (a b : Map Key)
    → not (none_prepared a) ≡ not (none_prepared b)
    → (not (none_prepared a) ≡ true → map image_facts a ≡ map image_facts b)
    → map image_facts a ≡ map image_facts b
images_equal [] [] e f = refl
images_equal [] (k ∷ b) e f = ground (arith, e)
images_equal (k ∷ a) b e f = f refl

-- What is identified: the facts of each part.
pub record ProjectFacts : Type 0 where
  pub platform : Text
  pub graph : GraphFacts
  pub layout : LayoutFacts
  pub images : Map (List ℕ)
  pub profile : InstallProfile

abbrev pub project_facts :
    Text → Lockfile → WorkspaceLayout → Map Key → InstallProfile → ProjectFacts
project_facts platform lockfile ws prepared profile = record {
  platform = platform;
  graph = graph_facts lockfile;
  layout = layout_facts ws;
  images = map image_facts prepared;
  profile = profile;
}

-- `byte` begins neither the profile's section nor the end.
profile_part-first :
    (a : InstallProfile) (byte : ℕ) → 105 ≢ byte → 0 ≢ byte → first (profile_part a []) ≢ byte
unfolding first
profile_part-first a byte n m =
    if-first (not (is_default a)) (append_install_profile a []) [] byte
      (λ e. n (sym (profile-first a []) ∙ e)) m

prepared_part-first :
    (p : Map Key) (a : InstallProfile) (byte : ℕ)
    → 112 ≢ byte
    → 105 ≢ byte
    → 0 ≢ byte
    → first (prepared_part p (profile_part a [])) ≢ byte
prepared_part-first p a byte l n m =
    if-first (not (none_prepared p)) (append_prepared_images p (profile_part a []))
      (profile_part a []) byte (λ e. l (sym (images-first p (profile_part a [])) ∙ e))
      (profile_part-first a byte n m)

workspace_part-first :
    (w : WorkspaceLayout) (p : Map Key) (a : InstallProfile)
    → first (workspace_part w (prepared_part p (profile_part a []))) ≢ 114
workspace_part-first w p a =
    if-first (has_workspace w) (write_workspace w (prepared_part p (profile_part a [])))
      (prepared_part p (profile_part a [])) 114
      (λ e. ground (arith, e, workspace-first w (prepared_part p (profile_part a []))))
      (prepared_part-first p a 114 (λ e. ground (arith, e)) (λ e. ground (arith, e))
        (λ e. ground (arith, e)))

-- Equal bytes are of equal facts: no part is taken for another, and none is left out.
project_bytes-injective :
    (p q : Text) (a b : Lockfile) (v w : WorkspaceLayout) (i j : Map Key) (f g : InstallProfile)
    → project_bytes p a v i f ≡ project_bytes q b w j g
    → project_facts p a v i f ≡ project_facts q b w j g
project_bytes-injective p q a b v w i j f g h =
    let (e1, e2, h1) =
      write_graph-Agree p q a b _ _ (workspace_part-first v i f) (workspace_part-first w j g) h in
    let (has, layout, h2) =
      section-Agree write_workspace layout_facts 119 write_workspace-Agree workspace-first
        (has_workspace v) (has_workspace w) v w _ _
        (prepared_part-first i f 119 (λ e. ground (arith, e)) (λ e. ground (arith, e))
          (λ e. ground (arith, e)))
        (prepared_part-first j g 119 (λ e. ground (arith, e)) (λ e. ground (arith, e))
          (λ e. ground (arith, e)))
        h1 in
    let (some_images, images, h3) =
      section-Agree append_prepared_images (map image_facts) 112 images-Agree images-first
        (not (none_prepared i)) (not (none_prepared j)) i j _ _
        (profile_part-first f 112 (λ e. ground (arith, e)) (λ e. ground (arith, e)))
        (profile_part-first g 112 (λ e. ground (arith, e)) (λ e. ground (arith, e))) h2 in
    let e3 = layouts_equal v w has layout in
    let e4 = images_equal i j some_images images in
    let e5 = profile_part-injective f g h3 in cc (e1, e2, e3, e4, e5)

-- Projects of equal identifiers have equal platforms, root dependencies, overrides, targets,
-- packages, registry names, workspace layouts, prepared images and profiles, or their bytes are
-- different ones of the same hash. A missing optional text counts as an empty one, and the facts
-- that are compared hold no peer mode, no workspace target of a link and of a package's resolution
-- only its libc list.
pub equal_ids_equal_projects {ℓ} :
    {Hash : Type ℓ} (hash : List ℕ → Hash) (p q : Text) (a b : Lockfile) (v w : WorkspaceLayout)
    (i j : Map Key) (f g : InstallProfile)
    → Graph.graph_id_for_project_with_prepared_and_profile hash p a v i f
      ≡ Graph.graph_id_for_project_with_prepared_and_profile hash q b w j g
    → (project_facts p a v i f ≡ project_facts q b w j g)
      ⊎ ((project_bytes p a v i f ≢ project_bytes q b w j g)
          × (hash (project_bytes p a v i f) ≡ hash (project_bytes q b w j g)))
equal_ids_equal_projects hash p q a b v w i j f g h =
    let (x, _, _, _, _, _, _, _, _) = graph_ids_hash_project_bytes hash p a v i f in
    let (y, _, _, _, _, _, _, _, _) = graph_ids_hash_project_bytes hash q b w j g in
    elim (Bool-cases (text_eq (project_bytes p a v i f) (project_bytes q b w j g))) [
      | inl same ↦ inl (project_bytes-injective p q a b v w i j f g (text_eq→eq _ _ same))
      | inr other ↦ inr ((λ e. text_ne_of _ _ other e), sym x ∙ h ∙ y)
    ]
