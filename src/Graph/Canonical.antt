-- ===== src/Graph/Canonical.antt =====
-- src/graph.rs: what the canonical bytes of a graph tell of the lock, and what may stand behind them.
use bpm.Prelude.{
  ℕ, Bool, true, false, not, Option, none, some, List, [], ◌∷◌, map, ◌≡◌, ◌≢◌, refl, arith,
}
use bpm.Prelude.Text.{Text, txt}
use bpm.Prelude.Map.{Map}
use bpm.Prelude.Bytes.{
  Agree, IsReadable, write_field, write_field-IsReadable, write_bool-IsReadable, write_counted,
}
use bpm.Prelude.Readable.{
  append-cancel, write_counted-Agree, write_counted-IsReadable, write_entry, write_entry-IsReadable,
  first, section-Agree,
}
use bpm.Lockfile.Schema.{LockTarget, PackageResolution, PackageEntry, Lockfile}
use bpm.Workspace.{or_empty}
use bpm.Graph.{
  libc_of, write_target, write_package, write_names, write_registry_names, write_graph, no_entries,
}

-- a target with a missing libc as an empty one
pub record TargetFacts : Type 0 where
  pub os : Text
  pub cpu : Text
  pub libc : Text

abbrev pub target_facts : Option LockTarget → Option TargetFacts
target_facts none = none
target_facts (some t) = some (record { os = t.os; cpu = t.cpu; libc = or_empty t.libc })

-- a package with the libc list of its resolution, and a missing integrity as an empty one
pub record PackageFacts : Type 0 where
  pub path : Text
  pub name : Text
  pub version : Text
  pub resolved : Text
  pub integrity : Text
  pub link : Bool
  pub dev : Bool
  pub optional : Bool
  pub os : List Text
  pub cpu : List Text
  pub libc : List Text
  pub bin : Map Text
  pub dependencies : Map Text

abbrev pub package_facts : Map PackageResolution → PackageEntry → PackageFacts
package_facts resolutions p = record {
  path = p.path;
  name = p.name;
  version = p.version;
  resolved = p.resolved;
  integrity = or_empty p.integrity;
  link = p.link;
  dev = p.dev;
  optional = p.optional;
  os = p.os;
  cpu = p.cpu;
  libc = libc_of resolutions p.path;
  bin = p.bin;
  dependencies = p.dependencies;
}

-- What identifies a graph: not the generator, the root's name or the kinds of the root's
-- dependencies.
pub record GraphFacts : Type 0 where
  pub dependencies : Map Text
  pub overrides : Map Text
  pub target : Option TargetFacts
  pub packages : List PackageFacts
  pub registry_names : Map Text

abbrev pub graph_facts : Lockfile → GraphFacts
graph_facts lockfile = record {
  dependencies = lockfile.root.dependencies;
  overrides = lockfile.resolution.root.overrides;
  target = target_facts lockfile.resolution.root.target;
  packages = map (package_facts lockfile.resolution.packages) lockfile.packages;
  registry_names = lockfile.resolution.registry_names;
}

write_target-Agree : Agree write_target target_facts write_target target_facts
unfolding write_target
write_target-Agree none none s t h =
    let (_, rest) = write_bool-IsReadable false false s t h in (refl, rest)
write_target-Agree none (some b) s t h =
    let (e, _) = write_bool-IsReadable false true s _ h in absurd (ground (arith, e))
write_target-Agree (some a) none s t h =
    let (e, _) = write_bool-IsReadable true false _ t h in absurd (ground (arith, e))
write_target-Agree (some a) (some b) s t h =
    let (_, h1) = write_bool-IsReadable true true _ _ h in
    let (e, h2) = write_field-IsReadable a.os b.os _ _ h1 in
    let (f, h3) = write_field-IsReadable a.cpu b.cpu _ _ h2 in
    let (g, end) = write_field-IsReadable (or_empty a.libc) (or_empty b.libc) s t h3 in
    (cc (e, f, g), end)

names-IsReadable : IsReadable (write_counted write_field)
names-IsReadable = write_counted-IsReadable write_field write_field-IsReadable

entries-IsReadable : IsReadable (write_counted write_entry)
entries-IsReadable = write_counted-IsReadable write_entry write_entry-IsReadable

write_package-Agree :
    (r r' : Map PackageResolution)
    → Agree (write_package r) (package_facts r) (write_package r') (package_facts r')
unfolding write_package
write_package-Agree r r' a b s t h0 =
    let (e1, h1) = write_field-IsReadable a.path b.path _ _ h0 in
    let (e2, h2) = write_field-IsReadable a.name b.name _ _ h1 in
    let (e3, h3) = write_field-IsReadable a.version b.version _ _ h2 in
    let (e4, h4) = write_field-IsReadable a.resolved b.resolved _ _ h3 in
    let (e5, h5) = write_field-IsReadable (or_empty a.integrity) (or_empty b.integrity) _ _ h4 in
    let (e6, h6) = write_bool-IsReadable a.link b.link _ _ h5 in
    let (e7, h7) = write_bool-IsReadable a.dev b.dev _ _ h6 in
    let (e8, h8) = write_bool-IsReadable a.optional b.optional _ _ h7 in
    let (e9, h9) = names-IsReadable a.os b.os _ _ h8 in
    let (e10, h10) = names-IsReadable a.cpu b.cpu _ _ h9 in
    let (e11, h11) = names-IsReadable (libc_of r a.path) (libc_of r' b.path) _ _ h10 in
    let (e12, h12) = entries-IsReadable a.bin b.bin _ _ h11 in
    let (e13, end) = entries-IsReadable a.dependencies b.dependencies s t h12 in
    (cc (e1, e2, e3, e4, e5, e6, e7, e8, e9, e10, e11, e12, e13), end)

write_names-IsReadable : IsReadable write_names
unfolding write_names
write_names-IsReadable a b s t h =
    entries-IsReadable a b s t (append-cancel (txt "registry-names\n") h)

write_names-first : (a : Map Text) (s : List ℕ) → first (write_names a s) ≡ 114
unfolding write_names first
write_names-first a s = refl

names_equal :
    (x y : Map Text)
    → not (no_entries x) ≡ not (no_entries y)
    → (not (no_entries x) ≡ true → x ≡ y)
    → x ≡ y
names_equal [] [] e f = refl
names_equal [] (k ∷ y) e f = ground (arith, e)
names_equal (k ∷ x) y e f = f refl

write_registry_names-Agree :
    (a b : Map Text) (s t : List ℕ)
    → first s ≢ 114
    → first t ≢ 114
    → write_registry_names a s ≡ write_registry_names b t
    → (a ≡ b) × (s ≡ t)
unfolding write_registry_names
write_registry_names-Agree a b s t n m h =
    let (present, same, rest) =
      section-Agree write_names (λ x. x) 114 write_names-IsReadable write_names-first
        (not (no_entries a)) (not (no_entries b)) a b s t n m h in
    (names_equal a b present same, rest)

-- Equal bytes, with sections behind them that the registry names are not taken for, are of equal
-- platforms and graphs.
pub write_graph-Agree :
    (p q : Text) (a b : Lockfile) (s t : List ℕ)
    → first s ≢ 114
    → first t ≢ 114
    → write_graph p a s ≡ write_graph q b t
    → (p ≡ q) × (graph_facts a ≡ graph_facts b) × (s ≡ t)
unfolding write_graph
write_graph-Agree p q a b s t n m h =
    let (e0, h0) = write_field-IsReadable p q _ _ (append-cancel (txt "bpm-graph-v2\n") h) in
    let (e1, h1) =
      entries-IsReadable a.root.dependencies b.root.dependencies _ _
        (append-cancel (txt "root\n") h0) in
    let (e2, h2) =
      entries-IsReadable a.resolution.root.overrides b.resolution.root.overrides _ _ h1 in
    let (e3, h3) = write_target-Agree a.resolution.root.target b.resolution.root.target _ _ h2 in
    let (e4, h4) =
      write_counted-Agree (write_package a.resolution.packages)
        (write_package b.resolution.packages) (package_facts a.resolution.packages)
        (package_facts b.resolution.packages)
        (write_package-Agree a.resolution.packages b.resolution.packages) a.packages b.packages _ _
        (append-cancel (txt "packages\n") h3) in
    let (e5, end) =
      write_registry_names-Agree a.resolution.registry_names b.resolution.registry_names s t n m
        h4 in
    (e0, cc (e1, e2, e3, e4, e5), end)
