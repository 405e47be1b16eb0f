-- ===== src/Lib.antt =====
-- BPM is an npm-compatible package manager: it resolves the dependencies of a project to a graph,
-- writes them to a lockfile, fetches the tarballs into a content-addressed store, and lays out a
-- `node_modules` tree. This library models the pure core of those steps. Each definition follows
-- the named source; a text (`String`, `&str`) is the list of its scalar values, a number is a
-- natural number in its range, a `BTreeMap` is an association list in the order of its keys, a
-- fallible function returns `Result`.
--
-- The files, and what they model:
-- * Prelude and its children: lists, texts, maps, the stable sort, signed and decimal numbers and
--   durations, as the Rust library has them, with the lemmas that the parts share.
-- * PathSafety (src/path_safety.rs): the validators of package paths, workspace targets, bin names
--   and bin targets. Normalized, Paths, Inside and BinName are about what they accept.
-- * Hoist (src/hoist.rs): `Placer::place`, which gives a dependency of the lock importers a place in
--   the tree. Chain, Slots and Order are about one call and about sequences of calls.
-- * Registry (src/registry/mod.rs): the names of packages; Registry.Spec: version ranges, package
--   specs and the selection of a version; Registry.Resolve: the version's checks and the URL of its
--   tarball. The `semver` crate, the codecs and the scheme of a URL are records of functions, and
--   Registry.Select.IsOrder says what the selection needs of versions.
-- * Config (src/config.rs): the scopes of tokens and the credential partition; Config.Source: the
--   reading of npmrc files. The `url` crate and the environment are functions, and the files are
--   given with their texts. Config.Loaded is the invariant of what was read, Config.Target is about
--   the URLs that have a target, Config.Auth about the tokens that are given away.
-- * Workspace, Graph, Derived.Key (src/workspace.rs, graph.rs, derived/key.rs): canonical bytes and
--   the identifiers made from them. blake3 is a parameter. What the bytes tell is a record of facts,
--   and Prelude.Bytes and Prelude.Readable are about writers whose bytes can be read back.
--   Graph.Forgotten: what the identifiers do not tell. Graph.Managed: the paths of entries that may
--   be removed.
-- * Lockfile (src/lockfile.rs): the data (Schema), validation, reading and writing of a lock. It
--   calls PathSafety for each package. serde_json, which reads and prints the document and probes
--   its version, is a parameter.
-- * Gc.Policy (src/gc/policy.rs): the grammar of ages and sizes, and what a policy selects.
--   Gc.Policy.Ordered says what may go, and in which order; Gc.Policy.Greedy is about the loop.
-- * Patch (src/patch.rs): the parser of unified diffs; Patch.Edit: the file of a patch and its hunks
--   applied to lines. The three nested loops of the parser are one recursion on the lines with the
--   loop as its state. A panic of the source is a result of its own. Patch.Reverted joins the two.
-- * Resolver.Model, Resolver.Platform, Resolver.Peer (src/resolver/model.rs, platform.rs, peer.rs):
--   platform filtering and peer binding. Version ranges and versions are parameters.
-- * Resolver.Overrides (src/resolver/overrides.rs): which rule overrides a request.
--   Resolver.Overrides.Applicable says when a rule applies.
-- * Resolver.Placement (src/resolver/placement.rs, with helpers of src/resolver/mod.rs): the placed
--   nodes, what a package sees of them, the choice of a version; Resolver.Placement.Resolve:
--   `resolve_dependency` with the children of each node. A failed call leaves its nodes behind, as
--   in the source, so each function returns the state with its result. It calls Registry and
--   Resolver.Platform; the overrides, the workspace index, the sources that are no registry and the
--   packuments are functions of a record Client.
-- * Http.Retry (src/http/retry.rs): which failures are retried, and after what delay.
-- * Integrity (src/integrity.rs): integrity strings. The codecs base64 and hex are parameters, and
--   Integrity.Tokens.IsCodec says what the round trip needs of them.
-- A Tests file of a part runs it at concrete inputs and applies the theorems there.
--
-- Bounds and fuel: the `u64`, `i64` and `u32` of gc/policy.rs and http/retry.rs are checked against
-- their limits where the source checks them. `decimal` runs on fuel one above the number, and
-- `trim_start_matches` on the length of its text: each step makes the number or the text smaller.
-- The chain of directories in Hoist runs on one more than the length of the path, and the path of a
-- parent package is shorter; so do the lookup of Resolver.Placement and its chain of ancestors, and
-- `expand_environment` on the length of the value. The fuel of `resolve_dependency` bounds how deep
-- packages nest; without it the call ends with an error of its own. The other loops are recursions
-- on the list that they walk.
--
-- Not modelled: file-system, network, database and process work (store, materializer, volume,
-- metadata, HTTP client, lifecycle, command line), the formats of other package managers, and the
-- tarballs around a patch, which are calls of other programs and libraries for the most part; of the
-- resolver the reading of override rules, the workspace index, the sources that are no registry and the
-- providers of peers; of src/graph.rs the closure digest and the plans, which are checked against
-- the disk; and the discovery of a workspace.
pub mod Prelude
pub mod PathSafety
pub mod Config
pub mod Derived
pub mod Graph
pub mod Hoist
pub mod Http
pub mod Integrity
pub mod Patch
pub mod Registry
pub mod Resolver
pub mod Lockfile
pub mod Gc
pub mod Workspace
