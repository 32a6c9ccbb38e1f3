-- ===== src/Lib.antt =====
-- argocd-tag-updater: a Kubernetes controller that watches a stream of release tags, writes the values
-- of the newest one into a manifest in git, and follows the rollout by ArgoCD, writing the previous
-- values back when the rollout fails.
--
-- The parts of the program and their modules:
--   Api            api/v1alpha1/tagupdater_types.go: the custom resource.
--   Matcher        internal/matcher/matcher.go: which tags match, and which match is the latest.
--   Progress       internal/controller/progress.go: when reconciles succeeded, and the health check.
--   Sources        internal/source: the sources as data; GitTags (git.go), NixCache (nix.go), Registry
--                  (oci.go), Digest and Lookup (oci_digest.go), Bearer (oci_bearer.go), over the HTTP
--                  and URL libraries of Http.
--   Writeback      internal/writeback: the types of git.go; Git (Apply, applyOnce, auth, RemoteHead),
--                  Paths (safeManifestPath), Urls (toHTTPS), Message (commitMessage), Yaml (yaml.go),
--                  TempDir (temp.go).
--   Controller     internal/controller/tagupdater_controller.go and image_digest.go: the reconciler.
--   Base           lists, maps, Go's text functions, time, 64-bit integers, and Go's (value, error) results.
--   Tests          a small world, and instances of the theorems in it.
--
-- The reconciler is a chain of functions from a state to a result and a state (Base/Flow). The state
-- (Controller/Env, `State`) has the status in memory, the status that the API server holds, the
-- reconciler's own fields, the writers whose `Apply` was called, the events, and the number of calls made
-- outside. What the reconciler calls and does not implement is the record `Env`: the Kubernetes API, the
-- clock, the files, regular expressions, `sort.Slice`, and the methods of the tag sources and of the
-- writer. An outside call is a function of the number of calls made so far, so that two calls may answer
-- differently. An early `return` of `Reconcile` is an error value that carries the result. Where
-- `Reconcile` is one long function in Go, each phase of it is a function here, and a comment says which.
-- A pointer that may be nil is an option. A time is a number of nanoseconds since Go's zero time, a
-- duration an integer of 64 bits with Go's wrap-around or saturation.
--
-- The modules under Controller/Effects have one rule for each phase, about any relation between states
-- that the smallest effects keep; the safety theorems pick the relation. Git/Once/Effects has the same
-- for the write-back. Loops are over lists, but for the pages of a registry (Sources/Registry), which take
-- fuel as no code bounds them, and the three attempts of Apply.
--
-- A manifest is a list of bytes. The YAML tree is a heap of nodes and a pointer a place in it, since
-- setScalar changes nodes that the maps of edits and insertions share. Where Go panics, the model returns a
-- panic. The write-back records what it does outside in a session: clones, pushes, directories, files.
--
-- Not modelled: logging; the texts of events; the type (normal or warning) of an event; transition times
-- of conditions, which a library sets and the program never reads; the concurrency of reconciles, whose
-- shared fields are read and written one step at a time; HTTP redirects and time limits; the YAML library,
-- templates and go-git, which are parameters; the wiring in cmd/main.go, generated code, charts.
pub mod Base
pub mod Api
pub mod Matcher
pub mod Progress
pub mod Sources
pub mod Writeback
pub mod Controller
pub mod Tests
