-- ===== src/Lib.antt =====
-- elemental-lifecycle-manager: a controller that upgrades a cluster to a release of the platform. A
-- Release resource names a version and a registry; the controller reads the release's manifest and
-- drives the cluster there phase by phase: its own charts first (LCM), then the operating system,
-- Kubernetes and the Helm charts, and it reports in the conditions of the Release.
--
-- Components and their files (paths are those of the repository):
--   Api, Api/Sanitize            api/v1alpha1/release_types.go
--   Phase, Pipeline              internal/upgrade/phase.go, internal/upgrade/pipeline.go
--   Config                       internal/upgrade/config.go
--   Controller/Conditions        internal/controller/condition.go
--   Controller/Drain, Events, Manifests, Configs, Reconcile
--                                internal/controller/release_controller.go
--   Controller/Life              the life of a Release: edits, rounds of Reconcile, writes of its status
--   Controller/Wiring            cmd/main.go, where it builds the reconciler and its pipeline,
--                                with what a recorded version says of the cluster
--                                (Done: what the phases say; Upgraded: the whole round)
--   Startup, Startup/Options     cmd/main.go: the flags, the servers' options, the steps of main
--   Plan, Plan/Script            internal/plan
--   Reconcilers/SucPlan, Nodes, Os, Kubernetes, HelmCharts, Rke2
--                                internal/upgrade/reconcilers
--   Helm, Helm/Values, Helm/Storage
--                                internal/helm
--   Cache                        internal/release
--   Webhook                      internal/webhook/v1alpha1/release_webhook.go
--   Errors, Cluster, Prelude     Go's errors, the objects and clients of Kubernetes, shared helpers
--   Examples                     a small cluster and concrete runs
-- The modules below each of these (Order, Laws, Version, Gates and so on) hold the proofs about it.
-- A function of the source has its name here in snake case: reconcileNormal is reconcile_normal. A
-- part of a function that follows a call is a function of its own, as after_manifest.
--
-- State. A computation takes a world and returns a result or an error together with the world after
-- it (M in Errors). The world is a parameter: what the API server, the Helm storage and the registry
-- do is the record Client, HelmClient or a function, given by the user of the model, and every call
-- may change the world, since other controllers run at the same time. The raw manifests that the
-- reconciler keeps in memory are a part of the world in Controller/Manifests. reconcile_normal changes
-- its release also when it fails, so it returns an outcome: the release together with the result.
-- Maps are association lists with one entry for each key, and loops over Go maps run in the order of
-- those lists.
--
-- Life. Between the read of a Release and the write of its status anything may happen: Life in
-- Controller/Life keeps the stored Release, the status that waits to be written and the world, and its
-- steps are an edit by the user, a round of reconcile_normal, the write into the Release as it is
-- stored by then, the loss of that write, and a change of the world. Reach is what a new Release can
-- come to by such steps. drive in Controller/Life/Drive is the queue of controller-runtime for one
-- Release: it makes another round whenever a round asks for one or returns an error. What a cluster
-- must do for the rounds to end is the record Works in Controller/Reconcile/Progress, for the release,
-- the configurations and the manifest of the run: the calls answer without errors, and a self-upgrade
-- or a pipeline that is not done has done a part of what is left. A self-upgrade that is skipped costs
-- one more round.
--
-- Errors and panics. The index of an empty list of nodes panics in createSnapshot; first_version makes
-- an error panics of it, which is passed up as other errors are. reconcile does not write a status after
-- it, as Go leaves Reconcile there. What the code above a panic changes in memory is dropped.
--
-- Libraries outside the repository are parameters: the conditions of apimachinery (ConditionOps, with
-- its documented laws in ConditionLaws), decoders and encoders, the parsers of image references, URLs
-- and versions, Semantic.DeepEqual, RetryOnConflict, SHA-256, and the resolver of manifests. A value of a
-- chart is a Value of Helm/Values, which keeps apart the whole numbers of yaml.v3 and the floats of
-- encoding/json, since DeepEqual does. What is assumed of JSON is in HelmLaws of
-- Reconcilers/HelmCharts/Chart/Idempotence; of a ConfigMap of the cache only its data is assumed to
-- read back, in CacheLaws of Cache/RoundTrip.
--
-- Fuel. Only the depth-first sort of the charts is not structural: visit takes one unit of fuel for
-- each level, and gets one for each chart and one more. The charts in progress are different keys of
-- the map of charts, so this is always enough. The wait for the deletion of a snapshot polls as often
-- as the library fits in its timeout, a number that is a parameter.
--
-- main in Startup is a computation over the record Runtime, the calls that it makes to
-- controller-runtime; an error of it is an exit with the code 1. A TLS option is a function on the
-- configuration, which the servers of the library apply in order.
--
-- Not modelled: logging, metrics, time stamps of conditions, the parser of the command line, signals,
-- the registration of types with the scheme, the watches of SetupWithManager, generated code, test
-- helpers, charts and deployment files. Contexts are never cancelled.
pub mod Prelude
pub mod Api
pub mod Phase
pub mod Errors
pub mod Cluster
pub mod Helm
pub mod Config
pub mod Pipeline
pub mod Controller
pub mod Plan
pub mod Reconcilers
pub mod Webhook
pub mod Cache
pub mod Startup
pub mod Examples
