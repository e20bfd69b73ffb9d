-- ===== src/Lib.antt =====
-- astradns-operator: the control logic of a Kubernetes operator that turns DNSUpstreamPool and
-- DNSCacheProfile resources into the configuration of a DNS engine.
--
-- A pool is created under the admission webhook, which allows one pool per namespace. The pool
-- controller selects the active pool of a namespace, validates it, generates an engine-agnostic
-- configuration from it and the cache profile, renders that for one engine and writes the text to
-- a ConfigMap behind a circuit breaker; a gauge exports which pool is active. The controller of cache
-- profiles validates them. That of ExternalDNSPolicy resources validates the references of a policy to
-- a pool and a profile and marks the namespaces that it selects by annotations, which name the policy
-- as their owner; a finalizer keeps a deleted policy until its marks are taken off. The files:
--
--   Generator   pkg/engineconfig/defaultgen.go: Generate is `generate`, its sort comparison
--               `upstream_less`, a round of its loop `convert_upstream`, its part on the cache
--               profile `apply_profile`, and each helper has its own name. Engine has the types
--               of the result.
--   Renderer    pkg/engineconfig/{unbound,coredns,powerdns}/renderer.go, a child each, with
--               normalizeConfig, the compatibility check, its loop, and Render; Template has the
--               steps that follow the check, and Registry the three renderers with their other
--               methods, as the init of each package registers them.
--   Pool        controllers/dnsupstreampool_controller.go: Validate has validateDNSUpstreamPool
--               and its parsers, Select has sortPoolsForSelection, initialRV and
--               selectActivePoolName, Circuit has upsertConfigMapWithCircuitBreaker and its three
--               helpers, Metric has recordActivePoolSelectionMetric and
--               clearActivePoolSelectionMetric, Stamp has ensureInitialRVAnnotation, ConfigMap has
--               upsertConfigMap, removeConfigKey, validateConfigMapPayloadSize and the names that
--               the environment may set, Reconcile has Reconcile for a pool that exists, a
--               function for each part from a return on, setReadyCondition and
--               getDefaultCacheProfile, Deletion has reconcileAfterPoolDeletion, Entry has the
--               head of Reconcile, which branches between the two, mapCacheProfileToPools and
--               SetupWithManager; in Reconcile, Steps has the generator and the renderer that
--               cmd/main.go gives the controller.
--   Webhook     controllers/dnsupstreampool_webhook.go: Handle.
--   Profile     controllers/dnscacheprofile_controller.go: validateDNSCacheProfile, and in its
--               Reconcile setActiveCondition, Reconcile and SetupWithManager.
--   Policy      controllers/externaldnspolicy_controller.go: References has validateReferences and
--               validatePolicyRefName, Annotations has updateNamespacePolicyAnnotations and
--               removeNamespacePolicyAnnotations, Enforce has enforcePolicy,
--               clearPolicyEnforcement and listManagedPolicyNamespaces, Reconcile has Reconcile,
--               a function for each part from a return on, and setValidatedCondition, Watch has
--               the three functions that map a changed object to requests, and
--               SetupWithManager.
--   Startup     cmd/main.go: the options from flags and environment, and the calls of main.
--   Api         the custom resources with the fields that the code reads; Kube has the results of
--               the client's Get and the requests.
--   Text        the functions of package strings, strconv and unicode that the code calls;
--               Dict has Go's maps, Base the shared helpers, Samples and Tests concrete inputs.
--
-- The state that the code shares is passed explicitly: the two maps of the circuit breaker are
-- `Circuit`, the map and the gauge of the metric are `Metric`. A method that takes the mutex is one
-- step on its record. Errors are values of a data type per function, with the index that the text
-- of the error names; the texts themselves are not modelled.
--
-- Code that is not in the repository is a parameter: `Platform` has netip.ParseAddr, the name checks
-- of Kubernetes, unicode.ToLower beyond ASCII and the number of processors; `PoolSort` is sort.Slice
-- with its contract, a permutation, sorted where the comparison is a strict weak order; `GaugeVec` is
-- the gauge with the laws of setting and deleting a series; `Templates` is the template step of a
-- renderer; `ConfigMaps` is the client on ConfigMaps and `Namespaces` the client on namespaces,
-- each with an `IsStore` as its documentation, and `IsAtomic` that a write of an object is one;
-- `MapRange` is the order in which Go ranges over a map, any permutation of the keys; the other
-- calls of the client, a list, a get or a patch, are arguments. `Engines` has the types of the engines
-- and their templates, and what NewRenderer returns for a type is what is registered for it.
-- SetupWithManager is the function from a change of a watched object to the requests that it makes.
-- sort.SliceStable and sort.Strings are an insertion sort, to which their contracts make them equal.
-- Each of the three Reconcile functions has these calls together in a record, `Client`,
-- `ProfileClient` or `PolicyClient`; the reads of one run see one world that only the run's own calls
-- change, and between two runs the cluster may change in any way. Not modelled are log lines, events,
-- the messages and observed generations of conditions, the registration of the webhook's path and of
-- the gauge, and of cmd/main.go the parsing of the flags, the scheme and the logger.
--
-- Numbers: the int32 and int64 fields of the resources are integers that the code only compares and
-- copies, so nothing wraps; a count of failures is a natural number, and so is that of the namespaces
-- to which a policy is applied, at most the number of names in its selector. Times are nanoseconds, the
-- circuit stays open for 30 * 10 ^ 9, and each reading of the clock is an argument of its call. Every
-- loop is a structural recursion on the list that it ranges over, so no definition takes fuel.
pub mod Base
pub mod Text
pub mod Dict
pub mod Platform
pub mod Kube
pub mod Api
pub mod Pool
pub mod Engine
pub mod Generator
pub mod Template
pub mod Renderer
pub mod Webhook
pub mod Profile
pub mod Policy
pub mod Startup
pub mod Samples
mod Tests
