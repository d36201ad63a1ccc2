-- ===== src/Lib.antt =====
-- release-tests-ginkgo: the end-to-end tests of OpenShift Pipelines. The specs under tests/ run on
-- live clusters; the packages under pkg/ hold the logic that decides whether a run is right. This
-- library models that logic: what the helpers wait for, what they accept and reject, and how they
-- undo what they change.
--
-- Prelude (with Equality, Texts and Lists) holds the shared names, the equality of strings and
-- numbers, byte strings with the functions of package strings, and lemmas on lists. Ginkgo has the
-- ways a spec ends: it returns, is skipped, or fails. Poll is the contract of
-- wait.PollUntilContextTimeout, which is not in the repository: a relation on the runs of a
-- condition that the documentation allows, and the Poller that the other modules take as an
-- argument. Poll/Bounded fills it with a poller that evaluates a condition a given number of times;
-- it serves the examples.
--
-- Wait models pkg/wait/wait.go. Wait/State has the condition functions (Succeed, Failed,
-- FailedWithReason, FailedWithMessage, Running), Wait/Resources pollImmediateWithContext and the
-- WaitFor...State functions, Wait/Probes the condition functions of the Triggers part. The API is
-- seen through its answers: the n-th evaluation of a condition gets the n-th answer.
--
-- Kueue models pkg/tektonkueue. Kueue/Validation is validate, Kueue/Cleanup addCleanup and Cleanup,
-- Kueue/Frameworks the lists of external frameworks that ensurePipelineRunIntegration extends and
-- the cleanup of ensureKueue shortens, Kueue/Scheduler the fields that enableScheduler writes and
-- restoreSchedulerFields, all of environment.go. Kueue/Spokes is waitForSpokeExecution and
-- recordSpokes, Kueue/Completion waitForCompletion with what it calls and, with its poll in
-- Completion/Gone, waitForExecutionObjectsGone, of workload.go, and Kueue/Ready the conditions of
-- waitForKueue, waitForTektonConfig and waitForHubWorkload. The accessors of unstructured objects
-- are a parameter, Unstructured, with the laws IsLawful. The loop of Cleanup runs on its index,
-- which is its own bound, so it needs no fuel.
--
-- Kube is the contract of the API servers: keys, objects, and Server, the calls of client-go with
-- the laws that the program relies on; Kube/Retry is that of retry.RetryOnConflict, a relation on
-- runs like that of polls. Kube/Memory fills the first with a map, for the examples. The deletion
-- of a namespace may delete what lies in it, at once or in a later pause, and in a pause the
-- cluster may make objects by itself, such as the ConfigMap of the root CA in a new namespace.
-- Otherwise nobody but the program changes the objects that the laws name, and a pause between two
-- evaluations of a poll only finishes deletions. Kube/Laws has what follows for an object and the
-- namespace that it lies in.
--
-- Kueue/Resources models pkg/tektonkueue/resources.go: the labels and the cleanups in
-- Kueue/Resources itself, Create the functions that create one object, Bodies what is in the
-- objects, Scope the credential of a worker, Peers spokeAPIPeers, Build the functions that create
-- several objects, Hub those of the hub, the waits, and the part of Setup of environment.go from
-- the namespaces to the egress policy. Foreign and Unharmed, Erase and Removed are proofs on the
-- cleanups and on the whole; Stable and Preserved carry an invariant through the steps; Credential
-- is about the scope of the credential, Allowed and Permits about the peers, whose ports int_port
-- of Hub converts to 32 bits (intPort).
--
-- Multicluster models pkg/multicluster/multicluster.go, which makes one cluster its own worker:
-- Multicluster the deletions, Ensure and Register what is created or adopted and in which order,
-- Policies the assertions on network policies, Config the snapshot and the restoration of the
-- TektonConfig, where oc patch --type=merge follows RFC 7386 (Tekton), and the reads and updates of
-- the TektonConfig are calls of a client. Stable and Steps carry an invariant through the set-up,
-- Spared and Worker, Deleted and Discharged are proofs on it and on the deletions.
--
-- Monitoring models the checks of pkg/monitoring/mtls.go on decoded answers: Monitoring itself
-- those of services and service monitors with pollUntilNoError, Pods those of pods and installer
-- sets, Pruner the switches of the TektonConfig.
--
-- Olm models pkg/olm/cluster_bootstrap.go, the installation of operators, with a client that is not
-- nil: the lists, the reading of subscriptions and the discovery of APIs are the parameter Catalog,
-- the other calls are those of Server. Olm/Installed is about what EnsureOperator has seen,
-- Olm/Kept about what it leaves as it is.
--
-- TlsProfile models the two assertions of pkg/operator/tlsprofile.go that poll; the Deployment and
-- the ConfigMap are read by functions of the state.
--
-- SkipRange models pkg/oc/olm_skiprange.go. SkipRange/Version has the regular expressions as scans
-- from left to right and the functions on versions, SkipRange/Fetch FetchOlmSkipRange on the
-- decoded package manifests, SkipRange/Checks ValidateOlmSkipRange and
-- ValidateChannelSkipRangeBounds, SkipRange/Diff GetOlmSkipRange and ValidateOlmSkipRangeDiff on
-- the decoded file. A Go map is a list in the order of an iteration. The digits of a number are
-- printed with fuel one above the number, which has fewer digits than that.
--
-- TlsScanner models pkg/tlsscanner/results.go: the decoded results and the assertions. ApprovalGate
-- models parts of pkg/manualapprovalgate/manualapprovalgate.go: Tasks and Waits the counters,
-- states, messages and conditions of the polls, GroupName MAGGroupName, Logins the cached
-- kubeconfigs of the test users. Store models pkg/store/store.go, with the types of other packages
-- as parameters. EnvLoader models the loop of pkg/config/envloader.go over the lines of the
-- properties file.
--
-- Not modelled: the calls of oc, opc and the clients themselves, the texts of log and error
-- messages, JSON decoding and files, which are arguments; of pkg/tektonkueue the rest of Setup
-- (ensureKueue around the lists of frameworks, enableScheduler around its fields) and Execute; of
-- pkg/multicluster SetSchedulerMode and EnsureCustomPolicy; and the packages that mostly pass
-- arguments on: clients, cmd, diagnostics, hooks, k8s, the rest of monitoring, oc/oc.go,
-- olm/subscription.go, opc, openshift, the rest of operator, pac, pipelines, statefulset, testcase
-- and triggers.
pub mod Prelude
pub mod Poll
pub mod Wait
pub mod Kube
pub mod Kueue
pub mod Multicluster
pub mod Monitoring
pub mod Olm
pub mod SkipRange
pub mod Ginkgo
pub mod TlsProfile
pub mod TlsScanner
pub mod ApprovalGate
pub mod Store
pub mod EnvLoader
