-- ===== src/Lib.antt =====
-- autoscale-tests: the helpers that drive the end-to-end suites of the OpenShift autoscalers.
--
-- The program is test support in Go. Package pkg/framework has the helpers of the suites for the
-- HorizontalPodAutoscaler, KEDA, the VerticalPodAutoscaler and the ClusterResourceOverride: it
-- builds objects from configurations, sends them to a cluster, and polls until the cluster shows
-- what a test waits for. Package cas/pkg/framework has the helpers for the cluster autoscaler:
-- nodes, machines, machine sets and workload jobs, and a gatherer that collects the state of a
-- cluster with the command line client oc when a test has failed. cas/pkg/machineapi has the specs
-- of the cluster autoscaler, which are put together from these helpers, and their event watcher.
--
-- Files:
--   Base.antt        what the others share: Boolean tests, lists, Go maps with text keys
--                    (Base/Dict), errors and the state and error monad (Base/Result), polling
--                    (Base/Poll), and lists that may come in any order (Base/Reordered)
--   Objects.antt     the Kubernetes objects, with the fields that the code uses
--   Framework.antt   pkg/framework, one module for each part:
--     Setup, Pods, Streams, Deployments, Hpa   pkg/framework/framework.go
--     Stability                  the loop that EnsureHPAReplicasInRange (framework.go) and
--                                EnsureDeploymentReplicasStable (keda.go) share
--     Operators (with ByKey)     pkg/framework/operators.go
--     Keda                       pkg/framework/keda.go
--     Cro                        pkg/framework/cro.go
--     Vpa (with Recommender and Checkpoints)   pkg/framework/vpa.go
--     Consumer (with Loop)       pkg/framework/resource_consumer.go; Threads has its goroutines, as a
--                                step relation on the places where they and their caller stand
--   Cas.antt         cas/pkg/framework, in the same way; Setup and Timeouts are the BeforeSuite of
--                    cas/pkg/e2e_test.go with the variables that it sets:
--     Nodes (with Draining), Machines   nodes.go and machines.go
--     MachineSets (with Architecture, Waits and Scaling)   machinesets.go
--     Jobs                       jobs.go
--     Checks (with Endpoint)     utils.go
--     Cluster (with Environment, Loading and Queries)   framework.go
--     Gatherer (with Shell, Commands and Collection)   gatherer/oc-cli.go and data-gatherer.go
--     Gomega                     Eventually and Consistently of the Gomega library, a parameter
--     Eventual                   the waits of machines.go, machinesets.go and jobs.go under Gomega
--     Events                     cas/pkg/machineapi/event.go
--     Autoscaler                 cas/pkg/machineapi/autoscaler.go: the objects (Resources), the map of
--                                objects to clean up (Registry), the rounds of the waits (Rounds), the
--                                specs (Scenarios and Expansion), the order in which Ginkgo runs them
--                                (Lifecycle and Suite), and the helpers that they call, made of the modules above
--                                (Wiring, with clusterautoscalers.go)
--   Tests.antt       clusters with concrete contents, and runs of the models on them
-- The children of a module that the list does not name hold proofs about it. A Go function
-- `WaitForPodReady` is the definition `wait_for_pod_ready`; a loop inside a function is a
-- definition of its own, above the function's.
--
-- The cluster is a parameter: a type `W` of states, which hold the clock too, and a record of the
-- calls that the code makes (Framework/Client.antt, Cas/Client.antt). Each call takes a state and
-- gives a result or an error and a new state, so nothing is assumed of what a cluster answers, or
-- of what changes between two calls. A theorem that needs more has it as a named hypothesis:
-- `IsPolling` is what the apimachinery package documents of PollUntilContextTimeout; `IsTimed` says
-- that the clock does not run backwards and that a pause takes its time; `IsServing` says what a
-- listing, a deletion and a creation of OperatorGroups do; `IsKeeping` says the same of the calls
-- for the ClusterResourceOverride; `IsGomega` is what Gomega documents of its rounds, and
-- `IsHelpers` what library-go documents of status conditions; `Calm` says that a command that
-- starts ends by itself; that a provider's configuration is encoded and decoded again as it was is
-- written out where it is needed; `IsLedger` says which calls of a spec make and delete objects,
-- and `IsSurroundings` the same of what runs around it; `IsCalmApi`, `IsCalmClient`,
-- `IsCalmLibrary` and `IsCalmShell` say it of the calls that the helpers themselves make, and
-- Wiring derives the two from them. The operating system of the gatherer is a record of calls as
-- well (Cas/Gatherer/Shell.antt), and so are the helpers that the specs call
-- (Cas/Autoscaler/Registry.antt). `AreReordered` relates two answers of an API that differ at most
-- in the order of a list.
--
-- Errors are values that keep the constant part of a message, the wrapping by `%w` and the status
-- reason; the names inside messages are left out, and so is the output of Printf and klog. A panic
-- of MustParse or at a nil pointer is an error too. Counts of replicas and amounts of load are
-- natural numbers; the int64 products for the memory of a consumer are residues modulo 2 ^ 64,
-- which stand for negative numbers from 2 ^ 63 on; the code's own comparison of them is signed.
-- Quantities are numbers of thousandths.
--
-- The watching loop is the only one on fuel: it has two rounds more than its duration divided by
-- its pause of ten seconds, which the clock makes enough. All other loops are over lists or a fixed
-- number of attempts. The waiting itself is the poller's or Gomega's and so a parameter; the model
-- has the round that is asked.
--
-- Not modelled: contexts, so a call that the end of one stops is a call that fails; a second
-- goroutine that calls a consumer, the locks of the event watcher and what the informer does in the
-- background, the product with a float that gives the memory of a workload and the syntax of the
-- JSON in provider specs (both parameters), the suites under test/e2e, which only call the helpers,
-- and the vendored libraries. The definition of create_resource_consumer sends the initial loads in
-- the order of the calls; where the goroutines may do so is left to Threads.
pub mod Base
pub mod Objects
pub mod Framework
pub mod Cas
pub mod Tests
