-- ===== src/Lib.antt =====
-- KubeStellar workload stager: a model of its controller and the theorems about it.
--
-- The program watches StagedBindingPolicies, Bindings and CombinedStatuses. Event handlers put references on
-- a work queue; workers take them off and reconcile them with a resolver, which tracks each policy with
-- the stage that is active, creates the BindingPolicy of that stage, and moves to the next stage once the
-- stage's CEL condition holds for every object that its filter selects.
--
-- What models what (paths from the repository's root):
-- - Api: api/community/v1alpha1/types.go, and the records of other modules' objects, with the fields that
--   this repository names.
-- - Cluster: the interface to code of other modules: the API server behind the typed clients, the informer
--   caches behind the listers, label selectors, the unstructured converter, cel-go, and the order in which
--   `range` visits a set or a map. It is one record, a parameter of all modules below. Tests.Fixture
--   instantiates it with a cluster in memory.
-- - Cel: pkg/staged-binding-policy/cel-evaluator.go (CheckExpression, Evaluate) and testExpression of
--   resolver.go.
-- - Strings: Go's strings.Split and strings.Contains, and the names that are built with ".stage.".
--   Strings.Cut and Strings.Split have their laws, Strings.StageName those of the names.
-- - Run: methods that change a state and may panic. A panic is a result, and keeps the state it leaves.
-- - Resolver: pkg/staged-binding-policy/resolver.go. Resolver.Filter is filterWorkloadForSBP with its two
--   maps, Resolver.Ensure is ensureActiveStageLocked, updateStagedBindingPolicyStatusLocked and
--   stageUpLocked, Resolver.Condition is attemptConditionLocked, and Resolver.Notes holds the methods
--   NoteStagedBindingPolicy, DeleteStagedBindingPolicy, NoteBinding and NoteCombinedStatus. The map of
--   policies is an association list; a write through the pointer of an entry writes the entry of its name.
--   Resolver.History is the abstract rollout machine that each step refines, with the states in which a step
--   attempts a condition, and History.Climbed follows it along a run. The other modules below Resolver are
--   proofs, named for what they prove.
-- - Lister: pkg/generated/listers/community/v1alpha1/stagedbindingpolicy.go.
-- - Controller: pkg/staged-binding-policy/controller.go, binding.go, combinedstatus.go and
--   stagedbindingpolicy.go. Controller.Events has the event handlers, Controller.Reconcile the handlers of
--   the three kinds of item, Controller.Worker processNextWorkItem and runWorker, Controller.Limits the
--   rate limits, Controller.New NewController and makeController, Controller.Start Start,
--   its setup functions and run with newCELEvaluator, and Controller.Objects the functions on objects of
--   any type. What Start calls of client-go and of the runtime is a record, Platform.
--   The work queue of client-go is a record of operations. Controller.Cycle follows an event from its handler
--   to the API calls of the next stage, and Controller.Ends the worker to the end of its loop.
-- - Manager: cmd/controller-manager/main.go, with the calls of other modules in the record Host.
-- - Informers: pkg/generated/informers/externalversions/factory.go. Informers.Resource has the informer and
--   the lister of staged binding policies: generic.go, community/interface.go, and interface.go and
--   stagedbindingpolicy.go of community/v1alpha1.
-- - Controller.System: the workers of `run` side by side, with the event handlers and the cluster, as a step
--   relation: a worker is interrupted between the calls that processNextWorkItem and reconcile make.
--   Controller.System.Round shows that a worker alone does what Controller.Worker says.
-- - Controller.Wiring: NewController over the generated clientset and informers, with the factory as a state.
-- - Resolver.Exclusive: which of a policy's BindingPolicies live at the API server. IsApiServer says what the
--   calls do to those that live, by any test of life; Exclusive.Calls follows the calls of one step,
--   Exclusive.Attempts and Exclusive.Noted the methods, Exclusive.Steps any sequence of them.
-- - Resolver.Restart: which stage the status that the API server stores would give a new resolver. IsStore says
--   what the calls do to the stored policies. Resolver.Stalled is about a policy whose BindingPolicy is refused.
-- - Client: pkg/generated/clientset/versioned/typed/community/v1alpha1/stagedbindingpolicy.go, the requests
--   of the typed client.
-- - DeepCopy: api/community/v1alpha1/zz_generated.deepcopy.go, on a memory of cells. DeepCopy.Views says what
--   an object reads as, DeepCopy.Copier what a deep copy promises, DeepCopy.Parts and DeepCopy.Laws show it.
-- - Clientset: pkg/generated/clientset/versioned/clientset.go. Clientset.Community is
--   typed/community/v1alpha1/community_client.go, and Clientset.Rest what both call of client-go.
-- - Fake: the fake client, typed/community/v1alpha1/fake/fake_stagedbindingpolicy.go; Fake.Simple is
--   NewSimpleClientset of pkg/generated/clientset/versioned/fake/clientset_generated.go, and Fake.Community the
--   fake client of the group, fake_community_client.go.
-- - Scheme: register.go and groupversion_info.go of api/community/v1alpha1, and register.go of the clientset's
--   scheme package and of its fake.
-- - Base: shared names, lists, dictionaries and equality. Tests: runs, and the theorems at concrete inputs.
--
-- Choices. A Go string is the list of its bytes. Each method of the resolver holds its lock from the first
-- line to the return, so a method is one transition, and the workers' interleavings are sequences of
-- methods (Resolver.Reach), with any change of the cluster in between. A lister reads the cache as it
-- stands when a method starts, one snapshot for all the objects of an attempt, though the cache can change
-- between two of them. The Platform that main starts the controller on stands for the parts of the controller
-- that NewController has returned, and is not built from them. The set of filtered objects is a list without repetitions, visited in the
-- order that the cluster's `range_identifiers` gives. Numbers that are never negative are natural numbers:
-- the active index, which is an int, is decremented only after an increment. `strings.Split` runs on fuel,
-- one more than the length of the text, which Strings.Split shows to be enough; `run_worker` runs for a
-- given number of rounds, since the loop of runWorker ends only when the queue is shut down.
--
-- Not modelled: logging, the rate limiters of client-go, and the build.
pub mod Base
pub mod Strings
pub mod Api
pub mod Cluster
pub mod Cel
pub mod Run
pub mod Resolver
pub mod Lister
pub mod Controller
pub mod Tests
pub mod Informers
pub mod Client
pub mod Clientset
pub mod Fake
pub mod Scheme
pub mod Manager
pub mod DeepCopy
