-- ===== src/Lib.antt =====
-- The control core of CapSift (src/capabilityhub of the repository): the parts that keep state and
-- decide, with the theorems that make them correct.
--
-- Parts and files
--   Errors, Values, Result, Exec, Dict, Base: the error contract (src/capabilityhub/errors.py), the
--     Python objects, exceptions, state and dictionaries that the other files share.
--   Budget: src/capabilityhub/budget.py, ledgers in a tree of scopes and reservations against them.
--     Ledgers holds the objects and the pure steps; Budget.antt the methods; Chains, Loops, Caps,
--     Holds, Frames, Reserving, Settling, Histories and RoundTrips the proofs.
--   Models: src/capabilityhub/models.py, the enumerations of the domain and the order of effects;
--     Manifests, Handles and Loads hold its records, Effects the proofs.
--   Resilience: src/capabilityhub/resilience.py. Retry is `RetryPolicy`, Circuit `CircuitBreaker`,
--     Executor `ResilientProviderExecutor`; Retry/Decisions, Circuit/Transitions, Circuit/Registry,
--     Circuit/Outstanding, Executor/Rounds and Executor/Attempts hold the proofs.
--   Draining: src/capabilityhub/draining.py. State holds the records, Core the private methods and
--     what the public ones do once their texts are checked, Draining.antt the public methods;
--     Outcomes, Lifecycle, Progress and Calls the proofs on states, Pins, Quiet, Graceful and
--     Unforced those on pins, Admission those on `admit`.
--   Degraded: src/capabilityhub/degraded.py, the freshness of dependencies and the decision to allow,
--     degrade or deny; Freshness and Decisions hold the proofs.
--   Policy: src/capabilityhub/policy.py, the reference policy; Decisions holds the proofs.
--   Compatibility: src/capabilityhub/compatibility.py, handshakes and API versions; Handshakes and
--     Support hold the proofs. Sets is what it shares with Policy and Authorization: Python's
--     sets of texts.
--   Residency: src/capabilityhub/residency.py, the inventory of what a context holds; Evictions and
--     Adding hold the proofs.
--   Approvals: src/capabilityhub/approval_store.py, the store of approvals. Records holds the rows,
--     Store the methods; Evolution, Lifecycle, Settling, Consuming, Once and Flow the proofs. Scoped
--     is ScopedApprovalStore: Rows and Methods the code, Apart, Isolation and Unseen the proofs.
--   Idempotency: src/capabilityhub/idempotency.py, the durable records of executions. Records and Store
--     hold it; Reserving, Replay and Waiting the proofs.
--   Reasoning: src/capabilityhub/reasoning.py, the router of reasoning tiers. Tiers, Reasons and Router
--     hold it; Floors, Caps and Attempts the proofs.
--   Authorization: src/capabilityhub/authorization.py, the grants and the decision over a call's
--     arguments. Names, Constraints, Arguments and Deciding the code; Reasons, Eligible, Granted,
--     Returning and Permitted the proofs.
--   Drained: src/capabilityhub/drained_service.py, executions under a pin of the drain controller.
--     Bindings holds the resolver, Service the service; Tidy, Released and Dispatch the proofs;
--     Draining/Releasing what they use of the controller.
--
-- How the parts interact: the executor of Resilience asks the circuit breaker for a permit, calls the
-- provider and reports to the breaker; its policy reads the side effects of Models. Drained holds a
-- pin of the controller of Draining around every execution of the service that it wraps; that
-- service, the signer of its references and what its callbacks do are parameters. The other parts
-- are called one by one by the service (src/capabilityhub/service.py), which is not modelled.
--
-- State and errors: a method that changes an object is an action `State → Result value × State`, so a
-- raise keeps what was written before it. A lock makes each method one step, and a history is a
-- sequence of methods. A table of SQLite is a dictionary of rows, a statement is what it does to
-- them, and a transaction that raises puts back the rows it began with. Numbers are the natural
-- numbers; where Python's max(0, …) stands, subtraction stops at 0. A time is a count of a unit, so
-- the checks that a float is finite are absent.
--
-- Fuel: the walk to the root of a budget tree has as many steps as there are ledgers, and a theorem
-- shows that this suffices; the loop of `execute` has as many rounds as the policy has attempts, and
-- the eviction loop as many as there are entries, and theorems show that neither ends for want of
-- it; the rounds of `wait` in Idempotency are those before its deadline. The other loops are over
-- lists.
--
-- Parameters: identifiers of uuid4, `sorted`, Unicode normalisation and categories, lower case, JSON,
-- digests and fingerprints, paths, addresses, clocks, providers and classifiers. Not modelled: the
-- files below SQLite, transports, adapters and user interfaces.
pub mod Base
pub mod Errors
pub mod Result
pub mod Exec
pub mod Dict
pub mod Values
pub mod Models
pub mod Sets
pub mod Budget
pub mod Resilience
pub mod Draining
pub mod Degraded
pub mod Policy
pub mod Compatibility
pub mod Residency
pub mod Approvals
pub mod Idempotency
pub mod Reasoning
pub mod Authorization
pub mod Drained
