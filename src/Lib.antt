-- ===== src/Lib.antt =====
-- A verification library for the lead-research agent: the core of app/ that decides who may run, what
-- is recomputed, and which providers are called.
--
-- Parts, and the files that model them:
--
-- app/runtime (Runtime, Runtime/Models, Runtime/Coordinator, Runtime/Leases and its children):
-- `InMemoryExecutionCoordinator` of app/runtime/leases.py. The state is the record `Coordinator` with
-- the four dictionaries of the class; `claim`, `heartbeat`, `can_promote`, `can_promote_cached`,
-- `finish` and `get` are functions of it. A service claims a run of a thread before it works, and asks
-- `can_promote` before it publishes results. Histories of calls are the relation `Reach`.
--
-- app/infrastructure (Infrastructure, Infrastructure/CircuitBreaker and its children):
-- `CircuitBreaker` of app/infrastructure/circuit_breaker.py, with `allow`, `success`, `failure` and
-- `state`.
--
-- app/mutation (Mutation and its children): a change of a task. `classify_invalidation` of
-- app/mutation/invalidation.py chooses how much is executed again, and `TaskMutationPlanner.plan` of
-- app/mutation/planner.py turns that into stages and into the artifacts that are kept.
--
-- app/domain/task.py, app/tasks and app/repositories/mock_task_repository.py (Tasks, Tasks/Models,
-- Tasks/Store, Tasks/Repository and its children): lead tasks, their versions and
-- `MockTaskRepository`. A patch of a task comes with a request and a base version; `apply_patch` of the
-- repository computes the new task by `apply_patch_pure` of app/mutation/preview.py (Mutation/Preview),
-- saves it, records the version and remembers the request. Histories of calls are the relation `Reach`
-- of Tasks/Repository/Histories.
--
-- app/research/runtime.py (Research, Research/Models, Research/Budget, Research/Runtime and their
-- children): `BudgetGuard.reserve`, and the retry loop of `BoundedProviderRuntime.execute`, which asks
-- the budget, the circuit breaker and the rate limiter before each call of a provider. The stored tool
-- runs of app/research/repository.py, from which execute answers repeated requests, are in
-- Research/ToolRuns.
--
-- app/execution (Execution, Execution/Snapshots and its children): the snapshots of executions and their
-- promotion, `InMemoryExecutionSnapshotRepository` of app/execution/repository.py.
--
-- app/rules (Rules and its children): the registry of fields, the catalogue of businesses, and
-- `RuleValidator`; `RuleConflictService` with `detect` (Rules/Conflicts) and `resolve`
-- (Rules/Conflicts/Resolution); `InMemoryRuleRepository` of app/rules/service.py. The values of rules
-- are a type with the interface `Values`, which says what Python does with them; `IsPython` holds its
-- laws.
--
-- app/criteria (Criteria and its children): `DefaultCriteriaEvaluator` of app/criteria/evaluator.py and
-- `diff_criteria` of app/criteria/diff.py.
--
-- app/mutation/service.py (Mutation/Validation, Mutation/Service and its children): a message's patch is
-- checked against the registry and the official rules, compared with the task (Mutation/Preview,
-- Mutation/Diff), planned, and applied by the task repository; Mutation/Repository stores the mutation
-- under its message. `Effect` of Mutation/Service/Outcomes lists what a call can do.
--
-- app/scoring/engine.py (Scoring, Scoring/Models, Scoring/Leads and its children): the ranking of scored
-- leads, `build_lead_set`.
--
-- app/evidence/targeted.py (Evidence, Evidence/Budget and its children): the budget of targeted
-- verification.
--
-- app/infrastructure/rate_limit.py and cache.py (Infrastructure/RateLimit, Infrastructure/Cache and
-- their children): the token bucket in memory, and the cache of provider answers.
--
-- Prelude and its children hold numbers and tests, lists, dictionaries as association lists, equality
-- as an instance argument, and sorting.
--
-- Conventions: a Python method that holds the object's lock is one step on its state. What a clock or
-- `uuid4` returns is an argument. A dictionary is an association list with one entry for each key, and
-- a Python set a list that is read through membership only. Times and durations are whole numbers, and
-- weights whole millionths. Where the source computes with floats, the models compute exactly, as in
-- the rate limit; the `float` of a rule's value is a parameter, which may round or raise. No definition
-- runs on fuel.
--
-- Not modelled: the compilation of criteria, the normalising and extraction of rules, the planning
-- of queries, the components of scores, the resolution of evidence, the matching of entities, the
-- knowledge base, delivery and exports, each a subsystem of its own; the analyzer of reusable
-- artifacts, which is a parameter; the HTTP interface, SQL repositories, clients of providers and
-- language models, and the graph engine, which are I/O or libraries; and the coordinator on
-- Postgres, which is SQL.
pub mod Criteria
pub mod Evidence
pub mod Execution
pub mod Infrastructure
pub mod Mutation
pub mod Prelude
pub mod Research
pub mod Rules
pub mod Runtime
pub mod Scoring
pub mod Tasks
