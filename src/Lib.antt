-- ===== src/Lib.antt =====
-- The Hermes runtime: how jobs become tasks, and how tasks are scheduled over agents and providers.
--
-- A job is a graph of tasks. The engine asks the graph which tasks are ready; the scheduler finds an
-- actor for each, asking the circuit breakers and the capacity registry, and starts an execution;
-- the end of an execution is written back to the registries and the graph. A replanner changes the
-- graph within bounds. Every step is an event of the job, stored in order, and the instance that
-- runs a job holds its lease.
--
-- Prelude, Dict: Boolean tests, lists over the native numbers, results, and dictionaries as
--   association lists in the order of insertion.
-- Task, TaskGraph: runtime/task_graph.py. `TaskGraph` is the class of that name, `_tasks` a dict of
--   `TaskNode`; each method is the function of its name. A loop over fuel stands for each `while`:
--   `path_fuel` counts the tasks' dependencies and two, which the breadth-first search of
--   `_has_path` cannot use up, since each node puts its dependencies on the queue once;
--   `dependency_done` has a round for each task and one more, since no task is seen twice.
-- JobState: runtime/job_state.py. `State` is `JobState`, `transition_to`, `snapshot` and `restore`
--   are the methods of `JobRecord`.
-- Scheduler: runtime/scheduler.py and runtime/routing.py. Slots holds the running tasks and busy
--   actors, Routing `is_actor_available` and `find_alternative_actor`, Reasons, Matching and Choosing
--   `match_actor_for_task`, Rounds `schedule_ready_tasks`, Settle the body of
--   `_execute_task_wrapper` from the result of the execution on. `Services` are the registries that
--   all share. A decision of a round uses the capability registry of Capabilities; the end of an
--   execution takes the capable actors in rank order as an argument.
-- Capabilities: capabilities/capabilities.py. Defs is `CapabilityRegistry`, Eligible who is found,
--   Ranking who is selected. A score is the whole number of tenths that it lacks to 11.
-- CircuitBreaker: runtime/circuit_breaker.py, with the registry's shared default config.
-- Capacity: runtime/capacity.py. Status is provider health, Usage the token accounts, Classify the
--   failure classifier and the soft-capacity check. The two ratio tests compare floating-point
--   quotients and are arguments.
-- Lease: runtime/lease.py, the in-memory store and the heartbeat loop.
-- Limits: runtime/limits.py.
-- Replanning: runtime/replanning.py, `BoundedReplanner.apply_mutations`.
-- EventStore: runtime/storage/in_memory_store.py.
-- EventBus: events/event_bus.py.
-- Recovery: runtime/recovery.py, the loops of `recover_and_rehydrate` over tasks and runs. What
--   `InterruptedTaskReconciler.evaluate` finds in git is an argument.
-- Projection: runtime/storage/projector.py and the events it reads. Payload and Kinds are how it
--   reads an event, Jobs, Tasks and Runs its branches, Defs `RuntimeStateProjector.project`.
--   Bridge is what runtime/events.py writes for jobs and tasks, JobSteps and Live the acts of the
--   engine that change a job or a task and write the event of the change. Sound says which acts
--   are sound: a task stands under its id, actors have names, a task is completed by the actor it
--   is assigned to, only a task that runs or waits is rerouted, a task that is added is a new one,
--   and what was announced as cancelled still is. An act that writes no event is not sound. Alike is what a live and a replayed graph have
--   in common; JobChanges, TaskAdded, TaskSteps, TaskEnds and TaskActs compare the acts with their
--   events one by one, Refines, Replayed and Stored put them together through the event store.
--   Python's functions on times and texts, and what the bridge draws for an event, are parameters.
--   The results of verifications stay payloads.
-- Plans: runtime/planning/validator.py, `PlanValidator.validate`. Defs is its loop over the tasks,
--   Cycles the graph of dependencies, the depth-first search and the whole. A message is a `Problem`.
--   The recursion of `has_cycle` has as much fuel as there are tasks: each call within another
--   paints one more. Lists, Searches and Endings are its termination;
--   Orders, Kept and Acyclic what it finds out. The test of a path in the repository
--   and Python's functions on texts are parameters.
-- Engine: runtime/engine.py, `ReactiveJobEngine`. Defs is its state with the transitions, the first
--   plan and `request_replan`, Repairs `_repair_failed_verdict`, Batch the loop over ended executions
--   in `step`, Steps the step in EXECUTING and WAITING_FOR_CAPACITY, Loop verification, `step` as a
--   whole and `run_until_complete`. The planner is a function that may be absent. The planner, an
--   execution and the verifier may raise, and the step then raises their error. What happens
--   outside the engine during a step, the wait for an execution and the answer of the verifier, is
--   the `Input` of the round. `run` has fuel for its rounds, since a job may wait for capacity for as
--   long as it will; each round that does not wait is counted against the step limit, so fuel beyond
--   that limit and the rounds of waiting is enough. AtWork, Batches, Sound, Executing, Verdicts,
--   Runs, Moves, Raises, Returning and Histories hold the proofs.
-- Agents: personas/agent_state_reducer.py, with the writes of personas/agent_service.py. Tracks tells
--   the phases that run from the events alone.
--
-- Times and delays are counts of microseconds; a method that reads the clock takes the time. A method
-- that raises returns an error and leaves the state as it was. The locks of the code make each method
-- one step; sequences of calls stand for the interleavings. Logs, callbacks, and the events of the
-- bridge other than those of jobs and tasks are effects outside the model.
--
-- Not modelled: the cancelling and fencing of an engine, job services, the delegation between agents and
-- messaging; and what is input and output: the Postgres store, agent
-- processes, git, prompts, HTTP and the console.
mod Prelude
pub mod Engine
pub mod Plans
pub mod Dict
pub mod Task
pub mod TaskGraph
pub mod JobState
pub mod CircuitBreaker
pub mod Lease
pub mod Limits
pub mod Capacity
pub mod EventStore
pub mod Replanning
pub mod EventBus
pub mod Scheduler
pub mod Recovery
pub mod Agents
pub mod Projection
pub mod Capabilities
