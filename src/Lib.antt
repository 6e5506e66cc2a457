-- ===== src/Lib.antt =====
-- AgentOps workflow platform: the engine that runs workflow executions, and the rules around it.
--
-- The platform stores an execution of a versioned graph, its steps, their attempts, its approvals and
-- its queue of jobs as rows of a database. Workers claim jobs with a lease, run a node, and commit the
-- outcome in a short transaction that holds the lock of the execution. One authority decides every
-- change of status. All paths below are under apps/api/src.
--
--  - Engine.Status, Engine.Authority: services/workflow_state.py, `transition_execution_entity` and its
--    table; models/workflow_execution.py, the statuses. Engine.World: the rows of models/*.py that the
--    engine reads or writes, for the one execution that a transaction has locked, together with the
--    tenant, the clock and the next uuid.
--  - Engine.Action: code inside a transaction, as a function from rows to a result and rows; every
--    exception is an `Error`. Engine.Transaction: services/workflow_transactions.py.
--  - Engine.Records: services/execution_records.py. Engine.Retry: `retry_decision` of
--    services/retry_runtime.py. Engine.Jobs: services/durable_queue.py and `renew_lease` of
--    services/worker_leases.py. Engine.Endings: `fail_attempt`, `expire_execution` (retry_runtime.py),
--    `cancel_siblings` (parallel_runtime.py), `fail_execution` (graph_interpreter.py), `resolve` and
--    `close_pending` (approval_runtime.py). Engine.Cancellation: services/execution_cancellation.py.
--    Engine.Delays: `schedule_delay` of services/delay_runtime.py; Engine.Delays.Waits, its theorems.
--    Engine.Leases: `recover_claim` of services/worker_leases.py.
--  - Engine.Keeps has the rules by which a property of the rows is carried through an action;
--    Engine.Invariant and its children carry the invariant through every operation, Engine.History
--    through every sequence of them. Engine.Fencing is about what a claim still owns, and
--    its children Exclusive and Stopped about who may finish a job.
--  - Data.Json, Data.Schema, Data.Compatible: `DataSchema` of schemas/workflow_graph.py, `validate_data`
--    and `compatible` of services/graph_validation.py. Data.Expression: services/graph_expressions.py;
--    Data.Expression.Finite, its theorem. Data.Typing: `literal_schema`, `nullable`, `expression_schema` of
--    services/graph_validation.py; its children have the theorems on literals (Literals), on the shapes of
--    schemas (Shapes), on paths (Paths), on the operations of expressions (Operations, Operators) and on
--    typed expressions (Sound). Data.Bindings: `bindings`, `resolve_bindings`, `payload_bounds`;
--    Data.Bindings.Sound, their theorem.
--  - Graph.Order: the passes of `validate_graph_contract` (services/graph_validation.py) over the shape of
--    a graph; Counts, Sound, Ends and Rank have the theorems on the order, Search and Reach on reachability.
--    Graph.Region: `validate_region`, with its theorems in Search, Separate and Ends. Graph.Branches:
--    services/parallel_graph.py; Graph.Branches.Ends, its theorem. Graph.Contract: the loop over the
--    nodes; Graph.Contract.Typed, its theorem on inputs. Graph.Quality: `affected_nodes` and
--    `iteration_for` of services/quality_revisions.py, and the policy in `validate_graph_contract`.
--    Graph.Validation: `validate_graph_contract`, composed of these.
--  - Engine.Routing: `next_node` of services/graph_interpreter.py and the edges that `complete_work`
--    settles, for executions in which no step is open when `next_node` is called. Answers has the rules for
--    what an action returns, Verdicts what the edges say of the rows and that `complete_work` keeps it,
--    Due, Progress, Live, Valid and Validated the theorem on one call of `next_node`. Retries, quality
--    iterations and parallel branches choose their nodes in code that is not modelled. Engine.Replay: the
--    events read back.
--  - Permissions, Permissions.Requests: services/permissions.py and `Principal` of services/identity.py;
--    Permissions.Rules has the theorems.
--  - Legacy, Legacy.Steps: the runs of the first engine, `transition` and `transition_step` of
--    services/workflow_state.py. Legacy.Log has the theorems on them.
--  - Base: shared names; tables with a primary key, texts as code points, integers and moments,
--    floats as bit patterns.
--  - Examples: the theorems on concrete rows.
--
-- Loops over the rows that a query has selected are structural recursion. The loops of graphs are
-- recursion on fuel: the number of the remaining nodes for `next_node`, one more than the number of the
-- edges for the searches, one more than the sum of the degrees for the order, one more than the number
-- of the nodes for `branch_paths`; each has a theorem that it is enough. A table is a list of rows;
-- `find` and `put` are the select and the update by primary key, and a query's order is the table's. A
-- transaction reads the clock once. A uuid is a counter. Numbers are unbounded, as in Python.
--
-- Parameters: floats and Python's operations on them (Base.Float, Data.Expression), with `timedelta` as a
-- whole number of microseconds that may be negative, `random.random()`
-- (the argument `sample`), the length of a JSON text (`dumps`), the settings of a worker.
--
-- Left out: texts of messages, audit rows, the lineage of recovered executions, the projection of an
-- execution on a run of the first engine, payload columns, the lookup of the caller in
-- `current_principal`, and nested entry of a transaction. Not modelled are the interpreter's
-- `prepare_next` and the rest of `complete_work`, `schedule_parallel`, claiming of jobs,
-- waking of delays, deadlines and decisions on approvals, and outside the engine model providers, tools,
-- evaluations, HTTP routes, the web application and the deployment.
pub mod Base
pub mod Permissions
pub mod Legacy
pub mod Data
pub mod Graph
pub mod Engine
pub mod Examples
