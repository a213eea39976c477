-- ===== src/Lib.antt =====
-- Verification library of the claim pipeline, the gate, the Reviewer and the node daemon of the-ozolith.
--
-- The Control Node grants issues of a GitHub repository to Workers and takes back the claims of
-- Workers that went silent; on each node a daemon converges the machine onto the state that the
-- Control Node desires. These parts are modelled:
--
--   * the cache database, control/src/theozolith_control/store.py: Store.antt declares a record for
--     each table's row and the record Store with a field for each table; the files of Store/ hold
--     the operations, named as the methods of the class Store are;
--   * the dispatcher, control/src/theozolith_control/dispatch.py: Dispatch/Gates.antt the gates
--     that read the store alone, Dispatch/Reads.antt the memoized reads of one pass and the
--     dependency lanes, Dispatch/Grant.antt the granting pass, grant_work and review_targets;
--   * the janitor, control/src/theozolith_control/janitor.py: Janitor/Sweep.antt the sweep of
--     silent claims, Janitor/Release.antt the release of grants that were never activated,
--     Janitor/Drift.antt the base-drift sweep;
--   * Dependency Edges, worker/src/theozolith_worker/deps.py, which the dispatcher and the Worker
--     share: Deps.antt the records, Deps/Branch.antt the branch names, Deps/Walk.antt the walk of
--     the blocked-by closure, Deps/Resolve.antt what the closure resolves to,
--     Deps/Preconditions.antt the settings that chaining needs;
--   * the daemon of a node, nodedaemon/src/theozolith_nodedaemon/daemon.py, with the supervisor of
--     its children, stacks.py beside it: Daemon.antt the records, the state of the daemon in memory
--     and on disk, and the interface Host of all that it calls; Daemon/Base.antt the actions,
--     events and acks; Daemon/Supervisor.antt the class ProcessSupervisor; Daemon/Runs.antt the
--     signals of a Run in flight; Daemon/Compose.antt the write-ahead records; Daemon/Teardown.antt
--     drain, recycle and the teardowns; Daemon/Spec.antt the environment, the secrets and the
--     fingerprint inputs; Daemon/Process.antt and Daemon/Containers.antt the convergence of a Stack
--     of either kind; Daemon/Generations.antt the sweep of compose generations;
--     Daemon/Reconcile.antt the reconcile pass; Daemon/Beat.antt the heartbeat and its pace;
--     Daemon/Commands.antt the commands and the product update; Daemon/Drivers.antt the config
--     distribution; Daemon/Pass.antt the method once;
--   * the Reviewer, worker/src/theozolith_worker/reviewer.py, with the validation of its proposals,
--     proposal.py beside it: Review.antt the records and the interface Desk of all that a round
--     calls; Review/Inputs.antt the checkout and the inputs, which walk the Dependency Edges by
--     Deps/Walk.antt; Review/Proposal.antt the checks of a proposal; Review/Publish.antt the writes
--     of a verdict and the one-strike lanes; Review/Round.antt review_pr and the Reviewer's pass;
--   * the quality gate, worker/src/theozolith_worker/gate/pipeline.py: Gate.antt the records and the
--     interface Bench, Gate/Steps.antt load_steps, Gate/Run.antt run_gate;
--   * the labels, worker/src/theozolith_worker/bootstrap/vocabulary.py: Vocabulary.antt;
--   * the client of GitHub, worker/src/theozolith_worker/githubapi.py, as the interface that the
--     Control Node calls: GitHub.antt. The service behind it is not the program's, so its state is
--     a type parameter and each call an arbitrary action on that state which may fail.
--
-- The properties of a part stand in files beside it, named for what they are about, and a Tests
-- file of each part has runs and instances. Common/Keeps.antt has the rules by which an action
-- keeps a relation on its state, Common/Steady.antt and Common/Returns.antt the rulesets for
-- actions that keep such a relation and for actions that never raise, Daemon/Kept.antt and the
-- files of Daemon/Kept/ the rules for the daemon's routines, Review/Outcome.antt the rules for what
-- a round answers; Deps/Walk/Kept.antt, Deps/Resolve/Kept.antt, GitHub/Kept.antt and
-- Dispatch/Kept.antt carry them through the walk, the resolution, the client and a granting pass.
-- A routine of the Control Node is an action on a World, the store and the service's state, that
-- returns or raises. A method of the store is a function of the store, with the clock's reading as
-- an argument. The heartbeat of the daemon and the queue of commands in Store/Commands.antt are the
-- two ends of one exchange: a command is delivered until the daemon reports its id. Times and
-- cadences are whole seconds; `a - b <= c` is written `a <= b + c`; the one float that can
-- overflow, the backoff of the daemon, fails where it does. Issue numbers and identifiers are
-- natural numbers, label sets are lists that are read as sets, texts that no code reads back are
-- lists of their pieces, and a git ref is the list of its code points. SQL tables with a primary
-- key are association lists, tables with an autoincremented key are lists in the order of
-- insertion; a query without ORDER BY keeps that order, and no theorem rests on it. A method runs
-- under the class's lock, so it is atomic.
-- Fuel stands in two places. The walk of Deps/Walk.antt takes fuel for the depth of the recursion,
-- since the service decides how far the edges reach; a walk that ends for lack of it raises
-- out_of_fuel, which no routine of the program raises. The descent of Deps/Resolve.antt runs on one
-- more unit than there are open blockers.
-- The zone of a pull request's body (worker/src/theozolith_worker/basedon.py) is read by a
-- parameter of the drift sweep. The Desk is a parameter of the Reviewer's routines: git, the job
-- directory, the session, the reading of a proposal document with the checks of its shape, and the
-- texts of prompts, comments and records, which are kept as the values that they are rendered from.
-- The Bench is a parameter of the gate: the parsed tables of gate.toml and the runner of commands.
-- The Host is a parameter of the daemon's routines: the commands of Docker, the processes, the
-- daemon's own environment, the file system, the client of the Control Node, the fetch, unpacking
-- and verification of a config distribution, the exports of knowledge and policy and the CLI pins;
-- no law is assumed of any of them but where a theorem names one. A call may fail with any
-- exception that the caller tells apart. The daemon's state is one record; a write to disk either
-- replaces the whole file or raises.
-- Not modelled: logging, and the cutting of long event texts; the daemon's loading of its state at
-- start and its endless loop; the image and CLI rows of a heartbeat and the other texts that are
-- only shown; documents of the Control Node with values of the wrong type, whose reading can raise,
-- and fractions of a second; digits other than the ASCII ones in a branch or a label; the error of
-- the database when a random identifier or a digest occurs twice; the retries and paging of the
-- HTTP client; the read-only display queries of the store; the Worker's runner, the knowledge
-- compilers, the configuration repository and the web and terminal interfaces.
pub mod Common
pub mod Vocabulary
pub mod Deps
pub mod Store
pub mod GitHub
pub mod Dispatch
pub mod Janitor
pub mod Daemon
pub mod Review
pub mod Gate
