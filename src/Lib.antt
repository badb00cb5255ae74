-- ===== src/Lib.antt =====
-- Command Centre runs coding agents on the tickets of a feature. Each tick of its loop observes
-- the repositories, derives the state of every ticket from what is recorded and observed, and
-- acts on what the derivation allows: it launches agents, pushes branches, opens, retargets and
-- un-drafts pull requests. This library models the derivation, internal/plan, which is pure; the
-- store of what is recorded, internal/store with its queries in internal/store/ccdb; and the
-- loop, internal/loop, which reads the store, derives, and acts on the store and on the world
-- outside.
--
-- The parts, by file, each with the Go file it follows. Names are the Go names in snake case.
--   Plan/Ids, Plan/Vocab       internal/plan/ids.go, vocab.go, glyph.go: identifiers and words.
--   Plan/Outcome               disposition.go: how a run ended, and what that means.
--   Plan/Workflow              workflow.go: the steps of a workflow and `Next`, the step after a history.
--     Passes, Causes, Progress and Rounds are about passes and fix rounds.
--   Plan/Compose               compose.go, and `ComposeStep`: the prompts.
--   Plan/Verdict               verdict/verdict.go: the predicates on checks and `Evaluate`. Kleene
--     holds the meaning of a predicate, Stability what later checks change, Outcome the kinds.
--   Plan/Ticket                plan.go and preview.go: `Unlocked` and `ProspectiveBase`.
--   Plan/State, Plan/Status    state.go and plan.go: the table of states, and `Status`.
--   Plan/Launch                launch.go: `LaunchPlan`, which fills the free slots.
--   Plan/Draft                 draftgate.go: `DraftGate`.
--   Plan/Push                  push.go: the paths that an agent may not push.
--   Plan/Observation           observation.go and rules.go: the facts of a tick, `RulesFor`.
--   Plan/Repos                 repostate.go: which repositories are accepted, and their phases.
--   Plan/Input                 derive.go and gates.go: the types of a derivation.
--   Plan/Spend, Plan/Peers     spend/share.go and derive.go: `Paused` and `conflictingPeerHold`.
--   Plan/Derive                derive.go: what `Derive` computes of a ticket before its status.
--   Plan/Transitions           transition.go: the events of a derivation.
--   Plan/Snapshot, Plan/Build  derive.go: the snapshot and its reads, and `Derive` itself.
--   Plan/Gates                 gates.go: pushes, retargets, refreshes, skipped repositories.
--   Plan/Preview               preview.go: what a launch of a selection would do.
--   Plan/Stack, Plan/Waves     stack.go, dependents.go and warning.go: the dependency graph.
--   Store/Db                   store.go: the rows of the tables, the monad of statements and `inTx`.
--     Atomic is about transactions that fail.
--   Store/Queries              ccdb/*.sql.go: Runs, Launch and Events are the queries on those tables.
--   Store/Runs                 runs.go: skeletons, spawns, questions, dispositions, and the reads of
--     runs. History and Once are about the histories of these operations.
--   Store/Intents, Store/Launch   intents.go and launch.go: the requests of the operator, the groups of
--     a feature, and `ApplyLaunchIntents`. Groups, Inserted, Applied, Twice and Cancelled are about it.
--   Store/Events               events.go, and the table `meta` of store.go: the log of events.
--   Store/Pushes               pushes.go, refresh.go, removal.go: facts about pushes, merges, removals.
--   Store/Tickets              store.go, feature_closure.go, ticket_edit.go: tickets and their edits.
--   Store/Repos                repos.go, utilization.go, intervals.go, retention.go: repositories,
--     readings, intervals and what is pruned.
--   Store/Input                planinput.go: the tables as the input of a derivation.
--   Loop/Machine               loop.go, deps.go: the state of a tick, and the calls that it makes outside.
--     Calls says which calls an operation adds, Starts how many runs it starts.
--   Loop/Intents               loop.go, verbs.go: the pending intents of each verb. Consumed and
--     Cancelled are about the cancelling ones.
--   Loop/Push                  push.go: `pushOne` and what it calls. Sent is about its calls.
--   Loop/Runs, Loop/Spawn      loop.go, steps.go: how runs end, and how they are started.
--   Loop/Launches              loop.go, steps.go: worktrees are cut, and the eligible tickets launched.
--     Spawn/Started and Launches/Capped count the runs that a tick starts.
--   Loop/Refresh               refresh.go, verbs.go: a branch is brought up to date with its base.
--   Loop/Verbs                 verbs.go: follow-ups, re-runs and the removal of worktrees.
--   Loop/Outcomes              events.go: the events of a tick, draft states and retargets.
--   Loop/Repos                 repocheck.go and loop.go: tracked repositories, imports and edits.
--   Loop/Tick                  loop.go, `RunOnce`: the order of all these in a tick.
--   Plan/Examples, Store/Examples, Loop/Examples   the theorems at concrete inputs.
--   Prelude                    tests, lists, maps, texts, integers and sorting that the parts share.
--
-- How they interact. An operation of the store is a function of the world of the store: the
-- database, and which of the coming statements fail. An operation of the loop is one of the state
-- of a tick, which holds that world, the calls made outside so far, the readings of the clock,
-- the observation and the tickets spawned; `in_store` runs the first in the second. `run_once`
-- feeds `derive` with `plan_input` and the observation, and the operations of the loop with the
-- snapshot.
--
-- The store. A table is the list of its rows by ascending id, so that an ORDER BY id is the order
-- of the list, and a query filters, maps or appends. `faults` says which of the coming statements
-- fail, so that every error path of the code is a run of the model. `in_tx` puts the old database
-- back when its function or its commit fails. The primary key of launch_members is checked,
-- foreign keys are not. Errors are sentinels and texts, without the words that the source wraps
-- around them. The JSON columns hold the data that the JSON encodes; costs, metrics and
-- utilizations are texts.
--
-- The loop. A call of git, gh, tp, the runner or the file system is a datum of `Call`, and
-- `Outside` gives the answer, from all the calls made so far. The maps of an observation that
-- functions of the source share are one field of the state. `errIntentPending` is
-- `stays_pending`. Contexts and cancellation, and the log of the process, are left out; a
-- truncation counts characters; `%q` puts plain quotes around its text.
--
-- How Go is rendered. A function of the source is a function by clauses; a loop is a recursion on
-- the list it ranges over, with its local variables as arguments. A map is an association list
-- that is read by the first entry of a key; the list's order stands for the order of a `range`
-- over the map, which Go leaves open. A read of an absent key gives Go's zero value. A method
-- with a receiver takes it as its first argument. Options of internal/plan/option are those of
-- the language. An error result is `none` or the left of a sum. Times and durations are
-- nanoseconds as natural numbers, and the elapsed time of a run is an integer; Go's saturation of
-- durations beyond 292 years is left out. Identifiers, counts and limits are natural numbers: the
-- database numbers rows from 1, and a negative limit acts as 0 in the source.
--
-- Sorting follows `slices.SortFunc`, which inserts elements one by one where there are at most
-- 12, and keeps equal elements in order there. Texts are compared by code points, which is the
-- order of their UTF-8 bytes. The walk of `StackDepth` runs on fuel, one round more than there
-- are bases, which is enough because each round visits a base that it has not visited. The
-- recursion of `Waves` runs on as much fuel as there are tickets, and one more, since every
-- ticket is visited once on a path. Every other loop is structural.
--
-- Parameters: SHA-256 in hexadecimal, as a function on texts, the operations on `float64` that
-- `Paused` uses (`Plan.Spend.Floats`), the session ids that the database draws, lower case, the
-- decoders of follow-ups and of the files of a run, the words of errors of the system, and what
-- the world answers.
--
-- Not modelled: internal/loop/observe.go, the reading of the logs of agents (plan/agentlog), the
-- regressions and intervals of spend, `NormaliseRemote`, the parsers of the adapters for git, gh,
-- processes and trackers, the web pages, the configuration, insights, projects and the migrations
-- of the database: these rest on processes, SQL drivers, HTTP or decoders outside the repository,
-- or only display what is modelled.
pub mod Prelude
pub mod Plan
pub mod Store
pub mod Loop
