-- ===== src/Lib.antt =====
-- A model of the parts of ad-coder that decide what may run: which provider calls are admitted, which
-- step a workflow takes next, when a session or a stage must stop, what a run waits for and when it is
-- retried, whom a stop signals, who holds a project, and what a context may hold.
--
-- The parts, the files that model them, and the sources (paths from the repository's root):
--
--   Admission   src/provider-admission.ts. `Admission` has the data: a `Controller` with its scopes in
--     insertion order (the `Map`), its tokens as numbers into `Tokens` (the shared `AdmissionToken`
--     objects), and the store. `Scheduler` is `canGrant`, `dequeueCandidate` and the loop of `pump`;
--     `Reserve` is `reserve`, `ensureScope`, `grant`, `pump`; `Release` is `cancel`, `release`,
--     `releaseToken`, `settleToken`, `resolveUncertain`, `openCooldown`, `reactRejection`; `Persist`
--     and `Restore` are `snapshot`, `persist`, `assertConfig`, `restore` and the constructor; `Keys` is
--     `admissionScopeKey`; `Wrap` has the wrapped methods and `admit` as events. The other files
--     prove: `Scheduler/Order`, `Bounds`, `Cooldown`, `Recovery`, `Durable`, `Crash`, `Permits`, `Once`,
--     `Scopes`, and `Served`, which counts the tokens of a scope (`Counts`) and compares them with its
--     counter over each operation (`Tally`).
--   Workflow   src/orchestration/session.ts and types.ts: `Steps` has one function for each phase's
--     step, with the edges it offers, and the stop rule of the review. `Drive` has `applyTransition`,
--     `autoDriver`, `toPipelineResult`, the offered check (src/orchestration/transition-guard.ts),
--     `readChoice` (src/cli/drive.ts), and `commitTransition` and the loop of `run`
--     (src/project-operations/run-coordinator.ts). `Offers`, `Progress`, `Approval`, `Choices` and
--     `Offered` prove.
--   Limits   src/session-limits.ts: the turn and cost limits of a session.
--   Stage   src/orchestration/stage-limits.ts: the ceilings of a stage and the reserves that close it out
--     (`Stage`), the admission of tools, the observed usage and the wrapped methods as events
--     (`Run`). `Bounds` and `Closeout` prove.
--   Versioned   src/project-store/project-store.ts: `readVersionedJson`, `writeVersionedJson` and
--     `mutateVersionedJson` over a map from paths to versioned states.
--   Wait   src/orchestration/wait-service.ts: the data of waits and their checks (`Wait`), `append` and
--     what else is made of a record (`Records`), the operations over versioned states (`Service`), and
--     histories in which creations, cancellations and the two parts of `reconcile` interleave
--     (`History`). `Changes` and `Moves` say what one call can do to a record and to the states; `Shape`, `Valid`, `Once`, `Kept` and
--     `Replay` prove.
--   Control   src/orchestration/control-plane.ts, `OrchestratorControlPlane`, and `isWorkStartableBudget` of
--     src/orchestration/intake.ts. `Control` has the durable records; `Scopes` the checks of texts;
--     `Records` the statuses and results, `Decided` what `cancel`, the budgets, the decisions and the
--     `catch` of `resume` make of a record; `Resume` and `Executed` what `resume` makes of one before its
--     wait, as a list of writes, and after `execute`;
--     `Plane` the stored records, `write`, `persistSessionLimits` and the calls that wait (`Task`);
--     `Children` is `runChildren`; `Replies`, `Steps` and `Advance` are `resume` and `requestDecision` between
--     their waits; `Start` and `Operator` the calls that do not wait; `Schedule` any order of calls, answers and
--     crashes. `Sound` is the invariant, which `Writes` and `Puts` keep for one write and for several,
--     `Growth`, `Updates` and `Outcomes` for the records, `Steady`, `Stepwise`, `Dispatching`, `Settling`,
--     `Calls` and `Entries` for the calls; `Single`, `Gates`, `Families` (with `Inclusion`), `Parents` and
--     `Requests` prove.
--   Retry   src/orchestration/control-plane.ts, `LiveRetryCoordinator`: the gate of a host's retries.
--     `Bounds`, `Chances` and `Cancelled` prove.
--   Stop   src/orchestration/run-stop.ts, `verifyStopTarget`, and src/orchestration/stop-run.ts, `stopRun`
--     up to its SIGTERM. `Trusted` proves.
--   Ledger   src/ledger/usage.ts: `diffUsage` and `UsageDeltaTracker`. `Sums` proves.
--   Anomaly   src/economics/cost-anomaly.ts: the scopes of `CostAnomalyDetector` and what an observation
--     makes of one (`Anomaly`), the detector with its store as events (`Detection`). `Saved`, `Blocked` and
--     `Confirmed` prove.
--   Lease   src/session-manager/lease.ts and `validateProjectKey` of src/session-manager/project-keys.ts.
--   Wake   src/orchestration/wake.ts: the pump that turns durable wakes into turns.
--   Context   src/context/: budget.ts, estimate.ts, compactor.ts (the kept tail, the harness settings, the
--     policy) and preflight.ts.
--   Prelude   the helpers: Boolean tests, lists and the `Map` with text keys.
--   Examples   the theorems at concrete inputs.
--
-- How the parts meet: the admission controller and the session limits wrap the same provider
-- methods, so both take a call's end as an event; the workflow's steps call roles whose turns
-- those wrappers and the stage's limits guard, and a step's turn enters as an argument (`Turn`);
-- the wait service and the control plane stand on the versioned states; the control plane schedules
-- its retries with the coordinator of `Retry`, stores the snapshot of the session limits and asks
-- them before it executes, and its `execute` is a workflow, whose outcome is an answer; the wake pump starts turns of the orchestrator;
-- the context checks run before a turn.
--
-- Asynchronous code is cut where it suspends: each piece between two suspensions is one event, and
-- a history is any sequence of events. Clocks, random tokens, what the system answers about
-- processes, the digest and the token estimators, the adapters of waits, the floating-point
-- numbers of billed prices and the sizes of written states are parameters. Milliseconds, tokens
-- and costs are natural numbers, costs in whole micro-units, so that floating-point rounding is
-- left out.
--
-- Loops over lists recurse on the list: `drain` on the queue, the shifts of `append` on the record's
-- events. `Retry`, `Wait` and `Control` take any number of events, in any order; a loop of `runChildren` is cut at
-- each child that it calls.
--
-- Bounds: `Drive.drive` takes fuel. `8 * maxRounds` is enough for the run that takes every default,
-- since each step lowers `8 * (maxRounds - round)` plus the rank of its phase. `Scheduler.pump_scope`
-- recurses on the length of the queue, which every grant shortens.
--
-- Not modelled of the control plane: the publication with its content binding, the parsing of budgets
-- and intake statements, the check of the settings, the stage metrics, and the projections that
-- `status`, `list` and `events` return. The children of a run and the estimate of its budget come in as
-- answers, since `deriveChildSpecs` and `counterEstimateBudget` read verdicts and configured limits.
--
-- Not modelled: prompts, metrics, evidence and error texts, the files behind the stores, network and
-- terminal I/O, the agent harness, and every part of the program that is not named above.
pub mod Prelude
pub mod Admission
pub mod Workflow
pub mod Limits
pub mod Lease
pub mod Context
pub mod Wake
pub mod Stage
pub mod Retry
pub mod Control
pub mod Stop
pub mod Ledger
pub mod Anomaly
pub mod Versioned
pub mod Wait
pub mod Examples
