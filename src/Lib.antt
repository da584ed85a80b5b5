-- ===== src/Lib.antt =====
-- The scheduling platform of this repository: runs of scripts wait in a queue, a scheduler reserves resources on
-- an execution server for each and assigns it, and the agents on the servers are upgraded in batches under a
-- plan. Rules watch servers and runs and raise alerts, which are brought out as messages, and a store on disk
-- keeps which release of the platform is current. The parts that hold this logic are modelled here as functions
-- on values.
--
-- Scheduler (internal/scheduler): Types.antt has the data of types.go; Filter.antt and Score.antt the two pure
-- passes of `Filter` and `RankCandidates`; Queue.antt the waiting runs; Service.antt the interfaces that
-- `Service` is given, as a record `Stores` of operations on a state of their own. Service/Schedule.antt is
-- `ScheduleOne`, a chain of steps of which each may return early, and Service/Scan.antt is `HandleEvent`, `Scan`
-- and `restoreActiveLeases`.
--
-- Lease (internal/store/redis/lease.go): the scheduler's lease store. Scripts.antt has the three Lua scripts as
-- steps on the keys of one server, since Redis runs a script at once; Store.antt the Go methods in front of
-- them; Scheduling.antt puts the store under the scheduler's service as cmd/scheduler/main.go does, with the
-- other stores as a parameter, and for a Redis that answers all the time or never. The counters are exact
-- integers: the amounts are below 2^53, beyond which the numbers of Lua would round, and the Go methods refuse
-- amounts of 0 or less, so that what is packed always matches the pattern of the scripts.
--
-- Upgrade (internal/agentupgrade, internal/agentprotocol/upgrade.go): Types.antt has the data of model.go and of
-- the protocol, Version.antt the order of versions, Rollback.antt `rollbackBatch`, Coordinator/Scan.antt the
-- pass of `Coordinator.Scan` over the targets of a plan (the loop runs once for each target, so the number of
-- targets is fuel enough), Coordinator/Events.antt `ApplyUpgradeEvent` and `ObserveHeartbeat`,
-- Service/Create.antt and Service/Control.antt the operations of service.go.
--
-- Task (internal/task): Task.antt has the runs and their states, Usage.antt what an agent samples of a process
-- (internal/agentprotocol/usage.go), Events.antt `ApplyRunEvent` as one transaction on the rows of the database,
-- and `EventService.Apply` in front of it. Cron.antt has the cron expressions of internal/task/schedule.go and
-- the search of `nextCronTime`, one round for each minute before the limit; the calendar of the location is a
-- parameter. Reconcile.antt has the transactions of reconcile.go for lost servers and the reports of agents that
-- come back, Reconcile/Retries.antt the retries.
--
-- Ops (internal/ops): Ops.antt has the counting of `Apply` in postgres.go on the state of one rule and source,
-- Apply.antt its loop over the evaluations of a scan with the caches, the rows and the transitions, and
-- `MarkApplied`; Rules.antt what rules.go makes of a snapshot, Scan.antt `RuleEngine.Scan` with the alerts as a
-- parameter. The arithmetic of Go's type float64 is the parameter `Floats`. `sort.Slice` is taken to be the
-- stable sort, one of the orders that it may give. A transaction of the database is done as a whole or not at
-- all. The query of `Snapshot` and the timer of loop.go are not modelled.
--
-- Release (internal/release): Release.antt and Checks.antt have the data and the checks of manifest.go and
-- state.go, State.antt the files and the transaction of `StateStore`, State/Files.antt its operations. Each file
-- operation takes a verdict: it is done, it fails, or it fails after its change; a list of verdicts that ends is
-- a crash. The writing and syncing of a temporary file is one operation that changes nothing, its rename
-- another. `encoding/json` is taken to read back what it wrote; symbolic links and the modes of files are not
-- modelled.
--
-- Notification (internal/notification): Notification.antt has `DeliverDue` of outbox.go and the statements of
-- postgres.go behind it, one worker at a time, its loop of 100 rounds by recursion on their number. The stored
-- payloads are taken to parse. `EnqueueTest`, the configuration and the sender to Feishu are not modelled.
--
-- Alert (internal/alert): Alert.antt has the checks of service.go, Alert/Table.antt the statements of
-- postgres.go on the rows of the table. Server has the data that these parts share with internal/server.
-- Clock.antt has times as nanoseconds since Go's zero time and durations as signed 64 bit numbers with their
-- wrap-around. Prelude holds the shared helpers: Go's maps, texts, sorts and errors.
--
-- Where no file above has the statements of a store, the store is a parameter, as are the clock, the sources of
-- ids and the sender of commands: their code is SQL, Redis, the network or a library. A mutex makes each
-- operation one step. The rest of the repository is not modelled: HTTP handlers, the other SQL statements,
-- process control, file formats and the web application.
pub mod Prelude
pub mod Clock
pub mod Task
pub mod Server
pub mod Scheduler
pub mod Lease
pub mod Alert
pub mod Notification
pub mod Ops
pub mod Release
pub mod Upgrade
