-- ===== src/Lib.antt =====
-- The verification library of elmybot: a Discord and Twitch bot on Cloudflare Workers, whose
-- durable objects each keep their state in SQL tables and an alarm.
--
-- Parts, and the files that model them:
--   * Base and Sql: lists, texts (whose lengths are those of JavaScript, in UTF-16 units), results
--     of calls that may throw, and the few forms of SQL statement that the objects use: SELECT,
--     UPDATE, DELETE with a WHERE clause, ORDER BY with LIMIT 1, COUNT, and lookups by a key.
--   * Inbox: src/platforms/twitch/eventsub-inbox.js with the checks of eventsub-common.js and
--     eventsub-registry.js. A Row is a row of the table `eventsub_inbox`; `enqueue`, `admit`
--     (its transaction), `recover_expired_attempts`, `claim_next`, `complete`, `fail`, `prune`,
--     `schedule_next_alarm`, `process` and `drain` are the methods of the same names.
--   * AlarmDrain: src/alarm-drain.js, the time budget of the alarms.
--   * Coordinator: src/integrations/coordinator.js and coordinator-storage.js. ExecutionRow and
--     EffectRow are rows of `integration_executions` and `integration_effects`; `submit` (with
--     `begin_submit`, `commit` and `finish_submit`), `retry_effect`, `claim_effect`, `complete_effect`,
--     `fail_effect`, `dead_letter_remaining`, `prune_completed_executions`, `set_next_alarm` and
--     `alarm` are the methods and functions of the same names.
--   * FeatureStorage: src/framework/feature-storage.js. ValueRow, VersionRow, SubjectRow,
--     CooldownRow and MigrationRow are rows of the tables `framework_feature_…`; `set_value`,
--     `delete_value`, `increment_state`, `apply_bounded_counter_state`, `claim_feature_cooldown` and
--     `legacy_feature_state_migration` are the functions of the same names; a Change is a request
--     that changes values.
--   * Scheduler: src/message-scheduling/backend.js. A JobRow, SourceRow, DeliveryRow and DeadLetter
--     are rows of the tables `scheduler_…`; `schedule`, `cancel`, `list` and `dead_letters` are the
--     requests, `claim_occurrence`, `persist_occurrence_plan`, `fail_occurrence`,
--     `complete_occurrence` and `alarm` the methods of the same names; the round of the alarm's loop
--     is `job_turn` with `attempt` (the inner `try`) and `settle` (what follows it).
--   * Publications: src/durable-events/source-ledger.js. A Publication is a row of
--     `durable_event_publications`; `prepare`, `finalize` and `repin` are the requests. View is the
--     abstract ledger, a map from events to outcomes.
--   * StorageAlarm: src/storage-alarm.js, the one alarm that several tables of an object share.
--   * RelayBudget: src/state-events/relay-work-budget.js, the limits of one turn of a relay.
--   * Outbox: src/state-events/outbox.js, the numbers of a partition, the turns of the relay and the
--     admission of intents: `allocate_sequence`, `next_turn` and `enqueue`.
--
-- How the parts interact: the inbox hands each message to a handler of the registry, whose answer
-- is an Outcome; the coordinator delivers each effect through an adapter, whose answer is an Outcome
-- too, and the scheduler each occurrence through a handler, whose answers are Prepared and
-- Delivered. A durable object runs one step at a time, but other requests run while a handler, an
-- adapter or the registry is awaited: a Call is such a step, `perform` runs it, and the drain,
-- `submit` and `alarm` take a list of them at each place where they wait. A transaction that throws
-- leaves the state as it was.
--
-- Bounds and fuel: the loops of `drain` and `alarm` take their fuel from the source, 20 rounds
-- (`drain_batch_size`, `max_effects_per_alarm`, `max_jobs_per_alarm`), so no further fuel is needed;
-- everything else is by recursion on lists. Times are in milliseconds and natural numbers; where the source subtracts a
-- period from the clock, the model adds it on the other side, which is the same below 0 too.
--
-- Not modelled: the routing of requests, logging, and the JSON text of answers; the clock, UUIDs,
-- SHA-256, JSON and date parsing are parameters. A turn that awaits nothing has an empty list of
-- calls. A kind that a request to schedule gives as another value than a text is told to be unknown.
-- Of the outbox of state events, the expiry of rows and the upgrade of old tables are left out; the
-- text of an intent and its size are given with it.
-- The registry of integrations, the shareable realm, the relay of state events and the streams of
-- durable events are not modelled.
pub mod AlarmDrain
pub mod Base
pub mod Coordinator
pub mod FeatureStorage
pub mod Inbox
pub mod Outbox
pub mod Publications
pub mod RelayBudget
pub mod Scheduler
pub mod Sql
pub mod StorageAlarm
