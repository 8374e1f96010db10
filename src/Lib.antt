-- ===== src/Lib.antt =====
-- Verification library of the Clock HA orchestrator, the service that reads the bookings of a hotel
-- from its property management system, decides what each room's heating is to do, and has it done
-- over MQTT by adapters on the bus of each entrance.
--
-- The parts, in the order in which a decision passes through them:
-- - Domain: app/domain. Enums and Models hold the enumerations and the records with their
--   validators (app/domain/enums.py, app/domain/models.py), Registry the validators of
--   `RoomRegistry`, Time and Temperature what the records use of aware datetimes and of floats, and
--   StateMachine the functions of app/domain/state_machine.py. `evaluate_room` is split at its early
--   returns: `evaluate_enabled`, `evaluate_candidates`, `evaluate_conflict_free` and
--   `evaluate_selected` are its tails. Selection, Stays, Phases, Guarantees, Windows and Single prove.
-- - Persistence: the rows of app/persistence/models.py (Rows), and a session of the database as a
--   record of its tables with the queries and the additions that the services make (Session).
-- - Policy: app/policy. Engine is app/policy/engine.py (`derive_room_intent` and its branches), with
--   Totality and Safety; Commands is app/policy/commands.py, with Laws; Control is
--   app/policy/control.py: Text (what the text of a command means), Rows (what the latest override
--   and room state mean), Draft (`_build_override_row`, with Boundaries) and Service
--   (`RoomControlCommandService`, with Registered, Outcome and Transactions).
-- - Clock: app/clock/db_sync.py. Registry (`_ensure_registry`, `_resolve_room`), Bookings
--   (`_upsert_booking`, `_sync_assignment`, `_audit_unassigned_if_needed`), Rooms with Loading and
--   Step (`_recalculate_rooms` and what it calls), and DbSync (`apply_sync_result`,
--   `evaluate_all_rooms`, `evaluate_room_keys` and the cursor). Versions, Idempotence, Counts,
--   Soundness, Totality, Runs, Failed, Assignments, Affected and Cursor prove.
-- - Outbox: app/outbox/service.py. Store holds the operations of `OutboxStore` on the list of the
--   table's rows, with Claims, Lifecycle, Retry and Recovery; Publisher is `OutboxPublisher`; Round
--   is `run_outbox_once` of app/runtime.py, which joins the two.
-- - System: app/system/state.py, the summary that is published; Clear proves.
-- - Runtime: the turns of app/runtime.py that change the rows (`handle_control_message`,
--   `run_policy_once`, and the transaction of `run_sync_once`), and sequences of them; Turns proves.
-- - G301: app/g301_adapter. G301Register and Registers are registers.py, Planner is planner.py,
--   Transport is transport.py, Simulator is simulator.py, and Worker is worker.py: State (records),
--   Bus (operations on the bus with their retries), Execute (`_execute_intent`, `_verify_attempt`,
--   `_resume_verification`) and Apply (the constructor and `apply_intent`). Codec, Laws, Plans,
--   Versions, Replies, Retries, Attempts, Confirmed, Grounded and Advance prove.
-- - Prelude: shared types and helpers; Tests: concrete rooms, tables and buses.
--
-- How code becomes definitions: a function of the source is a function here, an exception is a value
-- of `Result`, an object that calls change is passed in and returned. A datetime keeps its zone, its
-- wall clock and its instant in microseconds, and compares as Python compares; a temperature is one
-- of the special floats or a number of thousandths of a degree, so that the tenths of the registers
-- and the rounding to them are exact. UUIDs are numbers. Texts that only people read are left out,
-- and an error message is a value that names it.
--
-- What is a parameter: the rules of the hotel's time zone, the sequence of `uuid4`, the reading of a
-- number by `float`, the JSON text of a payload, the SHA-256 of a room's state, the rows that other
-- transactions lock, the jitter of a retry, the MQTT client with its receipts, the register client
-- with its clock, and the fingerprint of a payload. What a theorem needs to know of them is among its
-- hypotheses.
--
-- Loops: those over lists recurse on the list. The retries of a bus operation and the passes of a
-- readback recurse on the attempts that are left, which are the bounds of the source's own loops, so
-- no other fuel is in use and every definition is total.
--
-- A table is the list of its rows, the newest first, and a transaction is a function of the tables,
-- whose error leaves them as they were. Whether the database engine takes the rows that a
-- transaction changed, at a flush or at its end, is a parameter (`takes`): it refuses what a
-- constraint of the schema excludes, and a payload that a JSON column does not take, such as one
-- with a target that is not a number. `apply_mqtt_command` asks it, and `commit` of Runtime does for
-- the transactions of app/clock/db_sync.py, whose functions give what leaves the body of the
-- transaction. Two commands and evaluations of a room do not run at once, which the locks of the
-- source see to.
--
-- Not modelled: the rest of app/clock, app/api, app/dashboard, the MQTT client with its discovery,
-- the settings, and the start, the stop and the health of the runtime. They are I/O, formatting or
-- later work. Of the tables, the ids of audit events, the texts and payloads of audit events, the
-- name and zone of a property, the floor of a room, and the columns of a booking that are only shown
-- are left out. The cancellation of a running call, a `ValueError` that a register client raises
-- itself, and negative raw register values are not modelled either.
pub mod Prelude
pub mod Domain
pub mod Persistence
pub mod Policy
pub mod Outbox
pub mod Clock
pub mod System
pub mod Runtime
pub mod G301
pub mod Tests
