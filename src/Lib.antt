-- ===== src/Lib.antt =====
-- Verification library of odoo-custom, a set of Odoo addons for clubs, hotels and accounting with
-- the infrastructure that runs them for many tenants.
--
-- Parts of the program and where they are modelled:
--
-- * infra/runners/migration_runner, the migration runner: a queue of migration jobs in the control
--   plane's database and the process that works it off. Migration.Schema has the rows;
--   Migration.Store the transactions of db.py (claim_next_job, transition_to_blocked,
--   transition_to_skipped, finalize_done, finalize_failed, retry_transient, record_heartbeat,
--   write_snapshot_id), each a function from the database before to the database after;
--   Migration.Window the class WindowEvaluator of window.py; Migration.Heartbeat the thread of
--   heartbeat.py; Migration.Runner the class Runner of runner.py, where Parts has its helpers and
--   Iteration has run_once, _process, _run_odoo and run_forever. One iteration is a function of the
--   outcomes of the outside world (Migration.Runner.Events.World): the snapshot, CREATE DATABASE,
--   the child process, the clocks, and what other sessions commit between the transactions.
--   Migration.Snapshot has take_snapshot of snapshot.py and Migration.Rollback the command line of
--   rollback.py, over how the commands and the HTTP request end.
-- * custom-addons/goliatt_pms/models, the hotel addon: Hotel.Schema has the rows;
--   Hotel.Reservation the methods of pms_reservation.py, Hotel.Folio those of pms_folio.py,
--   Hotel.Audit those of pms_night_audit.py, Hotel.Housekeeping those of pms_housekeeping.py and
--   Hotel.Kiosk those of pms_kiosk_session.py. A method is a function from the tables before to the
--   tables after, or to the error that it raises, which rolls its transaction back. Hotel.Lifecycle
--   has sequences of their calls as a step relation.
-- * custom-addons/club_access_control, who may enter a club: Club.Schema has the rows, of which
--   affiliates, employees and visits stand in club_core, club_affiliate_employees and club_guests;
--   Club.Persons and Club.Lookup have the lookups by an identifier and Club.Access the methods of an
--   entry, all of models/club_access_entry.py. The match =ilike of Postgres and the token that
--   json.loads finds are the parameter Club.Persons.Outside.
-- * custom-addons/saas_license_gate, which lets a self-hosted installation write only under a
--   license: License.Gate has models/license_gate.py (run_check and the accessors of the verdict) and
--   License.Enforcement models/enforcement.py. The JSON and crypto libraries are the parameter
--   License.Gate.Libraries, and what one check gets from outside is a License.Gate.Tick.
-- * agents/agents, the Slack intake: Agents.State has the port of ports/state.py, Agents.State.Memory
--   and Agents.State.Sqlite its adapters adapters/state_memory.py and adapters/state_sqlite.py, and
--   Agents.State.Maps the maps that both keep. Agents.Intake.Handlers has the handlers of
--   slack_intake/core.py over any store; Agents.State.Lawful has what their theorems ask of it, and
--   that the SQLite store has it. A handler is a function from the event, the state of the store and
--   what it meets (Agents.Intake.Outside) to the state, the calls that it made and whether one raised.
--   Agents.Sweep has the sweep of spec_generator/core.py.
-- * custom-addons/club_object_loan, the objects that a club lends: Club.Loans has the methods and
--   constraints of models/club_object_loan.py and the rows that they read.
--
-- Prelude holds what the parts share: Boolean tests, lists of rows, signed integers, texts,
-- numerals, lines, and tables of rows with a key.
--
-- Conventions. Identifiers and commit hashes are numbers, which are only compared and ordered
-- (what the rollback prints of a hash is Migration.Rollback.Env.short); texts are lists of code
-- points. In the migration runner, the license gate and the agents a time is a count of
-- microseconds, in the hotel and the clubs one of seconds, and a date is the number of its day.
-- The tz database and the package croniter are the parameter Migration.Window.Calendar, and that a
-- next firing comes after the time it is asked for is the hypothesis IsForward. No loop runs on
-- fuel: the heartbeat thread and run_forever recur on the list of the turns that they make, and a
-- number is printed with one more digit allowed than its value.
--
-- In the hotel an amount or a duration is a float, whose type is a parameter with its operations
-- (Hotel.Schema.Floats); the number that random.choice draws is an argument; the sequences that name
-- records are left out, and a table lists its rows in the order that its model searches them in.
--
-- Not modelled: user interfaces, reports, translations, logging, the connection to Postgres, and the
-- third-party addons under jorels-addons.
pub mod Prelude
pub mod Migration
pub mod Hotel
pub mod Club
pub mod License
pub mod Agents
