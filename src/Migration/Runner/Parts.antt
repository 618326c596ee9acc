-- ===== src/Migration/Runner/Parts.antt =====
-- The parts of an iteration of infra/runners/migration_runner/runner.py: the classification of exit
-- codes, the texts of error excerpts, the dry-run clone and the wait for the process.
use odoo_custom.Prelude.{
  ℕ, ◌+◌, ◌-◌, ◌*◌, ◌/◌, ◌^◌, Bool, true, false, ◌&&◌, ◌||◌, not, List, [], ◌∷◌, ◌++◌, Option, none,
  some, leb, ◌==◌, if◌then◌else◌, length, take, drop,
}
use odoo_custom.Prelude.Int.{ℤ, pos, negsuc}
use odoo_custom.Prelude.Text.{text_eq, Text, codes, hex_digits}
use odoo_custom.Migration.Schema.{Db, JobRow}
use odoo_custom.Migration.Store.{finalize_failed, as_failed}
use odoo_custom.Migration.Runner.Events.{
  Exit, Process, World, RunStatus, done, failed, retry, State, Signal, sigterm, sigkill,
}

-- (retry_count + 1) * (retry_count + 1) * 300
unfoldable pub compute_backoff_seconds : ℕ → ℕ
compute_backoff_seconds retry_count = (retry_count + 1) * (retry_count + 1) * 300

-- `TRANSIENT_EXIT_CODES`
abbrev pub is_transient : ℤ → Bool
is_transient (pos code) = code == 143 || code == 137
is_transient (negsuc _) = false

abbrev pub is_zero : ℤ → Bool
is_zero (pos code) = code == 0
is_zero (negsuc _) = false

-- What `classify_exit` returns is one of three of the statuses.
unfoldable pub classify_exit : ℤ → ℕ → ℕ → RunStatus
classify_exit exit_code retry_count max_retries =
    if is_zero exit_code
    then done
    else if leb max_retries (retry_count + 1)
    then failed
    else if is_transient exit_code
    then retry
    else failed

-- The default of `max_retries`.
abbrev pub max_retries_default : ℕ
max_retries_default = 3

-- text[:50_000] and text[-50_000:]
abbrev pub text_limit : ℕ
text_limit = 50_000

unfoldable pub excerpt : Text → Text
excerpt text = take text_limit text

unfoldable pub tail_of : Text → Text
tail_of text = drop (length text - text_limit) text

-- The name of the dry-run clone: 40 characters of the slug, and the first 8 hexadecimal digits of
-- the job's 128-bit identifier.
unfoldable pub clone_name : JobRow → Text
clone_name job = take 40 job.tenant_slug ++ (codes "__dryrun_" ++ hex_digits 8 (job.id / 2 ^ 96))

unfoldable pub has_name : Text → List Text → Bool
has_name name [] = false
has_name name (d ∷ ds) = text_eq name d || has_name name ds

unfoldable pub without : Text → List Text → List Text
without name [] = []
without name (d ∷ ds) = if text_eq name d then without name ds else d ∷ without name ds

-- A transaction of `cursor()`: it commits, or it raises and what it wrote is rolled back.
pub data Transaction : Type 0 where
  commits raises : Db → Transaction

abbrev pub rolled_back : Transaction → Db → Option Db
rolled_back (commits written) before = some written
rolled_back (raises written) before = none

-- `_make_dryrun_clone`: CREATE DATABASE fails for a name that exists. The handler writes the
-- failure and raises again, inside the transaction.
unfoldable pub create_clone : World → JobRow → State → Transaction
create_clone w job s =
    if w.can_create_database && not (has_name (clone_name job) s.databases)
    then commits s.db
    else raises (
        finalize_failed w.tx_now job.id job.tenant_id as_failed
          (codes "dry-run clone failed; see runner logs") s.db)

unfoldable pub make_dryrun_clone : World → JobRow → State → Option State
unfolding create_clone
make_dryrun_clone w job s = elim (rolled_back (create_clone w job s) s.db) [
  | none ↦ none
  | some db ↦ some (record { db = db; databases = clone_name job ∷ s.databases })
]

-- `_drop_dryrun_clone`: errors are swallowed.
unfoldable pub drop_dryrun_clone : World → Text → State → State
drop_dryrun_clone w clone s =
    if w.can_drop_database then record s { databases = without clone s.databases } else s

-- What `communicate` gives, whether it timed out, and the signals that were sent for that.
pub record Ended : Type 0 where
  pub exit : Exit
  pub timed_out : Bool
  pub sent : List Signal

unfoldable pub communicate : Process → Ended
communicate p = elim p.first_wait [
  | some exit ↦ record { exit = exit; timed_out = false; sent = [] }
  | none ↦ elim p.second_wait [
    | some exit ↦ record { exit = exit; timed_out = true; sent = sigterm ∷ [] }
    | none ↦ record { exit = p.last_wait; timed_out = true; sent = sigterm ∷ sigkill ∷ [] }
  ]
]
