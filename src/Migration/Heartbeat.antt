-- ===== src/Migration/Heartbeat.antt =====
-- The heartbeat thread of infra/runners/migration_runner/heartbeat.py: the loop of `run`, as a
-- function of what each of its turns meets.
pub mod Watch
use odoo_custom.Prelude.{ℕ, Bool, true, false, List, [], ◌∷◌, Option, none, some, if◌then◌else◌}
use odoo_custom.Migration.Schema.{JobStatus, cancelled, Db}
use odoo_custom.Migration.Store.{record_heartbeat}

-- One turn of the loop: what other sessions have committed before it, whether the stop event is
-- set when the loop tests it, whether the transaction raises, and the time of the transaction.
pub record Beat : Type 0 where
  pub others : Db → Db
  pub stop_set : Bool
  pub raises : Bool
  pub now : ℕ

-- `_cancelled`, and the processes that were sent SIGTERM.
pub record Watched : Type 0 where
  pub observed_cancel : Bool
  pub terminated : List ℕ

abbrev pub unseen : Watched
unseen = record { observed_cancel = false; terminated = [] }

abbrev pub terminate : Option ℕ → List ℕ
terminate none = []
terminate (some pid) = pid ∷ []

-- The `try` of one turn: a transaction that raises is rolled back, and gives no status.
abbrev pub tick : ℕ → Beat → Db → Option JobStatus × Db
tick job_id b db = if b.raises then (none, db) else record_heartbeat b.now job_id db

abbrev pub is_cancelled : Option JobStatus → Bool
is_cancelled (some cancelled) = true
is_cancelled _ = false

-- The loop, over the turns that the thread makes before it is joined.
unfoldable pub run : ℕ → Option ℕ → List Beat → Db → Watched × Db
run job_id pid [] db = (unseen, db)
run job_id pid (b ∷ bs) db =
    let before = b.others db in
    let (status, after) = tick job_id b before in
    let rest = run job_id pid bs after in
    let abort : Watched = record { observed_cancel = true; terminated = terminate pid } in
    if b.stop_set then (unseen, before) else if is_cancelled status then (abort, after) else rest
