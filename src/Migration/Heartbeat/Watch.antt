-- ===== src/Migration/Heartbeat/Watch.antt =====
-- What the heartbeat thread of infra/runners/migration_runner/heartbeat.py reports, and what it
-- leaves alone.
use odoo_custom.Prelude.{
  ℕ, ◌≡◌, refl, ◌⊎◌, inl, inr, true, false, List, [], ◌∷◌, Option, none, some, arith, Bool-cases,
  All, if◌then◌else◌,
}
use odoo_custom.Migration.Schema.{JobStatus, cancelled, Db}
use odoo_custom.Migration.Store.{find_status, record_heartbeat, set_heartbeat, update_job}
use odoo_custom.Migration.Heartbeat.{Beat, Watched, tick, is_cancelled, run}

is_cancelled-some : (o : Option JobStatus) → is_cancelled o ≡ true → o ≡ some cancelled
is_cancelled-some none e = cc
is_cancelled-some (some cancelled) e = refl
is_cancelled-some (some s) e = cc

tick-cancelled :
    (job_id : ℕ) (b : Beat) (db : Db)
    → is_cancelled (tick job_id b db).0 ≡ true
    → find_status job_id (tick job_id b db).1.jobs ≡ some cancelled
unfolding record_heartbeat
tick-cancelled job_id b db e = elim (Bool-cases b.raises) [
  | inl lost ↦ absurd (ground arith)
  | inr kept ↦ rw kept (is_cancelled-some _ (rw kept at e))
]

abbrev pub Observed : ℕ → ℕ → Watched × Db → Type 0
Observed job_id pid (seen, db') =
    (seen.terminated ≡ (if seen.observed_cancel then pid ∷ [] else []))
    × ((seen.observed_cancel ≡ false) ⊎ (find_status job_id db'.jobs ≡ some cancelled))

-- What the thread reports is what it saw: a cancellation is reported only with the row's status
-- cancelled in the database that the thread left, and then the process was sent SIGTERM once; with
-- none reported no process was sent a signal.
pub run-Observed :
    (job_id pid : ℕ) (bs : List Beat) (db : Db) → Observed job_id pid (run job_id (some pid) bs db)
unfolding run
run-Observed job_id pid [] db = (refl, inl refl)
run-Observed job_id pid (b ∷ bs) db = elim (Bool-cases b.stop_set) [
  | inl stopped ↦ rw stopped (refl, inl refl)
  | inr going ↦ elim (Bool-cases (is_cancelled (tick job_id b (b.others db)).0)) [
    | inl seen ↦ rw (going, seen) (refl, inr (tick-cancelled job_id b (b.others db) seen))
    | inr unseen_yet ↦
        rw (going, unseen_yet) (run-Observed job_id pid bs (tick job_id b (b.others db)).1)
  ]
]

tick-keeps :
    (P : Db → Type 0) (job_id : ℕ) (b : Beat) (db : Db)
    → ((now : ℕ) (d : Db) → P d → P (update_job job_id (set_heartbeat now) d))
    → P db
    → P (tick job_id b db).1
unfolding record_heartbeat
tick-keeps P job_id b db beat p = elim (Bool-cases b.raises) [
  | inl lost ↦ rw lost p
  | inr kept ↦ rw kept (beat b.now db p)
]

-- What holds of the database at the start still holds when the thread ends, if the writes of the
-- other sessions keep it and a heartbeat does.
pub run-keeps :
    (P : Db → Type 0) (job_id : ℕ) (pid : Option ℕ) (bs : List Beat) (db : Db)
    → All (λ (b : Beat). (d : Db) → P d → P (b.others d)) bs
    → ((now : ℕ) (d : Db) → P d → P (update_job job_id (set_heartbeat now) d))
    → P db
    → P (run job_id pid bs db).1
unfolding run
run-keeps P job_id pid [] db others beat p = p
run-keeps P job_id pid (b ∷ bs) db others beat p =
    let before = others.0 db p in
    let after = tick-keeps P job_id b (b.others db) beat before in
    elim (Bool-cases b.stop_set) [
      | inl stopped ↦ rw stopped before
      | inr going ↦ elim (Bool-cases (is_cancelled (tick job_id b (b.others db)).0)) [
        | inl seen ↦ rw (going, seen) after
        | inr unseen_yet ↦ rw (going, unseen_yet) (run-keeps P job_id pid bs _ others.1 beat after)
      ]
    ]
