-- ===== src/Migration/Runner/Settling.antt =====
-- What an iteration of infra/runners/migration_runner/runner.py leaves in the row of its job.
use odoo_custom.Prelude.{
  ℕ, ◌+◌, ◌*◌, ◌<◌, ◌≡◌, refl, Bool, true, false, List, [], Option, none, some, arith, All,
  All-of-each, Bool-cases, if◌then◌else◌, inl, inr, sym,
}
use odoo_custom.Prelude.Text.{Text}
use odoo_custom.Migration.Schema.{JobStatus, queued, Job, Db, JobRow}
use odoo_custom.Migration.Schema as Schema
use odoo_custom.Migration.Store.{
  second, update_job, set_done, set_skipped, set_blocked, set_failed, Failure, failure_status,
  as_failed, as_timedout, update_tenant, finalize_failed, finalize_done, transition_to_skipped,
  transition_to_blocked, retry_transient,
}
use odoo_custom.Migration.Store.Queue.{All-update_job}
use odoo_custom.Migration.Heartbeat.{Watched}
use odoo_custom.Migration.Window.{
  Calendar, IsForward, WindowEvaluator, make_evaluator, is_open, next_open, next_firing,
}
use odoo_custom.Migration.Window.Opening.{next_open_closed}
use odoo_custom.Migration.Runner.Events.{
  World, RunStatus, Signal, Spawn, file_not_found, started, SnapshotOutcome, taken, snapshot_error,
  snapshot_crash, idle, skipped, blocked, done, failed, timedout, cancelled, retry, State, Turn,
}
use odoo_custom.Migration.Runner.Parts.{
  compute_backoff_seconds, drop_dryrun_clone, make_dryrun_clone, Ended,
}
use odoo_custom.Migration.Runner.Iteration.{
  process, succeed, ends, fail_with, is_at, record_exit, conclude, spawned, run_on_clone, run_odoo,
  snapshotted, block, in_window, with_window, default_window,
}

-- The next firing of the job's maintenance window after the runner's clock, in the tenant's zone.
abbrev pub next_window : World → JobRow → Calendar → ℕ
next_window w job c =
    c.to_utc job.tz (c.get_next job.maintenance_window job.tz (c.to_local job.tz w.clock))

-- What an iteration that returns the status has made of a row of its job.
abbrev pub Settles : World → JobRow → Calendar → RunStatus → Job → Type 0
Settles w job c idle j = ⊥
Settles w job c skipped j = (j.status ≡ Schema.skipped) × (j.finished_at ≡ some w.tx_now)
Settles w job c blocked j =
    (j.status ≡ Schema.blocked)
    × (j.blocked_until ≡ some (next_window w job c))
    × (w.clock < next_window w job c)
Settles w job c done j =
    (j.status ≡ (if job.migration_dry_run then Schema.skipped else Schema.done))
    × (j.finished_at ≡ some w.tx_now)
Settles w job c failed j = (j.status ≡ Schema.failed) × (j.finished_at ≡ some w.tx_now)
Settles w job c timedout j = (j.status ≡ Schema.timedout) × (j.finished_at ≡ some w.tx_now)
Settles w job c retry j =
    (j.status ≡ queued)
    × (j.enqueued_at ≡ w.tx_now + compute_backoff_seconds job.retry_count * second)
Settles w job c cancelled j = Unit

abbrev pub Settled : World → JobRow → Calendar → Turn → Type 0
Settled w job c t = elim t.outcome [
  | none ↦ Unit
  | some (id, status) ↦
      (id ≡ some job.id) × All (λ j. j.id ≡ job.id → Settles w job c status j) t.state.db.jobs
]

-- After an UPDATE of job `k`, what the assignments establish holds of every row named `k`.
update_job-each :
    (P : Job → Type 0) (k : ℕ) (set : Job → Job) (db : Db)
    → ((j : Job) → P (set j))
    → All (λ j. j.id ≡ k → P j) (update_job k set db).jobs
update_job-each P k set db h =
    All-update_job _ k set db (λ j _ _. h j) (λ j other same. absurd (other same))

-- An evaluator that could be built has a cron expression that croniter accepts, and is the job's.
made_from :
    (c : Calendar) (w : World) (job : JobRow) (e : WindowEvaluator)
    → default_window w job c ≡ some e
    → (c.is_valid_cron e.cron ≡ true) × (next_firing c e w.clock ≡ next_window w job c)
unfolding make_evaluator
made_from c w job e made = elim (Bool-cases (c.is_valid_cron job.maintenance_window)) [
  | inr bad ↦ absurd (ground (arith, bad))
  | inl good ↦ elim (Bool-cases (c.is_valid_tz job.tz)) [
    | inr bad ↦ absurd (ground (arith, good, bad))
    | inl zone ↦ (ground (arith, good, zone), ground (arith, good, zone))
  ]
]

module _ (w : World) (job : JobRow) (c : Calendar) where
  finalize_failed-each :
      (status : Failure) (text : Text) (db : Db)
      → All
          (λ j.
            j.id ≡ job.id → (j.status ≡ failure_status status) × (j.finished_at ≡ some w.tx_now))
          (finalize_failed w.tx_now job.id job.tenant_id status text db).jobs
  unfolding finalize_failed update_tenant
  finalize_failed-each status text db =
      update_job-each _ job.id (set_failed w.tx_now status text) db (λ j. (refl, refl))

  succeed-each :
      (target : Text) (s : State)
      → All (λ j. j.id ≡ job.id → Settles w job c done j) (succeed w job target s).db.jobs
  unfolding succeed finalize_done transition_to_skipped update_tenant drop_dryrun_clone
  succeed-each target s = elim (Bool-cases job.migration_dry_run) [
    | inl dry ↦ elim (Bool-cases w.can_drop_database) [
      | inl dropped ↦
          rw (dry, dropped)
            (update_job-each _ job.id (set_skipped w.tx_now) s.db (λ j. (refl, refl)))
      | inr left ↦
          rw (dry, left) (update_job-each _ job.id (set_skipped w.tx_now) s.db (λ j. (refl, refl)))
    ]
    | inr real ↦ rw real (update_job-each _ job.id (set_done w.tx_now) s.db (λ j. (refl, refl)))
  ]

  fail_with-Settled :
      (text : Text) (s : State) (on : List Text) (signals : List Signal)
      → Settled w job c (ends w job failed (fail_with w job text s) on signals)
  fail_with-Settled text s on signals = (refl, finalize_failed-each as_failed text s.db)

  record_exit-Settled :
      (target : Text) (ended : Ended) (s : State) (status : RunStatus)
      → Settled w job c (record_exit w job target ended s status)
  unfolding record_exit retry_transient
  record_exit-Settled target ended s done = (refl, succeed-each target s)
  record_exit-Settled target ended s retry =
      (refl, update_job-each _ job.id _ s.db (λ j. (refl, refl)))
  record_exit-Settled target ended s _ = (refl, finalize_failed-each as_failed _ s.db)

  if-Settled :
      (b : Bool) (t u : Turn)
      → Settled w job c t
      → Settled w job c u
      → Settled w job c (if b then t else u)
  if-Settled true t u ht hu = ht
  if-Settled false t u ht hu = hu

  conclude-Settled :
      (target : Text) (ended : Ended) (seen : Watched) (s : State)
      → Settled w job c (conclude w job target ended seen s)
  unfolding conclude
  conclude-Settled target ended seen s =
      if-Settled seen.observed_cancel _ _ (refl, All-of-each _ s.db.jobs (λ j _. tt))
        (if-Settled ended.timed_out _ _ (refl, finalize_failed-each as_timedout _ s.db)
          (record_exit-Settled target ended s _))

  spawned-Settled :
      (target : Text) (s : State) (x : Spawn) → Settled w job c (spawned w job target s x)
  unfolding spawned
  spawned-Settled target s (file_not_found message) = fail_with-Settled _ s [] []
  spawned-Settled target s (started p) = conclude-Settled target _ _ _

  run_odoo-Settled : (s : State) → Settled w job c (run_odoo w job s)
  unfolding run_odoo
  run_odoo-Settled s =
      if-Settled job.migration_dry_run _ _ (on_clone (make_dryrun_clone w job s))
        (spawned-Settled job.tenant_db_name s w.spawn)
    where
      on_clone : (o : Option State) → Settled w job c (run_on_clone w job s o)
      on_clone none = unfold run_on_clone in tt
      on_clone (some s') = unfold run_on_clone in spawned-Settled _ s' w.spawn

  snapshotted-Settled : (s : State) (x : SnapshotOutcome) → Settled w job c (snapshotted w job s x)
  unfolding snapshotted
  snapshotted-Settled s (taken snapshot_id) = run_odoo-Settled _
  snapshotted-Settled s (snapshot_error message) = fail_with-Settled _ s [] []
  snapshotted-Settled s snapshot_crash = tt

module _ (w : World) (job : JobRow) (c : Calendar) (forward : IsForward c) where
  block-Settled :
      (e : WindowEvaluator) (s : State)
      → (c.is_valid_cron e.cron ≡ true) × (next_firing c e w.clock ≡ next_window w job c)
      → is_open c e w.clock ≡ some false
      → Settled w job c (block w job s (next_open c e w.clock))
  unfolding block transition_to_blocked
  block-Settled e s valid closed =
      let (at_firing, later) = next_open_closed c e w.clock valid.0 forward closed in
      rw at_firing (
        refl,
        update_job-each _ job.id (set_blocked (some (next_firing c e w.clock))) s.db
            (λ j. (refl, rw valid.1 refl, rw (sym valid.1) later)),
      )

  in_window-Settled :
      (e : WindowEvaluator) (s : State) (o : Option Bool)
      → (c.is_valid_cron e.cron ≡ true) × (next_firing c e w.clock ≡ next_window w job c)
      → is_open c e w.clock ≡ o
      → Settled w job c (in_window w job c e s o)
  unfolding in_window
  in_window-Settled e s none valid is = tt
  in_window-Settled e s (some false) valid is = block-Settled e s valid is
  in_window-Settled e s (some true) valid is = snapshotted-Settled w job c s w.snapshot

  with_window-Settled :
      (s : State) (o : Option WindowEvaluator)
      → default_window w job c ≡ o
      → Settled w job c (with_window w job c s o)
  unfolding with_window
  with_window-Settled s none made = tt
  with_window-Settled s (some e) made = in_window-Settled e s _ (made_from c w job e made) refl

  -- Every iteration that returns has brought the row of its job to where the returned status says:
  -- skipped and failed jobs and those that ran out of time are finished; a blocked job waits for
  -- the next firing of its maintenance window, which is in the future; a retried job is due after its backoff; and a job that is done has status
  -- done, or skipped after a dry run. Nothing is said of a job that was cancelled, or if the
  -- iteration raises.
  pub process-Settled : (s : State) → Settled w job c (process w job c s)
  unfolding process transition_to_skipped
  process-Settled s =
      if-Settled w job c (is_at job.last_migrated_sha job.target_sha) _ _
        (refl, update_job-each _ job.id (set_skipped w.tx_now) s.db (λ j. (refl, refl)))
        (with_window-Settled s _ refl)
