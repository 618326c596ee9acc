-- ===== src/Migration/Runner/Versions.antt =====
-- Which iterations of infra/runners/migration_runner/runner.py move a tenant's
-- `last_migrated_sha`.
use odoo_custom.Prelude.{
  ℕ, ◌≡◌, ◌⊎◌, refl, subst, ◌∙◌, inl, inr, Bool, false, List, [], ◌∷◌, map, Option, some, arith,
  All, All-map, All-of-each, All-update_where, Bool-cases, if-holds, update_where,
}
use odoo_custom.Prelude.Text.{Text}
use odoo_custom.Migration.Schema.{Job, Tenant, Db, JobRow}
use odoo_custom.Migration.Store.{
  update_job, update_tenant, set_heartbeat, set_sha, set_paused, Failure, finalize_failed,
  finalize_done, transition_to_skipped, transition_to_blocked, retry_transient, write_snapshot_id,
}
use odoo_custom.Migration.Heartbeat
use odoo_custom.Migration.Heartbeat.{Beat, Watched}
use odoo_custom.Migration.Heartbeat.Watch.{run-keeps}
use odoo_custom.Migration.Window.{Calendar}
use odoo_custom.Migration.Runner.Events.{
  World, RunStatus, done, retry, State, Turn, Spawn, Process, file_not_found, started, Point,
  after_run, after_snapshot,
}
use odoo_custom.Migration.Runner.Parts.{
  make_dryrun_clone, create_clone, drop_dryrun_clone, communicate, Ended,
}
use odoo_custom.Migration.Runner.Iteration.{process, succeed, record_exit, conclude}
use odoo_custom.Migration.Runner.Rule.{Rule, after_heartbeat, with_snapshot, process_ind}

abbrev pub versions : Db → List (Option ℕ)
versions db = map (λ (t : Tenant). t.last_migrated_sha) db.tenants

-- What the other sessions commit during the iteration moves no tenant's version.
abbrev pub KeepsVersions : (Db → Db) → Type 0
KeepsVersions f = (d : Db) → versions (f d) ≡ versions d

abbrev pub BeatsKeep : Spawn → Type 0
BeatsKeep (file_not_found message) = Unit
BeatsKeep (started p) = All (λ (b : Beat). KeepsVersions b.others) p.beats

pub record IsUndisturbed (w : World) : Type 0 where
  pub others_keep : (p : Point) → KeepsVersions (w.others p)
  pub beats_keep : BeatsKeep w.spawn

map-update_where :
    (p : Tenant → Bool) (f : Tenant → Tenant) (ts : List Tenant)
    → ((t : Tenant) → (f t).last_migrated_sha ≡ t.last_migrated_sha)
    → map (λ (t : Tenant). t.last_migrated_sha) (update_where p f ts)
      ≡ map (λ (t : Tenant). t.last_migrated_sha) ts
unfolding update_where
map-update_where p f [] h = refl
map-update_where p f (t ∷ ts) h = ground (arith, h t, map-update_where p f ts h)

versions-finalize_failed :
    (now k tid : ℕ) (status : Failure) (text : Text) (db : Db)
    → versions (finalize_failed now k tid status text db) ≡ versions db
unfolding finalize_failed update_tenant update_job
versions-finalize_failed now k tid status text db =
    map-update_where _ (set_paused now) db.tenants (λ t. refl)

versions-update_job :
    (k : ℕ) (set : Job → Job) (db : Db) → versions (update_job k set db) ≡ versions db
unfolding update_job
versions-update_job k set db = refl

versions-run :
    (k pid : ℕ) (bs : List Beat) (db : Db)
    → All (λ (b : Beat). KeepsVersions b.others) bs
    → versions (Heartbeat.run k (some pid) bs db).1 ≡ versions db
versions-run k pid bs db keep =
    run-keeps (λ d. versions d ≡ versions db) k (some pid) bs db
      (All-map _ _ bs (λ b h d e. h d ∙ e) keep)
      (λ now d e. versions-update_job k (set_heartbeat now) d ∙ e) refl

finalize_done-tenants :
    (now k tid sha : ℕ) (db : Db)
    → All
        (λ (t : Tenant). t.id ≡ tid → t.last_migrated_sha ≡ some sha)
        (finalize_done now k tid sha db).tenants
unfolding finalize_done update_tenant update_job
finalize_done-tenants now k tid sha db =
    All-update_where (λ _. Unit {0}) _ _ (set_sha now sha) db.tenants (λ t e _ same. refl)
      (λ t e _ same. absurd (ground arith)) (All-of-each _ db.tenants (λ _. tt))

module _ (w : World) (job : JobRow) where
  -- The iteration has moved the tenant to the target, at the end of a run that is no dry run, or it
  -- has moved no tenant.
  abbrev pub Moves : Db → Turn → Type 0
  Moves before t =
      (t.outcome ≡ some (some job.id, done))
        × (job.migration_dry_run ≡ false)
        × All (λ (u : Tenant). u.id ≡ job.tenant_id → u.last_migrated_sha ≡ some job.target_sha)
            t.state.db.tenants
      ⊎ (versions t.state.db ≡ versions before)

  record_exit-Moves :
      (target : Text) (ended : Ended) (s : State) (status : RunStatus)
      → Moves s.db (record_exit w job target ended s status)
  unfolding record_exit succeed transition_to_skipped retry_transient drop_dryrun_clone
  record_exit-Moves target ended s done = elim (Bool-cases job.migration_dry_run) [
    | inl dry ↦ elim (Bool-cases w.can_drop_database) [
      | inl dropped ↦ inr (rw (dry, dropped) (versions-update_job _ _ s.db))
      | inr left ↦ inr (rw (dry, left) (versions-update_job _ _ s.db))
    ]
    | inr real ↦
        inl (refl, real, rw real (finalize_done-tenants w.tx_now job.id job.tenant_id _ s.db))
  ]
  record_exit-Moves target ended s retry = inr (versions-update_job _ _ s.db)
  record_exit-Moves target ended s _ = inr (versions-finalize_failed _ _ _ _ _ s.db)

  conclude-Moves :
      (target : Text) (ended : Ended) (seen : Watched) (s : State)
      → Moves s.db (conclude w job target ended seen s)
  unfolding conclude
  conclude-Moves target ended seen s =
      if-holds (Moves s.db) seen.observed_cancel _ _ (λ _. inr refl)
        (λ _.
          if-holds (Moves s.db) ended.timed_out _ _
            (λ _. inr (versions-finalize_failed _ _ _ _ _ s.db))
            (λ _. record_exit-Moves target ended s _))

  Moves-since : (db db' : Db) (t : Turn) → versions db' ≡ versions db → Moves db' t → Moves db t
  Moves-since db db' t same m = elim m [ inl moved ↦ inl moved | inr kept ↦ inr (kept ∙ same) ]

  made-versions :
      (s s' : State) → make_dryrun_clone w job s ≡ some s' → versions s'.db ≡ versions s.db
  unfolding make_dryrun_clone create_clone
  made-versions s s' made = ground arith

  beats_kept : (p : Process) → IsUndisturbed w → w.spawn ≡ started p → BeatsKeep (started p)
  beats_kept p quiet is = subst BeatsKeep is quiet.beats_keep

  Moves-rule : IsUndisturbed w → Rule w job (λ s t. Moves s.db t)
  unfolding transition_to_skipped transition_to_blocked write_snapshot_id
  Moves-rule quiet = record {
    skip = λ s. inr (versions-update_job _ _ s.db);
    wait = λ s until. inr (versions-update_job _ _ s.db);
    crash = λ s. inr refl;
    fail = λ s text. inr (versions-finalize_failed _ _ _ _ _ s.db);
    run = λ target p s is.
        let (seen, db) = Heartbeat.run job.id (some p.pid) p.beats s.db in
        let s' = after_heartbeat w job p s in
        Moves-since s.db s'.db (conclude w job target (communicate p) seen s')
          (quiet.others_keep after_run db
            ∙ versions-run job.id p.pid p.beats s.db (beats_kept p quiet is))
          (conclude-Moves target (communicate p) seen s');
    cloned = λ s s' t made. Moves-since s.db s'.db t (made-versions s s' made);
    saved = λ snapshot_id s t.
        Moves-since s.db (with_snapshot w job snapshot_id s).db t
          (quiet.others_keep after_snapshot _ ∙ versions-update_job job.id _ s.db);
  }

  -- If no other session moves a version meanwhile, an iteration moves no tenant's version unless
  -- it returns done and is no dry run, and then the job's tenant is at the job's target.
  pub process-Moves :
      (quiet : IsUndisturbed w) (c : Calendar) (s : State) → Moves s.db (process w job c s)
  process-Moves quiet = process_ind w job (Moves-rule quiet)
