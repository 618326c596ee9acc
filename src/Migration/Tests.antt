-- ===== src/Migration/Tests.antt =====
-- The migration runner, infra/runners/migration_runner, at small inputs.
use odoo_custom.Prelude.{
  ◌+◌, ◌*◌, ◌≤◌, ◌<◌, ◌≡◌, ◌≢◌, ◌⊎◌, ◌↔◌, refl, true, false, [], ◌∷◌, none, some, All, Memᴰ, find?,
  update_where,
}
use odoo_custom.Prelude.Int.{pos, negsuc}
use odoo_custom.Prelude.Text.{codes, show_ℤ}
use odoo_custom.Migration.Store.{
  second, claim_next_job, earliest, candidates, is_claimable, comes_before, update_tenant,
  finalize_failed, as_failed, job_row, update_job, write_snapshot_id, finalize_done,
  retry_transient, transition_to_skipped, transition_to_blocked, record_heartbeat,
}
use odoo_custom.Migration.Store.Queue.{
  Claims, claim_next_job-Claims, claim-claim-ne, claim-finalize_failed,
}
use odoo_custom.Migration.Store.Claim.{IsOpen}
use odoo_custom.Migration.Store.Drain.{claims, claims-IsOpen}
use odoo_custom.Migration.Window.{make_evaluator, is_open, next_open}
use odoo_custom.Migration.Heartbeat
use odoo_custom.Migration.Heartbeat.{Beat}
use odoo_custom.Migration.Heartbeat.Watch.{Observed, run-Observed}
use odoo_custom.Migration.Runner.Events.{done, failed, retry}
use odoo_custom.Migration.Runner.Parts.{
  classify_exit, compute_backoff_seconds, communicate, excerpt, tail_of, make_dryrun_clone,
  create_clone, has_name,
}
use odoo_custom.Migration.Runner.Iteration.{
  process, run_once, run_forever, with_window, in_window, block, snapshotted, run_odoo, spawned,
  conclude, record_exit, succeed, run_on_clone,
}
use odoo_custom.Migration.Runner.Settling.{Settled, process-Settled}
use odoo_custom.Migration.Runner.Retaking.{claim-process-ne}
use odoo_custom.Migration.Runner.Starting.{Allows, process-Guards}
use odoo_custom.Migration.Runner.Versions.{IsUndisturbed, Moves, process-Moves}
use odoo_custom.Migration.Runner.Retries.{classify_exit_iff}
use odoo_custom.Migration.Samples.{
  day, midnights, midnights-IsForward, tenant, job, queue, host, free, first_row, first_db,
  succeeding, killed, reported, uncloneable, start, nightly, beats, closed,
}

-- What a test of the claim computes with.
claiming : Unit {0}
unfolding claim_next_job earliest candidates find? is_claimable comes_before update_job update_where
    update_tenant finalize_failed
claiming = tt

claim-queue : claim_next_job host 50 free (queue false) ≡ (some (first_row false), first_db false)
unfolding claiming
claim-queue = refl

claim_next_job-Claims_example :
    Claims host 50 free (queue false) (claim_next_job host 50 free (queue false))
claim_next_job-Claims_example = claim_next_job-Claims host 50 free (queue false)

claim-claim-ne_example : 7 ≢ (first_row false).id
unfolding claiming
claim-claim-ne_example =
    claim-claim-ne host host 50 50 free free (queue false) {row = first_row false}
      {row' = job_row (job 7 1 20 false) (tenant 1)} refl refl

claim-finalize_failed_example : (job 7 1 20 false).tenant_id ≢ 2
unfolding claiming
claim-finalize_failed_example =
    claim-finalize_failed host 70 60 as_failed (codes "exit=1") free (queue false) 8 2
      {row = job_row (job 7 1 20 false) (tenant 1)} refl

claims-IsOpen_example :
    All
      (λ k.
        IsOpen 50 free (queue false).tenants k → Memᴰ k.id (claims host 50 free 2 (queue false)).0)
      (queue false).jobs
    × (claim_next_job host 50 free (claims host 50 free 2 (queue false)).1
        ≡ (none, (claims host 50 free 2 (queue false)).1))
claims-IsOpen_example = claims-IsOpen host 50 free (queue false)

-- What a test of an iteration computes with.
iterating : Unit {0}
unfolding claiming process with_window make_evaluator in_window is_open block next_open snapshotted
    write_snapshot_id run_odoo spawned Heartbeat.run communicate conclude record_exit classify_exit
    succeed finalize_done retry_transient transition_to_skipped transition_to_blocked
    compute_backoff_seconds excerpt tail_of show_ℤ run_on_clone make_dryrun_clone create_clone
    has_name
iterating = tt

-- A run that succeeds, one that is retried, one whose process was killed from outside, and one whose
-- clone cannot be created.
process-outcomes :
    ((process succeeding (first_row false) midnights (start false)).outcome ≡ some (some 8, done))
    × ((process reported (first_row false) midnights (start false)).outcome ≡ some (some 8, retry))
    × ((process killed (first_row false) midnights (start false)).outcome ≡ some (some 8, failed))
    × ((process uncloneable (first_row true) midnights (start true)).outcome ≡ none)
unfolding iterating
process-outcomes = (refl, refl, refl, refl)

process-Settled_example :
    Settled succeeding
      (first_row false)
      midnights
      (process succeeding (first_row false) midnights (start false))
process-Settled_example =
    process-Settled succeeding (first_row false) midnights midnights-IsForward (start false)

-- After the job is done the claim takes the other one.
claim-process-ne_example : (job 7 1 20 false).id ≢ 8
unfolding iterating
claim-process-ne_example =
    claim-process-ne midnights succeeding (first_row false) (start false) done host 70 free
      {row = job_row (job 7 1 20 false) (tenant 1)} midnights-IsForward refl tt refl

process-Guards_example :
    ((process succeeding (first_row false) midnights (start false)).odoo_on ≡ [])
    ⊎ Allows succeeding
        (first_row false)
        midnights
        (start false)
        (process succeeding (first_row false) midnights (start false))
process-Guards_example = process-Guards succeeding (first_row false) midnights (start false)

succeeding-IsUndisturbed : IsUndisturbed succeeding
succeeding-IsUndisturbed = record { others_keep = λ p d. refl; beats_keep = tt }

process-Moves_example :
    Moves succeeding
      (first_row false)
      (first_db false)
      (process succeeding (first_row false) midnights (start false))
process-Moves_example =
    process-Moves succeeding (first_row false) succeeding-IsUndisturbed midnights (start false)

classify_exit_iff_example :
    ((classify_exit (negsuc 14) 0 3 ≡ done) ↔ (negsuc 14 ≡ pos 0))
    × ((classify_exit (negsuc 14) 0 3 ≡ retry)
        ↔ ((0 + 1 < 3) × ((negsuc 14 ≡ pos 143) ⊎ (negsuc 14 ≡ pos 137))))
    × ((classify_exit (negsuc 14) 0 3 ≡ failed)
        ↔ ((negsuc 14 ≢ pos 0) × ((3 ≤ 0 + 1) ⊎ ((negsuc 14 ≢ pos 143) × (negsuc 14 ≢ pos 137)))))
classify_exit_iff_example = classify_exit_iff (negsuc 14) 0 3

is_open-nightly :
    (is_open midnights nightly (day + 1800 * second) ≡ some true)
    × (is_open midnights nightly (day + 7200 * second) ≡ some false)
    × (next_open midnights nightly (day + 7200 * second) ≡ some (2 * day))
unfolding is_open next_open
is_open-nightly = (refl, refl, refl)

run-beats : (Heartbeat.run 8 (some 99) beats (first_db false)).0.terminated ≡ 99 ∷ []
unfolding iterating record_heartbeat
run-beats = refl

run-Observed_example : Observed 8 99 (Heartbeat.run 8 (some 99) beats (first_db false))
run-Observed_example = run-Observed 8 99 beats (first_db false)

run_forever-slept :
    (run_forever midnights
      (succeeding ∷ closed ∷ [])
      (record { db = queue false; databases = [] })).0
    ≡ false ∷ true ∷ []
unfolding iterating run_forever run_once
run_forever-slept = refl
