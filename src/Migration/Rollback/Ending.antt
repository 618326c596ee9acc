-- ===== src/Migration/Rollback/Ending.antt =====
-- How the command line of infra/runners/migration_runner/rollback.py ends, and what it has written.
use odoo_custom.Prelude.{
  ℕ, ◌≡◌, ◌≢◌, ◌⊎◌, refl, subst, inl, inr, Bool, not, List, [], ◌∷◌, Option, none, some, arith,
  Bool-cases, Option-cases, if-holds,
}
use odoo_custom.Prelude.Text.{Text}
use odoo_custom.Migration.Schema.{Tenant, Db, JobRow}
use odoo_custom.Migration.Store.{update_tenant, claim_next_job, find_tenant}
use odoo_custom.Migration.Store.Queue.{update_job-unclaimed}
use odoo_custom.Migration.Snapshot.{is_empty}
use odoo_custom.Migration.Rollback.{
  RollbackPlan, Env, Command, ok, snapshot_missing, restore_failed, Ended, status, rollback_error,
  crash, Outside, run, State, find_job, plan_of, lookup_plan, finalize_ok, set_rolled_back,
  set_version, exits, Done, commit_ok, after_run, with_plan, cli,
}

plan_of_job :
    (env : Env) (job_id sha : ℕ) (o : Option Text) (t : Option Tenant) {plan : RollbackPlan}
    → plan_of env job_id sha o t ≡ some plan
    → plan.job_id ≡ job_id
plan_of_job env job_id sha none t e = absurd (cc)
plan_of_job env job_id sha (some id) none e = absurd (cc)
plan_of_job env job_id sha (some id) (some t) {plan} e = elim (Bool-cases (is_empty id)) [
  | inl empty ↦ absurd (ground (arith, empty))
  | inr full ↦ ground (arith, full, e)
]

lookup_plan_job :
    (env : Env) (job_id sha : ℕ) (db : Db) {plan : RollbackPlan}
    → lookup_plan env job_id sha db ≡ some plan
    → plan.job_id ≡ job_id
unfolding lookup_plan
lookup_plan_job env job_id sha db {plan} e = elim (Option-cases (find_job job_id db)) [
  | inl nothing ↦ absurd (ground (arith, nothing))
  | inr (j, found) ↦
      plan_of_job env job_id sha j.snapshot_id (find_tenant j.tenant_id db.tenants) {plan = plan}
        (rw (found, lookup_plan) at e)
]

module _ (env : Env) (out : Outside) (now : ℕ) where
  -- The other sessions have committed, and nothing else.
  abbrev pub meanwhile : State → State
  meanwhile s = record s { db = out.others s.db }

  -- Exit code 0 comes after a run that was ok, and then the version of the tenant, the job and the
  -- audit event are written together; otherwise nothing is written.
  abbrev pub Ends : ℕ → ℕ → State → Done → Type 0
  Ends job_id sha s done =
      ((done.exit ≡ exits 0)
        × (plan : RollbackPlan) × (lookup_plan env job_id sha s.db ≡ some plan)
        × (run env out plan ≡ (status ok, done.commands))
        × (done.state ≡ finalize_ok env now plan (meanwhile s)))
      ⊎ ((done.exit ≢ exits 0) × ((done.state ≡ s) ⊎ (done.state ≡ meanwhile s)))

  after_run-Ends :
      (job_id sha : ℕ) (s : State) (plan : RollbackPlan) (r : Ended × List Command)
      → lookup_plan env job_id sha s.db ≡ some plan
      → run env out plan ≡ r
      → Ends job_id sha s (after_run env out now plan r (meanwhile s))
  unfolding after_run commit_ok
  after_run-Ends job_id sha s plan (status snapshot_missing, commands) found ran =
      inr ((λ e. absurd (ground arith)), inr refl)
  after_run-Ends job_id sha s plan (status restore_failed, commands) found ran =
      inr ((λ e. absurd (ground arith)), inr refl)
  after_run-Ends job_id sha s plan (status ok, commands) found ran =
      if-holds (Ends job_id sha s) out.can_commit _ _
        (λ commits. inl (refl, plan, found, ran, refl))
        (λ fails. inr ((λ e. absurd (cc)), inr refl))
  after_run-Ends job_id sha s plan (rollback_error, commands) found ran =
      inr ((λ e. absurd (cc)), inr refl)
  after_run-Ends job_id sha s plan (crash, commands) found ran = inr ((λ e. absurd (cc)), inr refl)

  with_plan-Ends :
      (job_id sha : ℕ) (s : State) (o : Option RollbackPlan)
      → lookup_plan env job_id sha s.db ≡ o
      → Ends job_id sha s (with_plan env out now o s)
  unfolding with_plan
  with_plan-Ends job_id sha s none found = inr ((λ e. absurd (ground arith)), inl refl)
  with_plan-Ends job_id sha s (some plan) found =
      after_run-Ends job_id sha s plan (run env out plan) found refl

  pub cli-Ends :
      (job_id sha : ℕ) (s : State) → Ends job_id sha s (cli env out now (job_id ∷ sha ∷ []) s)
  unfolding cli
  cli-Ends job_id sha s =
      if-holds (Ends job_id sha s) (not env.has_dsn) _ _
        (λ unset. inr ((λ e. absurd (ground arith)), inl refl))
        (λ set.
          if-holds (Ends job_id sha s) (not out.can_connect) _ _
            (λ cut. inr ((λ e. absurd (cc)), inl refl))
            (λ connected. with_plan-Ends job_id sha s (lookup_plan env job_id sha s.db) refl))

  -- Once the command line has exited with 0, no process claims the job from the database that it left.
  pub claim-cli :
      (job_id sha : ℕ) (s : State) (host : Text) (time : ℕ) (locked : ℕ → Bool) {row : JobRow}
      {db' : Db}
      → (cli env out now (job_id ∷ sha ∷ []) s).exit ≡ exits 0
      → claim_next_job host time locked (cli env out now (job_id ∷ sha ∷ []) s).state.db
        ≡ (some row, db')
      → row.id ≢ job_id
  unfolding finalize_ok
  claim-cli job_id sha s host time locked {row} {db'} zero e = elim (cli-Ends job_id sha s) [
    | inr (other, _) ↦ absurd (other zero)
    | inl (_, plan, found, ran, is) ↦
        let db =
          update_tenant plan.tenant_id (set_version now plan.previous_sha) (out.others s.db) in
        let e' =
          subst (λ (t : State). claim_next_job host time locked t.db ≡ (some row, db')) is e in
        subst (λ k. row.id ≢ k) (lookup_plan_job env job_id sha s.db found)
          (update_job-unclaimed host time locked db plan.job_id (set_rolled_back env now plan)
            (λ j t c. elim c.0 [ inl queued ↦ cc | inr r ↦ let b = r.0 in cc ]) e')
  ]
