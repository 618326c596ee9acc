-- ===== src/Migration/Rollback/Outcomes.antt =====
-- What the command line of infra/runners/migration_runner/rollback.py leaves behind.
use odoo_custom.Prelude.{
  ℕ, suc, ◌≤◌, ◌≡◌, ◌⊎◌, refl, inl, inr, true, false, not, ◌&&◌, List, [], ◌∷◌, ◌++◌, arith, All,
  Bool-cases, if-holds,
}
use odoo_custom.Prelude.Text.{Text, codes}
use odoo_custom.Prelude.Split.{starts_with, contains}
use odoo_custom.Migration.Snapshot.{Ran, printed, failed, timed_out, missing, raised, is_empty}
use odoo_custom.Migration.Rollback.{
  RollbackPlan, Env, ssh_argv, words, Command, info, restore, ok, Ended, status, Outside,
  is_dry_run, restored, rollback_via_pgrestore, is_sentinel, restore_cluster, with_info, run,
}

module _ (env : Env) (out : Outside) where
  -- The restore of the stanza by pgbackrest, with the options that say from what.
  abbrev pub pgbackrest : List Text → List Text
  pgbackrest options = ssh_argv env (
      codes "gosu postgres pgbackrest "
      ++ words (
          (codes "--stanza=" ++ env.stanza)
          ∷ codes "--delta"
          ∷ (options ++ (codes "restore" ∷ []))))

  -- The restore is of the database of the tenant alone, from its dump; or of the whole cluster, from a
  -- backup that the listing names, or to a target time for a job without a snapshot.
  abbrev pub Aims : RollbackPlan → List Text → Type 0
  Aims plan argv =
      ((starts_with plan.snapshot_id (codes "pgdump/") ≡ true)
        × (argv
            ≡ ssh_argv env (
                codes "/usr/local/bin/pgrestore-snapshot.sh "
                ++ (plan.snapshot_id ++ (codes " " ++ plan.tenant_db_name)))))
      ⊎ ((starts_with plan.snapshot_id (codes "pgdump/") ≡ false)
          × (((starts_with plan.snapshot_id (codes "no-snapshot-") ≡ true)
                × (is_empty env.target_time ≡ false)
                × (argv
                    ≡ pgbackrest
                        (codes "--type=time" ∷ (codes "--target=" ++ env.target_time) ∷ [])))
              ⊎ ((starts_with plan.snapshot_id (codes "no-snapshot-") ≡ false)
                  × (argv ≡ pgbackrest (codes "--set" ∷ plan.snapshot_id ∷ []))
                  × (stdout : Text) × (out.info ≡ printed stdout)
                  × (contains plan.snapshot_id stdout ≡ true))))

  -- Nothing is restored by the command, or it aims right and this is no drill.
  abbrev pub IsAimed : RollbackPlan → Command → Type 0
  IsAimed plan (info argv) = Unit
  IsAimed plan (restore argv) = (is_dry_run env ≡ false) × Aims plan argv

  -- How many commands restore.
  abbrev pub restores : List Command → ℕ
  restores [] = 0
  restores (info argv ∷ cs) = restores cs
  restores (restore argv ∷ cs) = suc (restores cs)

  -- At most one command restores, and it is aimed right; and the run ends as ok only after it has
  -- succeeded, or in a drill.
  abbrev pub IsCareful : RollbackPlan → Ended × List Command → Type 0
  IsCareful plan (ended, commands) =
      All (IsAimed plan) commands
      × (restores commands ≤ 1)
      × (ended ≡ status ok
          → (is_dry_run env ≡ true)
            ⊎ ((restores commands ≡ 1) × (stdout : Text) × (out.restore ≡ printed stdout)))

  restored_ok : (r : Ran) → restored r ≡ status ok → (stdout : Text) × (r ≡ printed stdout)
  restored_ok (printed stdout) e = (stdout, refl)
  restored_ok failed e = absurd (cc)
  restored_ok timed_out e = absurd (cc)
  restored_ok missing e = absurd (cc)
  restored_ok raised e = absurd (cc)

  pgrestore-IsCareful :
      (plan : RollbackPlan)
      → starts_with plan.snapshot_id (codes "pgdump/") ≡ true
      → IsCareful plan (rollback_via_pgrestore env out plan)
  unfolding rollback_via_pgrestore
  pgrestore-IsCareful plan dump =
      if-holds (IsCareful plan) (is_dry_run env) _ _ (λ drill. (tt, omega arith, (λ e. inl drill)))
        (λ real. (
          ((real, inl (dump, refl)), tt),
          omega arith,
          (λ e. let r = restored_ok out.restore e in inr (refl, r.0, r.1)),
        ))

  restore_cluster-IsCareful :
      (plan : RollbackPlan) (stdout : Text)
      → starts_with plan.snapshot_id (codes "pgdump/") ≡ false
      → out.info ≡ printed stdout
      → ((is_sentinel plan ≡ true) × (is_empty env.target_time ≡ false))
        ⊎ ((is_sentinel plan ≡ false) × (contains plan.snapshot_id stdout ≡ true))
      → IsCareful plan (restore_cluster env out plan)
  unfolding restore_cluster
  restore_cluster-IsCareful plan stdout no_dump listed why =
      if-holds (IsCareful plan) (is_dry_run env) _ _
        (λ drill. ((tt, tt), omega arith, (λ e. inl drill)))
        (λ real. (
          (
            tt,
            (
              (
                real,
                inr (
                  no_dump,
                  elim why [
                    | inl timed ↦ inl (timed.0, timed.1, rw timed.0 refl)
                    | inr named ↦ inr (named.0, rw named.0 refl, stdout, listed, named.1)
                  ],
                ),
              ),
              tt,
            ),
          ),
          omega arith,
          (λ e. let r = restored_ok out.restore e in inr (refl, r.0, r.1)),
        ))

  with_info-IsCareful :
      (plan : RollbackPlan) (r : Ran)
      → starts_with plan.snapshot_id (codes "pgdump/") ≡ false
      → (is_sentinel plan && is_empty env.target_time) ≡ false
      → out.info ≡ r
      → IsCareful plan (with_info env out plan r)
  unfolding with_info
  with_info-IsCareful plan (printed stdout) no_dump timed listed =
      if-holds (IsCareful plan) (not (is_sentinel plan) && not (contains plan.snapshot_id stdout)) _
        _ (λ absent. ((tt, tt), omega arith, (λ e. absurd (cc))))
        (λ there.
          restore_cluster-IsCareful plan stdout no_dump listed
            (elim (Bool-cases (is_sentinel plan)) [
              | inl sentinel ↦ inl (sentinel, ground (arith, sentinel))
              | inr named ↦ inr (named, ground (arith, named))
            ]))
  with_info-IsCareful plan failed no_dump timed listed = ((tt, tt), omega arith, (λ e. absurd (cc)))
  with_info-IsCareful plan missing no_dump timed listed =
      ((tt, tt), omega arith, (λ e. absurd (cc)))
  with_info-IsCareful plan timed_out no_dump timed listed =
      ((tt, tt), omega arith, (λ e. absurd (cc)))
  with_info-IsCareful plan raised no_dump timed listed = ((tt, tt), omega arith, (λ e. absurd (cc)))

  -- A run restores at most once and never in a drill: by the script with the key of the dump and the
  -- database of the tenant where the snapshot is a dump, and else the cluster by pgbackrest, with --set
  -- and a snapshot that the listing of backups names, or with --type=time and the given target time for
  -- the stand-in of a snapshot. It reports success only in a drill or after
  -- that restore has succeeded.
  pub run-IsCareful : (plan : RollbackPlan) → IsCareful plan (run env out plan)
  unfolding run
  run-IsCareful plan =
      if-holds (IsCareful plan) (starts_with plan.snapshot_id (codes "pgdump/")) _ _
        (λ dump. pgrestore-IsCareful plan dump)
        (λ no_dump.
          if-holds (IsCareful plan) (is_sentinel plan && is_empty env.target_time) _ _
            (λ untimed. (tt, omega arith, (λ e. absurd (cc))))
            (λ timed. with_info-IsCareful plan out.info no_dump timed refl))
