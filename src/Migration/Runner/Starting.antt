-- ===== src/Migration/Runner/Starting.antt =====
-- When an iteration of infra/runners/migration_runner/runner.py starts Odoo, and on which database.
use odoo_custom.Prelude.{
  ℕ, ◌≡◌, ◌≢◌, ◌⊎◌, refl, inl, inr, Bool, true, false, List, [], ◌∷◌, Option, none, some, arith,
  Bool-cases, if-holds,
}
use odoo_custom.Prelude.Text.{Text}
use odoo_custom.Migration.Schema.{JobRow}
use odoo_custom.Migration.Heartbeat.{Watched}
use odoo_custom.Migration.Window.{Calendar, WindowEvaluator, is_open, next_open}
use odoo_custom.Migration.Runner.Events.{
  World, RunStatus, done, State, Turn, SnapshotOutcome, taken, snapshot_error, snapshot_crash,
  Spawn, file_not_found, started,
}
use odoo_custom.Migration.Runner.Parts.{
  clone_name, has_name, make_dryrun_clone, create_clone, Ended,
}
use odoo_custom.Migration.Runner.Iteration.{
  process, is_at, record_exit, conclude, spawned, run_on_clone, run_odoo, snapshotted, block,
  in_window, with_window, default_window,
}

module _ (w : World) (job : JobRow) where
  record_exit-odoo_on :
      (target : Text) (ended : Ended) (s : State) (status : RunStatus)
      → (record_exit w job target ended s status).odoo_on ≡ target ∷ []
  unfolding record_exit
  record_exit-odoo_on target ended s done = refl
  record_exit-odoo_on target ended s _ = refl

  conclude-odoo_on :
      (target : Text) (ended : Ended) (seen : Watched) (s : State)
      → (conclude w job target ended seen s).odoo_on ≡ target ∷ []
  unfolding conclude
  conclude-odoo_on target ended seen s =
      if-holds (λ (t : Turn). t.odoo_on ≡ target ∷ []) seen.observed_cancel _ _ (λ _. refl)
        (λ _.
          if-holds (λ (t : Turn). t.odoo_on ≡ target ∷ []) ended.timed_out _ _ (λ _. refl)
            (λ _. record_exit-odoo_on target ended s _))

  spawned-odoo_on :
      (target : Text) (s : State) (x : Spawn)
      → ((spawned w job target s x).odoo_on ≡ [])
        ⊎ ((spawned w job target s x).odoo_on ≡ target ∷ [])
  unfolding spawned
  spawned-odoo_on target s (file_not_found message) = inl refl
  spawned-odoo_on target s (started p) = inr (conclude-odoo_on target _ _ _)

  -- Odoo runs on the tenant's own database, or, for a dry run, on a clone under a name that no
  -- database had.
  abbrev pub RunsOn : State → List Text → Type 0
  RunsOn s on =
      (job.migration_dry_run ≡ false) × (on ≡ job.tenant_db_name ∷ [])
      ⊎ (job.migration_dry_run ≡ true)
        × (on ≡ clone_name job ∷ [])
        × (has_name (clone_name job) s.databases ≡ false)

  made_clone-new :
      (s s' : State)
      → make_dryrun_clone w job s ≡ some s'
      → has_name (clone_name job) s.databases ≡ false
  unfolding make_dryrun_clone create_clone
  made_clone-new s s' made = elim (Bool-cases (has_name (clone_name job) s.databases)) [
    | inl there ↦ absurd (ground (arith, there))
    | inr new ↦ new
  ]

  abbrev StartsIn : State → Turn → Type 0
  StartsIn s t = (t.odoo_on ≡ []) ⊎ RunsOn s t.odoo_on

  run_on_clone-StartsIn :
      (s : State) (o : Option State)
      → make_dryrun_clone w job s ≡ o
      → job.migration_dry_run ≡ true
      → StartsIn s (run_on_clone w job s o)
  unfolding run_on_clone
  run_on_clone-StartsIn s none made dry = inl refl
  run_on_clone-StartsIn s (some s') made dry = elim (spawned-odoo_on (clone_name job) s' w.spawn) [
    | inl idle_turn ↦ inl idle_turn
    | inr on ↦ inr (inr (dry, on, made_clone-new s s' made))
  ]

  run_odoo-StartsIn : (s : State) → StartsIn s (run_odoo w job s)
  unfolding run_odoo
  run_odoo-StartsIn s =
      if-holds (StartsIn s) job.migration_dry_run _ _ (λ dry. run_on_clone-StartsIn s _ refl dry)
        (λ real. elim (spawned-odoo_on job.tenant_db_name s w.spawn) [
          | inl idle_turn ↦ inl idle_turn
          | inr on ↦ inr (inl (real, on))
        ])

  -- What an iteration has checked before it starts Odoo.
  abbrev pub Allows : Calendar → State → Turn → Type 0
  Allows c s t =
      (job.last_migrated_sha ≢ some job.target_sha)
      × ((e : WindowEvaluator) × (default_window w job c ≡ some e)
          × (is_open c e w.clock ≡ some true))
      × ((snapshot_id : Text) × (w.snapshot ≡ taken snapshot_id))
      × RunsOn s t.odoo_on

  abbrev Guards : Calendar → State → Turn → Type 0
  Guards c s t = (t.odoo_on ≡ []) ⊎ Allows c s t

  snapshotted-StartsIn :
      (s : State) (x : SnapshotOutcome)
      → w.snapshot ≡ x
      → ((snapshotted w job s x).odoo_on ≡ [])
        ⊎ (((snapshot_id : Text) × (w.snapshot ≡ taken snapshot_id))
            × RunsOn s (snapshotted w job s x).odoo_on)
  unfolding snapshotted
  snapshotted-StartsIn s (taken snapshot_id) is = elim (run_odoo-StartsIn _) [
    | inl idle_turn ↦ inl idle_turn
    | inr on ↦ inr ((snapshot_id, is), on)
  ]
  snapshotted-StartsIn s (snapshot_error message) is = inl refl
  snapshotted-StartsIn s snapshot_crash is = inl refl

  module _ (c : Calendar) (s : State) (other : job.last_migrated_sha ≢ some job.target_sha) where
    in_window-Guards :
        (e : WindowEvaluator) (o : Option Bool)
        → default_window w job c ≡ some e
        → is_open c e w.clock ≡ o
        → Guards c s (in_window w job c e s o)
    unfolding in_window
    in_window-Guards e none made is = inl refl
    in_window-Guards e (some false) made is = inl (blocked-odoo_on (next_open c e w.clock))
      where
        blocked-odoo_on : (o : Option ℕ) → (block w job s o).odoo_on ≡ []
        blocked-odoo_on none = unfold block in refl
        blocked-odoo_on (some u) = unfold block in refl
    in_window-Guards e (some true) made is = elim (snapshotted-StartsIn s w.snapshot refl) [
      | inl idle_turn ↦ inl idle_turn
      | inr r ↦ inr (other, (e, made, is), r.0, r.1)
    ]

    with_window-Guards :
        (o : Option WindowEvaluator)
        → default_window w job c ≡ o
        → Guards c s (with_window w job c s o)
    unfolding with_window
    with_window-Guards none made = inl refl
    with_window-Guards (some e) made = in_window-Guards e _ made refl

  is_at-ne : (last : Option ℕ) (sha : ℕ) → is_at last sha ≡ false → last ≢ some sha
  is_at-ne none sha h e = cc
  is_at-ne (some x) sha h e = ground arith

  -- An iteration starts Odoo at most once, and only for a tenant that is not yet at the target, in
  -- an open maintenance window and after a snapshot was taken; it starts it on the tenant's
  -- database, or, for a dry run, on a clone whose name no database had.
  pub process-Guards :
      (c : Calendar) (s : State)
      → ((process w job c s).odoo_on ≡ []) ⊎ Allows c s (process w job c s)
  unfolding process
  process-Guards c s =
      if-holds (Guards c s) (is_at job.last_migrated_sha job.target_sha) _ _ (λ _. inl refl)
        (λ other. with_window-Guards c s (is_at-ne _ _ other) _ refl)
