-- ===== src/Migration/Window.antt =====
-- The maintenance windows of infra/runners/migration_runner/window.py.
--
-- The tz database and the package croniter are the parameter `Calendar`. A local time is what
-- Python's `datetime` holds: the wall clock, in microseconds, and which of two equal wall clocks
-- is meant (`fold`). Two local times of one zone are subtracted by their wall clocks.
pub mod Opening
use odoo_custom.Prelude.{
  ℕ, ◌+◌, ◌*◌, ◌<◌, ◌≡◌, Bool, true, false, ◌&&◌, Option, none, some, ltb, leb, if◌then◌else◌,
}
use odoo_custom.Prelude.Text.{Text}
use odoo_custom.Migration.Store.{second}

pub record LocalTime : Type 0 where
  pub wall : ℕ
  pub fold : Bool

-- What window.py takes from zoneinfo and croniter.
pub record Calendar : Type 0 where
  pub is_valid_cron : Text → Bool
  pub is_valid_tz : Text → Bool
  pub to_local : Text → ℕ → LocalTime
  pub to_utc : Text → LocalTime → ℕ
  pub get_prev : (cron tz : Text) → LocalTime → LocalTime
  pub get_next : (cron tz : Text) → LocalTime → LocalTime

-- croniter's `get_next` returns a firing that comes after the time it starts from.
pub record IsForward (c : Calendar) : Type 0 where
  pub get_next_after :
      (cron tz : Text) (now : ℕ)
      → c.is_valid_cron cron ≡ true
      → now < c.to_utc tz (c.get_next cron tz (c.to_local tz now))

pub record WindowEvaluator : Type 0 where
  pub cron : Text
  pub tz : Text
  pub override_until : Option ℕ
  pub global_override : Bool

-- `TOLERANCE`, one hour.
abbrev pub tolerance : ℕ
tolerance = 3600 * second

-- `override_until is not None and override_until > now`
abbrev pub in_future : Option ℕ → ℕ → Bool
in_future none now = false
in_future (some t) now = ltb now t

-- `local_now + timedelta(seconds=1)`; Python's sum has fold 0.
abbrev pub probe : LocalTime → LocalTime
probe local_now = record { wall = local_now.wall + second; fold = false }

-- `delta >= timedelta(0) and delta <= TOLERANCE`
abbrev pub fired_recently : LocalTime → LocalTime → Bool
fired_recently prev local_now =
    leb prev.wall local_now.wall && leb local_now.wall (prev.wall + tolerance)

-- `min(candidates)` over a list that begins with the override, where that lies in the future.
abbrev pub earliest_opener : Option ℕ → ℕ → ℕ → ℕ
earliest_opener none now firing = firing
earliest_opener (some t) now firing =
    if ltb now t then (if leb t firing then t else firing) else firing

module _ (c : Calendar) where
  -- The constructor with `__post_init__`; `none` is its ValueError.
  unfoldable pub make_evaluator : Text → Text → Option ℕ → Bool → Option WindowEvaluator
  make_evaluator cron tz override_until global_override =
      if c.is_valid_cron cron
      then (if c.is_valid_tz tz
          then some (record {
            cron = cron;
            tz = tz;
            override_until = override_until;
            global_override = global_override;
          })
          else none)
      else none

  -- `none` is the ValueError for a cron expression that croniter refuses.
  unfoldable pub is_open : WindowEvaluator → ℕ → Option Bool
  is_open e now =
      if e.global_override
      then some true
      else if in_future e.override_until now
      then some true
      else (let local_now = c.to_local e.tz now in
          if c.is_valid_cron e.cron
          then some (fired_recently (c.get_prev e.cron e.tz (probe local_now)) local_now)
          else none)

  abbrev pub next_firing : WindowEvaluator → ℕ → ℕ
  next_firing e now = c.to_utc e.tz (c.get_next e.cron e.tz (c.to_local e.tz now))

  unfoldable pub next_open : WindowEvaluator → ℕ → Option ℕ
  next_open e now = elim (is_open e now) [
    | none ↦ none
    | some true ↦ some now
    | some false ↦
        if c.is_valid_cron e.cron
        then some (earliest_opener e.override_until now (next_firing e now))
        else none
  ]
