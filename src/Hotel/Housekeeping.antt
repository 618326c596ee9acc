-- ===== src/Hotel/Housekeeping.antt =====
-- The methods of `pms.housekeeping.task`, custom-addons/goliatt_pms/models/pms_housekeeping.py, each
-- for one task. `now` is the time that `fields.Datetime.now()` gives, in seconds.
pub mod Turnover
use odoo_custom.Prelude.{
  ℕ, Bool, true, false, Option, none, some, ◌==◌, if◌then◌else◌, find?, update_where,
}
use odoo_custom.Prelude.Int.{pos, ◌-ℤ◌}
use odoo_custom.Hotel.Schema.{
  Floats, HousekeepingStatus, clean, dirty, cleaning, TaskState, in_progress, completed, failed,
  Room, Task, Hotel, missing_record, not_in_progress, not_completed, Result, ok, err, ◌>>=◌,
  or_raise, write_room,
}

abbrev pub is_in_progress : TaskState → Bool
is_in_progress in_progress = true
is_in_progress _ = false

abbrev pub is_completed : TaskState → Bool
is_completed completed = true
is_completed _ = false

abbrev pub set_housekeeping : HousekeepingStatus → Room → Room
set_housekeeping status room = record room { housekeeping_status = status }

-- `_compute_duration`: the seconds from the start to the end, negative ones too, divided by 60.
unfoldable pub duration : {A : Type 0} → Floats A → Task → A
duration F task = elim task.start_time [
  | none ↦ F.zero
  | some start ↦ elim task.end_time [
    | none ↦ F.zero
    | some stop ↦ F.div (F.of_ℤ (pos stop -ℤ pos start)) (F.of_ℕ 60)
  ]
]

module _ {A : Type 0} where
  abbrev pub find_task : ℕ → Hotel A → Option Task
  find_task id h = find? (λ (t : Task). t.id == id) h.tasks

  unfoldable pub write_task : ℕ → (Task → Task) → Hotel A → Hotel A
  write_task id set h = record h { tasks = update_where (λ (t : Task). t.id == id) set h.tasks }

  -- A method that writes the task, and then the status of its room.
  unfoldable pub write_both : Task → (Task → Task) → HousekeepingStatus → Hotel A → Hotel A
  write_both task set status h =
      write_room task.room_id (set_housekeeping status) (write_task task.id set h)

  unfoldable pub action_start : ℕ → ℕ → Hotel A → Result (Hotel A)
  action_start now id h = or_raise (find_task id h) missing_record >>= λ task.
      ok (write_both task (λ t. record t { state = in_progress; start_time = some now }) cleaning h)

  abbrev pub complete : ℕ → Task → Hotel A → Result (Hotel A)
  complete now task h =
      if is_in_progress task.state
      then ok (write_both task (λ t. record t { state = completed; end_time = some now }) clean h)
      else err not_in_progress

  unfoldable pub action_complete : ℕ → ℕ → Hotel A → Result (Hotel A)
  action_complete now id h =
      or_raise (find_task id h) missing_record >>= λ task. complete now task h

  abbrev pub inspect : Task → Hotel A → Result (Hotel A)
  inspect task h =
      if is_completed task.state
      then ok (
          write_both task (λ t. record t { state = TaskState.inspected })
            HousekeepingStatus.inspected h)
      else err not_completed

  unfoldable pub action_inspect : ℕ → Hotel A → Result (Hotel A)
  action_inspect id h = or_raise (find_task id h) missing_record >>= λ task. inspect task h

  unfoldable pub action_fail : ℕ → Hotel A → Result (Hotel A)
  action_fail id h = or_raise (find_task id h) missing_record >>= λ task.
      ok (write_both task (λ t. record t { state = failed }) dirty h)
