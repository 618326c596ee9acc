-- ===== src/Hotel/Housekeeping/Turnover.antt =====
-- The turnover of a room by a task of custom-addons/goliatt_pms/models/pms_housekeeping.py.
use odoo_custom.Prelude.{ℕ, ◌≡◌, refl, some, arith, ◌==◌, find?-update_where}
use odoo_custom.Prelude.Int.{pos, ◌-ℤ◌}
use odoo_custom.Hotel.Schema.{
  Floats, HousekeepingStatus, clean, cleaning, TaskState, in_progress, completed, Room, Task, Hotel,
  not_in_progress, not_completed, ok, err, find_room, write_room,
}
use odoo_custom.Hotel.Housekeeping.{
  set_housekeeping, duration, find_task, write_task, write_both, action_start, action_complete,
  action_inspect,
}

-- The task as it stands after each of the steps of a turnover.
abbrev pub begun : ℕ → Task → Task
begun t₁ task = record task { state = in_progress; start_time = some t₁ }

abbrev pub ended : ℕ → ℕ → Task → Task
ended t₁ t₂ task = record task { state = completed; start_time = some t₁; end_time = some t₂ }

module _ {A : Type 0} where
  -- Where the task and its room are, before or after a step.
  abbrev pub Stands : Task → Room → Hotel A → Type 0
  Stands task room h = (find_task task.id h ≡ some task) × (find_room task.room_id h ≡ some room)

  write_both-Stands :
      (task : Task) (room : Room) (set : Task → Task) (status : HousekeepingStatus) (h : Hotel A)
      → ((t : Task) → (set t).id ≡ t.id)
      → (set task).room_id ≡ task.room_id
      → Stands task room h
      → Stands (set task) (set_housekeeping status room) (write_both task set status h)
  unfolding write_both write_task write_room
  write_both-Stands task room set status h keep same stands =
      let task_found =
        find?-update_where (λ (t : Task). t.id == task.id) set h.tasks
          (λ y hit. ground (arith, keep y)) stands.0 in
      let room_found =
        find?-update_where (λ (r : Room). r.id == task.room_id) (set_housekeeping status) h.rooms
          (λ y hit. hit) stands.1 in
      (ground (arith, keep task, task_found), ground (arith, same, room_found))

  -- The turnover has run: its steps succeed one after the other, and the last leaves the room inspected
  -- and nothing else of it changed, and the task with the minutes from start to completion.
  abbrev pub TurnsOver : Floats A → ℕ → ℕ → Task → Room → Hotel A → Type 0
  TurnsOver F t₁ t₂ task room h =
      (h₁ : Hotel A) × (h₂ : Hotel A) × (h₃ : Hotel A) × (last : Task) × (action_start t₁ task.id h
        ≡ ok h₁)
      × (action_inspect task.id h₁ ≡ err not_completed)
      × (action_complete t₂ task.id h₁ ≡ ok h₂)
      × (action_complete t₂ task.id h₂ ≡ err not_in_progress)
      × (action_inspect task.id h₂ ≡ ok h₃)
      × (find_task task.id h₃ ≡ some last)
      × (last.state ≡ TaskState.inspected)
      × (duration F last ≡ F.div (F.of_ℤ (pos t₂ -ℤ pos t₁)) (F.of_ℕ 60))
      × (find_room task.room_id h₃ ≡ some (set_housekeeping HousekeepingStatus.inspected room))

  -- A task on a room can be started, then completed, then inspected; the inspection is refused before
  -- the completion, and a second completion is refused. The room ends up inspected, and the duration of
  -- the task is the seconds from its start to its completion, negative ones too, divided by 60.
  pub start-complete-inspect :
      (F : Floats A) (t₁ t₂ : ℕ) (task : Task) (room : Room) (h : Hotel A)
      → find_task task.id h ≡ some task
      → find_room task.room_id h ≡ some room
      → TurnsOver F t₁ t₂ task room h
  unfolding action_start action_complete action_inspect duration
  start-complete-inspect F t₁ t₂ task room h task_found room_found =
      let (f₁, r₁) =
        write_both-Stands task room (λ t. record t { state = in_progress; start_time = some t₁ })
          cleaning h (λ t. refl) refl (task_found, room_found) in
      let h₁ =
        write_both task (λ t. record t { state = in_progress; start_time = some t₁ }) cleaning h in
      let (f₂, r₂) =
        write_both-Stands (begun t₁ task) _
          (λ t. record t { state = completed; end_time = some t₂ }) clean h₁ (λ t. refl) refl
          (f₁, r₁) in
      let h₂ =
        write_both (begun t₁ task) (λ t. record t { state = completed; end_time = some t₂ }) clean
          h₁ in
      let (f₃, r₃) =
        write_both-Stands (ended t₁ t₂ task) _ (λ t. record t { state = TaskState.inspected })
          HousekeepingStatus.inspected h₂ (λ t. refl) refl (f₂, r₂) in
      (
        h₁,
        h₂,
        write_both (ended t₁ t₂ task) (λ t. record t { state = TaskState.inspected })
            HousekeepingStatus.inspected h₂,
        record task { state = TaskState.inspected; start_time = some t₁; end_time = some t₂ },
        ground (arith, task_found),
        ground (arith, f₁),
        ground (arith, f₁),
        ground (arith, f₂),
        ground (arith, f₂),
        f₃,
        refl,
        refl,
        r₃,
      )
