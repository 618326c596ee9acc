-- ===== src/Hotel/Reservation.antt =====
-- The methods of `pms.reservation`, custom-addons/goliatt_pms/models/pms_reservation.py. Each is
-- given for one record; a call on several records is `for_each`.
pub mod Assignment
pub mod Booking
pub mod Stay
use odoo_custom.Prelude.{
  ℕ, zero, suc, ◌+◌, ◌-◌, ◌%◌, Bool, true, false, not, ◌&&◌, ◌||◌, List, [], ◌∷◌, Option, none,
  some, ltb, leb, ◌==◌, if◌then◌else◌, length, keep_if,
}
use odoo_custom.Hotel.Schema.{
  Floats, ReservationState, confirmed, guaranteed, checked_in, checked_out, cancelled, no_show,
  RoomStatus, available, occupied, out_of_order, out_of_service, dirty, VipLevel, ordinary,
  checkout_clean, TaskState, Priority, normal, vip, Guest, RoomType, Room, Reservation, Folio, Task,
  Hotel, checkout_not_after_checkin, too_many_adults, no_room, not_confirmed, not_checked_in,
  already_in_or_out, not_markable, missing_record, Result, ok, err, ◌>>=◌, or_raise,
  find_reservation, find_room_type, find_guest, write_reservation, write_room, write_guest,
}

abbrev pub is_arriving : ReservationState → Bool
is_arriving confirmed = true
is_arriving guaranteed = true
is_arriving _ = false

abbrev pub is_checked_in : ReservationState → Bool
is_checked_in checked_in = true
is_checked_in _ = false

abbrev pub is_in_or_out : ReservationState → Bool
is_in_or_out checked_in = true
is_in_or_out checked_out = true
is_in_or_out _ = false

-- `state not in ['cancelled', 'no_show']`
abbrev pub holds_room : ReservationState → Bool
holds_room cancelled = false
holds_room no_show = false
holds_room _ = true

-- `status in ('available', 'occupied')`
abbrev pub is_in_use : RoomStatus → Bool
is_in_use available = true
is_in_use occupied = true
is_in_use _ = false

abbrev pub is_at : Option ℕ → ℕ → Bool
is_at none id = false
is_at (some x) id = x == id

abbrev pub is_empty : Option ℕ → Bool
is_empty none = true
is_empty (some _) = false

-- `vip_level not in (False, 'none')`
abbrev pub priority_of : Option VipLevel → Priority
priority_of none = normal
priority_of (some ordinary) = normal
priority_of (some _) = vip

abbrev pub nth : List Room → ℕ → Option Room
nth [] i = none
nth (r ∷ rs) zero = some r
nth (r ∷ rs) (suc i) = nth rs i

-- `random.choice`: `choice` is the number that the generator draws.
abbrev pub pick : List Room → ℕ → Option Room
pick rs choice = nth rs (choice % length rs)

abbrev pub occupy : ℕ → Room → Room
occupy id room = record room {
  status = occupied;
  housekeeping_status = dirty;
  current_reservation_id = some id;
}

abbrev pub vacate : Room → Room
vacate room = record room {
  status = available;
  housekeeping_status = dirty;
  current_reservation_id = none;
}

module _ {A : Type 0} where
  -- `_check_dates`
  unfoldable pub check_dates : Reservation A → Result (Unit {0})
  check_dates rec =
      if leb rec.checkout_date rec.checkin_date then err checkout_not_after_checkin else ok tt

  -- `_check_occupancy`
  unfoldable pub check_occupancy : Hotel A → Reservation A → Result (Unit {0})
  check_occupancy h rec = elim (find_room_type rec.room_type_id h) [
    | none ↦ err missing_record
    | some t ↦ if ltb t.max_adults rec.adults then err too_many_adults else ok tt
  ]

  -- The rooms of the type that are in use and active.
  unfoldable pub rooms_of_type : Hotel A → Reservation A → List Room
  rooms_of_type h rec =
      keep_if (λ (r : Room). r.room_type_id == rec.room_type_id && is_in_use r.status && r.active)
        h.rooms

  -- Another reservation that stays in the room over the same night.
  unfoldable pub occupies : Reservation A → ℕ → Reservation A → Bool
  occupies rec room other =
      not (other.id == rec.id)
      && is_at other.room_id room
      && ltb other.checkin_date rec.checkout_date
      && ltb rec.checkin_date other.checkout_date
      && holds_room other.state

  unfoldable pub any_occupies : Reservation A → ℕ → List (Reservation A) → Bool
  any_occupies rec room [] = false
  any_occupies rec room (other ∷ others) = occupies rec room other || any_occupies rec room others

  unfoldable pub free_rooms : Hotel A → Reservation A → List Room
  free_rooms h rec =
      keep_if (λ (r : Room). not (any_occupies rec r.id h.reservations)) (rooms_of_type h rec)

  abbrev pub set_room : Option ℕ → Reservation A → Reservation A
  set_room room r = record r { room_id = room }

  -- `_auto_assign_room`
  unfoldable pub auto_assign_room : ℕ → Reservation A → Hotel A → Hotel A
  auto_assign_room choice rec h = elim rec.room_id [
    | some _ ↦ h
    | none ↦ elim (pick (free_rooms h rec) choice) [
      | none ↦ h
      | some room ↦ write_reservation rec.id (set_room (some room.id)) h
    ]
  ]

  -- `create`, of one record: `super().create` checks the constraints. The number from the sequence
  -- that names the record is left out.
  unfoldable pub create : ℕ → Reservation A → Hotel A → Result (Hotel A)
  create choice vals h = check_dates vals >>= λ _. check_occupancy h vals >>= λ _.
      let rec : Reservation A = record vals { id = h.next_id } in
      let added = record h { reservations = rec ∷ h.reservations; next_id = h.next_id + 1 } in
      let known = write_guest rec.guest_id (λ g. record g { is_hotel_guest = true }) added in
      ok (auto_assign_room choice rec known)

  -- `_compute_nights`: the days between the dates, and not less than 0.
  unfoldable pub nights : Reservation A → ℕ
  nights rec = rec.checkout_date - rec.checkin_date

  -- `_compute_total_amount`
  unfoldable pub total_amount : Floats A → Reservation A → A
  total_amount F rec = F.mul rec.daily_rate (F.of_ℕ (nights rec))

  abbrev pub set_state : ReservationState → Reservation A → Reservation A
  set_state state r = record r { state = state }

  unfoldable pub action_confirm : ℕ → Hotel A → Result (Hotel A)
  action_confirm id h = or_raise (find_reservation id h) missing_record >>= λ _.
      ok (write_reservation id (set_state confirmed) h)

  -- `action_checkin`
  unfoldable pub check_in : Reservation A → Hotel A → Result (Hotel A)
  check_in rec h = elim rec.room_id [
    | none ↦ err no_room
    | some room ↦
        if is_arriving rec.state
        then ok
            (write_room room (occupy rec.id) (write_reservation rec.id (set_state checked_in) h))
        else err not_confirmed
  ]

  unfoldable pub action_checkin : ℕ → Hotel A → Result (Hotel A)
  action_checkin id h = or_raise (find_reservation id h) missing_record >>= λ rec. check_in rec h

  abbrev pub guest_vip : ℕ → Hotel A → Option VipLevel
  guest_vip id h = elim (find_guest id h) [ none ↦ none | some g ↦ g.vip_level ]

  unfoldable pub create_task : ℕ → Priority → Hotel A → Hotel A
  create_task room priority h =
      let task : Task = record {
        id = h.next_id;
        room_id = room;
        task_type = checkout_clean;
        state = TaskState.pending;
        priority = priority;
        start_time = none;
        end_time = none;
      } in
      record h { tasks = task ∷ h.tasks; next_id = h.next_id + 1 }

  unfoldable pub leave_room : Reservation A → Hotel A → Hotel A
  leave_room rec h = elim rec.room_id [
    | none ↦ h
    | some room ↦
        create_task room (priority_of (guest_vip rec.guest_id h)) (write_room room vacate h)
  ]

  -- `action_checkout`
  unfoldable pub check_out : Reservation A → Hotel A → Result (Hotel A)
  check_out rec h =
      if is_checked_in rec.state
      then ok (leave_room rec (write_reservation rec.id (set_state checked_out) h))
      else err not_checked_in

  unfoldable pub action_checkout : ℕ → Hotel A → Result (Hotel A)
  action_checkout id h = or_raise (find_reservation id h) missing_record >>= λ rec. check_out rec h

  -- `action_cancel`, at the time `now`.
  unfoldable pub action_cancel : ℕ → ℕ → Hotel A → Result (Hotel A)
  action_cancel now id h = or_raise (find_reservation id h) missing_record >>= λ rec.
      if is_in_or_out rec.state
      then err already_in_or_out
      else ok (
          write_reservation id (λ r. record r { state = cancelled; cancellation_date = some now })
            h)

  unfoldable pub action_no_show : ℕ → Hotel A → Result (Hotel A)
  action_no_show id h = or_raise (find_reservation id h) missing_record >>= λ rec.
      if is_arriving rec.state
      then ok (write_reservation id (set_state no_show) h)
      else err not_markable
