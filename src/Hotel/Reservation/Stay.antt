-- ===== src/Hotel/Reservation/Stay.antt =====
-- What check-in and check-out of custom-addons/goliatt_pms/models/pms_reservation.py do to the
-- reservation, its room and the housekeeping.
use odoo_custom.Prelude.{
  ℕ, ◌≡◌, ◌≢◌, ◌⊎◌, refl, inl, inr, ◌∷◌, Option, none, some, arith, find?, update_where,
  find?-update_where,
}
use odoo_custom.Hotel.Schema.{
  confirmed, guaranteed, checked_in, checked_out, dirty, available, occupied, checkout_clean,
  VipLevel, ordinary, silver, gold, platinum, diamond, Priority, normal, vip, TaskState, Room,
  Reservation, Hotel, ok, find_reservation, find_room, write_reservation, write_room,
}
use odoo_custom.Hotel.Reservation.{
  priority_of, guest_vip, set_state, occupy, vacate, check_in, check_out, leave_room, create_task,
  action_checkin, action_checkout,
}

-- A task is urgent exactly if the guest has a level above the ordinary one.
abbrev pub Deserves : Option VipLevel → Priority → Type 0
Deserves level urgency =
    ((urgency ≡ vip) × (v : VipLevel) × (level ≡ some v) × (v ≢ ordinary))
    ⊎ ((urgency ≡ normal) × ((level ≡ none) ⊎ (level ≡ some ordinary)))

priority_of-Deserves : (level : Option VipLevel) → Deserves level (priority_of level)
priority_of-Deserves none = inr (refl, inl refl)
priority_of-Deserves (some ordinary) = inr (refl, inr refl)
priority_of-Deserves (some silver) = inl (refl, silver, refl, (λ e. cc))
priority_of-Deserves (some gold) = inl (refl, gold, refl, (λ e. cc))
priority_of-Deserves (some platinum) = inl (refl, platinum, refl, (λ e. cc))
priority_of-Deserves (some diamond) = inl (refl, diamond, refl, (λ e. cc))

module _ {A : Type 0} where
  pub find-write_reservation :
      (id : ℕ) (set : Reservation A → Reservation A) (h : Hotel A) {rec : Reservation A}
      → ((r : Reservation A) → (set r).id ≡ r.id)
      → find_reservation id h ≡ some rec
      → find_reservation id (write_reservation id set h) ≡ some (set rec)
  unfolding write_reservation
  find-write_reservation id set h keep e =
      find?-update_where _ set h.reservations (λ y hit. ground (arith, keep y)) e

  pub find-write_room :
      (id : ℕ) (set : Room → Room) (h : Hotel A) {room : Room}
      → ((r : Room) → (set r).id ≡ r.id)
      → find_room id h ≡ some room
      → find_room id (write_room id set h) ≡ some (set room)
  unfolding write_room
  find-write_room id set h keep e =
      find?-update_where _ set h.rooms (λ y hit. ground (arith, keep y)) e

  -- What check-in has done: the reservation is checked in and holds its room, which is dirty.
  abbrev pub Arrives : Reservation A → ℕ → Room → Hotel A → Type 0
  Arrives rec room_id room h =
      (find_reservation rec.id h ≡ some (record rec { state = checked_in }))
      × (find_room room_id h
          ≡ some (record room {
            status = occupied;
            housekeeping_status = dirty;
            current_reservation_id = some rec.id;
          }))

  -- What check-out has done after that: the room is free but dirty, and is to be cleaned.
  abbrev pub Leaves : Reservation A → ℕ → Room → Hotel A → Hotel A → Type 0
  Leaves rec room_id room h h' =
      (find_reservation rec.id h' ≡ some (record rec { state = checked_out }))
      × (find_room room_id h'
          ≡ some (record room {
            status = available;
            housekeeping_status = dirty;
            current_reservation_id = none;
          }))
      × ((urgency : Priority) × Deserves (guest_vip rec.guest_id h) urgency
          × (h'.tasks
              ≡ record {
                id = h.next_id;
                room_id = room_id;
                task_type = checkout_clean;
                state = TaskState.pending;
                priority = urgency;
                start_time = none;
                end_time = none;
              }
                ∷ h.tasks))

  module _ (room_id : ℕ) (rec : Reservation A) (room : Room) (h : Hotel A)
      (found : find_reservation rec.id h ≡ some rec) (has_room : rec.room_id ≡ some room_id)
      (room_found : find_room room_id h ≡ some room) where
    abbrev arrived : Hotel A
    arrived = write_room room_id (occupy rec.id) (write_reservation rec.id (set_state checked_in) h)

    abbrev left : Hotel A
    left =
        create_task room_id (priority_of (guest_vip rec.guest_id h))
          (write_room room_id vacate (write_reservation rec.id (set_state checked_out) arrived))

    found-arrived : find_reservation rec.id arrived ≡ some (set_state checked_in rec)
    unfolding write_room
    found-arrived = find-write_reservation rec.id (set_state checked_in) h (λ r. refl) found

    room-arrived : find_room room_id arrived ≡ some (occupy rec.id room)
    unfolding write_reservation
    room-arrived =
        find-write_room room_id (occupy rec.id) (write_reservation rec.id (set_state checked_in) h)
          (λ r. refl) room_found

    arrives :
        (rec.state ≡ confirmed) ⊎ (rec.state ≡ guaranteed) → action_checkin rec.id h ≡ ok arrived
    unfolding action_checkin check_in
    arrives arriving = simp found (ground arith)

    abbrev released : Hotel A
    released = write_reservation rec.id (set_state checked_out) arrived

    guests-released : released.guests ≡ h.guests
    unfolding write_reservation write_room
    guests-released = refl

    room-released : find_room room_id released ≡ some (occupy rec.id room)
    unfolding write_reservation
    room-released = room-arrived

    leaves : action_checkout rec.id arrived ≡ ok left
    unfolding action_checkout check_out leave_room create_task write_room find? write_reservation
        update_where
    leaves = simp (found-arrived, has_room)

    left-reservation : find_reservation rec.id left ≡ some (record rec { state = checked_out })
    unfolding create_task write_room
    left-reservation =
        find-write_reservation rec.id (set_state checked_out) arrived (λ r. refl) found-arrived

    left-room : find_room room_id left ≡ some (vacate room)
    unfolding create_task
    left-room = find-write_room room_id vacate released (λ r. refl) room-released

    left-Leaves : Leaves rec room_id room h left
    left-Leaves = (
      left-reservation,
      left-room,
      (
        priority_of (guest_vip rec.guest_id h),
        priority_of-Deserves (guest_vip rec.guest_id h),
        unfold create_task write_room write_reservation in refl,
      ),
    )

    -- A confirmed or guaranteed reservation with a room can check in, and then check out: the room is
    -- occupied by it in between, and afterwards available, dirty and held by no reservation, with one
    -- more task to clean it, which has priority exactly if the guest has a level above the ordinary one.
    pub checkin-checkout :
        (rec.state ≡ confirmed) ⊎ (rec.state ≡ guaranteed)
        → (h₁ : Hotel A) × (h₂ : Hotel A) × (action_checkin rec.id h ≡ ok h₁)
          × Arrives rec room_id room h₁
          × (action_checkout rec.id h₁ ≡ ok h₂)
          × Leaves rec room_id room h h₂
    checkin-checkout arriving =
        (arrived, left, arrives arriving, (found-arrived, room-arrived), leaves, left-Leaves)
