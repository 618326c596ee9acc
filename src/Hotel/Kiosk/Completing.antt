-- ===== src/Hotel/Kiosk/Completing.antt =====
-- What completing a check-in at the kiosk of custom-addons/goliatt_pms/models/pms_kiosk_session.py
-- does.
use odoo_custom.Prelude.{ℕ, ◌≡◌, ◌≢◌, ◌⊎◌, All, Memᴰ, true, none, some}
use odoo_custom.Hotel.Schema.{
  confirmed, guaranteed, checked_in, available, clean, inspected, Reservation, Room, Hotel,
  not_confirmed, find_reservation, write_reservation,
}
use odoo_custom.Hotel.Reservation.{set_room}
use odoo_custom.Hotel.Kiosk.{
  completed, no_reservation, no_clean_rooms, refused, Session, fails, linked,
}

module _ {A : Type 0} where
  -- The session is completed, with a key, and the reservation checked in to the room.
  abbrev pub Admits : ℕ → Reservation A → ℕ → Session × Hotel A → Type 0
  Admits now res room after =
      (after.0.status ≡ completed)
      × (after.0.key_issued ≡ true)
      × (after.0.room_assigned ≡ some room)
      × (find_reservation res.id after.1
          ≡ some (record res { room_id = some room; state = checked_in }))

  -- A room that the kiosk may give to the reservation.
  abbrev pub IsClean : Reservation A → Room → Type 0
  IsClean res r =
      (r.room_type_id ≡ res.room_type_id)
      × (r.status ≡ available)
      × ((r.housekeeping_status ≡ clean) ⊎ (r.housekeeping_status ≡ inspected))
      × (r.active ≡ true)

  -- The room that the reservation has, or a clean one where it has none.
  abbrev pub IsChosen : Reservation A → ℕ → Hotel A → Type 0
  IsChosen res room h =
      (res.room_id ≡ some room)
      ⊎ ((res.room_id ≡ none) × (r : Room) × Memᴰ r h.rooms × IsClean res r × (r.id ≡ room))

  -- The reservation has the room already and nothing is written, or it is written to the reservation.
  abbrev pub Assigned : Reservation A → ℕ → Hotel A → Hotel A → Type 0
  Assigned res room h h' =
      ((res.room_id ≡ some room) × (h' ≡ h))
      ⊎ ((res.room_id ≡ none) × (h' ≡ write_reservation res.id (set_room (some room)) h))

  abbrev pub HasNoRoom : Reservation A → Hotel A → Type 0
  HasNoRoom res h = (res.room_id ≡ none) × All (λ r. ¬ IsClean res r) h.rooms

  -- What becomes of a session that is completed: the guest is admitted to the room, there is no room, or
  -- the reservation is in no state to check in, but keeps the room that it was given.
  abbrev pub Completes : ℕ → Session → Reservation A → Hotel A → Session × Hotel A → Type 0
  Completes now s res h after =
      (((res.state ≡ confirmed) ⊎ (res.state ≡ guaranteed))
        × (room : ℕ) × IsChosen res room h
        × Admits now res room after)
      ⊎ (HasNoRoom res h × (after ≡ (fails no_clean_rooms s, h)))
      ⊎ (((res.state ≢ confirmed) × (res.state ≢ guaranteed))
          × (after.0 ≡ fails (refused not_confirmed) s)
          × (room : ℕ) × IsChosen res room h
          × Assigned res room h after.1)

  -- What becomes of any session: without a reservation it fails, and the hotel stays as it is.
  abbrev pub Ends : ℕ → Session → Hotel A → Session × Hotel A → Type 0
  Ends now s h after =
      ((linked s h ≡ none) × (after ≡ (fails no_reservation s, h)))
      ⊎ ((res : Reservation A) × (linked s h ≡ some res) × Completes now s res h after)
