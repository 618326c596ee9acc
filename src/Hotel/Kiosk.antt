-- ===== src/Hotel/Kiosk.antt =====
-- The methods of `pms.kiosk.session`, custom-addons/goliatt_pms/models/pms_kiosk_session.py. The
-- session stands beside the hotel; what the scanner reads of the guest's document is left out.
pub mod Completing
use odoo_custom.Prelude.{ℕ, Bool, true, false, ◌&&◌, Option, none, some, ◌==◌, if◌then◌else◌, find?}
use odoo_custom.Hotel.Schema.{
  RoomStatus, available, HousekeepingStatus, clean, inspected, Room, Reservation, Hotel, Refusal,
  Result, ok, err, find_reservation, write_reservation,
}
use odoo_custom.Hotel.Reservation.{set_room, action_checkin}

pub data SessionStatus : Type 0 where
  started id_scanned confirmed completed failed abandoned : SessionStatus

-- The messages of a session, and the message of the error that `action_checkin` raised.
pub data Failure : Type 0 where
  no_reservation no_clean_rooms : Failure
  refused : Refusal → Failure

-- `room_assigned` is the room whose name the session shows.
pub record Session : Type 0 where
  pub reservation_id : Option ℕ
  pub status : SessionStatus
  pub room_assigned : Option ℕ
  pub key_issued : Bool
  pub end_time : Option ℕ
  pub error_message : Option Failure

abbrev pub is_available : RoomStatus → Bool
is_available available = true
is_available _ = false

-- `housekeeping_status in ['clean', 'inspected']`
abbrev pub is_ready : HousekeepingStatus → Bool
is_ready clean = true
is_ready inspected = true
is_ready _ = false

abbrev pub fails : Failure → Session → Session
fails why s = record s { status = failed; error_message = some why }

-- `action_confirm_checkin`
unfoldable pub action_confirm_checkin : Session → Session
action_confirm_checkin s = record s { status = confirmed }

module _ {A : Type 0} where
  -- `session.reservation_id`, an empty recordset where there is none.
  abbrev pub linked : Session → Hotel A → Option (Reservation A)
  linked s h = elim s.reservation_id [ none ↦ none | some id ↦ find_reservation id h ]

  -- `action_scan_id`: the status; a reservation always has a guest.
  unfoldable pub action_scan_id : Session → Hotel A → Session
  action_scan_id s h = elim (linked s h) [ none ↦ s | some _ ↦ record s { status = id_scanned } ]

  -- The search for a room, whose model lists only active ones.
  unfoldable pub clean_room : Reservation A → Hotel A → Option Room
  clean_room res h =
      find?
        (λ (r : Room).
          r.room_type_id == res.room_type_id
          && is_available r.status
          && is_ready r.housekeeping_status
          && r.active)
        h.rooms

  -- The room that the reservation has, or else the one that is found.
  abbrev pub room_for : Reservation A → Hotel A → Option (ℕ × Hotel A)
  room_for res h = elim res.room_id [
    | some room ↦ some (room, h)
    | none ↦ elim (clean_room res h) [
      | none ↦ none
      | some r ↦ some (r.id, write_reservation res.id (set_room (some r.id)) h)
    ]
  ]

  -- The `try` block: nothing was written before `action_checkin` raised.
  unfoldable pub try_checkin : ℕ → Session → Reservation A → ℕ → Hotel A → Session × Hotel A
  try_checkin now s res room h = elim (action_checkin res.id h) [
    | ok h' ↦ (
      record s {
        status = completed;
        room_assigned = some room;
        key_issued = true;
        end_time = some now;
      },
      h',
    )
    | err e ↦ (fails (refused e) s, h)
  ]

  -- `action_complete_checkin`
  unfoldable pub action_complete_checkin : ℕ → Session → Hotel A → Session × Hotel A
  action_complete_checkin now s h = elim (linked s h) [
    | none ↦ (fails no_reservation s, h)
    | some res ↦ elim (room_for res h) [
      | none ↦ (fails no_clean_rooms s, h)
      | some (room, h') ↦ try_checkin now s res room h'
    ]
  ]
