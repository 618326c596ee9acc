-- ===== src/Hotel/Samples.antt =====
-- A small hotel, with amounts in whole units, for the tests of the hotel addon.
use odoo_custom.Prelude.{
  ℕ, ◌+◌, ◌-◌, ◌*◌, ◌/◌, true, false, [], ◌∷◌, Option, none, some, ◌==◌, arith,
}
use odoo_custom.Prelude.Int.{pos_part}
use odoo_custom.Hotel.Schema.{
  Floats, HasUnit, confirmed, checked_in, available, clean, gold, ReservationState, Room,
  Reservation, opened, Hotel, Task, checkout_clean, TaskState, vip, AuditState,
}
use odoo_custom.Hotel.Audit.{Audit}
use odoo_custom.Hotel.Kiosk.{Session, SessionStatus}

abbrev pub units : Floats ℕ
units = record {
  zero = 0;
  one = 1;
  add = ◌+◌;
  sub = ◌-◌;
  mul = ◌*◌;
  div = ◌/◌;
  of_ℕ = λ n. n;
  of_ℤ = pos_part;
  is_zero = λ n. n == 0;
}

pub units-HasUnit : HasUnit units
units-HasUnit = record { one_mul = λ a. omega arith }

abbrev pub reservation : ℕ → Option ℕ → ℕ → ReservationState → Reservation ℕ
reservation id room first state = record {
  id = id;
  property_id = 1;
  guest_id = 2;
  checkin_date = first;
  checkout_date = first + 2;
  room_type_id = 3;
  room_id = room;
  adults = 2;
  daily_rate = 70;
  state = state;
  cancellation_date = none;
}

abbrev pub room : ℕ → Room
room id = record {
  id = id;
  room_type_id = 3;
  status = available;
  housekeeping_status = clean;
  current_reservation_id = none;
  active = true;
}

abbrev pub cleaning_task : Task
cleaning_task = record {
  id = 11;
  room_id = 5;
  task_type = checkout_clean;
  state = TaskState.pending;
  priority = vip;
  start_time = none;
  end_time = none;
}

-- Two rooms; the first is booked from day 10, and a task is to clean the second.
abbrev pub hotel : Hotel ℕ
hotel = record {
  guests = record { id = 2; is_hotel_guest = true; vip_level = some gold } ∷ [];
  room_types = record { id = 3; product_id = none; max_adults = 2; base_rate = 70 } ∷ [];
  rooms = room 4 ∷ room 5 ∷ [];
  reservations =
      reservation 6 (some 4) 10 confirmed
      ∷ reservation 7 none 10 confirmed
      ∷ reservation 8 (some 5) 9 checked_in
      ∷ [];
  folios = record { id = 9; reservation_id = 8; state = opened; invoice_id = none } ∷ [];
  charges =
      record { folio_id = 9; date = 9; product_id = none; quantity = 1; unit_price = 70 } ∷ [];
  payments = record { folio_id = 9; amount = 70 } ∷ [];
  tasks = cleaning_task ∷ [];
  next_id = 20;
}

-- The same rooms with the first of the reservations only.
abbrev pub quiet : Hotel ℕ
quiet = record hotel { reservations = reservation 6 (some 4) 10 confirmed ∷ [] }

abbrev pub audit : Audit
audit = record { property_id = 1; audit_date = 10; state = AuditState.pending }

abbrev pub session : Session
session = record {
  reservation_id = some 7;
  status = SessionStatus.confirmed;
  room_assigned = none;
  key_issued = false;
  end_time = none;
  error_message = none;
}
