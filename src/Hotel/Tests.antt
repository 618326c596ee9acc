-- ===== src/Hotel/Tests.antt =====
-- The hotel addon, custom-addons/goliatt_pms/models, at small inputs.
use odoo_custom.Prelude.{
  ℕ, ◌≡◌, refl, inl, List, [], ◌∷◌, none, some, arith, find?, update_where, keep_if, map,
}
use odoo_custom.Hotel.Schema.{
  Hotel, ok, err, audit_completed, confirmed, checked_in, occupied, dirty, no_show, Charge,
  AuditState, find_room, find_reservation, write_reservation, write_room, write_guest,
}
use odoo_custom.Hotel.Reservation.{
  create, check_dates, check_occupancy, auto_assign_room, free_rooms, rooms_of_type, any_occupies,
  occupies, action_checkin, check_in, action_checkout,
}
use odoo_custom.Hotel.Reservation.Assignment.{Assigns, auto_assign_room-Assigns}
use odoo_custom.Hotel.Reservation.Booking.{IsBooked, create-IsBooked}
use odoo_custom.Hotel.Reservation.Stay.{Arrives, Leaves, checkin-checkout}
use odoo_custom.Hotel.Folio.{create_folio, sum_onto, charge_amount}
use odoo_custom.Hotel.Audit.{
  Audit, action_run, in_house, no_shows, post_charges, post_charge, mark_no_shows, total_revenue,
}
use odoo_custom.Hotel.Audit.Posting.{reverse_onto}
use odoo_custom.Hotel.Audit.Run.{IsAudited, action_run-IsAudited, action_run-total_revenue}
use odoo_custom.Hotel.Housekeeping.{find_task}
use odoo_custom.Hotel.Housekeeping.Turnover.{TurnsOver, start-complete-inspect}
use odoo_custom.Hotel.Lifecycle.{creating, checking_in, stop, step}
use odoo_custom.Hotel.Lifecycle.Sound.{IsSound}
use odoo_custom.Hotel.Lifecycle.Reach.{Steps-IsSound}
use odoo_custom.Hotel.Samples.{
  units, units-HasUnit, reservation, room, cleaning_task, hotel, quiet, audit,
}

-- What a test of the reservations computes with.
booking : Unit {0}
unfolding create check_dates check_occupancy auto_assign_room free_rooms rooms_of_type any_occupies
    occupies write_reservation write_room write_guest find? keep_if update_where action_checkin
    check_in
booking = tt

-- The guest of the new reservation gets the second room: the first is taken.
booked : Hotel ℕ
booked = record quiet {
  reservations = reservation 20 (some 5) 10 confirmed ∷ quiet.reservations;
  next_id = 21;
}

create_runs : create 4 (reservation 0 none 10 confirmed) quiet ≡ ok booked
unfolding booking booked
create_runs = refl

quiet-IsBooked : IsBooked quiet
quiet-IsBooked = record { apart = ((inl refl, tt), tt); numbered = (omega arith, tt) }

create-IsBooked_example : IsBooked booked
create-IsBooked_example =
    create-IsBooked 4 (reservation 0 none 10 confirmed) quiet refl quiet-IsBooked create_runs

auto_assign_room-Assigns_example :
    Assigns quiet
      (reservation 7 none 10 confirmed)
      (auto_assign_room 3 (reservation 7 none 10 confirmed) quiet)
auto_assign_room-Assigns_example =
    auto_assign_room-Assigns 3 (reservation 7 none 10 confirmed) quiet refl

found_6 : find_reservation 6 hotel ≡ some (reservation 6 (some 4) 10 confirmed)
unfolding find?
found_6 = refl

room_4 : find_room 4 hotel ≡ some (room 4)
unfolding find?
room_4 = refl

room_5 : find_room 5 hotel ≡ some (room 5)
unfolding find?
room_5 = refl

checkin-checkout_example :
    (h₁ : Hotel ℕ) × (h₂ : Hotel ℕ) × (action_checkin 6 hotel ≡ ok h₁)
    × Arrives (reservation 6 (some 4) 10 confirmed) 4 (room 4) h₁
    × (action_checkout 6 h₁ ≡ ok h₂)
    × Leaves (reservation 6 (some 4) 10 confirmed) 4 (room 4) hotel h₂
checkin-checkout_example =
    checkin-checkout 4 (reservation 6 (some 4) 10 confirmed) (room 4) hotel found_6 refl room_4
      (inl refl)

-- What a test of the night audit computes with.
auditing : Unit {0}
unfolding action_run in_house no_shows post_charges post_charge mark_no_shows find? keep_if
    create_folio update_where write_reservation total_revenue sum_onto charge_amount
auditing = tt

action_run-IsAudited_example :
    (audit' : Audit) × (h' : Hotel ℕ) × (action_run units audit hotel ≡ ok (audit', h'))
    × IsAudited units audit hotel h'
    × ((h'' : Hotel ℕ) → action_run units audit' h'' ≡ err audit_completed)
action_run-IsAudited_example = action_run-IsAudited units audit hotel (λ e. cc)

-- One night is charged to the folio of the reservation in house; the two that did not come are marked.
charged : Hotel ℕ
charged = record hotel {
  reservations =
      reservation 6 (some 4) 10 no_show
      ∷ reservation 7 none 10 no_show
      ∷ reservation 8 (some 5) 9 checked_in
      ∷ [];
  charges =
      record { folio_id = 9; date = 10; product_id = none; quantity = 1; unit_price = 70 }
      ∷ hotel.charges;
}

action_run_runs :
    action_run units audit hotel ≡ ok (record audit { state = AuditState.completed }, charged)
unfolding auditing charged
action_run_runs = refl

action_run-total_revenue_example :
    (posted : List (Charge ℕ)) × (charged.charges ≡ reverse_onto posted hotel.charges)
    × (sum_onto units 0 (map (charge_amount units) posted) ≡ total_revenue units audit hotel)
action_run-total_revenue_example =
    action_run-total_revenue units units-HasUnit audit hotel
      {audit' = record audit { state = AuditState.completed }} {h' = charged} action_run_runs

task_11 : find_task 11 hotel ≡ some cleaning_task
unfolding find?
task_11 = refl

start-complete-inspect_example : TurnsOver units 100 160 cleaning_task (room 5) hotel
start-complete-inspect_example =
    start-complete-inspect units 100 160 cleaning_task (room 5) hotel task_11 room_5

found_7 : find_reservation 7 hotel ≡ some (reservation 7 none 10 confirmed)
unfolding find?
found_7 = refl

-- The guest of the new reservation has checked in.
staying : Hotel ℕ
unfolding booked
staying = record booked {
  rooms =
      room 4
      ∷ record (room 5) {
        status = occupied;
        housekeeping_status = dirty;
        current_reservation_id = some 20;
      }
      ∷ [];
  reservations = reservation 20 (some 5) 10 checked_in ∷ quiet.reservations;
}

checkin_runs : action_checkin 20 booked ≡ ok staying
unfolding booking booked staying
checkin_runs = refl

quiet-IsSound : IsSound quiet
quiet-IsSound = record {
  booked = quiet-IsBooked;
  unique = (((λ p. refl), tt), tt);
  roomed = ((λ p. absurd (cc)), tt);
}

Steps-IsSound_example : IsSound staying
Steps-IsSound_example =
    Steps-IsSound units quiet staying
      (step (creating 4 (reservation 0 none 10 confirmed) create_runs)
        (step (checking_in 20 checkin_runs) stop))
      ((refl, (λ p. cc)), (tt, tt)) quiet-IsSound
