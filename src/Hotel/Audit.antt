-- ===== src/Hotel/Audit.antt =====
-- The night audit, custom-addons/goliatt_pms/models/pms_night_audit.py.
pub mod Posting
pub mod Marking
pub mod Run
use odoo_custom.Prelude.{
  ℕ, ◌+◌, Bool, true, false, ◌&&◌, List, [], ◌∷◌, Option, none, some, leb, ltb, ◌==◌, if◌then◌else◌,
  length, map, find?, keep_if,
}
use odoo_custom.Hotel.Schema.{
  find_room_type, Floats, ReservationState, no_show, FolioState, opened, AuditState, Reservation,
  Folio, Charge, Hotel, audit_completed, Result, ok, err, write_reservation,
}
use odoo_custom.Hotel.Reservation.{is_arriving, is_checked_in, set_state}
use odoo_custom.Hotel.Folio.{create_folio, sum_onto}

pub record Audit : Type 0 where
  pub property_id : ℕ
  pub audit_date : ℕ
  pub state : AuditState

abbrev pub is_open_folio : FolioState → Bool
is_open_folio opened = true
is_open_folio _ = false

abbrev pub is_completed : AuditState → Bool
is_completed AuditState.completed = true
is_completed _ = false

module _ {A : Type 0} where
  -- A checked-in reservation of the property that stays over the night of the date.
  abbrev pub is_in_house : ℕ → ℕ → Reservation A → Bool
  is_in_house property date r =
      r.property_id == property
      && leb r.checkin_date date
      && ltb date r.checkout_date
      && is_checked_in r.state

  unfoldable pub in_house : Audit → Hotel A → List (Reservation A)
  in_house audit h = keep_if (is_in_house audit.property_id audit.audit_date) h.reservations

  -- An expected guest of the date who has not arrived.
  abbrev pub is_missing : ℕ → ℕ → Reservation A → Bool
  is_missing property date r =
      r.property_id == property && r.checkin_date == date && is_arriving r.state

  unfoldable pub no_shows : Audit → Hotel A → List (Reservation A)
  no_shows audit h = keep_if (is_missing audit.property_id audit.audit_date) h.reservations

  -- `res.folio_ids.filtered(...)[:1]`
  abbrev pub open_folio : ℕ → Hotel A → Option Folio
  open_folio reservation h =
      find? (λ (f : Folio). f.reservation_id == reservation && is_open_folio f.state) h.folios

  -- The loop over the no-shows.
  unfoldable pub mark_no_shows : List (Reservation A) → Hotel A → Hotel A
  mark_no_shows [] h = h
  mark_no_shows (res ∷ rest) h = mark_no_shows rest (write_reservation res.id (set_state no_show) h)

  module _ (F : Floats A) where
    -- `res.room_type_id.product_id`
    abbrev pub product_of : Reservation A → Hotel A → Option ℕ
    product_of res h = elim (find_room_type res.room_type_id h) [
      | none ↦ none
      | some t ↦ t.product_id
    ]

    abbrev pub room_charge : Option ℕ → ℕ → ℕ → Reservation A → Charge A
    room_charge product folio date res = record {
      folio_id = folio;
      date = date;
      product_id = product;
      quantity = F.one;
      unit_price = res.daily_rate;
    }

    -- One turn of the loop over the reservations in house.
    unfoldable pub post_charge : ℕ → Reservation A → Hotel A → Hotel A
    post_charge date res h = elim (open_folio res.id h) [
      | some f ↦ record h { charges = room_charge (product_of res h) f.id date res ∷ h.charges }
      | none ↦
          let h' = create_folio res.id h in
          record h' { charges = room_charge (product_of res h) h.next_id date res ∷ h'.charges }
    ]

    unfoldable pub post_charges : ℕ → List (Reservation A) → Hotel A → Hotel A
    post_charges date [] h = h
    post_charges date (res ∷ rest) h = post_charges date rest (post_charge date res h)

    -- `action_run`, of one audit.
    unfoldable pub action_run : Audit → Hotel A → Result (Audit × Hotel A)
    action_run audit h =
        if is_completed audit.state
        then err audit_completed
        else (let charged = post_charges audit.audit_date (in_house audit h) h in
            let marked = mark_no_shows (no_shows audit charged) charged in
            ok (record audit { state = AuditState.completed }, marked))

    -- `_compute_stats`: the rooms sold and the revenue of the night.
    unfoldable pub rooms_sold : Audit → Hotel A → ℕ
    rooms_sold audit h = length (in_house audit h)

    unfoldable pub total_revenue : Audit → Hotel A → A
    total_revenue audit h =
        sum_onto F F.zero (map (λ (r : Reservation A). r.daily_rate) (in_house audit h))
