-- ===== src/Hotel/Schema.antt =====
-- The rows of custom-addons/goliatt_pms/models that the methods read and write, with the fields that
-- decide what a method does. A date is the number of its day; a Many2one field is the number of a
-- record, `none` where it is empty. `A` is the type of amounts, Python's floats.
use odoo_custom.Prelude.{ℕ, ◌≡◌, Bool, List, [], ◌∷◌, Option, none, some, ◌==◌, find?, update_where}
use odoo_custom.Prelude.Int.{ℤ}

-- What the methods compute on floats.
pub record Floats (A : Type 0) : Type 0 where
  pub zero : A
  pub one : A
  pub add : A → A → A
  pub sub : A → A → A
  pub mul : A → A → A
  pub div : A → A → A
  pub of_ℕ : ℕ → A
  pub of_ℤ : ℤ → A
  pub is_zero : A → Bool

-- Multiplying by one gives the other factor, as it does for floats.
pub record HasUnit {A : Type 0} (F : Floats A) : Type 0 where
  pub one_mul : (a : A) → F.mul F.one a ≡ a

pub data ReservationState : Type 0 where
  confirmed guaranteed checked_in checked_out cancelled no_show : ReservationState

pub data RoomStatus : Type 0 where
  available occupied out_of_order out_of_service : RoomStatus

pub data HousekeepingStatus : Type 0 where
  clean dirty cleaning inspected pickup : HousekeepingStatus

-- 'none' is `ordinary`.
pub data VipLevel : Type 0 where
  ordinary silver gold platinum diamond : VipLevel

-- 'open' is `opened`.
pub data FolioState : Type 0 where
  opened closed void : FolioState

pub data TaskType : Type 0 where
  checkout_clean stayover deep_clean turndown inspection : TaskType

pub data TaskState : Type 0 where
  pending in_progress completed inspected failed : TaskState

pub data Priority : Type 0 where
  normal rush vip : Priority

pub data AuditState : Type 0 where
  pending in_progress completed : AuditState

pub record Guest : Type 0 where
  pub id : ℕ
  pub is_hotel_guest : Bool
  pub vip_level : Option VipLevel

pub record RoomType (A : Type 0) : Type 0 where
  pub id : ℕ
  pub product_id : Option ℕ
  pub max_adults : ℕ
  pub base_rate : A

pub record Room : Type 0 where
  pub id : ℕ
  pub room_type_id : ℕ
  pub status : RoomStatus
  pub housekeeping_status : HousekeepingStatus
  pub current_reservation_id : Option ℕ
  pub active : Bool

pub record Reservation (A : Type 0) : Type 0 where
  pub id : ℕ
  pub property_id : ℕ
  pub guest_id : ℕ
  pub checkin_date : ℕ
  pub checkout_date : ℕ
  pub room_type_id : ℕ
  pub room_id : Option ℕ
  pub adults : ℕ
  pub daily_rate : A
  pub state : ReservationState
  pub cancellation_date : Option ℕ

pub record Folio : Type 0 where
  pub id : ℕ
  pub reservation_id : ℕ
  pub state : FolioState
  pub invoice_id : Option ℕ

pub record Charge (A : Type 0) : Type 0 where
  pub folio_id : ℕ
  pub date : ℕ
  pub product_id : Option ℕ
  pub quantity : A
  pub unit_price : A

pub record Payment (A : Type 0) : Type 0 where
  pub folio_id : ℕ
  pub amount : A

pub record Task : Type 0 where
  pub id : ℕ
  pub room_id : ℕ
  pub task_type : TaskType
  pub state : TaskState
  pub priority : Priority
  pub start_time : Option ℕ
  pub end_time : Option ℕ

-- The tables; a new folio, charge or task is listed first, by the order of its model. `next_id` is
-- the number of the next record that is created.
pub record Hotel (A : Type 0) : Type 0 where
  pub guests : List Guest
  pub room_types : List (RoomType A)
  pub rooms : List Room
  pub reservations : List (Reservation A)
  pub folios : List Folio
  pub charges : List (Charge A)
  pub payments : List (Payment A)
  pub tasks : List Task
  pub next_id : ℕ

-- The messages of the UserErrors and ValidationErrors, and the error for a record that is not there.
pub data Refusal : Type 0 where
  missing_record checkout_not_after_checkin too_many_adults no_room not_confirmed not_checked_in :
      Refusal
  already_in_or_out not_markable invoice_exists has_balance audit_completed : Refusal
  not_in_progress not_completed not_for_kiosk : Refusal

-- A method raises, which rolls its transaction back, or returns.
pub data Result (B : Type 0) : Type 0 where
  ok : B → Result B
  err : Refusal → Result B

infixl 5 ◌>>=◌
abbrev pub ◌>>=◌ : {B C : Type 0} → Result B → (B → Result C) → Result C
ok b >>= f = f b
err e >>= f = err e

abbrev pub or_raise : {B : Type 0} → Option B → Refusal → Result B
or_raise none e = err e
or_raise (some b) e = ok b

module _ {A : Type 0} where
  -- `for rec in self:`, over the numbers of the records.
  pub for_each : (ℕ → Hotel A → Result (Hotel A)) → List ℕ → Hotel A → Result (Hotel A)
  for_each method [] h = ok h
  for_each method (id ∷ ids) h = method id h >>= for_each method ids

  abbrev pub find_reservation : ℕ → Hotel A → Option (Reservation A)
  find_reservation id h = find? (λ (r : Reservation A). r.id == id) h.reservations

  abbrev pub find_room_type : ℕ → Hotel A → Option (RoomType A)
  find_room_type id h = find? (λ (t : RoomType A). t.id == id) h.room_types

  abbrev pub find_guest : ℕ → Hotel A → Option Guest
  find_guest id h = find? (λ (g : Guest). g.id == id) h.guests

  abbrev pub find_room : ℕ → Hotel A → Option Room
  find_room id h = find? (λ (r : Room). r.id == id) h.rooms

  unfoldable pub write_reservation : ℕ → (Reservation A → Reservation A) → Hotel A → Hotel A
  write_reservation id set h = record h {
    reservations = update_where (λ (r : Reservation A). r.id == id) set h.reservations;
  }

  unfoldable pub write_room : ℕ → (Room → Room) → Hotel A → Hotel A
  write_room id set h = record h { rooms = update_where (λ (r : Room). r.id == id) set h.rooms }

  unfoldable pub write_guest : ℕ → (Guest → Guest) → Hotel A → Hotel A
  write_guest id set h = record h { guests = update_where (λ (g : Guest). g.id == id) set h.guests }
