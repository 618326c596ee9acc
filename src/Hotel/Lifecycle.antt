-- ===== src/Hotel/Lifecycle.antt =====
-- Sequences of the methods of custom-addons/goliatt_pms/models on the reservations of a hotel.
pub mod Sound
pub mod Writes
pub mod Reach
use odoo_custom.Prelude.{ℕ, ◌≡◌, ◌≢◌, Option, none, some}
use odoo_custom.Hotel.Schema.{
  Floats, checked_in, cancelled, no_show, Reservation, Hotel, Result, ok, find_reservation,
}
use odoo_custom.Hotel.Reservation.{
  create, action_confirm, action_checkin, action_checkout, action_cancel, action_no_show,
}
use odoo_custom.Hotel.Audit.{Audit, action_run}
use odoo_custom.Hotel.Kiosk.{Session, linked, action_complete_checkin}

module _ {A : Type 0} (F : Floats A) where
  -- One call.
  pub data Step : Hotel A → Hotel A → Type 0 where
    creating :
        {h h' : Hotel A} (choice : ℕ) (vals : Reservation A)
        → create choice vals h ≡ ok h'
        → Step h h'
    confirming : {h h' : Hotel A} (id : ℕ) → action_confirm id h ≡ ok h' → Step h h'
    checking_in : {h h' : Hotel A} (id : ℕ) → action_checkin id h ≡ ok h' → Step h h'
    checking_out : {h h' : Hotel A} (id : ℕ) → action_checkout id h ≡ ok h' → Step h h'
    cancelling : {h h' : Hotel A} (now id : ℕ) → action_cancel now id h ≡ ok h' → Step h h'
    not_showing : {h h' : Hotel A} (id : ℕ) → action_no_show id h ≡ ok h' → Step h h'
    auditing :
        {h h' : Hotel A} (audit audit' : Audit) → action_run F audit h ≡ ok (audit', h') → Step h h'
    completing :
        {h h' : Hotel A} (now : ℕ) (s s' : Session)
        → action_complete_checkin now s h ≡ (s', h')
        → Step h h'

  pub data Steps : Hotel A → Hotel A → Type 0 where
    stop : {h : Hotel A} → Steps h h
    step : {h h₁ h₂ : Hotel A} → Step h h₁ → Steps h₁ h₂ → Steps h h₂

  -- What the code does not guard: a reservation is created without a room and not checked in, none is
  -- confirmed that was cancelled or a no-show, and the kiosk completes no session whose reservation
  -- has no room.
  abbrev pub IsTidy : (h h' : Hotel A) → Step h h' → Type 0
  IsTidy h h' (creating choice vals e) = (vals.room_id ≡ none) × (vals.state ≢ checked_in)
  IsTidy h h' (confirming id e) =
      (rec : Reservation A)
      → find_reservation id h ≡ some rec
      → (rec.state ≢ cancelled) × (rec.state ≢ no_show)
  IsTidy h h' (checking_in id e) = Unit
  IsTidy h h' (checking_out id e) = Unit
  IsTidy h h' (cancelling now id e) = Unit
  IsTidy h h' (not_showing id e) = Unit
  IsTidy h h' (auditing audit audit' e) = Unit
  IsTidy h h' (completing now s s' e) =
      (rec : Reservation A) → linked s h ≡ some rec → rec.room_id ≢ none

  abbrev pub AreTidy : (h h' : Hotel A) → Steps h h' → Type 0
  AreTidy h h' stop = Unit
  AreTidy h h' (step {h₁} one rest) = IsTidy h h₁ one × AreTidy h₁ h' rest
