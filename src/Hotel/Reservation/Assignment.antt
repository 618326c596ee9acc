-- ===== src/Hotel/Reservation/Assignment.antt =====
-- Which room `_auto_assign_room` of custom-addons/goliatt_pms/models/pms_reservation.py assigns.
use native.Mathlib.Nat.{mod-lt}
use odoo_custom.Prelude.{
  ℕ, zero, suc, ◌%◌, ◌≤◌, ◌<◌, ◌≡◌, ◌≢◌, ◌⊎◌, ◌↔◌, refl, inl, inr, Bool, true, false, List, [], ◌∷◌,
  Memᴰ, Option, none, some, arith, All, All-map, Bool-cases, Option-cases, ◌&&◌, ◌==◌, length,
  keep_if, keep_if-member,
}
use odoo_custom.Hotel.Schema.{
  ReservationState, cancelled, no_show, RoomStatus, available, occupied, Room, Reservation, Hotel,
  write_reservation,
}
use odoo_custom.Hotel.Reservation.{
  holds_room, is_in_use, is_at, rooms_of_type, occupies, any_occupies, free_rooms, nth, pick,
  set_room, auto_assign_room,
}

-- What two filters that keep nothing say of each element.
module _ {ℓ} {B : Type ℓ} where
  keep_if-keep_if-none :
      (p q : B → Bool) (xs : List B)
      → keep_if p (keep_if q xs) ≡ []
      → All (λ x. q x ≡ true → p x ≡ false) xs
  unfolding keep_if
  keep_if-keep_if-none p q [] e = tt
  keep_if-keep_if-none p q (y ∷ ys) e = elim (Bool-cases (q y)) [
    | inl kept ↦ elim (Bool-cases (p y)) [
      | inl again ↦ absurd (ground (arith, kept, again))
      | inr dropped ↦
          ((λ _. dropped), keep_if-keep_if-none p q ys (rw (kept, keep_if, dropped) at e))
    ]
    | inr dropped ↦ ((λ f. absurd (cc)), keep_if-keep_if-none p q ys (rw dropped at e))
  ]

nth-member : (rs : List Room) (i : ℕ) {r : Room} → nth rs i ≡ some r → Memᴰ r rs
nth-member [] i e = absurd (cc)
nth-member (x ∷ xs) zero e = Memᴰ.head (ground arith)
nth-member (x ∷ xs) (suc i) e = Memᴰ.tail (nth-member xs i e)

nth-ne-none : (rs : List Room) (i : ℕ) → i < length rs → nth rs i ≢ none
nth-ne-none [] i h e = absurd (omega arith)
nth-ne-none (x ∷ xs) zero h e = cc
nth-ne-none (x ∷ xs) (suc i) h e = nth-ne-none xs i (omega arith) e

pick-none : (rs : List Room) (choice : ℕ) → pick rs choice ≡ none → rs ≡ []
pick-none [] choice e = refl
pick-none (x ∷ xs) choice e =
    absurd (nth-ne-none (x ∷ xs) (choice % length (x ∷ xs)) (mod-lt choice (omega arith)) e)

-- The room has the type of the reservation, is in use and active.
abbrev pub IsEligible : {A : Type 0} → Reservation A → Room → Type 0
IsEligible rec r =
    (r.room_type_id ≡ rec.room_type_id)
    × ((r.status ≡ available) ⊎ (r.status ≡ occupied))
    × (r.active ≡ true)

-- The other reservation does not hold the room during the stay: it is the same one, has another
-- room or none, ends before the stay or begins after it, or was cancelled or a no-show.
abbrev pub IsClear : {A : Type 0} → Reservation A → ℕ → Reservation A → Type 0
IsClear rec room other =
    (other.id ≡ rec.id)
    ⊎ (other.room_id ≢ some room)
    ⊎ (rec.checkout_date ≤ other.checkin_date)
    ⊎ (other.checkout_date ≤ rec.checkin_date)
    ⊎ (other.state ≡ cancelled)
    ⊎ (other.state ≡ no_show)

abbrev pub IsFree : {A : Type 0} → Hotel A → Reservation A → Room → Type 0
IsFree h rec r = All (IsClear rec r.id) h.reservations

is_at_iff : (o : Option ℕ) (id : ℕ) → (is_at o id ≡ true) ↔ (o ≡ some id)
is_at_iff none id = ((λ e. cc), (λ e. cc))
is_at_iff (some x) id = ((λ e. ground arith), (λ e. ground arith))

is_in_use_iff : (s : RoomStatus) → (is_in_use s ≡ true) ↔ ((s ≡ available) ⊎ (s ≡ occupied))
is_in_use_iff s = ((λ e. ground arith), (λ e. ground arith))

holds_room_iff : (s : ReservationState) → (holds_room s ≡ false) ↔ ((s ≡ cancelled) ⊎ (s ≡ no_show))
holds_room_iff s = ((λ e. ground arith), (λ e. ground arith))

module _ {A : Type 0} where
  occupies-IsClear :
      (rec : Reservation A) (room : ℕ) (other : Reservation A)
      → occupies rec room other ≡ false
      → IsClear rec room other
  unfolding occupies
  occupies-IsClear rec room other e = elim (Bool-cases (is_at other.room_id room)) [
    | inl there ↦ ground (arith, (is_at_iff other.room_id room).0, (holds_room_iff other.state).0)
    | inr elsewhere ↦ inr (inl (λ p. absurd (cc ((is_at_iff other.room_id room).1 p))))
  ]

  IsClear-occupies :
      (rec : Reservation A) (room : ℕ) (other : Reservation A)
      → IsClear rec room other
      → occupies rec room other ≡ false
  unfolding occupies
  IsClear-occupies rec room other c = elim (Bool-cases (is_at other.room_id room)) [
    | inl there ↦ let same = (is_at_iff other.room_id room).0 there in ground arith
    | inr elsewhere ↦ ground arith
  ]

  any_occupies_iff :
      (rec : Reservation A) (room : ℕ) (os : List (Reservation A))
      → (any_occupies rec room os ≡ false) ↔ All (IsClear rec room) os
  unfolding any_occupies
  any_occupies_iff rec room [] = ((λ e. tt), (λ a. refl))
  any_occupies_iff rec room (o ∷ os) =
      let (clear, shut) = any_occupies_iff rec room os in
      (
        (λ e. (occupies-IsClear rec room o (ground arith), clear (ground arith))),
        (λ a. ground (arith, IsClear-occupies rec room o a.0, shut a.1)),
      )

  IsEligible-iff :
      (rec : Reservation A) (r : Room)
      → ((r.room_type_id == rec.room_type_id && is_in_use r.status && r.active) ≡ true)
        ↔ IsEligible rec r
  IsEligible-iff rec r = (
    (λ e. (ground arith, (is_in_use_iff r.status).0 (ground arith), ground arith)),
    (λ c. ground (arith, (is_in_use_iff r.status).1 c.1)),
  )

  free_rooms_sound :
      (h : Hotel A) (rec : Reservation A) (room : Room)
      → Memᴰ room (free_rooms h rec)
      → Memᴰ room h.rooms × IsEligible rec room × IsFree h rec room
  unfolding free_rooms rooms_of_type
  free_rooms_sound h rec room m =
      let (in_type, free) = keep_if-member _ _ m in
      let (listed, eligible) = keep_if-member _ h.rooms in_type in
      (
        listed,
        (IsEligible-iff rec room).0 eligible,
        (any_occupies_iff rec room.id h.reservations).0 (ground arith),
      )

  -- Where no room is free, each eligible room is held by another reservation.
  free_rooms_complete :
      (h : Hotel A) (rec : Reservation A)
      → free_rooms h rec ≡ []
      → All (λ r. IsEligible rec r → ¬ IsFree h rec r) h.rooms
  unfolding free_rooms rooms_of_type
  free_rooms_complete h rec e =
      All-map _ _ h.rooms
        (λ r taken eligible free.
          let e₁ = taken ((IsEligible-iff rec r).1 eligible) in
          let e₂ = (any_occupies_iff rec r.id h.reservations).1 free in ground (arith, e₁, e₂))
        (keep_if-keep_if-none _ _ h.rooms e)

  -- What the assignment has done: it has given the reservation a room of the hotel that fits it and
  -- is free during its stay, or there is no such room and nothing has changed.
  abbrev pub Assigns : Hotel A → Reservation A → Hotel A → Type 0
  Assigns h rec h' =
      ((room : Room) × Memᴰ room h.rooms
        × IsEligible rec room
        × IsFree h rec room
        × (h' ≡ write_reservation rec.id (set_room (some room.id)) h))
      ⊎ ((h' ≡ h) × All (λ r. IsEligible rec r → ¬ IsFree h rec r) h.rooms)

  -- Whatever number the generator draws, a reservation without a room is given one that has its type,
  -- is in use and active, and that no other reservation holds during the stay; only where there is
  -- no such room is none assigned, and then nothing changes.
  pub auto_assign_room-Assigns :
      (choice : ℕ) (rec : Reservation A) (h : Hotel A)
      → rec.room_id ≡ none
      → Assigns h rec (auto_assign_room choice rec h)
  unfolding auto_assign_room
  auto_assign_room-Assigns choice rec h empty =
      elim (Option-cases (pick (free_rooms h rec) choice)) [
        | inl nothing ↦ inr (ground arith, free_rooms_complete h rec (pick-none _ choice nothing))
        | inr (room, drawn) ↦
            let r = free_rooms_sound h rec room (nth-member _ _ drawn) in
            inl (room, r.0, r.1, r.2, ground arith)
      ]
