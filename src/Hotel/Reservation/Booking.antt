-- ===== src/Hotel/Reservation/Booking.antt =====
-- That no room is booked twice by `create` of custom-addons/goliatt_pms/models/pms_reservation.py.
use odoo_custom.Prelude.{
  ℕ, ◌+◌, ◌≤◌, ◌<◌, ◌≡◌, ◌≢◌, ◌⊎◌, refl, sym, subst, ap, ◌∙◌, inl, inr, true, List, [], ◌∷◌, none,
  some, arith, All, All-map, All-of-each, ◌==◌, update_where, update_where-none,
}
use odoo_custom.Hotel.Schema.{
  cancelled, no_show, Reservation, Hotel, ok, write_reservation, write_guest,
}
use odoo_custom.Hotel.Reservation.{set_room, auto_assign_room, create, check_dates, check_occupancy}
use odoo_custom.Hotel.Reservation.Assignment.{IsClear, auto_assign_room-Assigns}

module _ {A : Type 0} where
  -- The two are the same reservation, have no room in common, do not meet in time, or one of them was
  -- cancelled or a no-show.
  abbrev pub AreCompatible : Reservation A → Reservation A → Type 0
  AreCompatible a b =
      (a.id ≡ b.id)
      ⊎ ((room : ℕ) → a.room_id ≡ some room → b.room_id ≢ some room)
      ⊎ (a.checkout_date ≤ b.checkin_date)
      ⊎ (b.checkout_date ≤ a.checkin_date)
      ⊎ ((a.state ≡ cancelled) ⊎ (a.state ≡ no_show))
      ⊎ ((b.state ≡ cancelled) ⊎ (b.state ≡ no_show))

  -- No room is booked twice, and each reservation has a number that was given out.
  pub record IsBooked (h : Hotel A) : Type 0 where
    pub apart : All (λ a. All (AreCompatible a) h.reservations) h.reservations
    pub numbered : All (λ (r : Reservation A). r.id < h.next_id) h.reservations

  AreCompatible-symm : (a b : Reservation A) → AreCompatible a b → AreCompatible b a
  AreCompatible-symm a b (inl same) = inl (sym same)
  AreCompatible-symm a b (inr (inl r)) = inr (inl (λ room p q. r room q p))
  AreCompatible-symm a b (inr (inr (inl e))) = inr (inr (inr (inl e)))
  AreCompatible-symm a b (inr (inr (inr (inl e)))) = inr (inr (inl e))
  AreCompatible-symm a b (inr (inr (inr (inr (inl e))))) = inr (inr (inr (inr (inr e))))
  AreCompatible-symm a b (inr (inr (inr (inr (inr e))))) = inr (inr (inr (inr (inl e))))

  IsClear→AreCompatible :
      (rec : Reservation A) (room : ℕ) (o : Reservation A)
      → IsClear rec room o
      → AreCompatible (set_room (some room) rec) o
  IsClear→AreCompatible rec room o (inl same) = inl (sym same)
  IsClear→AreCompatible rec room o (inr (inl other)) =
      inr (inl (λ r p q. other (ground (arith, p, q))))
  IsClear→AreCompatible rec room o (inr (inr (inl e))) = inr (inr (inl e))
  IsClear→AreCompatible rec room o (inr (inr (inr (inl e)))) = inr (inr (inr (inl e)))
  IsClear→AreCompatible rec room o (inr (inr (inr (inr e)))) = inr (inr (inr (inr (inr e))))

  -- One more reservation, of a new number and compatible with the others, keeps the invariant.
  cons-IsBooked :
      (h h' : Hotel A) (rec : Reservation A)
      → IsBooked h
      → rec.id ≡ h.next_id
      → h'.next_id ≡ h.next_id + 1
      → h'.reservations ≡ rec ∷ h.reservations
      → All (AreCompatible rec) h.reservations
      → IsBooked h'
  cons-IsBooked h h' rec booked named next listed clear = record {
    apart =
        subst (λ l. All (λ a. All (AreCompatible a) l) l) (sym listed)
          ((inl refl, clear), zip_clear h.reservations clear booked.apart);
    numbered =
        subst (λ l. All (λ (r : Reservation A). r.id < h'.next_id) l) (sym listed)
          (omega arith, All-map _ _ h.reservations (λ r lt. omega arith) booked.numbered);
  }
    where
      zip_clear :
          (xs : List (Reservation A))
          → All (AreCompatible rec) xs
          → All (λ a. All (AreCompatible a) h.reservations) xs
          → All (λ a. AreCompatible a rec × All (AreCompatible a) h.reservations) xs
      zip_clear [] c b = tt
      zip_clear (x ∷ xs) c b = ((AreCompatible-symm rec x c.0, b.0), zip_clear xs c.1 b.1)

  write_new :
      (n : ℕ) (f : Reservation A → Reservation A) (x : Reservation A) (xs : List (Reservation A))
      → x.id ≡ n
      → All (λ (r : Reservation A). r.id < n) xs
      → update_where (λ (r : Reservation A). r.id == n) f (x ∷ xs) ≡ f x ∷ xs
  unfolding update_where
  write_new n f x xs named old =
      let rest =
        update_where-none (λ (r : Reservation A). r.id == n) f xs
          (All-map _ _ xs (λ r lt. ground arith) old) in
      ground (arith, rest)

  -- `create` has passed the checks, added the reservation and assigned a room.
  created :
      (choice : ℕ) (vals : Reservation A) (h h' : Hotel A)
      → create choice vals h ≡ ok h'
      → let rec : Reservation A = record vals { id = h.next_id } in
        h'
        ≡ auto_assign_room choice rec (
            write_guest rec.guest_id
              (λ g. record g { is_hotel_guest = true })
              (record h { reservations = rec ∷ h.reservations; next_id = h.next_id + 1 }))
  unfolding create check_dates check_occupancy
  created choice vals h h' e = ground arith

  -- `create` lists one more reservation, with the number that is next.
  pub create-cons :
      (choice : ℕ) (vals : Reservation A) (h : Hotel A) {h' : Hotel A}
      → vals.room_id ≡ none
      → IsBooked h
      → create choice vals h ≡ ok h'
      → (rec : Reservation A) × (h'.reservations ≡ rec ∷ h.reservations)
        × (rec.id ≡ h.next_id)
        × (rec.state ≡ vals.state)
  unfolding write_reservation write_guest
  create-cons choice vals h {h'} empty booked e =
      let rec : Reservation A = record vals { id = h.next_id } in
      let known =
        write_guest rec.guest_id (λ g. record g { is_hotel_guest = true })
          (record h { reservations = rec ∷ h.reservations; next_id = h.next_id + 1 }) in
      elim (auto_assign_room-Assigns choice rec known empty) [
        | inl (room, _, _, free, is) ↦
            let same = created choice vals h h' e ∙ is in
            (
              set_room (some room.id) rec,
              ap (λ (d : Hotel A). d.reservations) same
                  ∙ write_new h.next_id _ rec h.reservations refl booked.numbered,
              refl,
              refl,
            )
        | inr (is, _) ↦
            let same = created choice vals h h' e ∙ is in
            (rec, ap (λ (d : Hotel A). d.reservations) same, refl, refl)
      ]

  -- Creating a reservation without a room keeps every room from being booked twice, whatever room the
  -- generator picks for it.
  pub create-IsBooked :
      (choice : ℕ) (vals : Reservation A) (h : Hotel A) {h' : Hotel A}
      → vals.room_id ≡ none
      → IsBooked h
      → create choice vals h ≡ ok h'
      → IsBooked h'
  unfolding write_reservation write_guest
  create-IsBooked choice vals h {h'} empty booked e =
      elim (auto_assign_room-Assigns choice rec known empty) [
        | inl (room, _, _, free, is) ↦
            let same = created choice vals h h' e ∙ is in
            cons-IsBooked h h' (set_room (some room.id) rec) booked refl
              (ap (λ (d : Hotel A). d.next_id) same)
              (ap (λ (d : Hotel A). d.reservations) same
                ∙ write_new h.next_id _ rec h.reservations refl booked.numbered)
              (All-map _ _ h.reservations (IsClear→AreCompatible rec room.id) free.1)
        | inr (is, _) ↦
            let same = created choice vals h h' e ∙ is in
            cons-IsBooked h h' rec booked refl (ap (λ (d : Hotel A). d.next_id) same)
              (ap (λ (d : Hotel A). d.reservations) same)
              (All-of-each _ h.reservations (λ o. inr (inl (λ room p. absurd (cc)))))
      ]
    where
      rec : Reservation A
      rec = record vals { id = h.next_id }

      known : Hotel A
      known =
          write_guest rec.guest_id (λ g. record g { is_hotel_guest = true })
            (record h { reservations = rec ∷ h.reservations; next_id = h.next_id + 1 })
