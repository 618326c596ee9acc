-- ===== src/Hotel/Lifecycle/Sound.antt =====
-- The invariant of the reservations of custom-addons/goliatt_pms/models/pms_reservation.py, and that
-- writing one reservation keeps it.
use odoo_custom.Prelude.{
  ℕ, ◌≤◌, ◌<◌, ◌≡◌, ◌≢◌, ◌⊎◌, refl, sym, subst, ap, ◌∙◌, inl, inr, List, none, some, arith, All,
  All-map, All-zip, All-member, All-update_where, Bool-cases, find?-holds, ◌==◌, update_where,
  if◌then◌else◌,
}
use odoo_custom.Hotel.Schema.{
  checked_in, cancelled, no_show, Reservation, Hotel, find_reservation, write_reservation,
}
use odoo_custom.Hotel.Reservation.Booking.{AreCompatible, IsBooked}

module _ {A : Type 0} where
  abbrev pub IsGone : Reservation A → Type 0
  IsGone r = (r.state ≡ cancelled) ⊎ (r.state ≡ no_show)

  abbrev pub IsRoomed : Reservation A → Type 0
  IsRoomed r = r.state ≡ checked_in → r.room_id ≢ none

  -- No room is booked twice, no number is used twice, and who is checked in has a room.
  pub record IsSound (h : Hotel A) : Type 0 where
    pub booked : IsBooked h
    pub unique :
        All (λ (a : Reservation A). All (λ b. a.id ≡ b.id → a ≡ b) h.reservations) h.reservations
    pub roomed : All IsRoomed h.reservations

  -- A write that keeps the room and the dates, and takes no room back that was given up.
  pub record Keeps (r r' : Reservation A) : Type 0 where
    pub id : r'.id ≡ r.id
    pub room : r'.room_id ≡ r.room_id
    pub checkin : r'.checkin_date ≡ r.checkin_date
    pub checkout : r'.checkout_date ≡ r.checkout_date
    pub gone : IsGone r → IsGone r'
    pub roomed : IsRoomed r → IsRoomed r'

  pub Keeps-refl : (r : Reservation A) → Keeps r r
  Keeps-refl r = record {
    id = refl;
    room = refl;
    checkin = refl;
    checkout = refl;
    gone = λ g. g;
    roomed = λ g. g;
  }

  Keeps-AreCompatible :
      (a b a' b' : Reservation A)
      → Keeps a a'
      → Keeps b b'
      → AreCompatible a b
      → AreCompatible a' b'
  Keeps-AreCompatible a b a' b' k l (inl same) = inl (k.id ∙ (same ∙ sym l.id))
  Keeps-AreCompatible a b a' b' k l (inr (inl r)) =
      inr (inl (λ room p q. r room (sym k.room ∙ p) (sym l.room ∙ q)))
  Keeps-AreCompatible a b a' b' k l (inr (inr (inl e))) =
      inr (inr (inl (let p = k.checkout in let q = l.checkin in omega arith)))
  Keeps-AreCompatible a b a' b' k l (inr (inr (inr (inl e)))) =
      inr (inr (inr (inl (let p = k.checkin in let q = l.checkout in omega arith))))
  Keeps-AreCompatible a b a' b' k l (inr (inr (inr (inr (inl e))))) =
      inr (inr (inr (inr (inl (k.gone e)))))
  Keeps-AreCompatible a b a' b' k l (inr (inr (inr (inr (inr e))))) =
      inr (inr (inr (inr (inr (l.gone e)))))

  -- The soundness of a hotel is one of its reservations and of the numbers that were given out.
  pub IsSound-mono :
      (h h' : Hotel A)
      → h'.reservations ≡ h.reservations
      → h.next_id ≤ h'.next_id
      → IsSound h
      → IsSound h'
  IsSound-mono h h' same le sound = record {
    booked = record {
      apart = subst (λ rs. All (λ a. All (AreCompatible a) rs) rs) (sym same) sound.booked.apart;
      numbered =
          subst (All (λ (r : Reservation A). r.id < h'.next_id)) (sym same)
            (All-map _ _ h.reservations (λ r lt. omega arith) sound.booked.numbered);
    };
    unique =
        subst (λ rs. All (λ (a : Reservation A). All (λ b. a.id ≡ b.id → a ≡ b) rs) rs) (sym same)
          sound.unique;
    roomed = subst (All IsRoomed) (sym same) sound.roomed;
  }

  module _ (id : ℕ) (set : Reservation A → Reservation A) where
    -- What a write makes of a row.
    abbrev pub move : Reservation A → Reservation A
    move r = if r.id == id then set r else r

    All-move :
        (K : Reservation A → Type 0) (P Q : Reservation A → Type 0) (rs : List (Reservation A))
        → All K rs
        → ((r : Reservation A) → K r → P r → Q (move r))
        → All P rs
        → All Q (update_where (λ (r : Reservation A). r.id == id) set rs)
    All-move K P Q rs known each all =
        All-update_where (λ r. K r × P r) Q _ set rs
          (λ r hit both. subst Q (ground (arith, hit)) (each r both.0 both.1))
          (λ r miss both. subst Q (ground (arith, miss)) (each r both.0 both.1))
          (All-zip K P rs known all)

    -- A write that keeps each of the reservations keeps the invariant.
    pub moves-IsSound :
        (h : Hotel A)
        → All (λ r. Keeps r (move r)) h.reservations
        → IsSound h
        → IsSound (write_reservation id set h)
    unfolding write_reservation
    moves-IsSound h keeps sound =
        let rs = h.reservations in
        let K : Reservation A → Type 0 = (λ r. Keeps r (move r)) in
        record {
          booked = record {
            apart =
                All-move K _ _ rs keeps
                  (λ a k all.
                    All-move K _ _ rs keeps
                      (λ b l c. Keeps-AreCompatible a b (move a) (move b) k l c) all)
                  sound.booked.apart;
            numbered =
                All-move K _ _ rs keeps (λ r k lt. subst (λ n. n < h.next_id) (sym k.id) lt)
                  sound.booked.numbered;
          };
          unique =
              All-move K _ _ rs keeps
                (λ a k all.
                  All-move K _ _ rs keeps
                    (λ b l known same. ap move (known (sym k.id ∙ (same ∙ l.id)))) all)
                sound.unique;
          roomed = All-move K _ _ rs keeps (λ r k g. k.roomed g) sound.roomed;
        }

    -- A write that keeps the one reservation that it finds keeps the invariant.
    pub write-IsSound :
        (h : Hotel A) {rec : Reservation A}
        → find_reservation id h ≡ some rec
        → Keeps rec (set rec)
        → IsSound h
        → IsSound (write_reservation id set h)
    write-IsSound h {rec} found kept sound =
        let (hit, listed) = find?-holds _ h.reservations found in
        let only = All-member _ h.reservations listed sound.unique in
        moves-IsSound h
          (All-map _ _ h.reservations
            (λ r same. elim (Bool-cases (r.id == id)) [
              | inl here ↦
                  let is : rec ≡ r = same (ground (arith, hit, here)) in
                  subst (λ x. Keeps r x) (ground (arith, here))
                    (subst (λ x. Keeps x (set x)) is kept)
              | inr there ↦ subst (λ x. Keeps r x) (ground (arith, there)) (Keeps-refl r)
            ])
            only)
          sound
