-- ===== src/Hotel/Lifecycle/Writes.antt =====
-- That each method of custom-addons/goliatt_pms/models/pms_reservation.py keeps the invariant of the
-- reservations, and so does marking no-shows.
use odoo_custom.Prelude.{
  ℕ, ◌≤◌, ◌≡◌, ◌≢◌, refl, sym, subst, ◌∙◌, inl, inr, List, [], ◌∷◌, none, some, arith, All, All-map,
  All-zip, All-of-each, Bool-cases, Option-cases, ◌==◌, if-holds, find?-holds,
}
use odoo_custom.Hotel.Schema.{
  confirmed, checked_in, checked_out, cancelled, no_show, Reservation, Hotel, ok, find_reservation,
  write_reservation, write_room,
}
use odoo_custom.Hotel.Reservation.{
  is_arriving, is_checked_in, is_in_or_out, set_state, occupy, create, action_confirm, check_in,
  action_checkin, leave_room, create_task, check_out, action_checkout, action_cancel,
  action_no_show,
}
use odoo_custom.Hotel.Reservation.Booking.{create-IsBooked, create-cons}
use odoo_custom.Hotel.Audit.{mark_no_shows}
use odoo_custom.Hotel.Lifecycle.Sound.{
  IsSound, IsRoomed, Keeps, Keeps-refl, IsSound-mono, moves-IsSound, write-IsSound,
}

module _ {A : Type 0} where
  pub create-IsSound :
      (choice : ℕ) (vals : Reservation A) (h h' : Hotel A)
      → vals.room_id ≡ none
      → vals.state ≢ checked_in
      → create choice vals h ≡ ok h'
      → IsSound h
      → IsSound h'
  create-IsSound choice vals h h' empty fresh e sound =
      let (rec, listed, named, same) = create-cons choice vals h empty sound.booked e in
      let older = sound.booked.numbered in
      record {
        booked = create-IsBooked choice vals h empty sound.booked e;
        unique =
            subst (λ rs. All (λ (a : Reservation A). All (λ b. a.id ≡ b.id → a ≡ b) rs) rs)
              (sym listed)
              (
                ((λ p. refl), All-map _ _ h.reservations (λ b lt p. absurd (omega arith)) older),
                All-map _ _ h.reservations
                    (λ a both. ((λ p. absurd (omega (arith, both.0))), both.1))
                    (All-zip _ _ h.reservations older sound.unique),
              );
        roomed =
            subst (All IsRoomed) (sym listed) ((λ p. absurd (fresh (sym same ∙ p))), sound.roomed);
      }

  pub confirm-IsSound :
      (id : ℕ) (rec : Reservation A) (h h' : Hotel A)
      → find_reservation id h ≡ some rec
      → rec.state ≢ cancelled
      → rec.state ≢ no_show
      → action_confirm id h ≡ ok h'
      → IsSound h
      → IsSound h'
  unfolding action_confirm
  confirm-IsSound id rec h h' found here shown e sound = subst IsSound (ground (arith, found, e)) (
      write-IsSound id (set_state confirmed) h found
        (record {
          id = refl;
          room = refl;
          checkin = refl;
          checkout = refl;
          gone = λ g. elim g [ inl c ↦ absurd (here c) | inr n ↦ absurd (shown n) ];
          roomed = λ g p. absurd (cc);
        })
        sound)

  find-own :
      (id : ℕ) (h : Hotel A) {rec : Reservation A}
      → find_reservation id h ≡ some rec
      → find_reservation rec.id h ≡ some rec
  find-own id h {rec} found =
      let (hit, _) = find?-holds _ h.reservations found in
      let same : id ≡ rec.id = ground arith in
      subst (λ i. find_reservation i h ≡ some rec) same found

  pub checkin-IsSound :
      (id : ℕ) (h h' : Hotel A) → action_checkin id h ≡ ok h' → IsSound h → IsSound h'
  unfolding action_checkin check_in write_room
  checkin-IsSound id h h' e sound = elim (Option-cases (find_reservation id h)) [
    | inl nothing ↦ absurd (ground (arith, nothing))
    | inr (rec, found) ↦ elim (Option-cases rec.room_id) [
      | inl empty ↦ absurd (ground (arith, found, empty))
      | inr (room, has) ↦ elim (Bool-cases (is_arriving rec.state)) [
        | inr other ↦ absurd (ground (arith, found, has, other))
        | inl arriving ↦
            let written = write_reservation rec.id (set_state checked_in) h in
            subst IsSound (ground (arith, found, has, arriving, e)) (
              IsSound-mono written (write_room room (occupy rec.id) written) refl (omega arith) (
                write-IsSound rec.id (set_state checked_in) h (find-own id h found)
                  (record {
                    id = refl;
                    room = refl;
                    checkin = refl;
                    checkout = refl;
                    gone = λ g. absurd (ground (arith, arriving));
                    roomed = λ g p q. absurd (cc);
                  })
                  sound))
      ]
    ]
  ]

  leave_room-rest :
      (rec : Reservation A) (h : Hotel A)
      → ((leave_room rec h).reservations ≡ h.reservations)
        × (h.next_id ≤ (leave_room rec h).next_id)
  unfolding leave_room create_task write_room
  leave_room-rest rec h = elim (Option-cases rec.room_id) [
    | inl empty ↦ rw empty (refl, omega arith)
    | inr (room, has) ↦ rw has (refl, omega arith)
  ]

  pub checkout-IsSound :
      (id : ℕ) (h h' : Hotel A) → action_checkout id h ≡ ok h' → IsSound h → IsSound h'
  unfolding action_checkout check_out
  checkout-IsSound id h h' e sound = elim (Option-cases (find_reservation id h)) [
    | inl nothing ↦ absurd (ground (arith, nothing))
    | inr (rec, found) ↦ elim (Bool-cases (is_checked_in rec.state)) [
      | inr other ↦ absurd (ground (arith, found, other))
      | inl staying ↦
          let written = write_reservation rec.id (set_state checked_out) h in
          let (same, more) = leave_room-rest rec written in
          subst IsSound (ground (arith, found, staying, e)) (
            IsSound-mono written (leave_room rec written) same more (
              write-IsSound rec.id (set_state checked_out) h (find-own id h found)
                (record {
                  id = refl;
                  room = refl;
                  checkin = refl;
                  checkout = refl;
                  gone = λ g. absurd (ground (arith, staying));
                  roomed = λ g p. absurd (cc);
                })
                sound))
    ]
  ]

  pub cancel-IsSound :
      (now id : ℕ) (h h' : Hotel A) → action_cancel now id h ≡ ok h' → IsSound h → IsSound h'
  unfolding action_cancel
  cancel-IsSound now id h h' e sound = elim (Option-cases (find_reservation id h)) [
    | inl nothing ↦ absurd (ground (arith, nothing))
    | inr (rec, found) ↦ elim (Bool-cases (is_in_or_out rec.state)) [
      | inl late ↦ absurd (ground (arith, found, late))
      | inr early ↦ subst IsSound (ground (arith, found, early, e)) (
          write-IsSound id (λ r. record r { state = cancelled; cancellation_date = some now }) h
            found
            (record {
              id = refl;
              room = refl;
              checkin = refl;
              checkout = refl;
              gone = λ g. inl refl;
              roomed = λ g p. absurd (cc);
            })
            sound)
    ]
  ]

  noshow-Keeps : (r : Reservation A) → Keeps r (set_state no_show r)
  noshow-Keeps r = record {
    id = refl;
    room = refl;
    checkin = refl;
    checkout = refl;
    gone = λ g. inr refl;
    roomed = λ g p. absurd (cc);
  }

  pub no_show-IsSound :
      (id : ℕ) (h h' : Hotel A) → action_no_show id h ≡ ok h' → IsSound h → IsSound h'
  unfolding action_no_show
  no_show-IsSound id h h' e sound = elim (Option-cases (find_reservation id h)) [
    | inl nothing ↦ absurd (ground (arith, nothing))
    | inr (rec, found) ↦ elim (Bool-cases (is_arriving rec.state)) [
      | inr other ↦ absurd (ground (arith, found, other))
      | inl arriving ↦
          subst IsSound (ground (arith, found, arriving, e))
            (write-IsSound id (set_state no_show) h found (noshow-Keeps rec) sound)
    ]
  ]

  pub mark_no_shows-IsSound :
      (ms : List (Reservation A)) (h : Hotel A) → IsSound h → IsSound (mark_no_shows ms h)
  unfolding mark_no_shows
  mark_no_shows-IsSound [] h sound = sound
  mark_no_shows-IsSound (m ∷ ms) h sound =
      mark_no_shows-IsSound ms (write_reservation m.id (set_state no_show) h) (
        moves-IsSound m.id (set_state no_show) h
          (All-of-each _ h.reservations (λ r.
            if-holds (Keeps r) (r.id == m.id) (set_state no_show r) r (λ hit. noshow-Keeps r)
              (λ miss. Keeps-refl r)))
          sound)
