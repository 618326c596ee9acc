-- ===== src/Hotel/Lifecycle/Reach.antt =====
-- What holds of every hotel that the methods of custom-addons/goliatt_pms/models reach.
use odoo_custom.Prelude.{
  ℕ, ◌≤◌, ◌≡◌, ◌≢◌, refl, subst, inl, inr, List, [], ◌∷◌, none, some, arith, Option-cases,
}
use odoo_custom.Hotel.Schema.{
  Floats, cancelled, no_show, Reservation, Hotel, Result, ok, err, find_reservation,
}
use odoo_custom.Hotel.Reservation.{action_confirm, action_checkin}
use odoo_custom.Hotel.Kiosk.{Session, linked, try_checkin, action_complete_checkin}
use odoo_custom.Hotel.Folio.{create_folio}
use odoo_custom.Hotel.Audit.{
  Audit, open_folio, post_charge, post_charges, mark_no_shows, in_house, no_shows, action_run,
}
use odoo_custom.Hotel.Lifecycle.{
  Step, Steps, creating, confirming, checking_in, checking_out, cancelling, not_showing, auditing,
  completing, IsTidy, AreTidy, stop, step,
}
use odoo_custom.Hotel.Lifecycle.Sound.{IsSound, IsSound-mono}
use odoo_custom.Hotel.Lifecycle.Writes.{
  create-IsSound, confirm-IsSound, checkin-IsSound, checkout-IsSound, cancel-IsSound,
  no_show-IsSound, mark_no_shows-IsSound,
}

module _ {A : Type 0} where
  confirming-IsSound :
      (id : ℕ) (h h' : Hotel A)
      → ((rec : Reservation A)
          → find_reservation id h ≡ some rec
          → (rec.state ≢ cancelled) × (rec.state ≢ no_show))
      → action_confirm id h ≡ ok h'
      → IsSound h
      → IsSound h'
  unfolding action_confirm
  confirming-IsSound id h h' live e sound = elim (Option-cases (find_reservation id h)) [
    | inl nothing ↦ absurd (ground (arith, nothing))
    | inr (rec, found) ↦
        let (here, shown) = live rec found in confirm-IsSound id rec h h' found here shown e sound
  ]

  try_checkin-IsSound :
      (now : ℕ) (s : Session) (res : Reservation A) (room : ℕ) (h : Hotel A)
      → IsSound h
      → IsSound (try_checkin now s res room h).1
  unfolding try_checkin
  try_checkin-IsSound now s res room h sound = by_result (action_checkin res.id h) refl
    where
      by_result :
          (r : Result (Hotel A))
          → action_checkin res.id h ≡ r
          → IsSound (try_checkin now s res room h).1
      by_result (ok h') is = rw (is, try_checkin) (checkin-IsSound res.id h h' is sound)
      by_result (err e) is = rw (is, try_checkin) sound

  -- The kiosk, for a reservation that has a room.
  completing-IsSound :
      (now : ℕ) (s s' : Session) (h h' : Hotel A)
      → ((rec : Reservation A) → linked s h ≡ some rec → rec.room_id ≢ none)
      → action_complete_checkin now s h ≡ (s', h')
      → IsSound h
      → IsSound h'
  unfolding action_complete_checkin
  completing-IsSound now s s' h h' roomed e sound = elim (Option-cases (linked s h)) [
    | inl nothing ↦ let same : h ≡ h' = ground (arith, nothing) in subst IsSound same sound
    | inr (res, is) ↦ elim (Option-cases res.room_id) [
      | inl empty ↦ absurd (roomed res is empty)
      | inr (room, has) ↦
          let same : (try_checkin now s res room h).1 ≡ h' = ground (arith, is, has) in
          subst IsSound same (try_checkin-IsSound now s res room h sound)
    ]
  ]

  module _ (F : Floats A) where
    post_charge-rest :
        (date : ℕ) (res : Reservation A) (h : Hotel A)
        → ((post_charge F date res h).reservations ≡ h.reservations)
          × (h.next_id ≤ (post_charge F date res h).next_id)
    unfolding post_charge create_folio
    post_charge-rest date res h = elim (Option-cases (open_folio res.id h)) [
      | inl nothing ↦ rw (nothing, post_charge) (refl, omega arith)
      | inr (f, found) ↦ rw (found, post_charge) (refl, omega arith)
    ]

    post_charges-IsSound :
        (date : ℕ) (rs : List (Reservation A)) (h : Hotel A)
        → IsSound h
        → IsSound (post_charges F date rs h)
    unfolding post_charges
    post_charges-IsSound date [] h sound = sound
    post_charges-IsSound date (r ∷ rs) h sound =
        let (same, more) = post_charge-rest date r h in
        post_charges-IsSound date rs (post_charge F date r h) (IsSound-mono h _ same more sound)

    action_run-IsSound :
        (audit audit' : Audit) (h h' : Hotel A)
        → action_run F audit h ≡ ok (audit', h')
        → IsSound h
        → IsSound h'
    unfolding action_run
    action_run-IsSound audit audit' h h' e sound =
        let charged = post_charges F audit.audit_date (in_house audit h) h in
        let is : mark_no_shows (no_shows audit charged) charged ≡ h' = ground (arith, e) in
        subst IsSound is (
          mark_no_shows-IsSound (no_shows audit charged) charged
            (post_charges-IsSound audit.audit_date (in_house audit h) h sound))

    Step-IsSound : (h h' : Hotel A) (one : Step F h h') → IsTidy F h h' one → IsSound h → IsSound h'
    Step-IsSound h h' (creating choice vals e) (empty, fresh) sound =
        create-IsSound choice vals h h' empty fresh e sound
    Step-IsSound h h' (confirming id e) live sound = confirming-IsSound id h h' live e sound
    Step-IsSound h h' (checking_in id e) tidy sound = checkin-IsSound id h h' e sound
    Step-IsSound h h' (checking_out id e) tidy sound = checkout-IsSound id h h' e sound
    Step-IsSound h h' (cancelling now id e) tidy sound = cancel-IsSound now id h h' e sound
    Step-IsSound h h' (not_showing id e) tidy sound = no_show-IsSound id h h' e sound
    Step-IsSound h h' (auditing audit audit' e) tidy sound =
        action_run-IsSound audit audit' h h' e sound
    Step-IsSound h h' (completing now s s' e) roomed sound =
        completing-IsSound now s s' h h' roomed e sound

    -- No sequence of creations, confirmations, check-ins, at the desk or the kiosk, check-outs,
    -- cancellations, no-shows and night audits ever books a room twice, uses a number twice or leaves a
    -- reservation checked in without a room, if this was so at the start, every reservation is created
    -- without a room and not checked in, none is confirmed that is cancelled or a no-show, and the kiosk
    -- completes only sessions whose reservation, where there is one, has a room.
    pub Steps-IsSound :
        (h h' : Hotel A) (run : Steps F h h') → AreTidy F h h' run → IsSound h → IsSound h'
    Steps-IsSound h h' stop tidy sound = sound
    Steps-IsSound h h' (step {h₁} one rest) tidy sound =
        Steps-IsSound h₁ h' rest tidy.1 (Step-IsSound h h₁ one tidy.0 sound)
