-- ===== src/Hotel/Audit/Marking.antt =====
-- Whom the night audit of custom-addons/goliatt_pms/models/pms_night_audit.py marks as a no-show.
use odoo_custom.Prelude.{
  ℕ, ◌≡◌, ◌≢◌, refl, sym, inl, inr, true, false, List, [], ◌∷◌, Memᴰ, arith, All, All-map,
  All-update_where, keep_if-hit, keep_if-miss, subst, Bool-cases, keep_if, member-cons,
  not-member-nil,
}
use odoo_custom.Hotel.Schema.{confirmed, guaranteed, no_show, Reservation, Hotel, write_reservation}
use odoo_custom.Hotel.Reservation.{set_state}
use odoo_custom.Hotel.Audit.{is_missing, mark_no_shows}

module _ {A : Type 0} where
  -- The reservation is of another property or another date, or it is not expected any more.
  abbrev pub IsSettled : ℕ → ℕ → Reservation A → Type 0
  IsSettled property date r =
      r.property_id ≡ property
      → r.checkin_date ≡ date
      → (r.state ≢ confirmed) × (r.state ≢ guaranteed)

  not_missing-IsSettled :
      (property date : ℕ) (r : Reservation A)
      → is_missing property date r ≡ false
      → IsSettled property date r
  not_missing-IsSettled property date r e p d = ((λ s. ground arith), (λ s. ground arith))

  -- The reservations that are missing are among those listed.
  abbrev pub AreListed : ℕ → ℕ → List (Reservation A) → List (Reservation A) → Type 0
  AreListed property date ms rs =
      All (λ r. is_missing property date r ≡ true → (m : Reservation A) × Memᴰ m ms × (m.id ≡ r.id))
        rs

  pub keep_if-AreListed :
      (property date : ℕ) (rs : List (Reservation A))
      → AreListed property date (keep_if (is_missing property date) rs) rs
  unfolding keep_if
  keep_if-AreListed property date [] = tt
  keep_if-AreListed property date (r ∷ rs) =
      let p = is_missing property date in
      let later = keep_if-AreListed property date rs in
      elim (Bool-cases (p r)) [
        | inl missing ↦
            subst (λ ms. AreListed property date ms (r ∷ rs)) (sym (keep_if-hit p r rs missing))
              (
                (λ _. (r, Memᴰ.head refl, refl)),
                All-map _ _ rs (λ x known e. let (m, l, same) = known e in (m, Memᴰ.tail l, same))
                    later,
              )
        | inr there ↦
            subst (λ ms. AreListed property date ms (r ∷ rs)) (sym (keep_if-miss p r rs there))
              ((λ e. absurd (cc)), later)
      ]

  marked-AreListed :
      (property date : ℕ) (x : Reservation A) (ms : List (Reservation A)) (h : Hotel A)
      → AreListed property date (x ∷ ms) h.reservations
      → AreListed property date ms (write_reservation x.id (set_state no_show) h).reservations
  unfolding write_reservation
  marked-AreListed property date x ms h listed =
      All-update_where _ _ _ (set_state no_show) h.reservations
        (λ r hit known missing. ground arith)
        (λ r miss known missing.
          let (m, l, same) = known missing in
          elim (member-cons l) [
            | inl is ↦ absurd (ground (arith, is, same))
            | inr later ↦ (m, later, same)
          ])
        listed

  pub mark_no_shows-IsSettled :
      (property date : ℕ) (ms : List (Reservation A)) (h : Hotel A)
      → AreListed property date ms h.reservations
      → All (IsSettled property date) (mark_no_shows ms h).reservations
  unfolding mark_no_shows
  mark_no_shows-IsSettled property date [] h listed =
      All-map _ _ h.reservations
        (λ r known.
          not_missing-IsSettled property date r (elim (Bool-cases (is_missing property date r)) [
            | inl missing ↦ absurd (not-member-nil (known missing).1)
            | inr there ↦ there
          ]))
        listed
  mark_no_shows-IsSettled property date (m ∷ ms) h listed =
      mark_no_shows-IsSettled property date ms (write_reservation m.id (set_state no_show) h)
        (marked-AreListed property date m ms h listed)

  pub mark_no_shows-rest :
      (ms : List (Reservation A)) (h : Hotel A)
      → ((mark_no_shows ms h).charges ≡ h.charges) × ((mark_no_shows ms h).folios ≡ h.folios)
  unfolding mark_no_shows write_reservation
  mark_no_shows-rest [] h = (refl, refl)
  mark_no_shows-rest (m ∷ ms) h =
      mark_no_shows-rest ms (write_reservation m.id (set_state no_show) h)
