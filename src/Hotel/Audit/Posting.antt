-- ===== src/Hotel/Audit/Posting.antt =====
-- What the night audit of custom-addons/goliatt_pms/models/pms_night_audit.py posts.
use odoo_custom.Prelude.{
  ℕ, ◌≡◌, refl, ap, ◌∙◌, inl, inr, true, List, [], ◌∷◌, Memᴰ, arith, Option-cases, find?-holds, map,
}
use odoo_custom.Hotel.Schema.{
  Floats, HasUnit, opened, FolioState, Reservation, Folio, Charge, Hotel,
}
use odoo_custom.Hotel.Folio.{create_folio, charge_amount}
use odoo_custom.Hotel.Audit.{
  is_open_folio, open_folio, product_of, room_charge, post_charge, post_charges,
}

-- Adding the elements of the first list, one after the other, at the front of the second.
abbrev pub reverse_onto {ℓ} : {B : Type ℓ} → List B → List B → List B
reverse_onto [] ys = ys
reverse_onto (x ∷ xs) ys = reverse_onto xs (x ∷ ys)

is_open_folio_eq : (s : FolioState) → is_open_folio s ≡ true → s ≡ opened
is_open_folio_eq s e = ground arith

module _ {A : Type 0} (F : Floats A) (date : ℕ) where
  -- The charge is for one night of the reservation, at its rate, on one of its open folios.
  pub record IsNight (folios : List Folio) (res : Reservation A) (c : Charge A) : Type 0 where
    pub dated : c.date ≡ date
    pub one_night : c.quantity ≡ F.one
    pub at_rate : c.unit_price ≡ res.daily_rate
    pub on_folio :
        (f : Folio) × Memᴰ f folios
        × (f.id ≡ c.folio_id)
        × (f.reservation_id ≡ res.id)
        × (f.state ≡ opened)

  -- One charge for each reservation, in their order.
  abbrev pub AreNights : List Folio → List (Reservation A) → List (Charge A) → Type 0
  AreNights folios [] [] = Unit
  AreNights folios [] (c ∷ cs) = ⊥
  AreNights folios (r ∷ rs) [] = ⊥
  AreNights folios (r ∷ rs) (c ∷ cs) = IsNight folios r c × AreNights folios rs cs

  -- What one turn of the loop has done.
  abbrev pub Posts : Reservation A → Hotel A → Hotel A → Type 0
  Posts res h h' =
      (c : Charge A) × (h'.charges ≡ c ∷ h.charges)
      × IsNight h'.folios res c
      × (h'.reservations ≡ h.reservations)
      × ((f : Folio) → Memᴰ f h.folios → Memᴰ f h'.folios)

  post_charge-Posts : (res : Reservation A) (h : Hotel A) → Posts res h (post_charge F date res h)
  unfolding create_folio post_charge
  post_charge-Posts res h = elim (Option-cases (open_folio res.id h)) [
    | inl nothing ↦
        rw (nothing, post_charge)
          (
            room_charge F (product_of F res h) h.next_id date res,
            refl,
            record {
              dated = refl;
              one_night = refl;
              at_rate = refl;
              on_folio = (_, Memᴰ.head refl, refl, refl, refl);
            },
            refl,
            (λ f m. Memᴰ.tail m),
          )
    | inr (f, found) ↦
        let (hit, listed) = find?-holds _ h.folios found in
        rw (found, post_charge)
          (
            room_charge F (product_of F res h) f.id date res,
            refl,
            record {
              dated = refl;
              one_night = refl;
              at_rate = refl;
              on_folio = (f, listed, refl, ground arith, is_open_folio_eq f.state (ground arith));
            },
            refl,
            (λ f m. m),
          )
  ]

  IsNight-mono :
      (fs gs : List Folio) (r : Reservation A) (c : Charge A)
      → ((f : Folio) → Memᴰ f fs → Memᴰ f gs)
      → IsNight fs r c
      → IsNight gs r c
  IsNight-mono fs gs r c more night =
      let (f, m, same, owner, is_open) = night.on_folio in
      record {
        dated = night.dated;
        one_night = night.one_night;
        at_rate = night.at_rate;
        on_folio = (f, more f m, same, owner, is_open);
      }

  -- What the loop has done.
  abbrev pub PostsAll : List (Reservation A) → Hotel A → Hotel A → Type 0
  PostsAll rs h h' =
      (posted : List (Charge A)) × (h'.charges ≡ reverse_onto posted h.charges)
      × AreNights h'.folios rs posted
      × (h'.reservations ≡ h.reservations)
      × ((f : Folio) → Memᴰ f h.folios → Memᴰ f h'.folios)

  pub post_charges-PostsAll :
      (rs : List (Reservation A)) (h : Hotel A) → PostsAll rs h (post_charges F date rs h)
  unfolding post_charges
  post_charges-PostsAll [] h = ([], refl, tt, refl, (λ f m. m))
  post_charges-PostsAll (r ∷ rs) h =
      let h₁ = post_charge F date r h in
      let (c, charged, night, same, more) = post_charge-Posts r h in
      let (posted, later, nights, same', more') = post_charges-PostsAll rs h₁ in
      (
        c ∷ posted,
        later ∙ ap (reverse_onto posted) charged,
        (IsNight-mono h₁.folios _ r c more' night, nights),
        same' ∙ same,
        (λ f m. more' f (more f m)),
      )

  -- The charges come to the rates of the reservations.
  pub AreNights-amounts :
      HasUnit F
      → (folios : List Folio) (rs : List (Reservation A)) (cs : List (Charge A))
      → AreNights folios rs cs
      → map (charge_amount F) cs ≡ map (λ (r : Reservation A). r.daily_rate) rs
  unfolding charge_amount
  AreNights-amounts unit folios [] [] n = refl
  AreNights-amounts unit folios [] (c ∷ cs) n = absurd n
  AreNights-amounts unit folios (r ∷ rs) [] n = absurd n
  AreNights-amounts unit folios (r ∷ rs) (c ∷ cs) n =
      let later = AreNights-amounts unit folios rs cs n.1 in
      let here = unit.one_mul r.daily_rate in let q = n.0.one_night in let p = n.0.at_rate in cc
