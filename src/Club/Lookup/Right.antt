-- ===== src/Club/Lookup/Right.antt =====
-- That each lookup of custom-addons/club_access_control/models/club_access_entry.py is right.
use odoo_custom.Prelude.{
  ℕ, ◌≡◌, sym, subst, inl, inr, Memᴰ, Option, none, some, arith, Option-cases, Option-holds,
  find?-holds,
}
use odoo_custom.Prelude.Text.{Text, text_eq→eq}
use odoo_custom.Club.Schema.{
  Method, membership_card, access_card, gov_id, vehicle_plate, qr_code, manual_lookup, Guest, Visit,
  no_visit_today, visit_not_now, Club,
}
use odoo_custom.Club.Persons.{
  Found, Outside, admit_affiliate, admit_employee, admit_registration, admit_staff, find_affiliate,
  refuse_guest, resolve_guest_visit_access,
}
use odoo_custom.Club.Lookup.{
  employee_by_id, find_visit, found_affiliate, guest_by_id, guest_visit, lookup,
  lookup_by_access_card, lookup_by_gov_id, lookup_by_membership_card, lookup_by_qr_code,
  lookup_by_vehicle_plate, party_by_id, registration_by_id, resolved, staff_by_id, visit_by_plate,
  visit_by_token,
}
use odoo_custom.Club.Lookup.Admission.{
  IsRight?, as_attendee, admit_affiliate-IsRight, admit_employee-IsRight, resolve-IsRight,
  admit_staff-IsRight, refuse_guest-IsRight,
}

module _ (out : Outside) (now today : ℕ) (club : Club) where
  -- The lookups of this club.
  abbrev Right : Text → Option Found → Type 0
  Right val r = IsRight? out now today club val r

  lookup_by_membership_card-IsRight :
      (val : Text) → Right val (lookup_by_membership_card out now today club val)
  unfolding lookup_by_membership_card
  lookup_by_membership_card-IsRight val =
      Option-holds (λ o. Right val (found_affiliate out now today club none o)) _ tt
        (λ a found.
          let (hit, listed) = find?-holds _ club.affiliates found in
          admit_affiliate-IsRight out now today club val none a listed (inl (text_eq→eq _ _ hit)))

  lookup_by_access_card-IsRight :
      (val : Text) → Right val (lookup_by_access_card out now today club val)
  unfolding lookup_by_access_card
  lookup_by_access_card-IsRight val =
      Option-holds (λ o. Right val (elim o [ none ↦ none | some e ↦ some (admit_employee club e) ]))
        _ tt
        (λ e found.
          let (hit, listed) = find?-holds _ club.employees found in
          admit_employee-IsRight out now today club val e listed (inl (text_eq→eq _ _ hit)))

  visit_by_plate-IsRight : (val : Text) → Right val (visit_by_plate out now today club val)
  unfolding visit_by_plate
  visit_by_plate-IsRight val =
      Option-holds (λ o. Right val (resolved out now today club o)) _ tt
        (λ v found.
          let (hit, listed) = find?-holds _ club.visits found in
          resolve-IsRight out now today club val v listed (ground arith)
            (inr (inr (inl (ground arith)))))

  lookup_by_vehicle_plate-IsRight :
      (val : Text) → Right val (lookup_by_vehicle_plate out now today club val)
  unfolding lookup_by_vehicle_plate
  lookup_by_vehicle_plate-IsRight val =
      Option-holds
        (λ o. Right val (elim o [
          | some c ↦
              found_affiliate out now today club (some c.id) (find_affiliate c.affiliate_id club)
          | none ↦ visit_by_plate out now today club val
        ]))
        _ (visit_by_plate-IsRight val)
        (λ c found.
          let (hit, on_list) = find?-holds _ club.vehicles found in
          Option-holds (λ o. Right val (found_affiliate out now today club (some c.id) o)) _ tt
            (λ a owner.
              let (same, listed) = find?-holds _ club.affiliates owner in
              admit_affiliate-IsRight out now today club val (some c.id) a listed
                (inr (inr (c, on_list, ground arith, ground arith, ground arith)))))

  registration_by_id-IsRight : (val : Text) → Right val (registration_by_id out now today club val)
  unfolding registration_by_id admit_registration
  registration_by_id-IsRight val =
      Option-holds (λ o. Right val (elim o [ none ↦ none | some r ↦ some (admit_registration r) ]))
        _ tt
        (λ r found.
          let (hit, listed) = find?-holds _ club.registrations found in
          record {
            admits = λ e.
                as_attendee r listed (ground arith) (ground arith) (ground arith)
                  (text_eq→eq _ _ (ground arith));
            reasons = λ e. absurd (cc);
          })

  staff_by_id-IsRight : (val : Text) → Right val (staff_by_id out now today club val)
  unfolding staff_by_id
  staff_by_id-IsRight val =
      Option-holds
        (λ o. Right val (elim o [
          | none ↦ registration_by_id out now today club val
          | some s ↦ some (admit_staff s)
        ]))
        _ (registration_by_id-IsRight val)
        (λ s found.
          let (hit, listed) = find?-holds _ club.staff found in
          admit_staff-IsRight out now today club val s listed (text_eq→eq _ _ hit))

  party_by_id-IsRight : (val : Text) → Right val (party_by_id out now today club val)
  unfolding party_by_id
  party_by_id-IsRight val =
      Option-holds
        (λ o. Right val (elim o [
          | none ↦ staff_by_id out now today club val
          | some p ↦ resolved out now today club (find_visit out now today club p.visit_id)
        ]))
        _ (staff_by_id-IsRight val)
        (λ p found.
          let (hit, member) = find?-holds _ club.party_members found in
          let e = text_eq→eq p.identification val (ground arith) in
          elim (Option-cases (find_visit out now today club p.visit_id)) [
            | inl nothing ↦ absurd (ground (arith, nothing))
            | inr (v, of) ↦
                let (same, listed) = find?-holds _ club.visits of in
                subst (λ o. Right val (resolved out now today club o)) (sym of)
                  (resolve-IsRight out now today club val v listed (ground (arith, of))
                    (inr (inl (p, member, ground arith, e))))
          ])

  guest_visit-IsRight :
      (val : Text) (g : Guest)
      → Memᴰ g club.guests
      → g.identification ≡ val
      → Right val (guest_visit out now today club g)
  guest_visit-IsRight val g known e =
      Option-holds
        (λ o. Right val (elim o [
          | none ↦ some (refuse_guest g.id none no_visit_today)
          | some v ↦ some (resolve_guest_visit_access now club v)
        ]))
        _ (refuse_guest-IsRight out now today club val g.id none no_visit_today)
        (λ v found.
          let (hit, listed) = find?-holds _ club.visits found in
          resolve-IsRight out now today club val v listed (ground arith)
            (inl (g, known, ground arith, e)))

  guest_by_id-IsRight : (val : Text) → Right val (guest_by_id out now today club val)
  unfolding guest_by_id
  guest_by_id-IsRight val =
      Option-holds
        (λ o. Right val (elim o [
          | none ↦ party_by_id out now today club val
          | some g ↦ guest_visit out now today club g
        ]))
        _ (party_by_id-IsRight val)
        (λ g found.
          let (hit, known) = find?-holds _ club.guests found in
          guest_visit-IsRight val g known (text_eq→eq _ _ hit))

  employee_by_id-IsRight : (val : Text) → Right val (employee_by_id out now today club val)
  unfolding employee_by_id
  employee_by_id-IsRight val =
      Option-holds
        (λ o. Right val (elim o [
          | none ↦ guest_by_id out now today club val
          | some e ↦ some (admit_employee club e)
        ]))
        _ (guest_by_id-IsRight val)
        (λ e found.
          let (hit, listed) = find?-holds _ club.employees found in
          admit_employee-IsRight out now today club val e listed (inr (text_eq→eq _ _ hit)))

  lookup_by_gov_id-IsRight : (val : Text) → Right val (lookup_by_gov_id out now today club val)
  unfolding lookup_by_gov_id
  lookup_by_gov_id-IsRight val =
      Option-holds
        (λ o. Right val (elim o [
          | none ↦ employee_by_id out now today club val
          | some a ↦ some (admit_affiliate none a)
        ]))
        _ (employee_by_id-IsRight val)
        (λ a found.
          let (hit, listed) = find?-holds _ club.affiliates found in
          admit_affiliate-IsRight out now today club val none a listed
            (inr (inl (text_eq→eq _ _ hit))))

  visit_by_token-IsRight : (val : Text) → Right val (visit_by_token out now today club val)
  unfolding visit_by_token
  visit_by_token-IsRight val =
      Option-holds
        (λ (o : Option Visit). Right val (elim o [
          | none ↦ none
          | some v ↦ some (refuse_guest v.guest_id (some v.id) visit_not_now)
        ]))
        _ tt
        (λ v found.
          refuse_guest-IsRight out now today club val v.guest_id (some v.id) visit_not_now)

  lookup_by_qr_code-IsRight : (val : Text) → Right val (lookup_by_qr_code out now today club val)
  unfolding lookup_by_qr_code
  lookup_by_qr_code-IsRight val =
      Option-holds
        (λ o. Right val (elim o [
          | some v ↦ some (resolve_guest_visit_access now club v)
          | none ↦ visit_by_token out now today club val
        ]))
        _ (visit_by_token-IsRight val)
        (λ v found.
          let (hit, listed) = find?-holds _ club.visits found in
          resolve-IsRight out now today club val v listed (ground arith)
            (inr (inr (inr (text_eq→eq _ _ (ground arith))))))

  pub lookup-IsRight : (m : Method) (val : Text) → Right val (lookup out now today club m val)
  unfolding lookup
  lookup-IsRight membership_card val = lookup_by_membership_card-IsRight val
  lookup-IsRight access_card val = lookup_by_access_card-IsRight val
  lookup-IsRight vehicle_plate val = lookup_by_vehicle_plate-IsRight val
  lookup-IsRight gov_id val = lookup_by_gov_id-IsRight val
  lookup-IsRight qr_code val = lookup_by_qr_code-IsRight val
  lookup-IsRight manual_lookup val = tt
