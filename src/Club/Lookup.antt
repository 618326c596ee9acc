-- ===== src/Club/Lookup.antt =====
-- The lookups by an identifier of custom-addons/club_access_control/models/club_access_entry.py.
pub mod Admission
pub mod Right
use odoo_custom.Prelude.{
  ℕ, ◌-◌, ◌%◌, Bool, true, false, not, ◌&&◌, ◌||◌, List, [], ◌∷◌, Option, none, some, leb, ltb,
  ◌==◌, if◌then◌else◌, find?,
}
use odoo_custom.Prelude.Text.{Text, text_eq, strip}
use odoo_custom.Club.Schema.{
  MembershipStatus, MembershipType, family_dependent, WorkStatus, VisitStatus, registered,
  checked_in, PersonType, family_member, affiliate_employee, event_attendee, supplier_staff, Method,
  membership_card, access_card, gov_id, vehicle_plate, qr_code, manual_lookup, AccessStatus,
  pending, granted, denied, exited, Affiliate, Employee, Vehicle, Guest, Visit, PartyMember, Staff,
  Registration, Reason, no_match, membership_not_active, employee_not_active, staff_not_active,
  employer_not_active, no_visit_today, visit_not_now, host_not_present, manually_denied, given,
  Entry, Club,
}
use odoo_custom.Club.Persons.{
  Found, Outside, Person, admit_affiliate, admit_employee, admit_registration, admit_staff,
  affiliate, employee, employee_reason, find_affiliate, guest, has_active_employer, host_entry,
  host_present, is_active, is_at, is_expected, is_granted, is_working, midnight, person_type_of,
  refuse_guest, registration, resolve_guest_visit_access, staff,
}

module _ (out : Outside) (now today : ℕ) (club : Club) where
  abbrev pub found_affiliate : Option ℕ → Option Affiliate → Option Found
  found_affiliate vehicle none = none
  found_affiliate vehicle (some a) = some (admit_affiliate vehicle a)

  unfoldable pub lookup_by_membership_card : Text → Option Found
  lookup_by_membership_card val =
      found_affiliate none
        (find? (λ (a : Affiliate). text_eq a.affiliate_number val) club.affiliates)

  unfoldable pub lookup_by_access_card : Text → Option Found
  lookup_by_access_card val =
      elim (find? (λ (e : Employee). text_eq e.access_card_number val) club.employees) [
        | none ↦ none
        | some e ↦ some (admit_employee club e)
      ]

  -- A visit of today that is registered or checked in.
  abbrev pub is_today : Visit → Bool
  is_today v = v.date == today && is_expected v.status

  abbrev pub resolved : Option Visit → Option Found
  resolved none = none
  resolved (some v) = some (resolve_guest_visit_access now club v)

  unfoldable pub visit_by_plate : Text → Option Found
  visit_by_plate val =
      resolved (find? (λ (v : Visit). out.ilike v.vehicle_plate val && is_today v) club.visits)

  -- The affiliate of a vehicle, which a vehicle always has.
  unfoldable pub lookup_by_vehicle_plate : Text → Option Found
  lookup_by_vehicle_plate val =
      elim (find? (λ (c : Vehicle). out.ilike c.plate_number val && c.active) club.vehicles) [
        | some c ↦ found_affiliate (some c.id) (find_affiliate c.affiliate_id club)
        | none ↦ visit_by_plate val
      ]

  -- The stages of `_lookup_by_gov_id`, the last one first.
  unfoldable pub registration_by_id : Text → Option Found
  registration_by_id val =
      elim (find?
        (λ (r : Registration).
          text_eq r.vat val && leb r.date_begin now && leb now r.date_end && not r.is_cancelled)
        club.registrations) [ none ↦ none | some r ↦ some (admit_registration r) ]

  unfoldable pub staff_by_id : Text → Option Found
  staff_by_id val = elim (find? (λ (s : Staff). text_eq s.identification_number val) club.staff) [
    | none ↦ registration_by_id val
    | some s ↦ some (admit_staff s)
  ]

  abbrev pub find_visit : ℕ → Option Visit
  find_visit id = find? (λ (v : Visit). v.id == id) club.visits

  -- Whether the visit of a party member is one of today.
  abbrev pub visits_today : PartyMember → Bool
  visits_today p = elim (find_visit p.visit_id) [ none ↦ false | some v ↦ is_today v ]

  unfoldable pub party_by_id : Text → Option Found
  party_by_id val =
      elim (find? (λ (p : PartyMember). text_eq p.identification val && visits_today p)
        club.party_members) [ none ↦ staff_by_id val | some p ↦ resolved (find_visit p.visit_id) ]

  abbrev pub guest_visit : Guest → Option Found
  guest_visit g = elim (find? (λ (v : Visit). v.guest_id == g.id && is_today v) club.visits) [
    | none ↦ some (refuse_guest g.id none no_visit_today)
    | some v ↦ some (resolve_guest_visit_access now club v)
  ]

  unfoldable pub guest_by_id : Text → Option Found
  guest_by_id val = elim (find? (λ (g : Guest). text_eq g.identification val) club.guests) [
    | none ↦ party_by_id val
    | some g ↦ guest_visit g
  ]

  unfoldable pub employee_by_id : Text → Option Found
  employee_by_id val =
      elim (find? (λ (e : Employee). text_eq e.identification_number val) club.employees) [
        | none ↦ guest_by_id val
        | some e ↦ some (admit_employee club e)
      ]

  unfoldable pub lookup_by_gov_id : Text → Option Found
  lookup_by_gov_id val = elim (find? (λ (a : Affiliate). text_eq a.vat val) club.affiliates) [
    | none ↦ employee_by_id val
    | some a ↦ some (admit_affiliate none a)
  ]

  abbrev pub token : Text → Text
  token val = elim (out.json_token val) [ none ↦ val | some t ↦ t ]

  -- The search without the date, for the reason of the refusal.
  unfoldable pub visit_by_token : Text → Option Found
  visit_by_token val = elim (find? (λ (v : Visit). text_eq v.qr_token (token val)) club.visits) [
    | none ↦ none
    | some v ↦ some (refuse_guest v.guest_id (some v.id) visit_not_now)
  ]

  unfoldable pub lookup_by_qr_code : Text → Option Found
  lookup_by_qr_code val =
      elim (find? (λ (v : Visit). text_eq v.qr_token (token val) && is_today v) club.visits) [
        | some v ↦ some (resolve_guest_visit_access now club v)
        | none ↦ visit_by_token val
      ]

  -- The lookup by the method of an entry, but for the one by name, which opens a wizard.
  unfoldable pub lookup : Method → Text → Option Found
  lookup membership_card val = lookup_by_membership_card val
  lookup access_card val = lookup_by_access_card val
  lookup vehicle_plate val = lookup_by_vehicle_plate val
  lookup gov_id val = lookup_by_gov_id val
  lookup qr_code val = lookup_by_qr_code val
  lookup manual_lookup val = none
