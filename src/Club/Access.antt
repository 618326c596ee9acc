-- ===== src/Club/Access.antt =====
-- `action_lookup` and the other methods of an entry, custom-addons/club_access_control/models/club_access_entry.py.
pub mod Deciding
use odoo_custom.Prelude.{
  ℕ, ◌%◌, Bool, true, false, not, ◌&&◌, ◌||◌, List, [], ◌∷◌, Option, none, some, leb, ltb, ◌==◌,
  if◌then◌else◌, find?,
}
use odoo_custom.Prelude.Int.{ℤ, pos, ◌-ℤ◌}
use odoo_custom.Prelude.Text.{Text, text_eq, strip}
use odoo_custom.Club.Schema.{
  MembershipStatus, MembershipType, family_dependent, WorkStatus, VisitStatus, registered,
  checked_in, PersonType, family_member, affiliate_employee, event_attendee, supplier_staff, Method,
  membership_card, access_card, gov_id, vehicle_plate, qr_code, manual_lookup, AccessStatus,
  pending, granted, denied, exited, Affiliate, Employee, Vehicle, Guest, Visit, PartyMember, Staff,
  Registration, Reason, no_match, membership_not_active, employee_not_active, staff_not_active,
  employer_not_active, no_visit_today, visit_not_now, host_not_present, manually_denied, given,
  Entry, Club,
}
use odoo_custom.Club.Persons.{
  Found, Outside, Person, admit_affiliate, admit_employee, admit_registration, admit_staff,
  affiliate, employee, employee_reason, find_affiliate, guest, has_active_employer, host_entry,
  host_present, is_active, is_at, is_expected, is_granted, is_working, midnight, person_type_of,
  refuse_guest, registration, resolve_guest_visit_access, staff,
}
use odoo_custom.Club.Lookup.{
  employee_by_id, find_visit, found_affiliate, guest_by_id, guest_visit, is_today, lookup,
  lookup_by_access_card, lookup_by_gov_id, lookup_by_membership_card, lookup_by_qr_code,
  lookup_by_vehicle_plate, party_by_id, registration_by_id, resolved, staff_by_id, token,
  visit_by_plate, visit_by_token, visits_today,
}

abbrev pub is_pending : AccessStatus → Bool
is_pending pending = true
is_pending _ = false

abbrev pub set_person : Person → Entry → Entry
set_person (affiliate id) n = record n { affiliate_id = some id }
set_person (employee id) n = record n { employee_id = some id }
set_person (guest id) n = record n { guest_id = some id }
set_person (registration id) n = record n { event_registration_id = some id }
set_person (staff id) n = record n { supplier_staff_id = some id }

abbrev pub or_kept : Option ℕ → Option ℕ → Option ℕ
or_kept none old = old
or_kept (some id) old = some id

-- `self.write(vals)`, of what was found.
unfoldable pub write_found : Found → Entry → Entry
write_found r n =
    let n' = set_person r.person n in
    record n' {
      person_type = some r.person_type;
      vehicle_id = or_kept r.vehicle_id n.vehicle_id;
      guest_visit_id = or_kept r.guest_visit_id n.guest_visit_id;
      access_status = if r.access_allowed then granted else denied;
      denial_reason = if r.access_allowed then n.denial_reason else r.reason;
    }

unfoldable pub decide : Text → Entry → Option Found → Entry
decide val n none = record n { access_status = denied; denial_reason = some (no_match val) }
decide val n (some r) = write_found r n

-- What `action_lookup` gives: the UserError on an empty identifier, the wizard, or the entry.
pub data Outcome : Type 0 where
  empty_identifier wizard : Outcome
  decided : Entry → Outcome

abbrev pub is_manual : Method → Bool
is_manual manual_lookup = true
is_manual _ = false

abbrev pub is_empty : Text → Bool
is_empty [] = true
is_empty (c ∷ cs) = false

unfoldable pub action_lookup : Outside → ℕ → ℕ → Club → Entry → Outcome
action_lookup out now today club n =
    let val = strip n.identification_value in
    if is_empty val
    then empty_identifier
    else if is_manual n.identification_method
    then wizard
    else decided (decide val n (lookup out now today club n.identification_method val))

-- A method raises, or gives the entry after it.
unfoldable pub action_exit : ℕ → Entry → Option Entry
action_exit now n =
    if is_granted n.access_status
    then some (record n { exit_datetime = some now; access_status = exited })
    else none

unfoldable pub action_grant : Entry → Option Entry
action_grant n =
    if is_pending n.access_status then some (record n { access_status = granted }) else none

unfoldable pub action_deny : Text → Entry → Option Entry
action_deny reason n =
    if is_pending n.access_status
    then some (record n {
      access_status = denied;
      denial_reason = some (if is_empty reason then manually_denied else given reason);
    })
    else none

abbrev pub has_left : Option ℕ → Bool
has_left none = false
has_left (some t) = true

-- `_compute_is_active_entry`
unfoldable pub is_active_entry : Entry → Bool
is_active_entry n = is_granted n.access_status && not (has_left n.exit_datetime)

-- `_compute_duration_minutes`. The floats are a type with 0.0 and with the division by 60.0 of a
-- number of seconds, which may be negative.
unfoldable pub duration : {A : Type 0} → A → (ℤ → A) → Entry → A
duration zero minutes n = elim n.exit_datetime [
  | none ↦ zero
  | some t ↦ minutes (pos t -ℤ pos n.entry_datetime)
]
