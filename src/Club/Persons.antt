-- ===== src/Club/Persons.antt =====
-- Who may enter, once found: the decisions that the lookups of
-- custom-addons/club_access_control/models/club_access_entry.py share.
use odoo_custom.Prelude.{
  ℕ, ◌-◌, ◌%◌, Bool, true, false, ◌&&◌, ◌||◌, Option, none, some, leb, ◌==◌, if◌then◌else◌, find?,
}
use odoo_custom.Prelude.Text.{Text}
use odoo_custom.Club.Schema.{
  MembershipStatus, MembershipType, family_dependent, WorkStatus, VisitStatus, registered,
  checked_in, PersonType, family_member, affiliate_employee, event_attendee, supplier_staff,
  AccessStatus, granted, Affiliate, Employee, Visit, Staff, Registration, Reason,
  membership_not_active, employee_not_active, staff_not_active, employer_not_active,
  host_not_present, Entry, Club,
}

-- What stands outside: the match `=ilike` of Postgres, of a column with a pattern, and the token that
-- `json.loads` finds in a scanned text, if that is an object with one.
pub record Outside : Type 0 where
  pub ilike : Text → Text → Bool
  pub json_token : Text → Option Text

-- Who is at the checkpoint, by the field of the entry that holds the number.
pub data Person : Type 0 where
  affiliate employee guest registration staff : ℕ → Person

-- The dict that a lookup returns.
pub record Found : Type 0 where
  pub person_type : PersonType
  pub person : Person
  pub vehicle_id : Option ℕ
  pub guest_visit_id : Option ℕ
  pub access_allowed : Bool
  pub reason : Option Reason

abbrev pub is_active : MembershipStatus → Bool
is_active MembershipStatus.active = true
is_active _ = false

abbrev pub is_working : WorkStatus → Bool
is_working WorkStatus.active = true
is_working _ = false

-- `status in ('registered', 'checked_in')`
abbrev pub is_expected : VisitStatus → Bool
is_expected registered = true
is_expected checked_in = true
is_expected _ = false

abbrev pub is_granted : AccessStatus → Bool
is_granted granted = true
is_granted _ = false

abbrev pub is_at : Option ℕ → ℕ → Bool
is_at none id = false
is_at (some x) id = x == id

abbrev pub person_type_of : MembershipType → PersonType
person_type_of family_dependent = family_member
person_type_of _ = PersonType.affiliate

-- An affiliate that a card, a number or the given vehicle identifies.
unfoldable pub admit_affiliate : Option ℕ → Affiliate → Found
admit_affiliate vehicle a = record {
  person_type = person_type_of a.membership_type;
  person = affiliate a.id;
  vehicle_id = vehicle;
  guest_visit_id = none;
  access_allowed = is_active a.membership_status;
  reason =
      if is_active a.membership_status
      then none
      else some (membership_not_active a.membership_status);
}

abbrev pub find_affiliate : ℕ → Club → Option Affiliate
find_affiliate id club = find? (λ (a : Affiliate). a.id == id) club.affiliates

-- Whether the employer's membership is active; an empty record has no status.
abbrev pub has_active_employer : Employee → Club → Bool
has_active_employer e club = elim (find_affiliate e.affiliate_id club) [
  | none ↦ false
  | some a ↦ is_active a.membership_status
]

abbrev pub employee_reason : Employee → Club → Option Reason
employee_reason e club =
    if is_working e.status
    then if has_active_employer e club then none else some employer_not_active
    else some (employee_not_active e.status)

unfoldable pub admit_employee : Club → Employee → Found
admit_employee club e = record {
  person_type = affiliate_employee;
  person = employee e.id;
  vehicle_id = none;
  guest_visit_id = none;
  access_allowed = is_working e.status && has_active_employer e club;
  reason = employee_reason e club;
}

-- Midnight before `now`.
abbrev pub midnight : ℕ → ℕ
midnight now = now - now % 86400

-- The search for an entry of the host affiliate since midnight.
unfoldable pub host_entry : ℕ → Visit → Club → Option Entry
host_entry now v club =
    find?
      (λ (n : Entry).
        is_at n.affiliate_id v.affiliate_id
        && is_granted n.access_status
        && leb (midnight now) n.entry_datetime)
      club.entries

abbrev pub host_present : ℕ → Visit → Club → Bool
host_present now v club = elim (host_entry now v club) [ none ↦ false | some _ ↦ true ]

-- `_resolve_guest_visit_access`
unfoldable pub resolve_guest_visit_access : ℕ → Club → Visit → Found
resolve_guest_visit_access now club v =
    let allowed = v.allow_independent_access || host_present now v club in
    record {
      person_type = PersonType.guest;
      person = guest v.guest_id;
      vehicle_id = none;
      guest_visit_id = some v.id;
      access_allowed = allowed;
      reason = if allowed then none else some host_not_present;
    }

unfoldable pub admit_staff : Staff → Found
admit_staff s = record {
  person_type = supplier_staff;
  person = staff s.id;
  vehicle_id = none;
  guest_visit_id = none;
  access_allowed = is_working s.status;
  reason = if is_working s.status then none else some (staff_not_active s.status);
}

unfoldable pub admit_registration : Registration → Found
admit_registration r = record {
  person_type = event_attendee;
  person = registration r.id;
  vehicle_id = none;
  guest_visit_id = none;
  access_allowed = true;
  reason = none;
}

-- A guest who is turned away, with the visit that was found.
abbrev pub refuse_guest : ℕ → Option ℕ → Reason → Found
refuse_guest id visit reason = record {
  person_type = PersonType.guest;
  person = guest id;
  vehicle_id = none;
  guest_visit_id = visit;
  access_allowed = false;
  reason = some reason;
}
