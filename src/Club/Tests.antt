-- ===== src/Club/Tests.antt =====
-- The access control of the clubs, custom-addons/club_access_control, at small inputs.
use odoo_custom.Prelude.{ℕ, ◌/◌, ◌≡◌, refl, false, [], ◌∷◌, none, some, find?}
use odoo_custom.Prelude.Int.{ℤ, pos_part}
use odoo_custom.Prelude.Text.{Text, codes, text_eq, strip}
use odoo_custom.Club.Schema.{
  MembershipStatus, family_dependent, registered, membership_card, gov_id, granted, exited,
  PersonType, AccessStatus, Method, Affiliate, Visit, Entry, Club,
}
use odoo_custom.Club.Persons.{Outside, host_entry, resolve_guest_visit_access}
use odoo_custom.Club.Lookup.{employee_by_id, guest_by_id, lookup, lookup_by_gov_id}
use odoo_custom.Club.Access.{action_lookup, decide, decided, write_found}
use odoo_custom.Club.Access.Deciding.{Decides, action_lookup-Decides}

abbrev outside : Outside
outside = record { ilike = text_eq; json_token = λ t. none }

abbrev member : Affiliate
member = record {
  id = 1;
  affiliate_number = codes "A-1";
  vat = codes "900";
  membership_status = MembershipStatus.active;
  membership_type = family_dependent;
}

abbrev visit : Visit
visit = record {
  id = 2;
  affiliate_id = 1;
  guest_id = 3;
  date = 20;
  status = registered;
  qr_token = codes "t2";
  vehicle_plate = codes "ABC123";
  allow_independent_access = false;
}

abbrev entry : ℕ → Method → Text → Entry
entry id method value = record {
  id = id;
  entry_datetime = 1728100;
  exit_datetime = none;
  person_type = none;
  affiliate_id = none;
  employee_id = none;
  guest_id = none;
  guest_visit_id = none;
  event_registration_id = none;
  supplier_staff_id = none;
  vehicle_id = none;
  identification_method = method;
  identification_value = value;
  access_status = AccessStatus.pending;
  denial_reason = none;
}

-- The host has come in.
abbrev host : Entry
host = record (entry 4 membership_card (codes "A-1")) {
  affiliate_id = some 1;
  access_status = granted;
}

abbrev club : Club
club = record {
  affiliates = member ∷ [];
  employees = [];
  vehicles = [];
  guests = record { id = 3; identification = codes "77" } ∷ [];
  visits = visit ∷ [];
  party_members = [];
  staff = [];
  registrations = [];
  entries = host ∷ [];
}

-- The guest of a member who is in the club comes in by her number.
let_in :
    action_lookup outside 1728200 20 club (entry 5 gov_id (codes " 77 "))
    ≡ decided (record (entry 5 gov_id (codes " 77 ")) {
      person_type = some PersonType.guest;
      guest_id = some 3;
      guest_visit_id = some 2;
      access_status = granted;
    })
unfolding action_lookup strip lookup lookup_by_gov_id employee_by_id guest_by_id
    resolve_guest_visit_access host_entry decide write_found find?
let_in = refl

action_lookup-Decides_example :
    Decides outside 1728200 20 club
      (entry 5 gov_id (codes " 77 "))
      (action_lookup outside 1728200 20 club (entry 5 gov_id (codes " 77 ")))
action_lookup-Decides_example =
    action_lookup-Decides outside 1728200 20 club (entry 5 gov_id (codes " 77 "))

left : Entry
left = record host { exit_datetime = some 1729000; access_status = exited }

abbrev minutes : ℤ → ℕ
minutes seconds = pos_part seconds / 60
