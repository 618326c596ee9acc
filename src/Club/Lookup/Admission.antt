-- ===== src/Club/Lookup/Admission.antt =====
-- Whom `action_lookup` of custom-addons/club_access_control/models/club_access_entry.py admits.
use odoo_custom.Prelude.{
  ℕ, ◌≤◌, ◌≡◌, ◌≢◌, ◌⊎◌, inl, inr, true, false, Memᴰ, Option, none, some, arith, Bool-cases,
  Option-cases, find?-holds,
}
use odoo_custom.Prelude.Text.{Text}
use odoo_custom.Club.Schema.{
  MembershipStatus, WorkStatus, VisitStatus, registered, checked_in, AccessStatus, granted,
  Affiliate, Employee, Vehicle, Guest, Visit, PartyMember, Staff, Registration, Reason, Entry, Club,
}
use odoo_custom.Club.Persons.{
  Found, Outside, Person, admit_affiliate, admit_employee, admit_staff, affiliate, employee,
  find_affiliate, guest, host_entry, host_present, is_active, is_at, is_expected, is_granted,
  is_working, midnight, refuse_guest, registration, resolve_guest_visit_access, staff,
}
use odoo_custom.Club.Lookup.{is_today, token}

is_active_eq : (s : MembershipStatus) → is_active s ≡ true → s ≡ MembershipStatus.active
is_active_eq s e = ground arith

is_working_eq : (s : WorkStatus) → is_working s ≡ true → s ≡ WorkStatus.active
is_working_eq s e = ground arith

is_expected_eq : (s : VisitStatus) → is_expected s ≡ true → (s ≡ registered) ⊎ (s ≡ checked_in)
is_expected_eq s e = ground arith

is_granted_eq : (s : AccessStatus) → is_granted s ≡ true → s ≡ granted
is_granted_eq s e = ground arith

is_at_eq : (o : Option ℕ) (id : ℕ) → is_at o id ≡ true → o ≡ some id
is_at_eq none id e = absurd (cc)
is_at_eq (some x) id e = ground arith

module _ (out : Outside) (now today : ℕ) (club : Club) where
  -- The affiliate of a vehicle in use, by its plate.
  abbrev pub Drives : Text → Affiliate → Type 0
  Drives val a =
      (c : Vehicle) × Memᴰ c club.vehicles
      × (c.active ≡ true)
      × (out.ilike c.plate_number val ≡ true)
      × (c.affiliate_id ≡ a.id)

  abbrev pub IsMember : Affiliate → Type 0
  IsMember a = Memᴰ a club.affiliates × (a.membership_status ≡ MembershipStatus.active)

  -- An entry of the host is granted since midnight.
  abbrev pub HostIsIn : Visit → Type 0
  HostIsIn v =
      (n : Entry) × Memᴰ n club.entries
      × (n.affiliate_id ≡ some v.affiliate_id)
      × (n.access_status ≡ granted)
      × (midnight now ≤ n.entry_datetime)

  -- The visit is one of today, and the host is there or need not be.
  abbrev pub IsWelcome : Visit → Type 0
  IsWelcome v =
      Memᴰ v club.visits
      × (v.date ≡ today)
      × ((v.status ≡ registered) ⊎ (v.status ≡ checked_in))
      × ((v.allow_independent_access ≡ true) ⊎ HostIsIn v)

  -- The identifier is that of the guest or of a member of the party, the plate or the token.
  abbrev pub Names : Text → Visit → Type 0
  Names val v =
      ((g : Guest) × Memᴰ g club.guests × (g.id ≡ v.guest_id) × (g.identification ≡ val))
      ⊎ ((p : PartyMember) × Memᴰ p club.party_members
          × (p.visit_id ≡ v.id)
          × (p.identification ≡ val))
      ⊎ (out.ilike v.vehicle_plate val ≡ true)
      ⊎ (v.qr_token ≡ token out now today club val)

  -- The identifier is one of the person, who may come in.
  pub data Admits (val : Text) : Person → Type 0 where
    as_member :
        (a : Affiliate)
        → IsMember a
        → (a.affiliate_number ≡ val) ⊎ ((a.vat ≡ val) ⊎ Drives val a)
        → Admits val (affiliate a.id)
    as_employee :
        (e : Employee) (a : Affiliate)
        → Memᴰ e club.employees
        → e.status ≡ WorkStatus.active
        → IsMember a
        → e.affiliate_id ≡ a.id
        → (e.access_card_number ≡ val) ⊎ (e.identification_number ≡ val)
        → Admits val (employee e.id)
    as_visitor : (v : Visit) → IsWelcome v → Names val v → Admits val (guest v.guest_id)
    as_staff :
        (s : Staff)
        → Memᴰ s club.staff
        → s.status ≡ WorkStatus.active
        → s.identification_number ≡ val
        → Admits val (staff s.id)
    as_attendee :
        (r : Registration)
        → Memᴰ r club.registrations
        → r.date_begin ≤ now
        → now ≤ r.date_end
        → r.is_cancelled ≡ false
        → r.vat ≡ val
        → Admits val (registration r.id)

  -- A lookup is right if it allows only whom `Admits` describes, and gives a reason for each refusal.
  pub record IsRight (val : Text) (r : Found) : Type 0 where
    pub admits : r.access_allowed ≡ true → Admits val r.person
    pub reasons : r.access_allowed ≡ false → r.reason ≢ none

  abbrev pub IsRight? : Text → Option Found → Type 0
  IsRight? val none = Unit
  IsRight? val (some r) = IsRight val r

  pub admit_affiliate-IsRight :
      (val : Text) (vehicle : Option ℕ) (a : Affiliate)
      → Memᴰ a club.affiliates
      → (a.affiliate_number ≡ val) ⊎ ((a.vat ≡ val) ⊎ Drives val a)
      → IsRight val (admit_affiliate vehicle a)
  unfolding admit_affiliate
  admit_affiliate-IsRight val vehicle a listed known = record {
    admits = λ e. as_member a (listed, is_active_eq a.membership_status e) known;
    reasons = λ e. ground (arith, e);
  }

  pub admit_employee-IsRight :
      (val : Text) (e : Employee)
      → Memᴰ e club.employees
      → (e.access_card_number ≡ val) ⊎ (e.identification_number ≡ val)
      → IsRight val (admit_employee club e)
  unfolding admit_employee
  admit_employee-IsRight val e listed known =
      elim (Option-cases (find_affiliate e.affiliate_id club)) [
        | inl nobody ↦ record {
          admits = λ p. absurd (ground (arith, nobody));
          reasons = λ p. ground (arith, nobody);
        }
        | inr (a, employer) ↦
            let (hit, member) = find?-holds _ club.affiliates employer in
            record {
              admits = λ p.
                  as_employee e a listed (is_working_eq e.status (ground arith))
                    (member, is_active_eq a.membership_status (ground (arith, employer)))
                    (ground arith) known;
              reasons = λ p. ground (arith, employer);
            }
      ]

  host_present-HostIsIn : (v : Visit) → host_present now v club ≡ true → HostIsIn v
  unfolding host_entry
  host_present-HostIsIn v e = elim (Option-cases (host_entry now v club)) [
    | inl nothing ↦ absurd (ground (arith, nothing))
    | inr (n, there) ↦
        let (hit, listed) = find?-holds _ club.entries there in
        (
          n,
          listed,
          is_at_eq n.affiliate_id v.affiliate_id (ground arith),
          is_granted_eq n.access_status (ground arith),
          ground arith,
        )
  ]

  pub resolve-IsRight :
      (val : Text) (v : Visit)
      → Memᴰ v club.visits
      → is_today out now today club v ≡ true
      → Names val v
      → IsRight val (resolve_guest_visit_access now club v)
  unfolding resolve_guest_visit_access
  resolve-IsRight val v listed today_e known = record {
    admits = λ e.
        as_visitor v
          (
            listed,
            ground arith,
            is_expected_eq v.status (ground arith),
            elim (Bool-cases v.allow_independent_access) [
              | inl alone ↦ inl alone
              | inr hosted ↦ inr (host_present-HostIsIn v (ground (arith, hosted)))
            ],
          )
          known;
    reasons = λ e. ground (arith, e);
  }

  pub admit_staff-IsRight :
      (val : Text) (s : Staff)
      → Memᴰ s club.staff
      → s.identification_number ≡ val
      → IsRight val (admit_staff s)
  unfolding admit_staff
  admit_staff-IsRight val s listed known = record {
    admits = λ e. as_staff s listed (is_working_eq s.status e) known;
    reasons = λ e. ground (arith, e);
  }

  pub refuse_guest-IsRight :
      (val : Text) (id : ℕ) (visit : Option ℕ) (reason : Reason)
      → IsRight val (refuse_guest id visit reason)
  refuse_guest-IsRight val id visit reason = record {
    admits = λ e. absurd (cc);
    reasons = λ e p. cc;
  }
