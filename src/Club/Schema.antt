-- ===== src/Club/Schema.antt =====
-- The rows that custom-addons/club_access_control/models/club_access_entry.py reads and writes, with
-- the fields that decide on an access. A date is the number of its day, a time a count of seconds.
use odoo_custom.Prelude.{ℕ, Bool, List, Option}
use odoo_custom.Prelude.Text.{Text}

-- 'none' is `no_membership`.
pub data MembershipStatus : Type 0 where
  no_membership active suspended expired : MembershipStatus

pub data MembershipType : Type 0 where
  individual family_primary family_dependent corporate_admin corporate_employee : MembershipType

pub data WorkStatus : Type 0 where
  active suspended inactive : WorkStatus

pub data VisitStatus : Type 0 where
  registered checked_in checked_out cancelled no_show : VisitStatus

pub data PersonType : Type 0 where
  affiliate family_member affiliate_employee guest event_attendee tournament_participant
        supplier_staff :
      PersonType

pub data Method : Type 0 where
  membership_card access_card gov_id vehicle_plate qr_code manual_lookup : Method

pub data AccessStatus : Type 0 where
  pending granted denied exited : AccessStatus

pub record Affiliate : Type 0 where
  pub id : ℕ
  pub affiliate_number : Text
  pub vat : Text
  pub membership_status : MembershipStatus
  pub membership_type : MembershipType

pub record Employee : Type 0 where
  pub id : ℕ
  pub affiliate_id : ℕ
  pub access_card_number : Text
  pub identification_number : Text
  pub status : WorkStatus

pub record Vehicle : Type 0 where
  pub id : ℕ
  pub affiliate_id : ℕ
  pub plate_number : Text
  pub active : Bool

pub record Guest : Type 0 where
  pub id : ℕ
  pub identification : Text

pub record Visit : Type 0 where
  pub id : ℕ
  pub affiliate_id : ℕ
  pub guest_id : ℕ
  pub date : ℕ
  pub status : VisitStatus
  pub qr_token : Text
  pub vehicle_plate : Text
  pub allow_independent_access : Bool

pub record PartyMember : Type 0 where
  pub visit_id : ℕ
  pub identification : Text

pub record Staff : Type 0 where
  pub id : ℕ
  pub identification_number : Text
  pub status : WorkStatus

-- `vat` is that of the partner; the times are those of the event.
pub record Registration : Type 0 where
  pub id : ℕ
  pub vat : Text
  pub date_begin : ℕ
  pub date_end : ℕ
  pub is_cancelled : Bool

-- The texts of the reasons, by what they say.
pub data Reason : Type 0 where
  no_match : Text → Reason
  membership_not_active : MembershipStatus → Reason
  employee_not_active : WorkStatus → Reason
  staff_not_active : WorkStatus → Reason
  employer_not_active no_visit_today visit_not_now host_not_present : Reason
  manually_denied : Reason
  given : Text → Reason

pub record Entry : Type 0 where
  pub id : ℕ
  pub entry_datetime : ℕ
  pub exit_datetime : Option ℕ
  pub person_type : Option PersonType
  pub affiliate_id : Option ℕ
  pub employee_id : Option ℕ
  pub guest_id : Option ℕ
  pub guest_visit_id : Option ℕ
  pub event_registration_id : Option ℕ
  pub supplier_staff_id : Option ℕ
  pub vehicle_id : Option ℕ
  pub identification_method : Method
  pub identification_value : Text
  pub access_status : AccessStatus
  pub denial_reason : Option Reason

-- The tables, each in the order of its model.
pub record Club : Type 0 where
  pub affiliates : List Affiliate
  pub employees : List Employee
  pub vehicles : List Vehicle
  pub guests : List Guest
  pub visits : List Visit
  pub party_members : List PartyMember
  pub staff : List Staff
  pub registrations : List Registration
  pub entries : List Entry
