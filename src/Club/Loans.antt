-- ===== src/Club/Loans.antt =====
-- custom-addons/club_object_loan/models: the objects that a club lends. A date is the number of its day.
pub mod Stock
mod Tests
use odoo_custom.Prelude.{
  ℕ, Bool, true, false, not, ◌&&◌, ◌||◌, List, [], ◌∷◌, Option, none, some, ◌==◌, if◌then◌else◌,
  find?, update_where,
}
use odoo_custom.Prelude.Int.{ℤ, pos, negsuc, ◌+ℤ◌, ◌-ℤ◌, ltb_ℤ}

pub data ItemStatus : Type 0 where
  available loaned maintenance retired : ItemStatus

-- A row of club.object.item, with the max_loan_days of its category.
pub record Item : Type 0 where
  pub id : ℕ
  pub max_loan_days : ℤ
  pub status : ItemStatus
  pub quantity_total : ℤ

pub data LoanStatus : Type 0 where
  active returned overdue lost : LoanStatus

-- A row of club.object.loan.
pub record Loan : Type 0 where
  pub id : ℕ
  pub item_id : ℕ
  pub affiliate_id : ℕ
  pub loan_date : ℕ
  pub due_date : ℤ
  pub return_date : Option ℕ
  pub quantity : ℤ
  pub status : LoanStatus
  pub is_overdue : Bool

pub record Lending : Type 0 where
  pub items : List Item
  pub loans : List Loan

abbrev pub is_active : LoanStatus → Bool
is_active active = true
is_active returned = false
is_active overdue = false
is_active lost = false

-- `status in ('active', 'overdue')`
abbrev pub is_out : LoanStatus → Bool
is_out active = true
is_out overdue = true
is_out returned = false
is_out lost = false

abbrev pub is_barred : ItemStatus → Bool
is_barred maintenance = true
is_barred retired = true
is_barred available = false
is_barred loaned = false

-- `_compute_is_overdue`, which is stored: it is computed when the status is written.
abbrev pub compute_is_overdue : ℕ → Loan → Loan
compute_is_overdue today l = record l {
  is_overdue = ltb_ℤ l.due_date (pos today) && is_active l.status;
}

-- The quantities of the loans of an item that are out.
unfoldable pub quantity_out : ℕ → List Loan → ℤ
quantity_out item_id [] = pos 0
quantity_out item_id (l ∷ ls) =
    let rest = quantity_out item_id ls in
    if is_out l.status && (l.item_id == item_id) then l.quantity +ℤ rest else rest

-- `quantity_available` of an item.
abbrev pub quantity_available : Item → List Loan → ℤ
quantity_available item loans = item.quantity_total -ℤ quantity_out item.id loans

-- `_check_quantity_available` of a loan, among the other loans.
abbrev pub is_quantity_available : Item → Loan → List Loan → Bool
is_quantity_available item l others =
    not (is_out l.status)
    || (ltb_ℤ (pos 0) l.quantity && not (ltb_ℤ (quantity_available item others) l.quantity))

-- `_check_item_status`
abbrev pub is_item_status_ok : Item → Loan → Bool
is_item_status_ok item l = not (is_out l.status) || not (is_barred item.status)

abbrev pub find_item : ℕ → Lending → Option Item
find_item item_id s = find? (λ (i : Item). i.id == item_id) s.items

-- What the form gives for a new loan, with the identifier that the database gives it.
pub record Vals : Type 0 where
  pub id : ℕ
  pub item_id : ℕ
  pub affiliate_id : ℕ
  pub loan_date : ℕ
  pub quantity : ℤ
  pub status : LoanStatus

abbrev pub new_loan : ℕ → Vals → Item → Loan
new_loan today vals item = compute_is_overdue today (record {
  id = vals.id;
  item_id = vals.item_id;
  affiliate_id = vals.affiliate_id;
  loan_date = vals.loan_date;
  due_date = pos vals.loan_date +ℤ item.max_loan_days;
  return_date = none;
  quantity = vals.quantity;
  status = vals.status;
  is_overdue = false;
})

-- `create`, with both constraints: the lending after it, or none where it raises.
abbrev pub create_for : ℕ → Vals → Option Item → Lending → Option Lending
create_for today vals none s = none
create_for today vals (some item) s =
    let l = new_loan today vals item in
    if is_quantity_available item l s.loans && is_item_status_ok item l
    then some (record s { loans = l ∷ s.loans })
    else none

unfoldable pub create : ℕ → Vals → Lending → Option Lending
create today vals s = create_for today vals (find_item vals.item_id s) s

abbrev pub set_returned : ℕ → Loan → Loan
set_returned today l =
    compute_is_overdue today (record l { return_date = some today; status = returned })

abbrev pub set_lost : ℕ → Loan → Loan
set_lost today l = compute_is_overdue today (record l { status = lost })

abbrev pub set_overdue : ℕ → Loan → Loan
set_overdue today l = compute_is_overdue today (record l { status = overdue })

abbrev pub update_loans : (Loan → Bool) → (Loan → Loan) → Lending → Lending
update_loans where_ set s = record s { loans = update_where where_ set s.loans }

unfoldable pub action_return : ℕ → ℕ → Lending → Lending
action_return today loan_id = update_loans (λ l. l.id == loan_id) (set_returned today)

unfoldable pub action_mark_lost : ℕ → ℕ → Lending → Lending
action_mark_lost today loan_id = update_loans (λ l. l.id == loan_id) (set_lost today)

unfoldable pub cron_check_overdue : ℕ → Lending → Lending
cron_check_overdue today =
    update_loans (λ l. is_active l.status && ltb_ℤ l.due_date (pos today)) (set_overdue today)

-- The calls that change the lending; one that raises changes nothing.
pub data Call : Type 0 where
  create_loan : Vals → Call
  return_loan lose_loan : ℕ → Call
  check_overdue : Call

abbrev pub or_same : Lending → Option Lending → Lending
or_same s none = s
or_same s (some s') = s'

unfoldable pub step : ℕ → Call → Lending → Lending
step today (create_loan vals) s = or_same s (create today vals s)
step today (return_loan loan_id) s = action_return today loan_id s
step today (lose_loan loan_id) s = action_mark_lost today loan_id s
step today check_overdue s = cron_check_overdue today s

-- Calls one after the other, each on a day.
unfoldable pub steps : List (ℕ × Call) → Lending → Lending
steps [] s = s
steps ((today, c) ∷ cs) s = steps cs (step today c s)
