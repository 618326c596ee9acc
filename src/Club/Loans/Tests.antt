-- ===== src/Club/Loans/Tests.antt =====
-- The lending of custom-addons/club_object_loan, at small inputs.
use odoo_custom.Prelude.{ℕ, ◌≡◌, refl, false, List, [], ◌∷◌, none, arith, find?, update_where}
use odoo_custom.Prelude.Int.{pos, ◌+ℤ◌, ◌-ℤ◌}
use odoo_custom.Club.Loans.{
  available, Lending, LoanStatus, Vals, Call, create_loan, check_overdue, quantity_out, create,
  cron_check_overdue, step, steps,
}
use odoo_custom.Club.Loans.Stock.{IsStocked, steps-IsStocked}

-- Two balls, to be lent for three days.
abbrev balls : Lending
balls = record {
  items = record { id = 1; max_loan_days = pos 3; status = available; quantity_total = pos 2 } ∷ [];
  loans = [];
}

abbrev vals : ℕ → ℕ → Vals
vals id quantity = record {
  id = id;
  item_id = 1;
  affiliate_id = 5;
  loan_date = 10;
  quantity = pos quantity;
  status = LoanStatus.active;
}

-- One is lent, two more are refused, and the loan becomes overdue.
abbrev calls : List (ℕ × Call)
calls = (10, create_loan (vals 7 1)) ∷ (11, create_loan (vals 8 2)) ∷ (14, check_overdue) ∷ []

steps-calls :
    (steps calls balls).loans
    ≡ record {
      id = 7;
      item_id = 1;
      affiliate_id = 5;
      loan_date = 10;
      due_date = pos 13;
      return_date = none;
      quantity = pos 1;
      status = LoanStatus.overdue;
      is_overdue = false;
    }
      ∷ []
unfolding steps step create find? quantity_out ◌+ℤ◌ ◌-ℤ◌ cron_check_overdue update_where
steps-calls = refl

steps-IsStocked_example : IsStocked (steps calls balls)
unfolding quantity_out
steps-IsStocked_example =
    steps-IsStocked calls balls (tt, (λ k item is some_out. absurd (omega (arith, some_out))))
