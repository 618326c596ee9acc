-- ===== src/Hotel/Folio.antt =====
-- The methods of `pms.folio` and its lines, custom-addons/goliatt_pms/models/pms_folio.py.
use odoo_custom.Prelude.{
  ℕ, ◌+◌, List, [], ◌∷◌, Option, none, some, ◌==◌, if◌then◌else◌, find?, map, keep_if, update_where,
}
use odoo_custom.Hotel.Schema.{
  Floats, opened, closed, Folio, Charge, Payment, Hotel, invoice_exists, has_balance,
  missing_record, Result, ok, err, ◌>>=◌, or_raise,
}

-- A line of the invoice that a folio is billed by.
pub record InvoiceLine (A : Type 0) : Type 0 where
  pub product_id : Option ℕ
  pub quantity : A
  pub price_unit : A

module _ {A : Type 0} where
  abbrev pub find_folio : ℕ → Hotel A → Option Folio
  find_folio id h = find? (λ (f : Folio). f.id == id) h.folios

  unfoldable pub write_folio : ℕ → (Folio → Folio) → Hotel A → Hotel A
  write_folio id set h = record h { folios = update_where (λ (f : Folio). f.id == id) set h.folios }

  -- `create`: a new folio is open.
  unfoldable pub create_folio : ℕ → Hotel A → Hotel A
  create_folio reservation h =
      let folio : Folio = record {
        id = h.next_id;
        reservation_id = reservation;
        state = opened;
        invoice_id = none;
      } in
      record h { folios = folio ∷ h.folios; next_id = h.next_id + 1 }

  abbrev pub charges_of : ℕ → Hotel A → List (Charge A)
  charges_of id h = keep_if (λ (c : Charge A). c.folio_id == id) h.charges

  abbrev pub payments_of : ℕ → Hotel A → List (Payment A)
  payments_of id h = keep_if (λ (p : Payment A). p.folio_id == id) h.payments

  module _ (F : Floats A) where
    -- Python's `sum` adds from the left, to 0.
    unfoldable pub sum_onto : A → List A → A
    sum_onto acc [] = acc
    sum_onto acc (x ∷ xs) = sum_onto (F.add acc x) xs

    -- `_compute_amount`
    unfoldable pub charge_amount : Charge A → A
    charge_amount c = F.mul c.quantity c.unit_price

    -- `_compute_totals`
    unfoldable pub total_charges : ℕ → Hotel A → A
    total_charges id h = sum_onto F.zero (map charge_amount (charges_of id h))

    unfoldable pub total_payments : ℕ → Hotel A → A
    total_payments id h = sum_onto F.zero (map (λ (p : Payment A). p.amount) (payments_of id h))

    unfoldable pub balance : ℕ → Hotel A → A
    balance id h = F.sub (total_charges id h) (total_payments id h)

    -- `_compute_folio_balance` of the reservation.
    unfoldable pub folio_balance : ℕ → Hotel A → A
    folio_balance reservation h = sum_onto F.zero (
        map (λ (f : Folio). balance f.id h)
          (keep_if (λ (f : Folio). f.reservation_id == reservation) h.folios))

    unfoldable pub action_close : ℕ → Hotel A → Result (Hotel A)
    action_close id h = or_raise (find_folio id h) missing_record >>= λ _.
        if F.is_zero (balance id h)
        then ok (write_folio id (λ f. record f { state = closed }) h)
        else err has_balance

  abbrev pub invoice_line : Charge A → InvoiceLine A
  invoice_line c = record {
    product_id = c.product_id;
    quantity = c.quantity;
    price_unit = c.unit_price;
  }

  abbrev pub bill : Folio → Hotel A → Result (List (InvoiceLine A) × Hotel A)
  bill f h = elim f.invoice_id [
    | some _ ↦ err invoice_exists
    | none ↦ ok (
      map invoice_line (charges_of f.id h),
      write_folio f.id (λ g. record g { invoice_id = some h.next_id })
          (record h { next_id = h.next_id + 1 }),
    )
  ]

  -- `action_create_invoice`: the lines of the invoice, which `account.move` creates under a new
  -- number, and the folio that points to it.
  unfoldable pub action_create_invoice : ℕ → Hotel A → Result (List (InvoiceLine A) × Hotel A)
  action_create_invoice id h = or_raise (find_folio id h) missing_record >>= λ f. bill f h
