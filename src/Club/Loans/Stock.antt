-- ===== src/Club/Loans/Stock.antt =====
-- No more of an object is lent than there is of it, custom-addons/club_object_loan/models/club_object_loan.py.
use odoo_custom.Prelude.{
  ℕ, ◌≡◌, refl, sym, subst, inl, inr, Bool, true, false, ◌&&◌, List, [], ◌∷◌, Option, none, some,
  arith, All, Bool-cases, if-holds, ◌==◌, ==_iff, if◌then◌else◌, find?-holds, update_where,
  All-update_where,
}
use odoo_custom.Prelude.Int.{ℤ, pos, ◌+ℤ◌, ◌≤ℤ◌, ltb_ℤ, +ℤ_parts, -ℤ_parts, int_laws}
use odoo_custom.Club.Loans.{
  Item, Loan, Lending, LoanStatus, is_active, is_out, quantity_out, quantity_available,
  is_quantity_available, is_item_status_ok, find_item, Vals, new_loan, create_for, create,
  set_returned, set_lost, set_overdue, update_loans, action_return, action_mark_lost,
  cron_check_overdue, Call, create_loan, return_loan, lose_loan, check_overdue, or_same, step,
  steps,
}

-- The loan is out, and then its quantity is positive.
abbrev pub IsPositive : Loan → Type 0
IsPositive l = is_out l.status ≡ true → pos 1 ≤ℤ l.quantity

abbrev counts : ℕ → Loan → Bool
counts k l = is_out l.status && (l.item_id == k)

-- A loan after a change that keeps its item and its quantity, and does not bring it out again.
abbrev Eases : Loan → Loan → Type 0
Eases l l' =
    (l'.item_id ≡ l.item_id)
    × (l'.quantity ≡ l.quantity)
    × (is_out l'.status ≡ true → is_out l.status ≡ true)

add-le :
    (b' b : Bool) (q r' r : ℤ)
    → (b' ≡ true → b ≡ true)
    → (b ≡ true → pos 1 ≤ℤ q)
    → r' ≤ℤ r
    → (if b' then q +ℤ r' else r') ≤ℤ (if b then q +ℤ r else r)
add-le true true q r' r kept one le = omega (int_laws, +ℤ_parts q r', +ℤ_parts q r)
add-le true false q r' r kept one le = let no_way = kept refl in absurd (cc)
add-le false true q r' r kept one le = let least = one refl in omega (int_laws, +ℤ_parts q r)
add-le false false q r' r kept one le = le

counts-Eases : (k : ℕ) (l l' : Loan) → Eases l l' → counts k l' ≡ true → counts k l ≡ true
counts-Eases k l l' (item, quantity, out) e =
    let still = out (ground arith) in ground (arith, still, item)

counts-IsPositive : (k : ℕ) (l : Loan) → IsPositive l → counts k l ≡ true → pos 1 ≤ℤ l.quantity
counts-IsPositive k l one e = one (ground arith)

module _ (p : Loan → Bool) (set : Loan → Loan)
    (eases : (l : Loan) → p l ≡ true → Eases l (set l)) where
  abbrev changed : Loan → Loan
  changed l = if p l then set l else l

  changed-Eases : (l : Loan) → Eases l (changed l)
  changed-Eases l = if-holds (Eases l) (p l) (set l) l (eases l) (λ e. (refl, refl, (λ out. out)))

  changed-IsPositive : (l : Loan) → IsPositive l → IsPositive (changed l)
  changed-IsPositive l one out =
      let (item, quantity, before) = changed-Eases l in
      subst (λ q. pos 1 ≤ℤ q) (sym quantity) (one (before out))

  -- Such a change of some loans leaves no more out.
  quantity_out-le :
      (k : ℕ) (ls : List Loan)
      → All IsPositive ls
      → quantity_out k (update_where p set ls) ≤ℤ quantity_out k ls
  unfolding quantity_out update_where
  quantity_out-le k [] all = omega arith
  quantity_out-le k (l ∷ ls) all =
      let later = quantity_out-le k ls all.1 in
      subst
        (λ q.
          (if counts k (changed l)
            then q +ℤ quantity_out k (update_where p set ls)
            else quantity_out k (update_where p set ls))
          ≤ℤ (if counts k l then l.quantity +ℤ quantity_out k ls else quantity_out k ls))
        (sym (changed-Eases l).1)
        (add-le (counts k (changed l)) (counts k l) l.quantity _ _
          (counts-Eases k l (changed l) (changed-Eases l)) (counts-IsPositive k l all.0) later)

-- The loans that are out have a positive quantity, and where something of an item is out, no more is
-- out than there is of it.
abbrev pub IsStocked : Lending → Type 0
IsStocked s =
    All IsPositive s.loans
    × ((k : ℕ) (item : Item)
        → find_item k s ≡ some item
        → pos 1 ≤ℤ quantity_out k s.loans
        → quantity_out k s.loans ≤ℤ item.quantity_total)

update_loans-IsStocked :
    (p : Loan → Bool) (set : Loan → Loan) (s : Lending)
    → ((l : Loan) → p l ≡ true → Eases l (set l))
    → IsStocked s
    → IsStocked (update_loans p set s)
update_loans-IsStocked p set s eases (positive, stocked) = (
  All-update_where IsPositive IsPositive p set s.loans
      (λ l hit one out.
        let (item, quantity, before) = eases l hit in
        subst (λ q. pos 1 ≤ℤ q) (sym quantity) (one (before out)))
      (λ l miss one. one) positive,
  (λ k item is some_out.
      let fewer = quantity_out-le p set eases k s.loans positive in
      let most = stocked k item is (omega (arith, fewer, some_out)) in omega (arith, fewer, most)),
)

-- What the constraint asks of a loan that is out.
checked :
    (item : Item) (l : Loan) (others : List Loan)
    → is_quantity_available item l others ≡ true
    → is_out l.status ≡ true
    → (pos 1 ≤ℤ l.quantity) × (l.quantity +ℤ quantity_out item.id others ≤ℤ item.quantity_total)
checked item l others ok out =
    let least : ltb_ℤ (pos 0) l.quantity ≡ true = ground (arith, ok, out) in
    let most : ltb_ℤ (quantity_available item others) l.quantity ≡ false =
      ground (arith, ok, out) in
    (
      ground (arith, least),
      (let le : l.quantity ≤ℤ quantity_available item others = ground (arith, most) in
          omega (
            int_laws,
            le,
            -ℤ_parts item.quantity_total (quantity_out item.id others),
            +ℤ_parts l.quantity (quantity_out item.id others),
          )),
    )

same_item : {o : Option Item} {a b : Item} → o ≡ some a → o ≡ some b → a ≡ b
same_item p q = cc

add-IsStocked :
    (item : Item) (l : Loan) (s : Lending)
    → find_item l.item_id s ≡ some item
    → is_quantity_available item l s.loans ≡ true
    → IsStocked s
    → IsStocked (record s { loans = l ∷ s.loans })
unfolding quantity_out
add-IsStocked item l s is ok (positive, stocked) = (
  ((λ out. (checked item l s.loans ok out).0), positive),
  (λ k item_k is_k. elim (Bool-cases (counts k l)) [
    | inr other ↦ rw other (stocked k item_k is_k)
    | inl counted ↦
        let here : l.item_id ≡ k = (==_iff l.item_id k).0 (ground arith) in
        let same : item ≡ item_k =
          same_item (subst (λ x. find_item x s ≡ some item) here is) is_k in
        let id : item.id ≡ k = (==_iff item.id k).0 (
          subst (λ x. (item.id == x) ≡ true) here
            (find?-holds (λ (i : Item). i.id == l.item_id) s.items is).0) in
        let fits = (checked item l s.loans ok (ground arith)).1 in
        let fits_k : l.quantity +ℤ quantity_out k s.loans ≤ℤ item.quantity_total =
          subst (λ x. l.quantity +ℤ quantity_out x s.loans ≤ℤ item.quantity_total) id fits in
        rw counted (λ some_out.
          subst (λ i. l.quantity +ℤ quantity_out k s.loans ≤ℤ i.quantity_total) same fits_k)
  ]),
)

left_true : (a b : Bool) → (a && b) ≡ true → a ≡ true
left_true true b e = refl
left_true false b e = absurd (cc)

create-IsStocked :
    (today : ℕ) (vals : Vals) (s : Lending)
    → IsStocked s
    → IsStocked (or_same s (create today vals s))
unfolding create
create-IsStocked today vals s stocked = go (find_item vals.item_id s) refl
  where
    go :
        (o : Option Item)
        → find_item vals.item_id s ≡ o
        → IsStocked (or_same s (create_for today vals o s))
    go none is = stocked
    go (some item) is =
        let l = new_loan today vals item in
        if-holds (λ (o : Option Lending). IsStocked (or_same s o))
          (is_quantity_available item l s.loans && is_item_status_ok item l) _ _
          (λ ok. add-IsStocked item l s is (left_true _ _ ok) stocked) (λ refused. stocked)

step-IsStocked : (today : ℕ) (c : Call) (s : Lending) → IsStocked s → IsStocked (step today c s)
unfolding step action_return action_mark_lost cron_check_overdue
step-IsStocked today (create_loan vals) s stocked = create-IsStocked today vals s stocked
step-IsStocked today (return_loan loan_id) s stocked =
    update_loans-IsStocked (λ l. l.id == loan_id) (set_returned today) s
      (λ l hit. (refl, refl, (λ out. absurd (cc)))) stocked
step-IsStocked today (lose_loan loan_id) s stocked =
    update_loans-IsStocked (λ l. l.id == loan_id) (set_lost today) s
      (λ l hit. (refl, refl, (λ out. absurd (cc)))) stocked
step-IsStocked today check_overdue s stocked =
    update_loans-IsStocked (λ l. is_active l.status && ltb_ℤ l.due_date (pos today))
      (set_overdue today) s
      (λ l hit. (refl, refl, (λ out. active-out l.status (ground (arith, hit))))) stocked
  where
    active-out : (x : LoanStatus) → is_active x ≡ true → is_out x ≡ true
    active-out LoanStatus.active e = refl
    active-out LoanStatus.overdue e = refl
    active-out LoanStatus.returned e = absurd (cc)
    active-out LoanStatus.lost e = absurd (cc)

-- No sequence of calls, on whatever days, lends more of an object than there is of it, if that was so
-- before: a new loan is accepted only for a positive quantity that is there, and a return, a loss and
-- the nightly check leave no more out.
pub steps-IsStocked : (cs : List (ℕ × Call)) (s : Lending) → IsStocked s → IsStocked (steps cs s)
unfolding steps
steps-IsStocked [] s stocked = stocked
steps-IsStocked ((today, c) ∷ cs) s stocked =
    steps-IsStocked cs (step today c s) (step-IsStocked today c s stocked)
