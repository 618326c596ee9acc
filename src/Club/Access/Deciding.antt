-- ===== src/Club/Access/Deciding.antt =====
-- What `action_lookup` of custom-addons/club_access_control/models/club_access_entry.py decides.
use odoo_custom.Prelude.{
  ℕ, ◌≡◌, ◌≢◌, ◌⊎◌, refl, inl, inr, true, [], ◌∷◌, Option, none, some, arith, Bool-cases, if-holds,
}
use odoo_custom.Prelude.Text.{Text, strip}
use odoo_custom.Club.Schema.{Method, manual_lookup, granted, denied, Entry, Club}
use odoo_custom.Club.Persons.{
  Found, Outside, Person, affiliate, employee, guest, registration, staff,
}
use odoo_custom.Club.Access.{
  Outcome, action_lookup, decide, decided, empty_identifier, is_empty, is_manual, set_person,
  wizard, write_found,
}
use odoo_custom.Club.Lookup.Admission.{Admits, IsRight, IsRight?}
use odoo_custom.Club.Lookup.Right.{lookup-IsRight}

module _ (out : Outside) (now today : ℕ) (club : Club) where
  -- The entry has let in a person that the identifier names and that may come in, whose number it
  -- holds; or it has refused, for a reason.
  abbrev pub IsDecided : Text → Entry → Type 0
  IsDecided val n =
      ((n.access_status ≡ granted)
        × (p : Person) × Admits out now today club val p
        × (set_person p n ≡ n))
      ⊎ ((n.access_status ≡ denied) × (n.denial_reason ≢ none))

  -- What each outcome tells of the entry before.
  abbrev pub Decides : Entry → Outcome → Type 0
  Decides n empty_identifier = strip n.identification_value ≡ []
  Decides n wizard = n.identification_method ≡ manual_lookup
  Decides n (decided n') = IsDecided (strip n.identification_value) n'

  write_found-kept :
      (r : Found) (n : Entry) → set_person r.person (write_found r n) ≡ write_found r n
  unfolding write_found
  write_found-kept r n = go r.person
    where
      go : (p : Person) → let n' = write_found (record r { person = p }) n in set_person p n' ≡ n'
      go (affiliate id) = refl
      go (employee id) = refl
      go (guest id) = refl
      go (registration id) = refl
      go (staff id) = refl

  write_found-IsDecided :
      (val : Text) (r : Found) (n : Entry)
      → IsRight out now today club val r
      → IsDecided val (write_found r n)
  unfolding write_found
  write_found-IsDecided val r n right = elim (Bool-cases r.access_allowed) [
    | inl allowed ↦
        inl (ground (arith, allowed), r.person, right.admits allowed, write_found-kept r n)
    | inr refused ↦
        let why = right.reasons refused in
        inr (ground (arith, refused), (λ p. why (ground (arith, refused))))
  ]

  decide-IsDecided :
      (val : Text) (n : Entry) (o : Option Found)
      → IsRight? out now today club val o
      → IsDecided val (decide val n o)
  unfolding decide
  decide-IsDecided val n none right = inr (refl, (λ p. cc))
  decide-IsDecided val n (some r) right = write_found-IsDecided val r n right

  is_empty_eq : (t : Text) → is_empty t ≡ true → t ≡ []
  is_empty_eq [] e = refl
  is_empty_eq (c ∷ cs) e = absurd (cc)

  is_manual_eq : (m : Method) → is_manual m ≡ true → m ≡ manual_lookup
  is_manual_eq m e = ground arith

  -- A lookup lets in only whom the identifier names and who may come in: an affiliate with an active
  -- membership, an active employee of one, the guest of a visit of today whose host has come in or need
  -- not, active staff of a supplier, or who is registered for an event that is on. It refuses everyone
  -- else for a reason, and leaves no entry undecided but for an empty identifier or a lookup by name.
  pub action_lookup-Decides : (n : Entry) → Decides n (action_lookup out now today club n)
  unfolding action_lookup
  action_lookup-Decides n =
      let val = strip n.identification_value in
      if-holds (Decides n) (is_empty val) _ _ (is_empty_eq val) (λ some_value.
        if-holds (Decides n) (is_manual n.identification_method) _ _
          (is_manual_eq n.identification_method)
          (λ by_machine.
            decide-IsDecided val n _
              (lookup-IsRight out now today club n.identification_method val)))
