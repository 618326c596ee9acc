-- ===== src/License/Stamp.antt =====
-- What `current_status` reads back of what a check of
-- custom-addons/saas_license_gate/models/license_gate.py stored.
use odoo_custom.Prelude.{
  ℕ, ◌+◌, ◌*◌, ◌≡◌, ◌≢◌, refl, not, ◌&&◌, [], ◌∷◌, Option, none, some, ltb, ◌==◌, if◌then◌else◌,
}
use odoo_custom.Prelude.Int.{pos}
use odoo_custom.Prelude.Text.{Text, codes}
use odoo_custom.License.Gate.{
  Params, Payload, Libraries, record_failure, record_success, current_status, checked_at_of,
  stored_payload,
}
use odoo_custom.License.History.{checked_at_of_stamp}

-- What is read at a time of a verdict that was stored at the second `ts`.
abbrev pub read_back : Text → ℕ → ℕ → Option Payload → Text × Option Payload
read_back status ts now payload =
    if not (ts == 0) && ltb ((ts + 14 * 86400) * 1000000) now
    then (codes "stale", none)
    else (status, payload)

module _ (lib : Libraries) where
  current_status_stamped :
      (status : Text) (ts now : ℕ) (p : Params)
      → status ≢ []
      → p.status ≡ some status
      → checked_at_of p ≡ pos ts
      → current_status lib now p ≡ read_back status ts now (stored_payload lib p.payload)
  unfolding current_status
  current_status_stamped [] ts now p h e s = absurd (h refl)
  current_status_stamped (c ∷ cs) ts now p h e s = rw (s, e) refl

  -- The verdict that a check stored is read back with the payload that it stored, or where it failed
  -- the payload of before, up to 14 days after the second of the check, and as stale from then on; one
  -- that was stored in the first second of the epoch never becomes stale.
  pub stored-current_status :
      (status payload : Text) (ts now : ℕ) (p : Params)
      → status ≢ []
      → (current_status lib now (record_success (some status) ts payload p)
          ≡ read_back status ts now (stored_payload lib (some payload)))
        × (current_status lib now (record_failure status ts p)
            ≡ read_back status ts now (stored_payload lib p.payload))
  unfolding record_success record_failure
  stored-current_status status payload ts now p h = (
    current_status_stamped status ts now (record_success (some status) ts payload p) h refl
        (checked_at_of_stamp lib (record_success (some status) ts payload p) ts refl),
    current_status_stamped status ts now (record_failure status ts p) h refl
        (checked_at_of_stamp lib (record_failure status ts p) ts refl),
  )
