-- ===== src/License/Tests.antt =====
-- The license gate, custom-addons/saas_license_gate, at small inputs.
use odoo_custom.Prelude.{◌≡◌, refl, inr, true, false, [], ◌∷◌, none, some}
use odoo_custom.Prelude.Text.{codes, text_eq, strip, show_ℕ}
use odoo_custom.Prelude.Decimal.{int_of}
use odoo_custom.License.Gate.{
  Params, Payload, text, absent, object, sealed, Libraries, Tick, body, url_error, run_check,
  rstrip_slash, machine_id_of, check_response, check_envelope, check_payload, accept,
  record_success, record_failure, current_status, stored_payload,
}
use odoo_custom.License.Enforcement.{account_move, sale_order, passes, write_allowed}
use odoo_custom.License.History.{run, Backs, passes-IsAuthorized, outage-blocks}
use odoo_custom.License.Stamp.{read_back, stored-current_status}

abbrev in_grace : Payload
in_grace = record {
  license_id = text (codes "lic");
  machine_id = text (codes "m1");
  image_sha256 = absent;
  status = text (codes "grace");
  allowed_modules = [];
}

abbrev libraries : Libraries
libraries = record {
  envelope = λ raw. sealed raw (codes "s");
  decode = λ t. object in_grace;
  verifies = λ t s. text_eq s (codes "s");
}

abbrev answered : Tick
answered = record {
  license_id = codes "lic ";
  authority_url = codes "https://a/";
  secret = codes "k";
  image_digest = codes "d";
  machine = codes "m1";
  now = 20000000;
  response = body (codes "p");
}

abbrev cut_off : Tick
cut_off = record answered { response = url_error; now = 90000000 }

checking : Unit {0}
unfolding passes write_allowed current_status run run_check rstrip_slash machine_id_of
    check_response check_envelope check_payload accept record_success record_failure int_of show_ℕ
    strip
checking = tt

invoices_pass : passes libraries account_move 30000000 (run libraries (answered ∷ [])) ≡ true
unfolding checking
invoices_pass = refl

orders_do_not : passes libraries sale_order 30000000 (run libraries (answered ∷ [])) ≡ false
unfolding checking
orders_do_not = refl

passes-IsAuthorized_example : Backs libraries account_move 30000000 (answered ∷ [])
passes-IsAuthorized_example =
    passes-IsAuthorized libraries account_move 30000000 (answered ∷ []) invoices_pass

has_url : rstrip_slash (codes "https://a/") ≡ codes "https://a"
unfolding rstrip_slash
has_url = refl

outage-blocks_example :
    passes libraries account_move 90000001 (run libraries (cut_off ∷ answered ∷ [])) ≡ false
unfolding strip rstrip_slash
outage-blocks_example =
    outage-blocks libraries account_move 90000001 cut_off (answered ∷ []) refl (inr refl)

nowhere : Params
nowhere = record { status = none; checked_at = none; payload = none; machine_id = none }

stored-current_status_example :
    (current_status libraries 99 (record_success (some (codes "active")) 20 (codes "p") nowhere)
      ≡ read_back (codes "active") 20 99 (stored_payload libraries (some (codes "p"))))
    × (current_status libraries 99 (record_failure (codes "active") 20 nowhere)
        ≡ read_back (codes "active") 20 99 (stored_payload libraries nowhere.payload))
stored-current_status_example =
    stored-current_status libraries (codes "active") (codes "p") 20 99 nowhere (cc)
