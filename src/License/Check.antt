-- ===== src/License/Check.antt =====
-- What one check of custom-addons/saas_license_gate/models/license_gate.py leaves behind.
use odoo_custom.Prelude.{
  ◌≡◌, ◌⊎◌, refl, ap, inl, inr, true, false, not, Option, some, arith, if-holds,
}
use odoo_custom.Prelude.Text.{Text, codes, text_eq→eq, strip, show_ℕ}
use odoo_custom.License.Gate.{
  Params, Field, absent, null, text, other, field_is, Payload, Decoded, not_json, not_object,
  object, Envelope, malformed, not_text, sealed, Libraries, Response, http_error, url_error, raised,
  body, Tick, Ended, aborted, returns, has_settings, seconds, verdict, accept, check_payload,
  check_envelope, check_response, run_check, machine_id_of, record_failure, record_success,
}

-- The identity of the machine in a check, a new one where none is stored.
abbrev pub machine_of : Tick → Params → Text
machine_of t p = (machine_id_of t.machine p).0

module _ (lib : Libraries) where
  -- The check was answered by a payload with a valid signature, for this license and this machine,
  -- whose verdict is the given one.
  pub record IsAuthorized (t : Tick) (machine : Text) (status : Option Text) : Type 0 where
    pub raw : Text
    pub payload_str : Text
    pub signature : Text
    pub payload : Payload
    pub answered : t.response ≡ body raw
    pub enclosed : lib.envelope raw ≡ sealed payload_str signature
    pub verified : lib.verifies payload_str signature ≡ true
    pub decoded : lib.decode payload_str ≡ object payload
    pub licensed : payload.license_id ≡ text (strip t.license_id)
    pub this_machine : payload.machine_id ≡ text machine
    pub says : verdict lib t payload ≡ status

  abbrev pub Rules : Tick → Text → Params → Type 0
  Rules t machine p =
      (p.status ≡ some (codes "network-failed"))
      ⊎ (p.status ≡ some (codes "bad-signature"))
      ⊎ IsAuthorized t machine p.status

  -- What a check has done that had its settings and did not abort.
  abbrev pub Stamps : Tick → Text → Ended → Type 0
  Stamps t machine aborted = Unit
  Stamps t machine (returns b p) =
      (p.checked_at ≡ some (show_ℕ (seconds t.now))) × Rules t machine p

  field_is_eq : (f : Field) (wanted : Text) → field_is f wanted ≡ true → f ≡ text wanted
  field_is_eq (text s) wanted e = ap text (text_eq→eq s wanted e)
  field_is_eq absent wanted e = absurd (cc)
  field_is_eq null wanted e = absurd (cc)
  field_is_eq (other s) wanted e = absurd (cc)

  module _ (t : Tick) (machine : Text) (p : Params) where
    bad-Stamps :
        Stamps t machine (returns false (record_failure (codes "bad-signature") (seconds t.now) p))
    unfolding record_failure
    bad-Stamps = (refl, inr (inl refl))

    failed-Stamps :
        Stamps t machine (returns false (record_failure (codes "network-failed") (seconds t.now) p))
    unfolding record_failure
    failed-Stamps = (refl, inl refl)

    accept-Stamps :
        (payload_str : Text) (payload : Payload) (image : Field)
        → IsAuthorized t machine (verdict lib t payload)
        → Stamps t machine (accept lib t payload_str payload image p)
    unfolding accept record_success
    accept-Stamps payload_str payload absent ok = (refl, inr (inr ok))
    accept-Stamps payload_str payload (text s) ok = (refl, inr (inr ok))
    accept-Stamps payload_str payload null ok = tt
    accept-Stamps payload_str payload (other s) ok = tt

    check_payload-Stamps :
        (raw payload_str signature : Text) (d : Decoded)
        → t.response ≡ body raw
        → lib.envelope raw ≡ sealed payload_str signature
        → lib.verifies payload_str signature ≡ true
        → lib.decode payload_str ≡ d
        → Stamps t machine (check_payload lib t machine payload_str d p)
    unfolding check_payload
    check_payload-Stamps raw payload_str signature not_json a e v d = bad-Stamps
    check_payload-Stamps raw payload_str signature not_object a e v d = tt
    check_payload-Stamps raw payload_str signature (object payload) a e v d =
        if-holds (Stamps t machine) (not (field_is payload.license_id (strip t.license_id))) _ _
          (λ no_license. bad-Stamps)
          (λ license.
            if-holds (Stamps t machine) (not (field_is payload.machine_id machine)) _ _
              (λ no_machine. bad-Stamps)
              (λ same_machine. accept-Stamps payload_str payload payload.image_sha256 (record {
                raw = raw;
                payload_str = payload_str;
                signature = signature;
                payload = payload;
                answered = a;
                enclosed = e;
                verified = v;
                decoded = d;
                licensed = field_is_eq payload.license_id (strip t.license_id) (ground arith);
                this_machine = field_is_eq payload.machine_id machine (ground arith);
                says = refl;
              })))

    check_envelope-Stamps :
        (raw : Text) (e : Envelope)
        → t.response ≡ body raw
        → lib.envelope raw ≡ e
        → Stamps t machine (check_envelope lib t machine e p)
    unfolding check_envelope
    check_envelope-Stamps raw malformed a e = bad-Stamps
    check_envelope-Stamps raw not_text a e = tt
    check_envelope-Stamps raw (sealed payload_str signature) a e =
        if-holds (Stamps t machine) (lib.verifies payload_str signature) _ _
          (λ v. check_payload-Stamps raw payload_str signature (lib.decode payload_str) a e v refl)
          (λ forged. bad-Stamps)

    check_response-Stamps :
        (r : Response) → t.response ≡ r → Stamps t machine (check_response lib t machine r p)
    unfolding check_response
    check_response-Stamps http_error a = failed-Stamps
    check_response-Stamps url_error a = failed-Stamps
    check_response-Stamps raised a = tt
    check_response-Stamps (body raw) a = check_envelope-Stamps raw (lib.envelope raw) a refl

  pub run_check-Stamps :
      (t : Tick) (p : Params)
      → has_settings t ≡ true
      → Stamps t (machine_of t p) (run_check lib t p)
  unfolding run_check
  run_check-Stamps t p e =
      rw e (check_response-Stamps t (machine_of t p) (machine_id_of t.machine p).1 t.response refl)
