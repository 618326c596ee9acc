-- ===== src/License/Gate.antt =====
-- custom-addons/saas_license_gate/models/license_gate.py: one check of the license, and the verdict
-- that it leaves in ir.config_parameter. A time is a count of microseconds.
use odoo_custom.Prelude.{
  ℕ, ◌+◌, ◌*◌, ◌/◌, Bool, true, false, not, ◌&&◌, ◌||◌, List, [], ◌∷◌, Option, none, some, ltb,
  ◌==◌, if◌then◌else◌,
}
use odoo_custom.Prelude.Int.{ℤ, pos, negsuc}
use odoo_custom.Prelude.Text.{Text, codes, text_eq, strip, show_ℕ}
use odoo_custom.Prelude.Decimal.{int_of}

-- The keys of ir.config_parameter that the gate writes, `none` where there is no row.
pub record Params : Type 0 where
  pub status : Option Text
  pub checked_at : Option Text
  pub payload : Option Text
  pub machine_id : Option Text

-- A field of a payload: it is absent, null or false, a text, or of another type, which prints as given.
pub data Field : Type 0 where
  absent null : Field
  text other : Text → Field

-- What `payload.get` finds.
pub record Payload : Type 0 where
  pub license_id : Field
  pub machine_id : Field
  pub image_sha256 : Field
  pub status : Field
  pub allowed_modules : List Text

-- What `json.loads` makes of the text of a payload.
pub data Decoded : Type 0 where
  not_json not_object : Decoded
  object : Payload → Decoded

-- What `json.loads` makes of a response: no object with a payload and a signature, or one that the
-- verification refuses before it reads a payload that is no text; one whose payload is no text, which
-- the verification reads and raises on; or the two texts.
pub data Envelope : Type 0 where
  malformed not_text : Envelope
  sealed : Text → Text → Envelope

-- The crypto and JSON libraries: the envelope of a response, the payload of a text, and whether the
-- signature of a text, in hexadecimal, verifies under the embedded key.
pub record Libraries : Type 0 where
  pub envelope : Text → Envelope
  pub decode : Text → Decoded
  pub verifies : Text → Text → Bool

-- How the request ended: with an HTTPError or a URLError, another exception, or a body.
pub data Response : Type 0 where
  http_error url_error raised : Response
  body : Text → Response

-- What the outside gives to one check. `machine` is what /etc/machine-id holds, stripped, or else a
-- new UUID.
pub record Tick : Type 0 where
  pub license_id : Text
  pub authority_url : Text
  pub secret : Text
  pub image_digest : Text
  pub machine : Text
  pub now : ℕ
  pub response : Response

abbrev pub is_empty : Text → Bool
is_empty [] = true
is_empty (c ∷ cs) = false

-- `get_param(key) or default`
abbrev pub or_default : Option Text → Text → Text
or_default none d = d
or_default (some t) d = if is_empty t then d else t

-- `text.rstrip('/')`
unfoldable pub rstrip_slash : Text → Text
rstrip_slash [] = []
rstrip_slash (c ∷ cs) = elim (rstrip_slash cs) [
  | [] ↦ if c == b'/' then [] else c ∷ []
  | d ∷ ds ↦ c ∷ d ∷ ds
]

abbrev pub field_is : Field → Text → Bool
field_is (text t) wanted = text_eq t wanted
field_is absent wanted = false
field_is null wanted = false
field_is (other t) wanted = false

-- What `set_param` stores of a field with a default; it removes the row for null and false.
abbrev pub stored : Field → Text → Option Text
stored absent d = some d
stored null d = none
stored (text t) d = some t
stored (other t) d = some t

-- `int(time.time())`
abbrev pub seconds : ℕ → ℕ
seconds now = now / 1000000

unfoldable pub record_failure : Text → ℕ → Params → Params
record_failure status ts p = record p { status = some status; checked_at = some (show_ℕ ts) }

unfoldable pub record_success : Option Text → ℕ → Text → Params → Params
record_success status ts payload p = record p {
  status = status;
  checked_at = some (show_ℕ ts);
  payload = some payload;
}

-- `_get_or_create_machine_id`: the identifier, and the parameters with it.
unfoldable pub machine_id_of : Text → Params → Text × Params
machine_id_of fresh p =
    if is_empty (or_default p.machine_id [])
    then (fresh, record p { machine_id = some fresh })
    else (or_default p.machine_id [], p)

-- How a check ends: an exception rolls it back, else it returns a Boolean.
pub data Ended : Type 0 where
  aborted : Ended
  returns : Bool → Params → Ended

abbrev pub has_settings : Tick → Bool
has_settings t =
    not (is_empty (strip t.license_id))
    && not (is_empty (rstrip_slash (strip t.authority_url)))
    && not (is_empty (strip t.secret))
    && not (is_empty (strip t.image_digest))

module _ (lib : Libraries) (t : Tick) where
  abbrev pub fails_with : Text → Params → Ended
  fails_with status p = returns false (record_failure status (seconds t.now) p)

  abbrev pub verdict : Payload → Option Text
  verdict payload = stored payload.status (codes "bad-signature")

  -- Behind the checks of the payload: `image_sha256` is lowered, which raises where it is no text.
  unfoldable pub accept : Text → Payload → Field → Params → Ended
  accept payload_str payload absent p =
      returns true (record_success (verdict payload) (seconds t.now) payload_str p)
  accept payload_str payload (text _) p =
      returns true (record_success (verdict payload) (seconds t.now) payload_str p)
  accept payload_str payload null p = aborted
  accept payload_str payload (other _) p = aborted

  -- Behind the decoding of the payload.
  unfoldable pub check_payload : Text → Text → Decoded → Params → Ended
  check_payload machine payload_str not_json p = fails_with (codes "bad-signature") p
  check_payload machine payload_str not_object p = aborted
  check_payload machine payload_str (object payload) p =
      if not (field_is payload.license_id (strip t.license_id))
      then fails_with (codes "bad-signature") p
      else if not (field_is payload.machine_id machine)
      then fails_with (codes "bad-signature") p
      else accept payload_str payload payload.image_sha256 p

  -- Behind the decoding of the envelope.
  unfoldable pub check_envelope : Text → Envelope → Params → Ended
  check_envelope machine malformed p = fails_with (codes "bad-signature") p
  check_envelope machine not_text p = aborted
  check_envelope machine (sealed payload_str signature) p =
      if lib.verifies payload_str signature
      then check_payload machine payload_str (lib.decode payload_str) p
      else fails_with (codes "bad-signature") p

  -- Behind the request.
  unfoldable pub check_response : Text → Response → Params → Ended
  check_response machine http_error p = fails_with (codes "network-failed") p
  check_response machine url_error p = fails_with (codes "network-failed") p
  check_response machine raised p = aborted
  check_response machine (body raw) p = check_envelope machine (lib.envelope raw) p

  -- `run_check`. What the request says is not modelled: the response to it is part of the tick.
  unfoldable pub run_check : Params → Ended
  run_check p =
      if has_settings t
      then (let (machine, p') = machine_id_of t.machine p in check_response machine t.response p')
      else returns false p

abbrev pub or_zero : Option ℤ → ℤ
or_zero none = pos 0
or_zero (some z) = z

-- `checked_at and (time.time() - checked_at) > _STALE_THRESHOLD_SECONDS`
abbrev pub is_stale : ℤ → ℕ → Bool
is_stale (pos ts) now = not (ts == 0) && ltb ((ts + 14 * 86400) * 1000000) now
is_stale (negsuc n) now = ltb (14 * 86400 * 1000000) (now + (n + 1) * 1000000)

abbrev pub checked_at_of : Params → ℤ
checked_at_of p = or_zero (int_of (or_default p.checked_at (codes "0")))

-- A JSON value that is no object, which no check stores, is read as none here.
abbrev pub payload_of : Decoded → Option Payload
payload_of not_json = none
payload_of not_object = none
payload_of (object payload) = some payload

abbrev pub stored_payload : Libraries → Option Text → Option Payload
stored_payload lib none = none
stored_payload lib (some s) = if is_empty s then none else payload_of (lib.decode s)

-- `current_status`, at the time `now`.
unfoldable pub current_status : Libraries → ℕ → Params → Text × Option Payload
current_status lib now p =
    if is_stale (checked_at_of p) now
    then (codes "stale", none)
    else (or_default p.status (codes "bad-signature"), stored_payload lib p.payload)

unfoldable pub currently_valid : Libraries → ℕ → Params → Bool
currently_valid lib now p =
    let (status, _) = current_status lib now p in
    text_eq status (codes "active") || text_eq status (codes "grace")

unfoldable pub currently_in_grace : Libraries → ℕ → Params → Bool
currently_in_grace lib now p =
    let (status, _) = current_status lib now p in text_eq status (codes "grace")

unfoldable pub allowed_modules : Libraries → ℕ → Params → List Text
allowed_modules lib now p = elim (current_status lib now p).1 [
  | none ↦ []
  | some payload ↦ payload.allowed_modules
]
