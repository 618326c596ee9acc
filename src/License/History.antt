-- ===== src/License/History.antt =====
-- What sequences of checks of custom-addons/saas_license_gate/models/license_gate.py let pass.
use odoo_custom.Prelude.{
  ℕ, ◌+◌, ◌*◌, ◌≤◌, ◌≡◌, ◌≢◌, ◌⊎◌, refl, sym, subst, ap, inl, inr, Bool, true, false, List, [], ◌∷◌,
  Option, none, some, arith, Bool-cases,
}
use odoo_custom.Prelude.Int.{pos}
use odoo_custom.Prelude.Text.{Text, codes, text_eq, text_eq→eq, show_ℕ}
use odoo_custom.Prelude.Decimal.{int_of, int_of-show_ℕ, show_ℕ-ne-nil}
use odoo_custom.License.Gate.{
  Params, Libraries, http_error, url_error, Tick, Ended, aborted, returns, has_settings, seconds,
  check_response, run_check, record_failure, current_status, is_stale, checked_at_of, or_default,
  or_zero,
}
use odoo_custom.License.Enforcement.{Guarded, grace_writable, write_allowed, passes}
use odoo_custom.License.Check.{IsAuthorized, Rules, Stamps, machine_of, run_check-Stamps}

module _ (lib : Libraries) where
  abbrev pub unless_aborted : Params → Ended → Params
  unless_aborted p aborted = p
  unless_aborted p (returns b p') = p'

  -- An installation that was never checked.
  abbrev pub unchecked : Params
  unchecked = record { status = none; checked_at = none; payload = none; machine_id = none }

  -- The parameters after checks, of which the latest stands first.
  unfoldable pub run : List Tick → Params
  run [] = unchecked
  run (t ∷ ts) = unless_aborted (run ts) (run_check lib t (run ts))

  -- A check that leaves no trace: it lacks a setting or was aborted.
  abbrev pub IsSilent : Tick → Params → Type 0
  IsSilent t p = (has_settings t ≡ false) ⊎ (run_check lib t p ≡ aborted)

  -- The last check that left a trace, and the parameters that it started from.
  pub data Decides : List Tick → Tick → Params → Type 0 where
    now : {ts : List Tick} (t : Tick) → ¬ IsSilent t (run ts) → Decides (t ∷ ts) t (run ts)
    before :
        {ts : List Tick} {t : Tick} {p : Params} (s : Tick)
        → IsSilent s (run ts)
        → Decides ts t p
        → Decides (s ∷ ts) t p

  -- What the parameters hold after checks.
  abbrev pub Traces : List Tick → Params → Type 0
  Traces ts q =
      (q.status ≡ none)
      ⊎ ((t : Tick) × (p : Params) × Decides ts t p
          × (q.checked_at ≡ some (show_ℕ (seconds t.now)))
          × Rules lib t (machine_of t p) q)

  silent-Traces :
      (s : Tick) (ts : List Tick)
      → IsSilent s (run ts)
      → Traces ts (run ts)
      → Traces (s ∷ ts) (run ts)
  silent-Traces s ts silent (inl fresh) = inl fresh
  silent-Traces s ts silent (inr (t, p, decides, stamp, rules)) =
      inr (t, p, before s silent decides, stamp, rules)

  not-IsSilent :
      (t : Tick) (p : Params) (b : Bool) (q : Params)
      → has_settings t ≡ true
      → run_check lib t p ≡ returns b q
      → ¬ IsSilent t p
  not-IsSilent t p b q set same (inl unset) = absurd (cc)
  not-IsSilent t p b q set same (inr gone) = absurd (ground (arith, same, gone))

  -- A step, by how the check ended.
  ended-Traces :
      (t : Tick) (ts : List Tick) (e : Ended)
      → has_settings t ≡ true
      → run_check lib t (run ts) ≡ e
      → Stamps lib t (machine_of t (run ts)) e
      → Traces ts (run ts)
      → Traces (t ∷ ts) (unless_aborted (run ts) e)
  ended-Traces t ts aborted set same stamped traces = silent-Traces t ts (inr same) traces
  ended-Traces t ts (returns b q) set same stamped traces =
      inr (t, run ts, now t (not-IsSilent t (run ts) b q set same), stamped.0, stamped.1)

  no_settings-run : (t : Tick) (ts : List Tick) → has_settings t ≡ false → run (t ∷ ts) ≡ run ts
  unfolding run run_check
  no_settings-run t ts e = ground (arith, e)

  run-Traces : (ts : List Tick) → Traces ts (run ts)
  unfolding run
  run-Traces [] = inl refl
  run-Traces (t ∷ ts) = elim (Bool-cases (has_settings t)) [
    | inl set ↦
        ended-Traces t ts (run_check lib t (run ts)) set refl (run_check-Stamps lib t (run ts) set)
          (run-Traces ts)
    | inr unset ↦
        subst (λ q. Traces (t ∷ ts) q) (sym (no_settings-run t ts unset))
          (silent-Traces t ts (inl unset) (run-Traces ts))
  ]

  pub checked_at_of_stamp :
      (q : Params) (n : ℕ) → q.checked_at ≡ some (show_ℕ n) → checked_at_of q ≡ pos n
  checked_at_of_stamp q n e = rw e (go (show_ℕ n) (show_ℕ-ne-nil n) (int_of-show_ℕ n))
    where
      go :
          (s : Text)
          → s ≢ []
          → int_of s ≡ some (pos n)
          → or_zero (int_of (or_default (some s) (codes "0"))) ≡ pos n
      go [] h e = absurd (h refl)
      go (c ∷ cs) h e = ap or_zero e

  -- The verdicts that let a write pass, and the models that they let it pass for.
  abbrev pub Opens : Text → Guarded → Type 0
  Opens status m =
      (status ≡ codes "active") ⊎ ((status ≡ codes "grace") × (grace_writable m ≡ true))

  write_allowed-Opens : (m : Guarded) (s : Text) → write_allowed m s ≡ true → Opens s m
  unfolding write_allowed
  write_allowed-Opens m s e = elim (Bool-cases (text_eq s (codes "active"))) [
    | inl active ↦ inl (text_eq→eq s _ active)
    | inr lapsed ↦ inr (text_eq→eq s _ (ground (arith, lapsed)), ground (arith, lapsed))
  ]

  passes-Opens :
      (m : Guarded) (time : ℕ) (q : Params)
      → passes lib m time q ≡ true
      → (is_stale (checked_at_of q) time ≡ false)
        × Opens (or_default q.status (codes "bad-signature")) m
  unfolding passes current_status write_allowed
  passes-Opens m time q e = elim (Bool-cases (is_stale (checked_at_of q) time)) [
    | inl stale ↦ absurd (ground (arith, stale))
    | inr fresh ↦ (fresh, write_allowed-Opens m _ (ground (arith, fresh)))
  ]

  -- The verdict that let a write pass came from the last check that left a trace.
  abbrev pub Backs : Guarded → ℕ → List Tick → Type 0
  Backs m time ts =
      (t : Tick) × (p : Params) × (status : Text) × Decides ts t p
      × IsAuthorized lib t (machine_of t p) (some status)
      × Opens status m
      × (seconds t.now ≢ 0 → time ≤ (seconds t.now + 14 * 86400) * 1000000)

  fresh_stamp :
      (n time : ℕ) → is_stale (pos n) time ≡ false → n ≢ 0 → time ≤ (n + 14 * 86400) * 1000000
  fresh_stamp n time e h = ground arith

  not_open : (m : Guarded) (s : Text) → ¬ Opens s m → (x : Text) → s ≡ x → ¬ Opens x m
  not_open m s h x e o = h (subst (λ y. Opens y m) (sym e) o)

  bad_signature_shut : (m : Guarded) → ¬ Opens (codes "bad-signature") m
  bad_signature_shut m (inl e) = absurd (ground arith)
  bad_signature_shut m (inr (e, g)) = absurd (ground arith)

  network_failed_shut : (m : Guarded) → ¬ Opens (codes "network-failed") m
  network_failed_shut m (inl e) = absurd (ground arith)
  network_failed_shut m (inr (e, g)) = absurd (ground arith)

  -- A status that opens is the one that is stored.
  stored_open :
      (m : Guarded) (o : Option Text)
      → Opens (or_default o (codes "bad-signature")) m
      → (s : Text) × (o ≡ some s) × Opens s m
  stored_open m none opens = absurd (bad_signature_shut m opens)
  stored_open m (some []) opens = absurd (bad_signature_shut m opens)
  stored_open m (some (c ∷ cs)) opens = (c ∷ cs, refl, opens)

  traced-Backs :
      (m : Guarded) (time : ℕ) (ts : List Tick) (q : Params)
      → Traces ts q
      → is_stale (checked_at_of q) time ≡ false
      → (s : Text) → q.status ≡ some s
      → Opens s m
      → Backs m time ts
  traced-Backs m time ts q (inl none_yet) fresh s is opens = absurd (cc)
  traced-Backs m time ts q (inr (t, p, decides, stamp, inl network)) fresh s is opens =
      absurd (not_open m _ (network_failed_shut m) s (ground (arith, network, is)) opens)
  traced-Backs m time ts q (inr (t, p, decides, stamp, inr (inl bad))) fresh s is opens =
      absurd (not_open m _ (bad_signature_shut m) s (ground (arith, bad, is)) opens)
  traced-Backs m time ts q (inr (t, p, decides, stamp, inr (inr authorized))) fresh s is opens = (
    t,
    p,
    s,
    decides,
    subst (IsAuthorized lib t (machine_of t p)) is authorized,
    opens,
    fresh_stamp (seconds t.now) time
        (subst (λ z. is_stale z time ≡ false) (checked_at_of_stamp q (seconds t.now) stamp) fresh),
  )

  -- If a write passes after some checks of a new installation, the last of them that left a trace was
  -- answered by a payload with a valid signature for this license and this machine; its status is
  -- active, or grace and the write is one of an account.move; and it is at most 14 days old, unless
  -- the clock stood in the first second of its epoch.
  pub passes-IsAuthorized :
      (m : Guarded) (time : ℕ) (ts : List Tick)
      → passes lib m time (run ts) ≡ true
      → Backs m time ts
  passes-IsAuthorized m time ts e =
      let (fresh, opens) = passes-Opens m time (run ts) e in
      let (s, is, open_still) = stored_open m (run ts).status opens in
      traced-Backs m time ts (run ts) (run-Traces ts) fresh s is open_still

  -- Right after a check with its settings whose request fails with an HTTPError or a URLError, every
  -- write of every guarded model is refused, whatever the checks before it found and however much
  -- time passes.
  pub outage-blocks :
      (m : Guarded) (time : ℕ) (t : Tick) (ts : List Tick)
      → has_settings t ≡ true
      → (t.response ≡ http_error) ⊎ (t.response ≡ url_error)
      → passes lib m time (run (t ∷ ts)) ≡ false
  unfolding run run_check check_response record_failure
  outage-blocks m time t ts set failed = elim (Bool-cases (passes lib m time (run (t ∷ ts)))) [
    | inr refused ↦ refused
    | inl passed ↦
        let (_, opens) = passes-Opens m time (run (t ∷ ts)) passed in
        let status : (run (t ∷ ts)).status ≡ some (codes "network-failed") =
          ground (arith, set, failed) in
        absurd (
          network_failed_shut m
            (subst (λ o. Opens (or_default o (codes "bad-signature")) m) status opens))
  ]
