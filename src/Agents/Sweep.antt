-- ===== src/Agents/Sweep.antt =====
-- agents/agents/spec_generator/core.py: the sweep, which confirms the drafts that nobody has answered. A time
-- is a count of microseconds.
pub mod Ripe
use odoo_custom.Prelude.{
  ℕ, ◌+◌, ◌*◌, Bool, true, false, not, ◌&&◌, List, [], ◌∷◌, ◌++◌, Option, none, some, ltb, ◌==◌,
  if◌then◌else◌,
}
use odoo_custom.Prelude.Text.{Text, codes}
use odoo_custom.Prelude.Split.{contains}
use odoo_custom.Agents.Intake.{member}

-- A candidate of the payload; a number is 0 where there is none, and `updated_at` none where it is no
-- time.
pub record Candidate : Type 0 where
  pub pr_number : ℕ
  pub issue_number : ℕ
  pub updated_at : Option ℕ
  pub labels : List Text
  pub spec_body : Text

pub data Decision : Type 0 where
  already_confirmed no_updated_at too_young needs_clarification_marker confirm : Decision

-- What the sweep calls at the issue tracker.
pub data Effect : Type 0 where
  add_label remove_label : ℕ → Text → Effect
  comment : ℕ → Effect

-- `act`, whether the issue tracker is bound, the time of the sweep, and which calls raise.
pub record Sweep : Type 0 where
  pub act : Bool
  pub has_issues : Bool
  pub now : ℕ
  pub raises : Effect → Bool

abbrev pub day : ℕ
day = 24 * 3600 * 1000000

-- `_decide_sweep`, for the time of the last update.
abbrev pub decide_at : ℕ → Candidate → Option ℕ → Decision
decide_at now c none = no_updated_at
decide_at now c (some updated_at) =
    if ltb now (updated_at + day)
    then too_young
    else if contains (codes "[NEEDS CLARIFICATION]") c.spec_body
    then needs_clarification_marker
    else confirm

unfoldable pub decide_sweep : ℕ → Candidate → Decision
decide_sweep now c =
    if member (codes "intent-confirmed") c.labels
    then already_confirmed
    else decide_at now c c.updated_at

-- `cand.get("pr_number") or cand.get("issue_number") or 0`
abbrev pub target : Candidate → ℕ
target c = if c.pr_number == 0 then c.issue_number else c.pr_number

-- The stale labels that the candidate has are removed; an exception there is caught.
abbrev pub remove_stale : Candidate → List Effect
remove_stale c =
    (if member (codes "awaiting-reporter-confirm") c.labels
      then remove_label (target c) (codes "awaiting-reporter-confirm") ∷ []
      else [])
    ++ (if member (codes "awaiting-reporter-reconfirm") c.labels
        then remove_label (target c) (codes "awaiting-reporter-reconfirm") ∷ []
        else [])

abbrev pub labelled : Candidate → List Effect
labelled c = add_label (target c) (codes "intent-confirmed") ∷ remove_stale c

-- What is called for a candidate, and whether a call raised that is not caught.
abbrev pub confirm_candidate : Sweep → Candidate → List Effect × Bool
confirm_candidate w c =
    if w.raises (add_label (target c) (codes "intent-confirmed"))
    then ([], true)
    else if c.issue_number == 0
    then (labelled c, false)
    else if w.raises (comment c.issue_number)
    then (labelled c, true)
    else (labelled c ++ (comment c.issue_number ∷ []), false)

pub record Summary : Type 0 where
  pub decisions : List Decision
  pub confirmed : List ℕ
  pub effects : List Effect
  pub raised : Bool

abbrev pub no_summary : Summary
no_summary = record { decisions = []; confirmed = []; effects = []; raised = false }

abbrev pub decided : Decision → Summary → Summary
decided d rest = record rest { decisions = d ∷ rest.decisions }

-- A candidate that is confirmed, before the rest, which an exception leaves out.
abbrev pub and_then : Candidate → List Effect × Bool → Summary → Summary
and_then c (effects, true) rest = record {
  decisions = confirm ∷ [];
  confirmed = [];
  effects = effects;
  raised = true;
}
and_then c (effects, false) rest = record {
  decisions = confirm ∷ rest.decisions;
  confirmed = target c ∷ rest.confirmed;
  effects = effects ++ rest.effects;
  raised = rest.raised;
}

abbrev pub handle_candidate : Sweep → Candidate → Decision → Summary → Summary
handle_candidate w c confirm rest =
    if w.act && w.has_issues then and_then c (confirm_candidate w c) rest else decided confirm rest
handle_candidate w c already_confirmed rest = decided already_confirmed rest
handle_candidate w c no_updated_at rest = decided no_updated_at rest
handle_candidate w c too_young rest = decided too_young rest
handle_candidate w c needs_clarification_marker rest = decided needs_clarification_marker rest

-- `sweep`
unfoldable pub sweep : Sweep → List Candidate → Summary
sweep w [] = no_summary
sweep w (c ∷ cs) = let rest = sweep w cs in handle_candidate w c (decide_sweep w.now c) rest
