-- ===== src/Migration/Snapshot.antt =====
-- `take_snapshot` of infra/runners/migration_runner/snapshot.py, over the outcome of the command or
-- request that its mode makes.
pub mod Key
use odoo_custom.Prelude.{
  ℕ, Bool, true, false, List, [], ◌∷◌, ◌++◌, Option, none, some, if◌then◌else◌,
}
use odoo_custom.Prelude.Text.{Text, codes, text_eq, strip, show_ℕ}
use odoo_custom.Prelude.Split.{splitlines, behind, behind_first}

-- How `subprocess.run` with `check=True` ends: with exit code 0 and its standard output, with another
-- exit code, at its timeout, without the program, or with another exception.
pub data Ran : Type 0 where
  printed : Text → Ran
  failed timed_out missing raised : Ran

-- How the HTTP request ends: with an exception, a body that is no JSON, an object without a text
-- under 'snapshot_id', the text there, or another JSON value, whose `get` raises.
pub data Answered : Type 0 where
  call_failed not_json no_id not_object : Answered
  has_id : Text → Answered

-- The argument `mode`, '' where there is none, SNAPSHOT_MODE, and the address and the secret of the
-- backup service, '' where neither the argument nor the environment has one.
pub record Settings : Type 0 where
  pub mode : Text
  pub snapshot_mode : Option Text
  pub url : Text
  pub secret : Text

-- What happens in a call.
pub record Outside : Type 0 where
  pub monotonic : ℕ
  pub ran : Ran
  pub answered : Answered

-- A snapshot_id, the SnapshotError, or another exception.
pub data Snapshot : Type 0 where
  taken : Text → Snapshot
  error crash : Snapshot

abbrev pub is_empty : Text → Bool
is_empty [] = true
is_empty (c ∷ cs) = false

-- The last line that `f` finds something in: `for line in reversed(lines)`.
unfoldable pub last_found : (Text → Option Text) → List Text → Option Text
last_found f [] = none
last_found f (l ∷ ls) = elim (last_found f ls) [ some t ↦ some t | none ↦ f l ]

abbrev pub stripped : Option Text → Option Text
stripped none = none
stripped (some t) = some (strip t)

abbrev pub key_marker : Text
key_marker = codes "SNAPSHOT_KEY="

abbrev pub key_of_line : Text → Option Text
key_of_line line = stripped (behind key_marker line)

-- `_parse_snapshot_key`
unfoldable pub parse_snapshot_key : Text → Option Text
parse_snapshot_key stdout = last_found key_of_line (splitlines stdout)

abbrev pub label_of_line : Text → Option Text
label_of_line line = elim (behind_first (codes "new backup label = ") line) [
  | some t ↦ some (strip t)
  | none ↦ stripped (behind_first (codes "backup: label = ") line)
]

-- `_parse_backup_label`
unfoldable pub parse_backup_label : Text → Option Text
parse_backup_label stdout = last_found label_of_line (splitlines stdout)

-- `if not label: raise`
abbrev pub unless_empty : Option Text → Snapshot
unless_empty none = error
unless_empty (some t) = if is_empty t then error else taken t

-- The three ways of running a command; a missing program is caught where flyctl runs it.
unfoldable pub snapshot_via_cli : Ran → Snapshot
snapshot_via_cli (printed out) = unless_empty (parse_backup_label out)
snapshot_via_cli failed = error
snapshot_via_cli timed_out = error
snapshot_via_cli missing = crash
snapshot_via_cli raised = crash

unfoldable pub snapshot_via_ssh : Ran → Snapshot
snapshot_via_ssh (printed out) = unless_empty (parse_backup_label out)
snapshot_via_ssh raised = crash
snapshot_via_ssh _ = error

unfoldable pub snapshot_via_pgdump : Ran → Snapshot
snapshot_via_pgdump (printed out) = unless_empty (parse_snapshot_key out)
snapshot_via_pgdump raised = crash
snapshot_via_pgdump _ = error

unfoldable pub snapshot_via_http : Answered → Snapshot
snapshot_via_http (has_id t) = if is_empty t then error else taken t
snapshot_via_http not_object = crash
snapshot_via_http _ = error

-- `os.environ.get(key, default)`
abbrev pub get_or : Option Text → Text → Text
get_or none d = d
get_or (some t) d = t

-- `mode or os.environ.get('SNAPSHOT_MODE', 'skip')`
abbrev pub mode_of : Settings → Text
mode_of s = if is_empty s.mode then get_or s.snapshot_mode (codes "skip") else s.mode

-- `take_snapshot`
unfoldable pub take_snapshot : Settings → Outside → Snapshot
take_snapshot s out =
    let mode = mode_of s in
    if text_eq mode (codes "skip")
    then taken (codes "no-snapshot-" ++ show_ℕ out.monotonic)
    else if text_eq mode (codes "cli")
    then snapshot_via_cli out.ran
    else if text_eq mode (codes "ssh")
    then snapshot_via_ssh out.ran
    else if text_eq mode (codes "pgdump")
    then snapshot_via_pgdump out.ran
    else if text_eq mode (codes "http")
    then if is_empty s.url
      then error
      else if is_empty s.secret
      then error
      else snapshot_via_http out.answered
    else error
