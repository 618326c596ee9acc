-- ===== src/Agents/Tests.antt =====
-- The Slack intake of agents/agents, at small inputs.
use odoo_custom.Prelude.{
  ℕ, ◌*◌, ◌≡◌, refl, true, false, List, [], ◌∷◌, Option, none, some, arith, find?, update_where,
}
use odoo_custom.Prelude.Text.{Text, codes}
use odoo_custom.Agents.State.{
  ThreadIssueLink, Call, link_thread_to_issue, get_link_by_issue, mark_intent_confirmed, map_user,
  lookup_github_login, seen_event, found, login, seen, nothing, call, answers,
}
use odoo_custom.Agents.State.Memory.{new_memory, memory}
use odoo_custom.Agents.State.Sqlite.{SqliteStateStore, new_sqlite, sqlite}
use odoo_custom.Agents.State.Maps.{no_maps, maps}
use odoo_custom.Agents.State.Refine.{sqlite-answers, memory-sqlite}
use odoo_custom.Agents.State.Lawful.{sqlite_lawful}
use odoo_custom.Agents.Intake.{
  Config, member, flag, Outside, issue_comment, message, block_action, BlockAction, IssueComment,
  Message,
}
use odoo_custom.Agents.Intake.Handlers.{handle, on_block_action}
use odoo_custom.Agents.Intake.Confirmed.{IsSilent, handle-IsSilent, after}
use odoo_custom.Prelude.Split.{behind_first}
use odoo_custom.Agents.Sweep.{Candidate, Sweep, day, decide_sweep, sweep}
use odoo_custom.Agents.Sweep.Ripe.{Sweeps, sweep-Sweeps}
use odoo_custom.Agents.Intake.Reporter.{ByReporter, handle-ByReporter}

abbrev link : Option ℕ → ThreadIssueLink
link intent = record {
  slack_channel = codes "C1";
  slack_thread_ts = codes "17.5";
  github_repo = codes "o/r";
  github_issue_number = 7;
  reporter_slack_id = codes "U1";
  created_at = 10;
  last_relayed_comment_id = none;
  intent_confirmed_at = intent;
}

abbrev thread : Text × Text
thread = (codes "C1", codes "17.5")

-- A link that is confirmed, and an event that comes twice and once more when it has aged out.
abbrev calls : List Call
calls =
    link_thread_to_issue (link none)
    ∷ mark_intent_confirmed thread 20
    ∷ get_link_by_issue (codes "o/r", 7)
    ∷ map_user (codes "U1") (codes "ana")
    ∷ lookup_github_login (codes "U1")
    ∷ seen_event 100 101 (codes "gh:1")
    ∷ seen_event 200 201 (codes "gh:1")
    ∷ seen_event 86_400_000_102 86_400_000_103 (codes "gh:1")
    ∷ []

calls-maps :
    answers (maps 24) calls no_maps
    ≡ nothing
      ∷ nothing
      ∷ found (some (link (some 20)))
      ∷ nothing
      ∷ login (some (codes "ana"))
      ∷ seen false
      ∷ seen true
      ∷ seen false
      ∷ []
unfolding answers call
calls-maps = refl

sqlite-answers_example : answers (sqlite 24) calls new_sqlite ≡ answers (maps 24) calls no_maps
sqlite-answers_example = sqlite-answers 24 calls ((refl, tt), tt)

memory-sqlite_example : answers (memory 24) calls new_memory ≡ answers (sqlite 24) calls new_sqlite
memory-sqlite_example = memory-sqlite 24 calls ((refl, tt), tt)

abbrev config : Config
config = record {
  shadow_mode = flag false;
  allowed_channels = codes "*" ∷ [];
  relay_authors = codes "bot" ∷ [];
  repo = codes "o/r";
  sensitive = λ text. false;
  mask = λ text. text;
}

abbrev outside : Outside
outside = record {
  raises = λ e. false;
  issue_number = 8;
  posted = (codes "C1", codes "18.0");
  now = 100;
  later = 101;
}

abbrev state : Option ℕ → SqliteStateStore
state intent = record new_sqlite { thread_issue = link intent ∷ [] }

abbrev reply : Message
reply = record {
  event_id = codes "E1";
  bot_id = false;
  subtype = false;
  channel = codes "C1";
  thread_ts = codes "17.5";
  text = codes "yes";
  user = codes "U1";
  ts = codes "17.9";
}

abbrev remark : IssueComment
remark = record {
  delivery_id = codes "D1";
  repo = codes "o/r";
  number = 7;
  labels = codes "source:slack" ∷ [];
  author_login = codes "bot[bot]";
  comment_id = 5;
  body = codes "?";
  html_url = [];
}

abbrev press : BlockAction
press = record {
  action_id = some (codes "intake_confirm");
  value = some thread;
  clicker = codes "U1";
  message_ts = [];
}

handle-IsSilent_example :
    IsSilent
      (sqlite 24)
      (sqlite_lawful 24)
      config
      thread
      (message reply)
      (handle (sqlite 24) config outside (message reply) (
        after
          (sqlite 24)
          (sqlite_lawful 24)
          config
          thread
          ((outside, issue_comment remark) ∷ [])
          (state (some 20)))).made
unfolding find?
handle-IsSilent_example =
    handle-IsSilent (sqlite 24) (sqlite_lawful 24) config thread
      ((outside, issue_comment remark) ∷ []) outside (message reply) (state (some 20))
      ((λ e. absurd (ground (arith, e))), tt) (λ e. absurd (ground (arith, e))) ((refl, tt), refl)

handle-ByReporter_example :
    (p : BlockAction) × (block_action press ≡ block_action p)
    × ByReporter
        (sqlite 24)
        (sqlite_lawful 24)
        config
        outside
        thread
        p
        (state none)
        (handle (sqlite 24) config outside (block_action press) (state none))
unfolding find? update_where handle on_block_action
handle-ByReporter_example =
    handle-ByReporter (sqlite 24) (sqlite_lawful 24) config outside thread (block_action press)
      (state none) refl refl

-- A draft of two days ago, and one of today.
abbrev candidate : ℕ → ℕ → Candidate
candidate number updated_at = record {
  pr_number = number;
  issue_number = 7;
  updated_at = some updated_at;
  labels = codes "awaiting-reporter-confirm" ∷ [];
  spec_body = [];
}

abbrev nightly : Sweep
nightly = record { act = true; has_issues = true; now = 3 * day; raises = λ e. false }

sweep-confirmed : (sweep nightly (candidate 1 day ∷ candidate 2 (3 * day) ∷ [])).confirmed ≡ 1 ∷ []
unfolding sweep decide_sweep member behind_first
sweep-confirmed = refl

sweep-Sweeps_example :
    Sweeps nightly
      (candidate 1 day ∷ candidate 2 (3 * day) ∷ [])
      (sweep nightly (candidate 1 day ∷ candidate 2 (3 * day) ∷ []))
sweep-Sweeps_example = sweep-Sweeps nightly (candidate 1 day ∷ candidate 2 (3 * day) ∷ [])
