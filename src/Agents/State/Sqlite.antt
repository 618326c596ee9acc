-- ===== src/Agents/State/Sqlite.antt =====
-- agents/agents/adapters/state_sqlite.py: the adapter that keeps its state in three tables of SQLite. The rows
-- stand in the order of their rowids, in which both a scan and an index give those that match. A
-- time is stored as a text of the ISO format, all of UTC, whose order is that of the times.
use odoo_custom.Prelude.{
  ℕ, Bool, true, false, List, [], ◌∷◌, ◌++◌, Option, none, some, keep_if, update_where,
}
use odoo_custom.Prelude.Text.{Text, codes}
use odoo_custom.Prelude.Keys.{equals, text_key, nat_key, pair_key}
use odoo_custom.Prelude.Tables.{find_by, upsert}
use odoo_custom.Agents.State.{
  ThreadIssueLink, thread_of, issue_of, set_confirmed, set_relayed, StateStore, is_fresh,
}
use mathlib.Core.Option

-- A row of `user_mapping`. The method is 'manual' wherever it is not given.
pub record UserMapping : Type 0 where
  pub slack_user_id : Text
  pub github_login : Text
  pub linked_method : Text

abbrev pub user_of : UserMapping → Text
user_of u = u.slack_user_id

abbrev pub login_of : UserMapping → Text
login_of u = u.github_login

-- A row of `dedupe`.
pub record Dedupe : Type 0 where
  pub key : Text
  pub seen_at : ℕ

abbrev pub event_of : Dedupe → Text
event_of d = d.key

pub record SqliteStateStore : Type 0 where
  pub thread_issue : List ThreadIssueLink
  pub user_mapping : List UserMapping
  pub dedupe : List Dedupe

-- The tables that `_SCHEMA` creates.
abbrev pub new_sqlite : SqliteStateStore
new_sqlite = record { thread_issue = []; user_mapping = []; dedupe = [] }

-- UPDATE thread_issue SET ... WHERE slack_channel = ? AND slack_thread_ts = ?
abbrev pub update_thread :
    (ThreadIssueLink → ThreadIssueLink) → Text × Text → SqliteStateStore → SqliteStateStore
update_thread change thread s = record s {
  thread_issue = update_where (λ l. equals (thread_of l) thread) change s.thread_issue;
}

-- INSERT INTO dedupe, which raises an IntegrityError for a key that has a row.
abbrev pub insert_event : ℕ → Text → Option Dedupe → SqliteStateStore → Bool × SqliteStateStore
insert_event later key (some row) s = (true, s)
insert_event later key none s =
    (false, record s { dedupe = s.dedupe ++ (record { key = key; seen_at = later } ∷ []) })

-- DELETE FROM dedupe WHERE seen_at < ?
abbrev pub delete_old : ℕ → ℕ → SqliteStateStore → SqliteStateStore
delete_old ttl now s = record s { dedupe = keep_if (λ row. is_fresh ttl now row.seen_at) s.dedupe }

abbrev pub sqlite : ℕ → StateStore SqliteStateStore
sqlite ttl = record {
  link_thread_to_issue = λ l s. record s { thread_issue = upsert thread_of l s.thread_issue };
  get_link_by_thread = λ t s. find_by thread_of t s.thread_issue;
  get_link_by_issue = λ i s. find_by issue_of i s.thread_issue;
  mark_intent_confirmed = λ t at. update_thread (set_confirmed at) t;
  update_last_relayed_comment = λ t comment_id. update_thread (set_relayed comment_id) t;
  map_user = λ slack_user_id github_login s. record s {
    user_mapping =
        upsert user_of
          (record {
            slack_user_id = slack_user_id;
            github_login = github_login;
            linked_method = codes "manual";
          })
          s.user_mapping;
  };
  lookup_github_login =
      λ slack_user_id s. Option.map login_of (find_by user_of slack_user_id s.user_mapping);
  seen_event = λ now later key s.
      insert_event later key (find_by event_of key (delete_old ttl now s).dedupe)
        (delete_old ttl now s);
}
