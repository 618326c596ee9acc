-- ===== src/Agents/State/Lawful.antt =====
-- What the handlers of agents/agents/slack_intake/core.py rely on of the store of agents/agents/ports/state.py, and
-- the adapter of state_sqlite.py, which keeps it.
use odoo_custom.Prelude.{
  ℕ, ◌≡◌, refl, sym, ap, subst, Option, none, some, All-of-each, find?-holds, if◌then◌else◌,
}
use odoo_custom.Prelude.Text.{Text}
use odoo_custom.Prelude.Keys.{equals, text_key, nat_key, pair_key}
use odoo_custom.Prelude.Tables.{
  find_by, find_by-upsert, find_by-update, find_by-member, upsert-IsUnique, update_where-IsUnique,
  IsUnique, IsPaired,
}
use odoo_custom.Agents.State.{
  ThreadIssueLink, thread_of, issue_of, set_confirmed, set_relayed, StateStore,
}
use odoo_custom.Agents.State.Sqlite.{
  Dedupe, event_of, SqliteStateStore, insert_event, delete_old, sqlite,
}
use mathlib.Core.Option

pub record Lawful {S : Type 0} (store : StateStore S) : Type 1 where
  pub IsValid : S → Type 0
  pub link-IsValid :
      (l : ThreadIssueLink) (s : S) → IsValid s → IsValid (store.link_thread_to_issue l s)
  pub mark-IsValid :
      (t : Text × Text) (at : ℕ) (s : S) → IsValid s → IsValid (store.mark_intent_confirmed t at s)
  pub relayed-IsValid :
      (t : Text × Text) (comment_id : ℕ) (s : S)
      → IsValid s
      → IsValid (store.update_last_relayed_comment t comment_id s)
  pub seen-IsValid :
      (now later : ℕ) (key : Text) (s : S)
      → IsValid s
      → IsValid (store.seen_event now later key s).1
  pub get-link :
      (t : Text × Text) (l : ThreadIssueLink) (s : S)
      → store.get_link_by_thread t (store.link_thread_to_issue l s)
        ≡ (if equals (thread_of l) t then some l else store.get_link_by_thread t s)
  pub get-mark :
      (t u : Text × Text) (at : ℕ) (s : S)
      → store.get_link_by_thread t (store.mark_intent_confirmed u at s) ≡ (
          if equals u t
          then Option.map (set_confirmed at) (store.get_link_by_thread u s)
          else store.get_link_by_thread t s)
  pub get-relayed :
      (t u : Text × Text) (comment_id : ℕ) (s : S)
      → store.get_link_by_thread t (store.update_last_relayed_comment u comment_id s) ≡ (
          if equals u t
          then Option.map (set_relayed comment_id) (store.get_link_by_thread u s)
          else store.get_link_by_thread t s)
  pub get-seen :
      (t : Text × Text) (now later : ℕ) (key : Text) (s : S)
      → store.get_link_by_thread t (store.seen_event now later key s).1
        ≡ store.get_link_by_thread t s
  pub issue-thread :
      (i : Text × ℕ) (l : ThreadIssueLink) (s : S)
      → IsValid s
      → store.get_link_by_issue i s ≡ some l
      → store.get_link_by_thread (thread_of l) s ≡ some l

insert_event-threads :
    (later : ℕ) (key : Text) (o : Option Dedupe) (s : SqliteStateStore)
    → (insert_event later key o s).1.thread_issue ≡ s.thread_issue
insert_event-threads later key none s = refl
insert_event-threads later key (some row) s = refl

module _ (ttl : ℕ) where
  pub seen_event-threads :
      (now later : ℕ) (key : Text) (s : SqliteStateStore)
      → ((sqlite ttl).seen_event now later key s).1.thread_issue ≡ s.thread_issue
  seen_event-threads now later key s =
      insert_event-threads later key (find_by event_of key (delete_old ttl now s).dedupe)
        (delete_old ttl now s)

  -- No thread has two rows, as the primary key has it.
  abbrev pub sqlite_lawful : Lawful (sqlite ttl)
  sqlite_lawful = record {
    IsValid = λ s. IsUnique thread_of s.thread_issue;
    link-IsValid = λ l s. upsert-IsUnique thread_of l s.thread_issue;
    mark-IsValid = λ t at s.
        update_where-IsUnique thread_of (λ l. equals (thread_of l) t) (set_confirmed at)
          s.thread_issue (λ l. refl);
    relayed-IsValid = λ t comment_id s.
        update_where-IsUnique thread_of (λ l. equals (thread_of l) t) (set_relayed comment_id)
          s.thread_issue (λ l. refl);
    seen-IsValid = λ now later key s v.
        subst (IsUnique thread_of) (sym (seen_event-threads now later key s)) v;
    get-link = λ t l s. find_by-upsert thread_of thread_of t l s.thread_issue (
        All-of-each (IsPaired thread_of thread_of (thread_of l) (thread_of l)) s.thread_issue
          (λ b. refl));
    get-mark = λ t u at s.
        find_by-update thread_of thread_of t u u (set_confirmed at) s.thread_issue (λ l. refl)
          (All-of-each (IsPaired thread_of thread_of u u) s.thread_issue (λ b. refl));
    get-relayed = λ t u comment_id s.
        find_by-update thread_of thread_of t u u (set_relayed comment_id) s.thread_issue (λ l. refl)
          (All-of-each (IsPaired thread_of thread_of u u) s.thread_issue (λ b. refl));
    get-seen = λ t now later key s. ap (find_by thread_of t) (seen_event-threads now later key s);
    issue-thread = λ i l s unique is.
        let (hit, member) = find?-holds (λ a. equals (issue_of a) i) s.thread_issue is in
        find_by-member thread_of l s.thread_issue unique member;
  }
