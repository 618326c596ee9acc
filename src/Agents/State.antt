-- ===== src/Agents/State.antt =====
-- agents/agents/ports/state.py: the state that the Slack intake keeps, and the calls of its port.
-- `Memory` and `Sqlite` are its adapters. A time is a count of microseconds.
pub mod Memory
pub mod Sqlite
pub mod Maps
pub mod Remembering
pub mod Storing
pub mod Simulating
pub mod Refine
pub mod Lawful
use odoo_custom.Prelude.{
  ℕ, ◌+◌, ◌*◌, Bool, true, false, List, [], ◌∷◌, ◌++◌, Option, none, some, leb,
}
use odoo_custom.Prelude.Text.{Text}

pub record ThreadIssueLink : Type 0 where
  pub slack_channel : Text
  pub slack_thread_ts : Text
  pub github_repo : Text
  pub github_issue_number : ℕ
  pub reporter_slack_id : Text
  pub created_at : ℕ
  pub last_relayed_comment_id : Option ℕ
  pub intent_confirmed_at : Option ℕ

abbrev pub thread_of : ThreadIssueLink → Text × Text
thread_of l = (l.slack_channel, l.slack_thread_ts)

abbrev pub issue_of : ThreadIssueLink → Text × ℕ
issue_of l = (l.github_repo, l.github_issue_number)

abbrev pub set_confirmed : ℕ → ThreadIssueLink → ThreadIssueLink
set_confirmed at l = record l { intent_confirmed_at = some at }

abbrev pub set_relayed : ℕ → ThreadIssueLink → ThreadIssueLink
set_relayed comment_id l = record l { last_relayed_comment_id = some comment_id }

-- The port, for a store that is in a state of type `S`. `seen_event` takes the times that the clock
-- has when it ages out and when it records.
pub record StateStore (S : Type 0) : Type 0 where
  pub link_thread_to_issue : ThreadIssueLink → S → S
  pub get_link_by_thread : Text × Text → S → Option ThreadIssueLink
  pub get_link_by_issue : Text × ℕ → S → Option ThreadIssueLink
  pub mark_intent_confirmed : Text × Text → ℕ → S → S
  pub update_last_relayed_comment : Text × Text → ℕ → S → S
  pub map_user : Text → Text → S → S
  pub lookup_github_login : Text → S → Option Text
  pub seen_event : ℕ → ℕ → Text → S → Bool × S

-- `v >= now - ttl`, with `ttl` hours.
abbrev pub is_fresh : ℕ → ℕ → ℕ → Bool
is_fresh ttl now v = leb now (v + ttl * 3600 * 1000000)

-- A call of the port.
pub data Call : Type 0 where
  link_thread_to_issue : ThreadIssueLink → Call
  get_link_by_thread : Text × Text → Call
  get_link_by_issue : Text × ℕ → Call
  mark_intent_confirmed update_last_relayed_comment : Text × Text → ℕ → Call
  map_user : Text → Text → Call
  lookup_github_login : Text → Call
  seen_event : ℕ → ℕ → Text → Call

-- What a call returns.
pub data Answer : Type 0 where
  nothing : Answer
  found : Option ThreadIssueLink → Answer
  login : Option Text → Answer
  seen : Bool → Answer

module _ {S : Type 0} (store : StateStore S) where
  unfoldable pub call : Call → S → Answer × S
  call (link_thread_to_issue l) s = (nothing, store.link_thread_to_issue l s)
  call (get_link_by_thread t) s = (found (store.get_link_by_thread t s), s)
  call (get_link_by_issue i) s = (found (store.get_link_by_issue i s), s)
  call (mark_intent_confirmed t at) s = (nothing, store.mark_intent_confirmed t at s)
  call (update_last_relayed_comment t comment_id) s =
      (nothing, store.update_last_relayed_comment t comment_id s)
  call (map_user slack_user_id github_login) s =
      (nothing, store.map_user slack_user_id github_login s)
  call (lookup_github_login slack_user_id) s =
      (login (store.lookup_github_login slack_user_id s), s)
  call (seen_event now later key) s = let (b, s') = store.seen_event now later key s in (seen b, s')

  -- The answers to calls, one after the other.
  unfoldable pub answers : List Call → S → List Answer
  answers [] s = []
  answers (c ∷ cs) s = let (a, s') = call c s in a ∷ answers cs s'
