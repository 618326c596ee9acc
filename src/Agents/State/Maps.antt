-- ===== src/Agents/State/Maps.antt =====
-- The state that agents/agents/ports/state.py promises to keep, as maps: a key has the value that was last
-- set for it.
use odoo_custom.Prelude.{
  ℕ, ◌≡◌, refl, Bool, true, false, List, [], ◌∷◌, Option, none, some, All, if◌then◌else◌,
}
use odoo_custom.Prelude.Text.{Text}
use odoo_custom.Prelude.Keys.{Key, equals, text_key, nat_key, pair_key}
use odoo_custom.Prelude.Tables.{only_if}
use odoo_custom.Agents.State.{
  ThreadIssueLink, thread_of, issue_of, set_confirmed, set_relayed, StateStore, is_fresh, Call,
  call, answers,
}

pub record Maps : Type 0 where
  pub thread : Text × Text → Option ThreadIssueLink
  pub issue : Text × ℕ → Option ThreadIssueLink
  pub user : Text → Option Text
  pub event : Text → Option ℕ

abbrev pub no_maps : Maps
no_maps = record { thread = λ t. none; issue = λ i. none; user = λ u. none; event = λ e. none }

abbrev pub set : {K V : Type 0} ⦃key : Key K⦄ → K → V → (K → Option V) → K → Option V
set k v f x = if equals k x then some v else f x

abbrev pub set_both : ThreadIssueLink → Maps → Maps
set_both l m = record m {
  thread = set (thread_of l) l m.thread;
  issue = set (issue_of l) l m.issue;
}

-- The link of a thread, changed for the thread and for its issue.
abbrev pub change_both :
    (ThreadIssueLink → ThreadIssueLink) → Text × Text → Option ThreadIssueLink → Maps → Maps
change_both change t none m = m
change_both change t (some l) m = record m {
  thread = set t (change l) m.thread;
  issue = set (issue_of l) (change l) m.issue;
}

abbrev pub record_once : ℕ → Text → Option ℕ → Maps → Bool × Maps
record_once later key (some at) m = (true, m)
record_once later key none m = (false, record m { event = set key later m.event })

abbrev pub age : ℕ → ℕ → Maps → Maps
age ttl now m = record m { event = λ key. only_if (is_fresh ttl now) (m.event key) }

abbrev pub maps : ℕ → StateStore Maps
maps ttl = record {
  link_thread_to_issue = set_both;
  get_link_by_thread = λ t m. m.thread t;
  get_link_by_issue = λ i m. m.issue i;
  mark_intent_confirmed = λ t at m. change_both (set_confirmed at) t (m.thread t) m;
  update_last_relayed_comment =
      λ t comment_id m. change_both (set_relayed comment_id) t (m.thread t) m;
  map_user =
      λ slack_user_id github_login m. record m { user = set slack_user_id github_login m.user };
  lookup_github_login = λ slack_user_id m. m.user slack_user_id;
  seen_event = λ now later key m. record_once later key ((age ttl now m).event key) (age ttl now m);
}

-- Two stores that answer a call alike in related states, and come to related states, answer all calls
-- alike.
module _ {S T : Type 0} (a : StateStore S) (b : StateStore T) (R : S → T → Type 0)
    (P : Call → Type 0) where
  abbrev pub Simulates : Type 0
  Simulates =
      (c : Call) (s : S) (t : T)
      → P c
      → R s t
      → ((call a c s).0 ≡ (call b c t).0) × R (call a c s).1 (call b c t).1

  pub answers-Simulates :
      Simulates
      → (cs : List Call) (s : S) (t : T) → All P cs
      → R s t
      → answers a cs s ≡ answers b cs t
  unfolding answers
  answers-Simulates step [] s t all r = refl
  answers-Simulates step (c ∷ cs) s t all r =
      let (same, related) = step c s t all.0 r in
      let later = answers-Simulates step cs (call a c s).1 (call b c t).1 all.1 related in cc
