-- ===== src/Agents/State/Memory.antt =====
-- agents/agents/adapters/state_memory.py: the adapter that keeps its state in dicts. A dict is the list of its
-- items, in an order that nothing reads.
use odoo_custom.Prelude.{ℕ, Bool, true, false, List, [], Option, none, some, keep_if}
use odoo_custom.Prelude.Text.{Text}
use odoo_custom.Prelude.Keys.{Key, text_key, nat_key, pair_key}
use odoo_custom.Prelude.Tables.{find_by, upsert}
use odoo_custom.Agents.State.{
  ThreadIssueLink, thread_of, issue_of, set_confirmed, set_relayed, StateStore, is_fresh,
}
use mathlib.Core.Option

abbrev pub Dict : Type 0 → Type 0 → Type 0
Dict K V = List (K × V)

abbrev pub key_of : {K V : Type 0} → K × V → K
key_of (k, v) = k

abbrev pub value_of : {K V : Type 0} → K × V → V
value_of (k, v) = v

-- `d.get(k)`
abbrev pub get : {K V : Type 0} ⦃key : Key K⦄ → K → Dict K V → Option V
get k d = Option.map value_of (find_by key_of k d)

-- `d[k] = v`
abbrev pub put : {K V : Type 0} ⦃key : Key K⦄ → K → V → Dict K V → Dict K V
put k v d = upsert key_of (k, v) d

pub record InMemoryStateStore : Type 0 where
  pub links_by_thread : Dict (Text × Text) ThreadIssueLink
  pub links_by_issue : Dict (Text × ℕ) ThreadIssueLink
  pub user_map : Dict Text Text
  pub dedupe : Dict Text ℕ

abbrev pub new_memory : InMemoryStateStore
new_memory = record { links_by_thread = []; links_by_issue = []; user_map = []; dedupe = [] }

-- The link of a thread in both dicts, changed if there is one.
unfoldable pub replace_link :
    (ThreadIssueLink → ThreadIssueLink)
    → Text × Text
    → Option ThreadIssueLink
    → InMemoryStateStore
    → InMemoryStateStore
replace_link change thread none m = m
replace_link change thread (some existing) m = record m {
  links_by_thread = put thread (change existing) m.links_by_thread;
  links_by_issue = put (issue_of existing) (change existing) m.links_by_issue;
}

-- `seen_event` behind its ageing out, for the time that the dict then has for the key.
abbrev pub record_event : ℕ → Text → Option ℕ → InMemoryStateStore → Bool × InMemoryStateStore
record_event later key (some at) m = (true, m)
record_event later key none m = (false, record m { dedupe = put key later m.dedupe })

abbrev pub age_out : ℕ → ℕ → InMemoryStateStore → InMemoryStateStore
age_out ttl now m = record m {
  dedupe = keep_if (λ item. is_fresh ttl now (value_of item)) m.dedupe;
}

abbrev pub memory : ℕ → StateStore InMemoryStateStore
memory ttl = record {
  link_thread_to_issue = λ l m. record m {
    links_by_thread = put (thread_of l) l m.links_by_thread;
    links_by_issue = put (issue_of l) l m.links_by_issue;
  };
  get_link_by_thread = λ t m. get t m.links_by_thread;
  get_link_by_issue = λ i m. get i m.links_by_issue;
  mark_intent_confirmed = λ t at m. replace_link (set_confirmed at) t (get t m.links_by_thread) m;
  update_last_relayed_comment =
      λ t comment_id m. replace_link (set_relayed comment_id) t (get t m.links_by_thread) m;
  map_user = λ slack_user_id github_login m. record m {
    user_map = put slack_user_id github_login m.user_map;
  };
  lookup_github_login = λ slack_user_id m. get slack_user_id m.user_map;
  seen_event = λ now later key m.
      record_event later key (get key (age_out ttl now m).dedupe) (age_out ttl now m);
}
