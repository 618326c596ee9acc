-- ===== src/Agents/State/Refine.antt =====
-- Both adapters of agents/agents/ports/state.py against the maps of the port, over sequences of calls.
use odoo_custom.Prelude.{
  ℕ, ◌≡◌, refl, sym, ◌∙◌, List, [], ◌∷◌, All, All-map, All-of-each, Memᴰ, find?,
}
use odoo_custom.Agents.State.{
  ThreadIssueLink, Call, link_thread_to_issue, get_link_by_thread, get_link_by_issue,
  mark_intent_confirmed, update_last_relayed_comment, map_user, lookup_github_login, seen_event,
  answers,
}
use odoo_custom.Agents.State.Memory.{new_memory, memory}
use odoo_custom.Agents.State.Sqlite.{new_sqlite, sqlite}
use odoo_custom.Agents.State.Maps.{no_maps, maps, answers-Simulates}
use odoo_custom.Agents.State.Remembering.{Remembers, memory-Simulates}
use odoo_custom.Agents.State.Storing.{IsOneToOne, Follows, Stores}
use odoo_custom.Agents.State.Simulating.{sqlite-Simulates}

-- The links that calls make.
abbrev pub links_of : List Call → List ThreadIssueLink
links_of [] = []
links_of (link_thread_to_issue l ∷ cs) = l ∷ links_of cs
links_of (get_link_by_thread t ∷ cs) = links_of cs
links_of (get_link_by_issue i ∷ cs) = links_of cs
links_of (mark_intent_confirmed t at ∷ cs) = links_of cs
links_of (update_last_relayed_comment t comment_id ∷ cs) = links_of cs
links_of (map_user slack_user_id github_login ∷ cs) = links_of cs
links_of (lookup_github_login slack_user_id ∷ cs) = links_of cs
links_of (seen_event now later key ∷ cs) = links_of cs

Follows-more :
    (l : ThreadIssueLink) (ls : List ThreadIssueLink) (c : Call) → Follows ls c → Follows (l ∷ ls) c
Follows-more l ls (link_thread_to_issue k) m = Memᴰ.tail m
Follows-more l ls (get_link_by_thread t) m = tt
Follows-more l ls (get_link_by_issue i) m = tt
Follows-more l ls (mark_intent_confirmed t at) m = tt
Follows-more l ls (update_last_relayed_comment t comment_id) m = tt
Follows-more l ls (map_user slack_user_id github_login) m = tt
Follows-more l ls (lookup_github_login slack_user_id) m = tt
Follows-more l ls (seen_event now later key) m = tt

follow_links : (cs : List Call) → All (Follows (links_of cs)) cs
follow_links [] = tt
follow_links (link_thread_to_issue l ∷ cs) = (
  Memᴰ.head refl,
  All-map (Follows (links_of cs)) (Follows (l ∷ links_of cs)) cs (Follows-more l (links_of cs))
      (follow_links cs),
)
follow_links (get_link_by_thread t ∷ cs) = (tt, follow_links cs)
follow_links (get_link_by_issue i ∷ cs) = (tt, follow_links cs)
follow_links (mark_intent_confirmed t at ∷ cs) = (tt, follow_links cs)
follow_links (update_last_relayed_comment t comment_id ∷ cs) = (tt, follow_links cs)
follow_links (map_user slack_user_id github_login ∷ cs) = (tt, follow_links cs)
follow_links (lookup_github_login slack_user_id ∷ cs) = (tt, follow_links cs)
follow_links (seen_event now later key ∷ cs) = (tt, follow_links cs)

-- A new in-memory store answers any sequence of calls as the maps do.
pub memory-answers :
    (ttl : ℕ) (cs : List Call) → answers (memory ttl) cs new_memory ≡ answers (maps ttl) cs no_maps
unfolding find?
memory-answers ttl cs =
    answers-Simulates (memory ttl) (maps ttl) Remembers (λ c. Unit) (memory-Simulates ttl) cs
      new_memory no_maps (All-of-each (λ c. Unit) cs (λ c. tt))
      ((λ t. refl), (λ i. refl), (λ u. refl), (λ e. refl), tt)

-- A new SQLite store answers any sequence of calls as the maps do, if of the links that the calls make
-- two have the same thread exactly if they have the same issue.
pub sqlite-answers :
    (ttl : ℕ) (cs : List Call)
    → IsOneToOne (links_of cs)
    → answers (sqlite ttl) cs new_sqlite ≡ answers (maps ttl) cs no_maps
unfolding find?
sqlite-answers ttl cs one =
    answers-Simulates (sqlite ttl) (maps ttl) (Stores (links_of cs)) (Follows (links_of cs))
      (sqlite-Simulates (links_of cs) ttl one) cs new_sqlite no_maps (follow_links cs)
      ((λ t. refl), (λ i. refl), (λ u. refl), (λ e. refl), tt, tt)

-- The two adapters cannot be told apart by their answers to any sequence of calls on new stores, if of
-- the links that the calls make two have the same thread exactly if they have the same issue.
pub memory-sqlite :
    (ttl : ℕ) (cs : List Call)
    → IsOneToOne (links_of cs)
    → answers (memory ttl) cs new_memory ≡ answers (sqlite ttl) cs new_sqlite
memory-sqlite ttl cs one = memory-answers ttl cs ∙ sym (sqlite-answers ttl cs one)
