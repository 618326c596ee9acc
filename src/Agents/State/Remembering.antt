-- ===== src/Agents/State/Remembering.antt =====
-- The adapter of agents/agents/adapters/state_memory.py keeps the maps of the port.
use odoo_custom.Prelude.{
  ℕ, ◌≡◌, refl, inl, inr, Bool, Option, none, some, ap, ◌∙◌, subst, keep_if, Bool-cases,
  All-of-each,
}
use odoo_custom.Prelude.Text.{Text}
use odoo_custom.Prelude.Keys.{Key, text_key, nat_key, pair_key}
use odoo_custom.Prelude.Tables.{
  find_by, find_by-upsert, find_by-keep_if, keep_if-IsUnique, upsert-IsUnique, IsUnique, only_if,
  IsPaired,
}
use odoo_custom.Agents.State.{
  ThreadIssueLink, thread_of, issue_of, set_confirmed, set_relayed, is_fresh, link_thread_to_issue,
  get_link_by_thread, get_link_by_issue, mark_intent_confirmed, update_last_relayed_comment,
  map_user, lookup_github_login, seen_event, call, found, login, seen,
}
use odoo_custom.Agents.State.Memory.{
  Dict, key_of, value_of, get, put, InMemoryStateStore, replace_link, record_event, age_out, memory,
}
use odoo_custom.Agents.State.Maps.{Maps, set, change_both, record_once, age, maps, Simulates}
use mathlib.Core.Option

module _ {K V : Type 0} ⦃key : Key K⦄ where
  -- The dict has the values of the map.
  abbrev pub Has : Dict K V → (K → Option V) → Type 0
  Has d f = (k : K) → get k d ≡ f k

  pub put-Has :
      (k : K) (v : V) (d : Dict K V) (f : K → Option V) → Has d f → Has (put k v d) (set k v f)
  put-Has k v d f h x =
      ap (Option.map value_of) (
        find_by-upsert key_of key_of x (k, v) d
          (All-of-each (IsPaired key_of key_of k k) d (λ b. refl)))
      ∙ elim (Bool-cases (key.same k x)) [ inl e ↦ rw e refl | inr e ↦ rw e (h x) ]

  -- Only the fresh values are kept, as long as no key stands twice.
  keep_if-Has :
      (p : V → Bool) (d : Dict K V) (f : K → Option V)
      → IsUnique key_of d
      → Has d f
      → Has (keep_if (λ item. p (value_of item)) d) (λ k. only_if p (f k))
  keep_if-Has p d f u h x =
      ap (Option.map value_of) (find_by-keep_if key_of x (λ item. p (value_of item)) d u)
      ∙ kept (find_by key_of x d)
      ∙ ap (only_if p) (h x)
    where
      kept :
          (o : Option (K × V))
          → Option.map value_of (only_if (λ item. p (value_of item)) o)
            ≡ only_if p (Option.map value_of o)
      kept none = refl
      kept (some (k, v)) = elim (Bool-cases (p v)) [ inl e ↦ rw e refl | inr e ↦ rw e refl ]

-- The dicts have the values of the maps.
abbrev pub Remembers : InMemoryStateStore → Maps → Type 0
Remembers m f =
    Has m.links_by_thread f.thread
    × Has m.links_by_issue f.issue
    × Has m.user_map f.user
    × Has m.dedupe f.event
    × IsUnique key_of m.dedupe

replace_link-Remembers :
    (change : ThreadIssueLink → ThreadIssueLink) (t : Text × Text) (m : InMemoryStateStore)
    (f : Maps)
    → Remembers m f
    → Remembers
        (replace_link change t (get t m.links_by_thread) m)
        (change_both change t (f.thread t) f)
unfolding replace_link
replace_link-Remembers change t m f r =
    subst
      (λ o.
        Remembers (replace_link change t (get t m.links_by_thread) m) (change_both change t o f))
      (r.0 t) (go (get t m.links_by_thread))
  where
    go :
        (o : Option ThreadIssueLink)
        → Remembers (replace_link change t o m) (change_both change t o f)
    go none = r
    go (some l) =
        let (threads, issues, users, events, unique) = r in
        (
          put-Has t (change l) m.links_by_thread f.thread threads,
          put-Has (issue_of l) (change l) m.links_by_issue f.issue issues,
          users,
          events,
          unique,
        )

record_event-Remembers :
    (later : ℕ) (key : Text) (o : Option ℕ) (m : InMemoryStateStore) (f : Maps)
    → Remembers m f
    → ((record_event later key o m).0 ≡ (record_once later key o f).0)
      × Remembers (record_event later key o m).1 (record_once later key o f).1
record_event-Remembers later key (some at) m f r = (refl, r)
record_event-Remembers later key none m f (threads, issues, users, events, unique) = (
  refl,
  (
    threads,
    issues,
    users,
    put-Has key later m.dedupe f.event events,
    upsert-IsUnique key_of (key, later) m.dedupe unique,
  ),
)

age_out-Remembers :
    (ttl now : ℕ) (m : InMemoryStateStore) (f : Maps)
    → Remembers m f
    → Remembers (age_out ttl now m) (age ttl now f)
age_out-Remembers ttl now m f (threads, issues, users, events, unique) = (
  threads,
  issues,
  users,
  keep_if-Has (is_fresh ttl now) m.dedupe f.event unique events,
  keep_if-IsUnique key_of (λ item. is_fresh ttl now (value_of item)) m.dedupe unique,
)

-- Every call has the same answer as the maps give, and leaves dicts that have the values of the maps.
pub memory-Simulates : (ttl : ℕ) → Simulates (memory ttl) (maps ttl) Remembers (λ c. Unit)
unfolding call
memory-Simulates ttl (link_thread_to_issue l) m f p (threads, issues, users, events, unique) = (
  refl,
  (
    put-Has (thread_of l) l m.links_by_thread f.thread threads,
    put-Has (issue_of l) l m.links_by_issue f.issue issues,
    users,
    events,
    unique,
  ),
)
memory-Simulates ttl (get_link_by_thread t) m f p r = (ap found (r.0 t), r)
memory-Simulates ttl (get_link_by_issue i) m f p r = (ap found (r.1 i), r)
memory-Simulates ttl (mark_intent_confirmed t at) m f p r =
    (refl, replace_link-Remembers (set_confirmed at) t m f r)
memory-Simulates ttl (update_last_relayed_comment t comment_id) m f p r =
    (refl, replace_link-Remembers (set_relayed comment_id) t m f r)
memory-Simulates ttl (map_user slack_user_id github_login) m f p
      (threads, issues, users, events, unique) =
    (
      refl,
      (threads, issues, put-Has slack_user_id github_login m.user_map f.user users, events, unique),
    )
memory-Simulates ttl (lookup_github_login slack_user_id) m f p
      (threads, issues, users, events, unique) =
    (ap login (users slack_user_id), (threads, issues, users, events, unique))
memory-Simulates ttl (seen_event now later key) m f p r =
    let aged = age_out-Remembers ttl now m f r in
    let (threads, issues, users, events, unique) = aged in
    let (same, after) =
      subst
        (λ o.
          ((record_event later key (get key (age_out ttl now m).dedupe) (age_out ttl now m)).0
            ≡ (record_once later key o (age ttl now f)).0)
          × Remembers
              (record_event later key (get key (age_out ttl now m).dedupe) (age_out ttl now m)).1
              (record_once later key o (age ttl now f)).1)
        (events key)
        (record_event-Remembers later key (get key (age_out ttl now m).dedupe) (age_out ttl now m)
          (age ttl now f) aged) in
    (ap seen same, after)
