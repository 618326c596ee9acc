-- ===== src/Agents/State/Simulating.antt =====
-- The calls of agents/agents/adapters/state_sqlite.py, one by one, against the maps of the port.
use odoo_custom.Prelude.{
  ℕ, ◌≡◌, refl, inl, inr, List, [], ◌∷◌, ◌++◌, Option, none, some, ap, ◌∙◌, subst, Bool-cases,
  All-of-each,
}
use odoo_custom.Prelude.Text.{Text, codes}
use odoo_custom.Prelude.Keys.{equals, text_key, nat_key, pair_key}
use odoo_custom.Prelude.Tables.{
  find_by, upsert, find_by-upsert, find_by-append, find_by-keep_if, keep_if-IsUnique,
  append-IsUnique, only_if, or_else-none, IsPaired,
}
use odoo_custom.Agents.State.{
  ThreadIssueLink, set_confirmed, set_relayed, is_fresh, link_thread_to_issue, get_link_by_thread,
  get_link_by_issue, mark_intent_confirmed, update_last_relayed_comment, map_user,
  lookup_github_login, seen_event, found, login, seen, call,
}
use odoo_custom.Agents.State.Sqlite.{
  UserMapping, user_of, login_of, Dedupe, event_of, SqliteStateStore, insert_event, delete_old,
  sqlite,
}
use odoo_custom.Agents.State.Maps.{Maps, set, record_once, age, maps, Simulates}
use mathlib.Core.Option
use odoo_custom.Agents.State.Storing.{
  IsOneToOne, seen_at_of, Follows, Stores, link-Stores, update_thread-Stores,
}

module _ (ls : List ThreadIssueLink) where
  map_user-Stores :
      (u : UserMapping) (s : SqliteStateStore) (f : Maps)
      → Stores ls s f
      → Stores ls
          (record s { user_mapping = upsert user_of u s.user_mapping })
          (record f { user = set (user_of u) (login_of u) f.user })
  map_user-Stores u s f (threads, issues, users, events, unique, from) = (
    threads,
    issues,
    (λ x.
        ap (Option.map login_of) (
          find_by-upsert user_of user_of x u s.user_mapping (
            All-of-each (IsPaired user_of user_of (user_of u) (user_of u)) s.user_mapping
              (λ b. refl)))
        ∙ elim (Bool-cases (equals (user_of u) x)) [ inl e ↦ rw e refl | inr e ↦ rw e (users x) ]),
    events,
    unique,
    from,
  )

  insert_event-Stores :
      (later : ℕ) (key : Text) (o : Option Dedupe) (s : SqliteStateStore) (f : Maps)
      → find_by event_of key s.dedupe ≡ o
      → Stores ls s f
      → ((insert_event later key o s).0 ≡ (record_once later key (Option.map seen_at_of o) f).0)
        × Stores ls
            (insert_event later key o s).1
            (record_once later key (Option.map seen_at_of o) f).1
  insert_event-Stores later key (some row) s f is r = (refl, r)
  insert_event-Stores later key none s f is (threads, issues, users, events, unique, from) =
      let row : Dedupe = record { key = key; seen_at = later } in
      let appended : (k : Text)
          → Option.map seen_at_of (find_by event_of k (s.dedupe ++ (row ∷ [])))
            ≡ set key later f.event k =
        λ k. elim (Bool-cases (equals key k)) [
          | inl hit ↦
              let missing =
                subst (λ y. find_by event_of y s.dedupe ≡ none) (text_key.same-eq key k hit) is in
              ap (Option.map seen_at_of) (find_by-append event_of k s.dedupe row)
              ∙ rw (missing, hit) refl
          | inr miss ↦
              ap (Option.map seen_at_of) (find_by-append event_of k s.dedupe row)
              ∙ rw miss (
                  ap (Option.map seen_at_of) (or_else-none (find_by event_of k s.dedupe))
                  ∙ events k)
        ] in
      (
        refl,
        (threads, issues, users, appended, append-IsUnique event_of row s.dedupe is unique, from),
      )

  delete_old-Stores :
      (ttl now : ℕ) (s : SqliteStateStore) (f : Maps)
      → Stores ls s f
      → Stores ls (delete_old ttl now s) (age ttl now f)
  delete_old-Stores ttl now s f (threads, issues, users, events, unique, from) =
      let fresh = λ (row : Dedupe). is_fresh ttl now row.seen_at in
      (
        threads,
        issues,
        users,
        (λ k.
            ap (Option.map seen_at_of) (find_by-keep_if event_of k fresh s.dedupe unique)
            ∙ kept (find_by event_of k s.dedupe)
            ∙ ap (only_if (is_fresh ttl now)) (events k)),
        keep_if-IsUnique event_of fresh s.dedupe unique,
        from,
      )
    where
      kept :
          (o : Option Dedupe)
          → Option.map seen_at_of (only_if (λ row. is_fresh ttl now row.seen_at) o)
            ≡ only_if (is_fresh ttl now) (Option.map seen_at_of o)
      kept none = refl
      kept (some d) = elim (Bool-cases (is_fresh ttl now d.seen_at)) [
        | inl e ↦ rw e refl
        | inr e ↦ rw e refl
      ]

  -- If threads and issues are linked one to one, every call has the same answer as the maps give, and
  -- leaves tables that have the values of the maps.
  pub sqlite-Simulates :
      (ttl : ℕ) → IsOneToOne ls → Simulates (sqlite ttl) (maps ttl) (Stores ls) (Follows ls)
  unfolding call
  sqlite-Simulates ttl one (link_thread_to_issue l) s f m r = (refl, link-Stores ls l s f one m r)
  sqlite-Simulates ttl one (get_link_by_thread t) s f m r = (ap found (r.0 t), r)
  sqlite-Simulates ttl one (get_link_by_issue i) s f m r = (ap found (r.1 i), r)
  sqlite-Simulates ttl one (mark_intent_confirmed t at) s f m r =
      (refl, update_thread-Stores ls (set_confirmed at) t s f one (λ l. (refl, refl)) r)
  sqlite-Simulates ttl one (update_last_relayed_comment t comment_id) s f m r =
      (refl, update_thread-Stores ls (set_relayed comment_id) t s f one (λ l. (refl, refl)) r)
  sqlite-Simulates ttl one (map_user slack_user_id github_login) s f m r = (
    refl,
    map_user-Stores
        (record {
          slack_user_id = slack_user_id;
          github_login = github_login;
          linked_method = codes "manual";
        })
        s f r,
  )
  sqlite-Simulates ttl one (lookup_github_login slack_user_id) s f m r =
      (ap login (r.2 slack_user_id), r)
  sqlite-Simulates ttl one (seen_event now later key) s f m r =
      let s' = delete_old ttl now s in
      let aged = delete_old-Stores ttl now s f r in
      let (threads, issues, users, events, unique, from) = aged in
      let o = find_by event_of key s'.dedupe in
      let (same, after) =
        subst
          (λ x.
            ((insert_event later key o s').0 ≡ (record_once later key x (age ttl now f)).0)
            × Stores ls (insert_event later key o s').1 (record_once later key x (age ttl now f)).1)
          (events key) (insert_event-Stores later key o s' (age ttl now f) refl aged) in
      (ap seen same, after)
