-- ===== src/Agents/State/Storing.antt =====
-- The adapter of agents/agents/adapters/state_sqlite.py keeps the maps of the port, as long as threads and issues
-- are linked one to one.
use odoo_custom.Prelude.{
  ℕ, ◌≡◌, refl, inl, inr, List, [], ◌∷◌, some, All, if◌then◌else◌, ap, sym, ◌∙◌, subst, keep_if,
  Option-cases, Bool-cases, All-of-each, All-map, All-member, Memᴰ, find?-holds, find?-none,
  update_where, update_where-none, All-update_where,
}
use odoo_custom.Prelude.Text.{Text}
use odoo_custom.Prelude.Keys.{equals, text_key, nat_key, pair_key}
use odoo_custom.Prelude.Tables.{find_by, upsert, find_by-upsert, find_by-update, IsUnique, IsPaired}
use odoo_custom.Agents.State.{
  ThreadIssueLink, thread_of, issue_of, Call, link_thread_to_issue, get_link_by_thread,
  get_link_by_issue, mark_intent_confirmed, update_last_relayed_comment, map_user,
  lookup_github_login, seen_event,
}
use odoo_custom.Agents.State.Sqlite.{
  user_of, login_of, Dedupe, event_of, SqliteStateStore, update_thread,
}
use odoo_custom.Agents.State.Maps.{Maps, set_both, change_both}
use mathlib.Core.Option

-- Two links have the same thread exactly if they have the same issue.
abbrev pub Agrees : ThreadIssueLink → ThreadIssueLink → Type 0
Agrees a b = equals (thread_of a) (thread_of b) ≡ equals (issue_of a) (issue_of b)

abbrev pub IsOneToOne : List ThreadIssueLink → Type 0
IsOneToOne ls = All (λ a. All (Agrees a) ls) ls

abbrev pub seen_at_of : Dedupe → ℕ
seen_at_of d = d.seen_at

module _ (ls : List ThreadIssueLink) where
  -- The link has the thread and the issue of one of the links.
  abbrev pub IsFrom : ThreadIssueLink → Type 0
  IsFrom a =
      (b : ThreadIssueLink) × Memᴰ b ls × (thread_of a ≡ thread_of b) × (issue_of a ≡ issue_of b)

  -- A call that links, links one of the links.
  abbrev pub Follows : Call → Type 0
  Follows (link_thread_to_issue l) = Memᴰ l ls
  Follows (get_link_by_thread t) = Unit
  Follows (get_link_by_issue i) = Unit
  Follows (mark_intent_confirmed t at) = Unit
  Follows (update_last_relayed_comment t comment_id) = Unit
  Follows (map_user slack_user_id github_login) = Unit
  Follows (lookup_github_login slack_user_id) = Unit
  Follows (seen_event now later key) = Unit

  from-Agrees : (a b : ThreadIssueLink) → IsOneToOne ls → IsFrom a → IsFrom b → Agrees a b
  from-Agrees a b one (c, mc, ta, ia) (d, md, tb, ib) =
      let agree = All-member (Agrees c) ls md (All-member (λ x. All (Agrees x) ls) ls mc one) in
      ap (λ t. equals t (thread_of b)) ta
      ∙ ap (λ t. equals (thread_of c) t) tb
      ∙ agree
      ∙ sym (ap (λ i. equals i (issue_of b)) ia ∙ ap (λ i. equals (issue_of c) i) ib)

  -- The tables have the values of the maps.
  abbrev pub Stores : SqliteStateStore → Maps → Type 0
  Stores s f =
      ((t : Text × Text) → find_by thread_of t s.thread_issue ≡ f.thread t)
      × ((i : Text × ℕ) → find_by issue_of i s.thread_issue ≡ f.issue i)
      × ((u : Text) → Option.map login_of (find_by user_of u s.user_mapping) ≡ f.user u)
      × ((k : Text) → Option.map seen_at_of (find_by event_of k s.dedupe) ≡ f.event k)
      × IsUnique event_of s.dedupe
      × All IsFrom s.thread_issue

  upsert-IsFrom :
      (l : ThreadIssueLink) (rows : List ThreadIssueLink)
      → IsFrom l
      → All IsFrom rows
      → All IsFrom (upsert thread_of l rows)
  unfolding upsert keep_if
  upsert-IsFrom l [] from all = (from, tt)
  upsert-IsFrom l (r ∷ rs) from all = elim (Bool-cases (equals (thread_of r) (thread_of l))) [
    | inl gone ↦ rw gone (upsert-IsFrom l rs from all.1)
    | inr stays ↦ rw stays (all.0, upsert-IsFrom l rs from all.1)
  ]

  pub link-Stores :
      (l : ThreadIssueLink) (s : SqliteStateStore) (f : Maps)
      → IsOneToOne ls
      → Memᴰ l ls
      → Stores s f
      → Stores (record s { thread_issue = upsert thread_of l s.thread_issue }) (set_both l f)
  link-Stores l s f one m (threads, issues, users, events, unique, from) =
      let from_l : IsFrom l = (l, m, refl, refl) in
      (
        (λ t.
            find_by-upsert thread_of thread_of t l s.thread_issue (
              All-of-each (IsPaired thread_of thread_of (thread_of l) (thread_of l)) s.thread_issue
                (λ b. refl))
            ∙ rw (threads t) refl),
        (λ i.
            find_by-upsert thread_of issue_of i l s.thread_issue (
              All-map IsFrom (IsPaired thread_of issue_of (thread_of l) (issue_of l)) s.thread_issue
                (λ b fb. from-Agrees b l one fb from_l) from)
            ∙ rw (issues i) refl),
        users,
        events,
        unique,
        upsert-IsFrom l s.thread_issue from_l from,
      )

  -- A change of a link that leaves its thread and its issue as they are.
  abbrev pub IsKeyed : (ThreadIssueLink → ThreadIssueLink) → Type 0
  IsKeyed change =
      (l : ThreadIssueLink)
      → (thread_of (change l) ≡ thread_of l) × (issue_of (change l) ≡ issue_of l)

  same_thread-find_by :
      (x t : Text × Text) (change : ThreadIssueLink → ThreadIssueLink) (e : ThreadIssueLink)
      (rows : List ThreadIssueLink)
      → IsKeyed change
      → find_by thread_of t rows ≡ some e
      → find_by thread_of x (update_where (λ l. equals (thread_of l) t) change rows)
        ≡ (if equals t x then some (change e) else find_by thread_of x rows)
  same_thread-find_by x t change e rows keyed is =
      find_by-update thread_of thread_of x t t change rows (λ l. (keyed l).0)
        (All-of-each (IsPaired thread_of thread_of t t) rows (λ b. refl))
      ∙ rw is refl

  same_issue-find_by :
      (i : Text × ℕ) (t : Text × Text) (change : ThreadIssueLink → ThreadIssueLink)
      (e : ThreadIssueLink) (rows : List ThreadIssueLink)
      → IsOneToOne ls
      → IsKeyed change
      → All IsFrom rows
      → find_by thread_of t rows ≡ some e
      → find_by issue_of i (update_where (λ l. equals (thread_of l) t) change rows)
        ≡ (if equals (issue_of e) i then some (change e) else find_by issue_of i rows)
  same_issue-find_by i t change e rows one keyed from is =
      let (hit, member) = find?-holds (λ l. equals (thread_of l) t) rows is in
      let at_t = pair_key.same-eq (thread_of e) t hit in
      let from_e = All-member IsFrom rows member from in
      let paired : All (IsPaired thread_of issue_of t (issue_of e)) rows =
        All-map IsFrom (IsPaired thread_of issue_of t (issue_of e)) rows
          (λ b fb. ap (λ y. equals (thread_of b) y) (sym at_t) ∙ from-Agrees b e one fb from_e)
          from in
      find_by-update thread_of issue_of i t (issue_of e) change rows (λ l. (keyed l).1) paired
      ∙ rw is refl

  pub update_thread-Stores :
      (change : ThreadIssueLink → ThreadIssueLink) (t : Text × Text) (s : SqliteStateStore)
      (f : Maps)
      → IsOneToOne ls
      → IsKeyed change
      → Stores s f
      → Stores (update_thread change t s) (change_both change t (f.thread t) f)
  update_thread-Stores change t s f one keyed r =
      let (threads, issues, users, events, unique, from) = r in
      let rows = s.thread_issue in
      elim (Option-cases (find_by thread_of t rows)) [
        | inl missing ↦
            let same =
              update_where-none (λ l. equals (thread_of l) t) change rows
                (find?-none (λ l. equals (thread_of l) t) rows missing) in
            subst (λ o. Stores (update_thread change t s) (change_both change t o f))
              (sym missing ∙ threads t)
              (subst (λ rs. Stores (record s { thread_issue = rs }) f) (sym same) r)
        | inr (e, is) ↦
            subst (λ o. Stores (update_thread change t s) (change_both change t o f))
              (sym is ∙ threads t)
              (
                (λ x. same_thread-find_by x t change e rows keyed is ∙ rw (threads x) refl),
                (λ i. same_issue-find_by i t change e rows one keyed from is ∙ rw (issues i) refl),
                users,
                events,
                unique,
                All-update_where IsFrom IsFrom (λ l. equals (thread_of l) t) change rows
                    (λ l hit fl. (fl.0, fl.1, (keyed l).0 ∙ fl.2, (keyed l).1 ∙ fl.3))
                    (λ l miss fl. fl) from,
              )
      ]
