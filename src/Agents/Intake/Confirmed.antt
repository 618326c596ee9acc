-- ===== src/Agents/Intake/Confirmed.antt =====
-- What the handlers of agents/agents/slack_intake/core.py do on a thread whose intent is confirmed.
use odoo_custom.Prelude.{
  ℕ, ◌≡◌, ◌≢◌, refl, sym, ◌∙◌, ap, subst, true, false, ◌||◌, List, [], ◌∷◌, Option, none, some, All,
  Bool-cases, inl, inr, if-holds,
}
use odoo_custom.Prelude.Text.{Text, codes}
use odoo_custom.Prelude.Keys.{equals, text_key, pair_key}
use odoo_custom.Agents.State.{ThreadIssueLink, thread_of, set_confirmed, set_relayed, StateStore}
use odoo_custom.Agents.State.Lawful.{Lawful}
use odoo_custom.Agents.Intake.{
  Effect, post_ephemeral, open_modal, open_issue, post_message, post_thread_reply, comment,
  add_reaction, update_message, Config, Outside, Run, is_empty, Message, Event, slash_command,
  modal_submitted, issue_comment, message, block_action,
}
use odoo_custom.Agents.Intake.Handlers.{
  is_some, make_link, is_duplicate, relay_to_github, on_slack_message, handle,
}
use odoo_custom.Agents.Intake.Rule.{IsNoReply, IsKept, Keeps, duplicate-Keeps, handle-Keeps_all}
use mathlib.Core.Option

-- The call is no reply in the thread.
abbrev pub IsElsewhere : Text × Text → Effect → Type 0
IsElsewhere t (post_thread_reply u author body url number) = u ≢ t
IsElsewhere t (post_ephemeral channel user why) = Unit
IsElsewhere t (open_modal trigger channel) = Unit
IsElsewhere t (open_issue title body labels) = Unit
IsElsewhere t (post_message channel number) = Unit
IsElsewhere t (comment number body) = Unit
IsElsewhere t (add_reaction channel ts) = Unit
IsElsewhere t (update_message channel ts number at user) = Unit

abbrev pub confirmed_at : Option ThreadIssueLink → Option ℕ
confirmed_at none = none
confirmed_at (some l) = l.intent_confirmed_at

module _ {S : Type 0} (store : StateStore S) (law : Lawful store) (cfg : Config)
    (t : Text × Text) where
  -- The intent of the thread is confirmed.
  abbrev pub IsConfirmed : S → Type 0
  IsConfirmed s = law.IsValid s × (is_some (confirmed_at (store.get_link_by_thread t s)) ≡ true)

  seen-IsConfirmed :
      (now later : ℕ) (key : Text) (s : S)
      → IsConfirmed s
      → IsConfirmed (store.seen_event now later key s).1
  seen-IsConfirmed now later key s (v, c) = (
    law.seen-IsValid now later key s v,
    ap (λ o. is_some (confirmed_at o)) (law.get-seen t now later key s) ∙ c,
  )

  link-IsConfirmed :
      (l : ThreadIssueLink) (s : S)
      → thread_of l ≢ t
      → IsConfirmed s
      → IsConfirmed (store.link_thread_to_issue l s)
  link-IsConfirmed l s other (v, c) = elim (Bool-cases (equals (thread_of l) t)) [
    | inl same ↦ absurd (other (pair_key.same-eq (thread_of l) t same))
    | inr differs ↦ (
      law.link-IsValid l s v,
      ap (λ o. is_some (confirmed_at o)) (law.get-link t l s) ∙ rw differs c,
    )
  ]

  relayed-IsConfirmed :
      (u : Text × Text) (comment_id : ℕ) (s : S)
      → IsConfirmed s
      → IsConfirmed (store.update_last_relayed_comment u comment_id s)
  relayed-IsConfirmed u comment_id s (v, c) = (
    law.relayed-IsValid u comment_id s v,
    elim (Bool-cases (equals u t)) [
      | inr differs ↦
          ap (λ o. is_some (confirmed_at o)) (law.get-relayed t u comment_id s) ∙ rw differs c
      | inl same ↦
          ap (λ o. is_some (confirmed_at o)) (law.get-relayed t u comment_id s)
          ∙ rw same (
              still (store.get_link_by_thread u s) (
                subst (λ x. is_some (confirmed_at (store.get_link_by_thread x s)) ≡ true)
                  (sym (pair_key.same-eq u t same)) c))
    ],
  )
    where
      still :
          (o : Option ThreadIssueLink)
          → is_some (confirmed_at o) ≡ true
          → is_some (confirmed_at (Option.map (set_relayed comment_id) o)) ≡ true
      still none e = e
      still (some l) e = e

  marked-IsConfirmed :
      (u : Text × Text) (at : ℕ) (s : S)
      → IsConfirmed s
      → IsConfirmed (store.mark_intent_confirmed u at s)
  marked-IsConfirmed u at s (v, c) = (
    law.mark-IsValid u at s v,
    elim (Bool-cases (equals u t)) [
      | inr differs ↦ ap (λ o. is_some (confirmed_at o)) (law.get-mark t u at s) ∙ rw differs c
      | inl same ↦
          ap (λ o. is_some (confirmed_at o)) (law.get-mark t u at s)
          ∙ rw same (
              still (store.get_link_by_thread u s) (
                subst (λ x. is_some (confirmed_at (store.get_link_by_thread x s)) ≡ true)
                  (sym (pair_key.same-eq u t same)) c))
    ],
  )
    where
      still :
          (o : Option ThreadIssueLink)
          → is_some (confirmed_at o) ≡ true
          → is_some (confirmed_at (Option.map (set_confirmed at) o)) ≡ true
      still none e = e
      still (some l) e = refl

  -- A link that is found by its issue and is not confirmed belongs to another thread.
  other_thread :
      (i : Text × ℕ) (l : ThreadIssueLink) (s : S)
      → store.get_link_by_issue i s ≡ some l
      → is_some l.intent_confirmed_at ≡ false
      → IsConfirmed s
      → thread_of l ≢ t
  other_thread i l s is open_still (v, c) same =
      let there = law.issue-thread i l s v is in
      let here = subst (λ x. store.get_link_by_thread x s ≡ some l) same there in
      let confirmed : is_some l.intent_confirmed_at ≡ true =
        subst (λ o. is_some (confirmed_at o) ≡ true) here c in
      absurd (cc)

  no_reply-IsElsewhere : (e : Effect) → IsNoReply e → IsElsewhere t e
  no_reply-IsElsewhere (post_thread_reply u author body url number) silent = absurd silent
  no_reply-IsElsewhere (post_ephemeral channel user why) silent = tt
  no_reply-IsElsewhere (open_modal trigger channel) silent = tt
  no_reply-IsElsewhere (open_issue title body labels) silent = tt
  no_reply-IsElsewhere (post_message channel number) silent = tt
  no_reply-IsElsewhere (comment number body) silent = tt
  no_reply-IsElsewhere (add_reaction channel ts) silent = tt
  no_reply-IsElsewhere (update_message channel ts number at user) silent = tt

  IsConfirmed-IsKept :
      (out : Outside) → out.posted ≢ t → IsKept store cfg out IsConfirmed (IsElsewhere t)
  IsConfirmed-IsKept out new = record {
    on_seen = λ key s. seen-IsConfirmed out.now out.later key s;
    on_link = λ reporter s. link-IsConfirmed (make_link store cfg out reporter) s new;
    on_relayed = relayed-IsConfirmed;
    no_reply = no_reply-IsElsewhere;
    reply = λ i l s author body url number c is open_still. other_thread i l s is open_still c;
  }

  handle-IsConfirmed :
      (out : Outside) (e : Event) (s : S)
      → out.posted ≢ t
      → IsConfirmed s
      → Keeps IsConfirmed (IsElsewhere t) (handle store cfg out e s)
  handle-IsConfirmed out e s new c =
      handle-Keeps_all store cfg out IsConfirmed (IsElsewhere t) (IsConfirmed-IsKept out new)
        (λ u s'. marked-IsConfirmed u out.now s') e s c

  -- What happens one after the other: each event with what it meets.
  abbrev pub after : List (Outside × Event) → S → S
  after [] s = s
  after ((out, e) ∷ es) s = after es (handle store cfg out e s).state

  after-IsConfirmed :
      (es : List (Outside × Event)) (s : S)
      → All (λ (x : Outside × Event). x.0.posted ≢ t) es
      → IsConfirmed s
      → IsConfirmed (after es s)
  after-IsConfirmed [] s new c = c
  after-IsConfirmed ((out, e) ∷ es) s new c =
      after-IsConfirmed es (handle store cfg out e s).state new.1
        (handle-IsConfirmed out e s new.0 c).0

  -- The event is a message of the thread.
  abbrev pub IsMessageOf : Event → Type 0
  IsMessageOf (message p) = (p.channel, p.thread_ts) ≡ t
  IsMessageOf (slash_command p) = ⊥
  IsMessageOf (modal_submitted v) = ⊥
  IsMessageOf (issue_comment p) = ⊥
  IsMessageOf (block_action p) = ⊥

  message-made :
      (out : Outside) (p : Message) (s : S)
      → out.posted ≢ t
      → (p.channel, p.thread_ts) ≡ t
      → IsConfirmed s
      → (on_slack_message store cfg out p s).made ≡ []
  unfolding on_slack_message
  message-made out p s new here c =
      let x = is_duplicate store cfg out (codes "slack:") p.event_id s in
      let c' =
        duplicate-Keeps store cfg out IsConfirmed (IsElsewhere t) (IsConfirmed-IsKept out new)
          (codes "slack:") p.event_id s c in
      if-holds (λ (r : Run S). r.made ≡ []) (x.0 || p.bot_id || p.subtype || is_empty p.thread_ts) _
        _ (λ e. refl)
        (λ e. go x.1 (store.get_link_by_thread (p.channel, p.thread_ts) x.1) (
          subst (λ u. is_some (confirmed_at (store.get_link_by_thread u x.1)) ≡ true) (sym here)
            c'.1))
    where
      go :
          (s' : S) (o : Option ThreadIssueLink)
          → is_some (confirmed_at o) ≡ true
          → (relay_to_github store cfg out p o s').made ≡ []
      go s' none confirmed = refl
      go s' (some l) confirmed = rw confirmed refl

  -- No relay is made on the thread in either direction.
  abbrev pub IsSilent : Event → List Effect → Type 0
  IsSilent e made = All (IsElsewhere t) made × (IsMessageOf e → made ≡ [])

  -- Once the intent of a thread is confirmed, and whatever events come then, of which none posts the
  -- root of a new thread under its identifier, no comment is relayed into the thread, and a message of
  -- the thread makes the intake call neither the chat nor the tracker.
  pub handle-IsSilent :
      (es : List (Outside × Event)) (out : Outside) (e : Event) (s : S)
      → All (λ (x : Outside × Event). x.0.posted ≢ t) es
      → out.posted ≢ t
      → IsConfirmed s
      → IsSilent e (handle store cfg out e (after es s)).made
  unfolding handle
  handle-IsSilent es out e s new new_now c =
      let c' = after-IsConfirmed es s new c in
      ((handle-IsConfirmed out e (after es s) new_now c').1, heard e c')
    where
      heard :
          (e : Event)
          → IsConfirmed (after es s)
          → IsMessageOf e
          → (handle store cfg out e (after es s)).made ≡ []
      heard (message p) c' here = message-made out p (after es s) new_now here c'
      heard (slash_command p) c' here = absurd here
      heard (modal_submitted v) c' here = absurd here
      heard (issue_comment p) c' here = absurd here
      heard (block_action p) c' here = absurd here
