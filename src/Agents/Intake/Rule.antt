-- ===== src/Agents/Intake/Rule.antt =====
-- A proof rule for the handlers of agents/agents/slack_intake/core.py: what they keep of a state, and what holds of
-- the calls that they make.
use odoo_custom.Prelude.{
  ℕ, ◌≡◌, refl, Bool, true, false, not, ◌||◌, ◌++◌, Option, none, some, All, ◌==◌, if-holds,
}
use odoo_custom.Prelude.Text.{Text, codes, text_eq, strip}
use odoo_custom.Prelude.Keys.{text_key, pair_key}
use odoo_custom.Agents.State.{ThreadIssueLink, thread_of, StateStore}
use odoo_custom.Agents.Intake.{
  Effect, post_ephemeral, open_modal, open_issue, post_message, post_thread_reply, comment,
  add_reaction, update_message, Config, Outside, Run, start, perform, update, is_empty, member,
  shadow_mode, channel_allowed, intake_label, SlashCommand, Submission, IssueComment, Message,
  BlockAction, Event, slash_command, modal_submitted, issue_comment, message, block_action,
}
use odoo_custom.Agents.Intake.Handlers.{
  is_some, make_link, on_slash_command, on_modal_submitted, is_skipped, record_relayed, mark,
  relay_to_slack, is_duplicate, on_github_issue_comment, relay_to_github, on_slack_message, confirm,
  confirm_thread, is_confirm, on_block_action, handle,
}

left_false : (a b : Bool) → (a || b) ≡ false → a ≡ false
left_false false b e = refl
left_false true b e = absurd (cc)

-- A property of states and one of calls, of a handler at work.
abbrev pub Keeps : {S : Type 0} → (S → Type 0) → (Effect → Type 0) → Run S → Type 0
Keeps P Q r = P r.state × All Q r.made

module _ {S : Type 0} (P : S → Type 0) (Q : Effect → Type 0) (out : Outside) where
  pub perform-Keeps : (e : Effect) (r : Run S) → Q e → Keeps P Q r → Keeps P Q (perform out e r)
  perform-Keeps e r q (p, all) =
      if-holds (Keeps P Q) (r.raised || out.raises e) _ _ (λ raised. (p, all))
        (λ returned. (p, (q, all)))

  pub update-Keeps :
      (f : S → S) (r : Run S) → (P r.state → P (f r.state)) → Keeps P Q r → Keeps P Q (update f r)
  update-Keeps f r step (p, all) =
      if-holds (Keeps P Q) r.raised _ _ (λ raised. (p, all)) (λ returned. (step p, all))

-- A call that is no reply in a thread.
abbrev pub IsNoReply : Effect → Type 0
IsNoReply (post_thread_reply u author body url number) = ⊥
IsNoReply (post_ephemeral channel user why) = Unit
IsNoReply (open_modal trigger channel) = Unit
IsNoReply (open_issue title body labels) = Unit
IsNoReply (post_message channel number) = Unit
IsNoReply (comment number body) = Unit
IsNoReply (add_reaction channel ts) = Unit
IsNoReply (update_message channel ts number at user) = Unit

-- The calls of the store keep `P`, but for the one that confirms; and `Q` holds of every call but a
-- reply, and of a reply in the thread of a link that is not confirmed.
pub record IsKept {S : Type 0} (store : StateStore S) (cfg : Config) (out : Outside)
    (P : S → Type 0) (Q : Effect → Type 0) : Type 0 where
  pub on_seen : (key : Text) (s : S) → P s → P (store.seen_event out.now out.later key s).1
  pub on_link :
      (reporter : Text) (s : S)
      → P s
      → P (store.link_thread_to_issue (make_link store cfg out reporter) s)
  pub on_relayed :
      (u : Text × Text) (comment_id : ℕ) (s : S)
      → P s
      → P (store.update_last_relayed_comment u comment_id s)
  pub no_reply : (e : Effect) → IsNoReply e → Q e
  pub reply :
      (i : Text × ℕ) (l : ThreadIssueLink) (s : S) (author body url : Text) (number : ℕ)
      → P s
      → store.get_link_by_issue i s ≡ some l
      → is_some l.intent_confirmed_at ≡ false
      → Q (post_thread_reply (thread_of l) author body url number)

module _ {S : Type 0} (store : StateStore S) (cfg : Config) (out : Outside) (P : S → Type 0)
    (Q : Effect → Type 0) (kept : IsKept store cfg out P Q) where
  abbrev Stays : Run S → Type 0
  Stays = Keeps P Q

  calls : (e : Effect) (r : Run S) → IsNoReply e → Stays r → Stays (perform out e r)
  calls e r silent k = perform-Keeps P Q out e r (kept.no_reply e silent) k

  pub duplicate-Keeps :
      (prefix id : Text) (s : S) → P s → P (is_duplicate store cfg out prefix id s).1
  duplicate-Keeps prefix id s p =
      if-holds (λ (x : Bool × S). P x.1) (is_empty id) _ _ (λ e. p)
        (λ e. kept.on_seen (prefix ++ id) s p)

  slash-Keeps : (p : SlashCommand) (s : S) → P s → Stays (on_slash_command store cfg out p s)
  unfolding on_slash_command
  slash-Keeps p s c =
      if-holds Stays (not (text_eq p.command (codes "/intake"))) _ _ (λ e. (c, tt))
        (λ e.
          if-holds Stays (not (channel_allowed cfg p.channel_id)) _ _
            (λ refused. calls _ (start s) tt (c, tt)) (λ allowed. calls _ (start s) tt (c, tt)))

  modal-Keeps : (v : Submission) (s : S) → P s → Stays (on_modal_submitted store cfg out v s)
  unfolding on_modal_submitted
  modal-Keeps v s c =
      if-holds Stays (not (text_eq v.callback_id (codes "intake_submit"))) _ _ (λ e. (c, tt))
        (λ e.
          if-holds Stays (cfg.sensitive v.description) _ _ (λ refused. calls _ (start s) tt (c, tt))
            (λ filed.
              update-Keeps P Q out (store.link_thread_to_issue (make_link store cfg out v.user_id))
                _ (kept.on_link v.user_id _) (calls _ _ tt (calls _ (start s) tt (c, tt)))))

  relay-Keeps :
      (p : IssueComment) (o : Option ThreadIssueLink) (s : S)
      → store.get_link_by_issue (p.repo, p.number) s ≡ o
      → P s
      → Stays (relay_to_slack store cfg out p o s)
  relay-Keeps p none s is c = (c, tt)
  relay-Keeps p (some l) s is c =
      if-holds Stays (is_skipped store cfg out p l) _ _ (λ e. (c, tt))
        (λ e.
          let open_still : is_some l.intent_confirmed_at ≡ false = left_false _ _ e in
          update-Keeps P Q out (record_relayed store cfg out p l) _
            (λ c'.
              if-holds P (p.comment_id == 0) _ _ (λ z. c')
                (λ z. kept.on_relayed (thread_of l) p.comment_id _ c'))
            (perform-Keeps P Q out _ (start s)
              (kept.reply (p.repo, p.number) l s _ _ _ _ c is open_still) (c, tt)))

  comment-Keeps :
      (p : IssueComment) (s : S) → P s → Stays (on_github_issue_comment store cfg out p s)
  unfolding on_github_issue_comment
  comment-Keeps p s c =
      let x = is_duplicate store cfg out (codes "gh:") p.delivery_id s in
      let c' = duplicate-Keeps (codes "gh:") p.delivery_id s c in
      if-holds Stays (shadow_mode cfg) _ _ (λ e. (c, tt))
        (λ e.
          if-holds Stays (x.0 || (p.number == 0) || not (member intake_label p.labels)) _ _
            (λ skipped. (c', tt))
            (λ tracked. relay-Keeps p (store.get_link_by_issue (p.repo, p.number) x.1) x.1 refl c'))

  to_github-Keeps :
      (p : Message) (o : Option ThreadIssueLink) (s : S)
      → P s
      → Stays (relay_to_github store cfg out p o s)
  to_github-Keeps p none s c = (c, tt)
  to_github-Keeps p (some l) s c =
      if-holds Stays (is_some l.intent_confirmed_at || is_empty (strip p.text)) _ _ (λ e. (c, tt))
        (λ e.
          let commented = calls _ (start s) tt (c, tt) in
          if-holds Stays (is_empty p.ts) _ _ (λ z. commented) (λ z. calls _ _ tt commented))

  message-Keeps : (p : Message) (s : S) → P s → Stays (on_slack_message store cfg out p s)
  unfolding on_slack_message
  message-Keeps p s c =
      let x = is_duplicate store cfg out (codes "slack:") p.event_id s in
      let c' = duplicate-Keeps (codes "slack:") p.event_id s c in
      if-holds Stays (x.0 || p.bot_id || p.subtype || is_empty p.thread_ts) _ _ (λ e. (c', tt))
        (λ e. to_github-Keeps p (store.get_link_by_thread (p.channel, p.thread_ts) x.1) x.1 c')

  -- The calls of the store that confirm keep `P`, too.
  module _
      (on_mark : (u : Text × Text) (s : S)
        → P s
        → P (store.mark_intent_confirmed u out.now s)) where
    mark-Keeps :
        (u : Text × Text) (l : ThreadIssueLink) (s : S) → P s → Stays (mark store cfg out u l s)
    mark-Keeps u l s c =
        update-Keeps P Q out (store.mark_intent_confirmed u out.now) _ (on_mark u _)
          (calls _ (start s) tt (c, tt))

    confirm-Keeps :
        (p : BlockAction) (u : Text × Text) (o : Option ThreadIssueLink) (s : S)
        → P s
        → Stays (confirm store cfg out p u o s)
    confirm-Keeps p u none s c = (c, tt)
    confirm-Keeps p u (some l) s c =
        if-holds Stays (not (text_eq p.clicker l.reporter_slack_id)) _ _
          (λ e. calls _ (start s) tt (c, tt))
          (λ e.
            if-holds Stays (is_empty p.message_ts) _ _ (λ z. mark-Keeps u l s c)
              (λ z. calls _ (mark store cfg out u l s) tt (mark-Keeps u l s c)))

    action-Keeps : (p : BlockAction) (s : S) → P s → Stays (on_block_action store cfg out p s)
    unfolding on_block_action
    action-Keeps p s c =
        if-holds Stays (is_confirm p.action_id) _ _ (λ e. pressed p.value) (λ e. (c, tt))
      where
        pressed : (o : Option (Text × Text)) → Stays (confirm_thread store cfg out p o s)
        pressed none = (c, tt)
        pressed (some u) = confirm-Keeps p u (store.get_link_by_thread u s) s c

  -- The property that an event asks for, where it may confirm.
  abbrev pub IsHandled : Event → S → Type 0
  IsHandled (block_action p) s = Stays (on_block_action store cfg out p s)
  IsHandled (slash_command p) s = Unit
  IsHandled (modal_submitted v) s = Unit
  IsHandled (issue_comment p) s = Unit
  IsHandled (message p) s = Unit

  pub handle-Keeps : (e : Event) (s : S) → IsHandled e s → P s → Stays (handle store cfg out e s)
  unfolding handle
  handle-Keeps (slash_command p) s h c = slash-Keeps p s c
  handle-Keeps (modal_submitted v) s h c = modal-Keeps v s c
  handle-Keeps (issue_comment p) s h c = comment-Keeps p s c
  handle-Keeps (message p) s h c = message-Keeps p s c
  handle-Keeps (block_action p) s h c = h

  pub handle-Keeps_all :
      ((u : Text × Text) (s : S) → P s → P (store.mark_intent_confirmed u out.now s))
      → (e : Event) (s : S) → P s
      → Stays (handle store cfg out e s)
  handle-Keeps_all on_mark e s c = handle-Keeps e s (asked e) c
    where
      asked : (e : Event) → IsHandled e s
      asked (block_action p) = action-Keeps on_mark p s c
      asked (slash_command p) = tt
      asked (modal_submitted v) = tt
      asked (issue_comment p) = tt
      asked (message p) = tt
