-- ===== src/Agents/Intake/Handlers.antt =====
-- agents/agents/slack_intake/core.py: the five handlers, for a store that keeps the port of the state.
use odoo_custom.Prelude.{
  ℕ, Bool, true, false, not, ◌&&◌, ◌||◌, [], ◌∷◌, ◌++◌, Option, none, some, if◌then◌else◌, ◌==◌,
}
use odoo_custom.Prelude.Text.{Text, codes, text_eq, strip}
use odoo_custom.Agents.State.{ThreadIssueLink, thread_of, StateStore}
use odoo_custom.Agents.Intake.{
  post_ephemeral, open_modal, open_issue, post_message, post_thread_reply, comment, add_reaction,
  update_message, Config, Outside, Run, start, perform, update, is_empty, member, shadow_mode,
  channel_allowed, intake_label, SlashCommand, Submission, IssueComment, Message, BlockAction,
  Event, slash_command, modal_submitted, issue_comment, message, block_action, format_issue_body,
  labels_of,
}

-- `login.removesuffix("[bot]")`
unfoldable pub remove_bot : Text → Text
remove_bot [] = []
remove_bot (c ∷ cs) =
    let rest = remove_bot cs in if text_eq (c ∷ cs) (codes "[bot]") then [] else c ∷ rest

abbrev pub is_some : {A : Type 0} → Option A → Bool
is_some none = false
is_some (some a) = true

abbrev pub is_id : Option ℕ → ℕ → Bool
is_id none id = false
is_id (some n) id = n == id

abbrev pub is_confirm : Option Text → Bool
is_confirm none = false
is_confirm (some action_id) = text_eq action_id (codes "intake_confirm")

module _ {S : Type 0} (store : StateStore S) (cfg : Config) (out : Outside) where
  -- Path A
  unfoldable pub on_slash_command : SlashCommand → S → Run S
  on_slash_command p s =
      if not (text_eq p.command (codes "/intake"))
      then start s
      else if not (channel_allowed cfg p.channel_id)
      then perform out (post_ephemeral p.channel_id p.user_id (codes "not enabled")) (start s)
      else perform out (open_modal p.trigger_id p.channel_id) (start s)

  -- `_make_link`, of the message that was posted.
  abbrev pub make_link : Text → ThreadIssueLink
  make_link reporter = record {
    slack_channel = out.posted.0;
    slack_thread_ts = out.posted.1;
    github_repo = cfg.repo;
    github_issue_number = out.issue_number;
    reporter_slack_id = reporter;
    created_at = out.now;
    last_relayed_comment_id = none;
    intent_confirmed_at = none;
  }

  unfoldable pub on_modal_submitted : Submission → S → Run S
  on_modal_submitted v s =
      if not (text_eq v.callback_id (codes "intake_submit"))
      then start s
      else if cfg.sensitive v.description
      then perform out (post_ephemeral v.origin_channel v.user_id (codes "sensitive")) (start s)
      else update (store.link_thread_to_issue (make_link v.user_id)) (
          perform out (post_message v.origin_channel out.issue_number) (
            perform out
              (open_issue (strip v.title) (format_issue_body v (strip v.description)) (labels_of v))
              (start s)))

  -- The comment is not relayed: the intent is confirmed, its author is not on the list, or it was the
  -- last to be relayed.
  abbrev pub is_skipped : IssueComment → ThreadIssueLink → Bool
  is_skipped p link =
      is_some link.intent_confirmed_at
      || (not (member (remove_bot p.author_login) cfg.relay_authors)
          || (not (p.comment_id == 0) && is_id link.last_relayed_comment_id p.comment_id))

  abbrev pub record_relayed : IssueComment → ThreadIssueLink → S → S
  record_relayed p link s =
      if p.comment_id == 0
      then s
      else store.update_last_relayed_comment (thread_of link) p.comment_id s

  -- Path B, where the issue has this link.
  abbrev pub relay_to_slack : IssueComment → Option ThreadIssueLink → S → Run S
  relay_to_slack p none s = start s
  relay_to_slack p (some link) s =
      if is_skipped p link
      then start s
      else update (record_relayed p link) (
          perform out
            (post_thread_reply (thread_of link) (remove_bot p.author_login) (cfg.mask p.body)
              p.html_url p.number)
            (start s))

  -- Path B, behind the test for a duplicate.
  abbrev pub relay_comment : IssueComment → Bool × S → Run S
  relay_comment p (duplicate, s) =
      if duplicate || (p.number == 0) || not (member intake_label p.labels)
      then start s
      else relay_to_slack p (store.get_link_by_issue (p.repo, p.number) s) s

  -- `id and runtime.state.seen_event(key=prefix + id)`
  abbrev pub is_duplicate : Text → Text → S → Bool × S
  is_duplicate prefix id s =
      if is_empty id then (false, s) else store.seen_event out.now out.later (prefix ++ id) s

  unfoldable pub on_github_issue_comment : IssueComment → S → Run S
  on_github_issue_comment p s =
      if shadow_mode cfg
      then start s
      else relay_comment p (is_duplicate (codes "gh:") p.delivery_id s)

  abbrev pub attribution : Option Text → Text → Text
  attribution none user = codes "Slack user `" ++ (user ++ codes "`")
  attribution (some login) user =
      if is_empty login then codes "Slack user `" ++ (user ++ codes "`") else codes "@" ++ login

  abbrev pub relayed_body : Message → S → Text
  relayed_body p s =
      codes "> _Relayed from Slack thread (originating reporter: "
      ++ (attribution (store.lookup_github_login p.user s) p.user
          ++ (codes ")_" ++ (10 ∷ 10 ∷ cfg.mask (strip p.text))))

  -- Path C, where the thread has this link.
  abbrev pub relay_to_github : Message → Option ThreadIssueLink → S → Run S
  relay_to_github p none s = start s
  relay_to_github p (some link) s =
      if is_some link.intent_confirmed_at || is_empty (strip p.text)
      then start s
      else (let commented =
            perform out (comment link.github_issue_number (relayed_body p s)) (start s) in
          if is_empty p.ts then commented else perform out (add_reaction p.channel p.ts) commented)

  -- Path C, behind the test for a duplicate.
  abbrev pub relay_message : Message → Bool × S → Run S
  relay_message p (duplicate, s) =
      if duplicate || p.bot_id || p.subtype || is_empty p.thread_ts
      then start s
      else relay_to_github p (store.get_link_by_thread (p.channel, p.thread_ts) s) s

  unfoldable pub on_slack_message : Message → S → Run S
  on_slack_message p s = relay_message p (is_duplicate (codes "slack:") p.event_id s)

  -- `/confirm` on the issue, and the mark in the store.
  abbrev pub mark : Text × Text → ThreadIssueLink → S → Run S
  mark thread link s =
      update (store.mark_intent_confirmed thread out.now)
        (perform out (comment link.github_issue_number (codes "/confirm")) (start s))

  -- Path D, where the thread of the button has this link.
  abbrev pub confirm : BlockAction → Text × Text → Option ThreadIssueLink → S → Run S
  confirm p thread none s = start s
  confirm p thread (some link) s =
      if not (text_eq p.clicker link.reporter_slack_id)
      then perform out (post_ephemeral thread.0 p.clicker (codes "not the reporter")) (start s)
      else if is_empty p.message_ts
      then mark thread link s
      else perform out
          (update_message thread.0 p.message_ts link.github_issue_number out.now p.clicker)
          (mark thread link s)

  abbrev pub confirm_thread : BlockAction → Option (Text × Text) → S → Run S
  confirm_thread p none s = start s
  confirm_thread p (some thread) s = confirm p thread (store.get_link_by_thread thread s) s

  unfoldable pub on_block_action : BlockAction → S → Run S
  on_block_action p s = if is_confirm p.action_id then confirm_thread p p.value s else start s

  -- What `_register_handlers` subscribes.
  unfoldable pub handle : Event → S → Run S
  handle (slash_command p) s = on_slash_command p s
  handle (modal_submitted v) s = on_modal_submitted v s
  handle (issue_comment p) s = on_github_issue_comment p s
  handle (message p) s = on_slack_message p s
  handle (block_action p) s = on_block_action p s
