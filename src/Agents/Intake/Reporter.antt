-- ===== src/Agents/Intake/Reporter.antt =====
-- Who can confirm the intent of a thread by the handlers of agents/agents/slack_intake/core.py.
use odoo_custom.Prelude.{
  ℕ, ◌≡◌, refl, sym, ◌∙◌, ap, subst, Bool, true, false, not, ◌||◌, List, [], ◌∷◌, Option, none,
  some, Memᴰ, arith, Bool-cases, inl, inr, if-holds,
}
use odoo_custom.Prelude.Text.{Text, codes, text_eq, text_eq→eq}
use odoo_custom.Prelude.Keys.{equals, text_key, pair_key}
use odoo_custom.Agents.State.{ThreadIssueLink, thread_of, set_relayed, StateStore}
use odoo_custom.Agents.State.Lawful.{Lawful}
use odoo_custom.Agents.Intake.{
  Effect, comment, Config, Outside, Run, start, perform, is_empty, BlockAction, Event,
  slash_command, modal_submitted, issue_comment, message, block_action,
}
use odoo_custom.Agents.Intake.Handlers.{
  is_some, make_link, mark, confirm, confirm_thread, is_confirm, on_block_action, handle,
}
use odoo_custom.Agents.Intake.Rule.{IsKept, IsHandled, handle-Keeps}
use mathlib.Core.Option
use odoo_custom.Agents.Intake.Confirmed.{confirmed_at}

module _ {S : Type 0} (store : StateStore S) (law : Lawful store) (cfg : Config) (out : Outside)
    (t : Text × Text) where
  abbrev has_intent : S → Bool
  has_intent s = is_some (confirmed_at (store.get_link_by_thread t s))

  abbrev pub IsOpen : S → Type 0
  IsOpen s = has_intent s ≡ false

  link-IsOpen :
      (reporter : Text) (s : S)
      → IsOpen s
      → IsOpen (store.link_thread_to_issue (make_link store cfg out reporter) s)
  link-IsOpen reporter s c =
      let l = make_link store cfg out reporter in
      ap (λ o. is_some (confirmed_at o)) (law.get-link t l s)
      ∙ elim (Bool-cases (equals (thread_of l) t)) [ inl e ↦ rw e refl | inr e ↦ rw e c ]

  relayed-IsOpen :
      (u : Text × Text) (comment_id : ℕ) (s : S)
      → IsOpen s
      → IsOpen (store.update_last_relayed_comment u comment_id s)
  relayed-IsOpen u comment_id s c =
      ap (λ o. is_some (confirmed_at o)) (law.get-relayed t u comment_id s)
      ∙ elim (Bool-cases (equals u t)) [
        | inr differs ↦ rw differs c
        | inl same ↦ rw same (
            still (store.get_link_by_thread u s) (
              subst (λ x. is_some (confirmed_at (store.get_link_by_thread x s)) ≡ false)
                (sym (pair_key.same-eq u t same)) c))
      ]
    where
      still :
          (o : Option ThreadIssueLink)
          → is_some (confirmed_at o) ≡ false
          → is_some (confirmed_at (Option.map (set_relayed comment_id) o)) ≡ false
      still none e = e
      still (some l) e = e

  IsOpen-IsKept : IsKept store cfg out IsOpen (λ e. Unit)
  IsOpen-IsKept = record {
    on_seen =
        λ key s c. ap (λ o. is_some (confirmed_at o)) (law.get-seen t out.now out.later key s) ∙ c;
    on_link = link-IsOpen;
    on_relayed = relayed-IsOpen;
    no_reply = λ e silent. tt;
    reply = λ i l s author body url number c is open_still. tt;
  }

  -- The thread has a link, its reporter pressed the button, and its issue got the comment.
  abbrev pub ByReporter : BlockAction → S → Run S → Type 0
  ByReporter p s r =
      (l : ThreadIssueLink) × (store.get_link_by_thread t s ≡ some l)
      × (p.clicker ≡ l.reporter_slack_id)
      × Memᴰ (comment l.github_issue_number (codes "/confirm")) r.made

  -- Where the thread has become confirmed, that was by its reporter.
  abbrev IsReported : BlockAction → S → Run S → Type 0
  IsReported p s r = has_intent r.state ≡ true → ByReporter p s r

  not_yet : (p : BlockAction) (s : S) (r : Run S) → IsOpen s → r.state ≡ s → IsReported p s r
  not_yet p s r c same intent =
      let still = subst (λ x. has_intent x ≡ true) same intent in absurd (cc)

  perform-IsReported :
      (p : BlockAction) (s : S) (e : Effect) (r : Run S)
      → IsReported p s r
      → IsReported p s (perform out e r)
  perform-IsReported p s e r h =
      if-holds (IsReported p s) (r.raised || out.raises e) _ _ (λ raised. h)
        (λ returned intent. let (l, is, who, made) = h intent in (l, is, who, Memᴰ.tail made))

  marks :
      (p : BlockAction) (u : Text × Text) (l : ThreadIssueLink) (s : S) (made : List Effect)
      → IsOpen s
      → store.get_link_by_thread u s ≡ some l
      → p.clicker ≡ l.reporter_slack_id
      → IsReported p s (record {
        state = store.mark_intent_confirmed u out.now s;
        made = comment l.github_issue_number (codes "/confirm") ∷ made;
        raised = false;
      })
  marks p u l s made c is who intent = elim (Bool-cases (equals u t)) [
    | inl same ↦ (
      l,
      subst (λ x. store.get_link_by_thread x s ≡ some l) (pair_key.same-eq u t same) is,
      who,
      Memᴰ.head refl,
    )
    | inr differs ↦
        let kept : has_intent (store.mark_intent_confirmed u out.now s) ≡ false =
          ap (λ o. is_some (confirmed_at o)) (law.get-mark t u out.now s) ∙ rw differs c in
        absurd (cc)
  ]

  mark-IsReported :
      (p : BlockAction) (u : Text × Text) (l : ThreadIssueLink) (s : S)
      → IsOpen s
      → store.get_link_by_thread u s ≡ some l
      → p.clicker ≡ l.reporter_slack_id
      → IsReported p s (mark store cfg out u l s)
  mark-IsReported p u l s c is who =
      elim (Bool-cases (out.raises (comment l.github_issue_number (codes "/confirm")))) [
        | inl raised ↦
            rw raised (not_yet p s (record { state = s; made = []; raised = true }) c refl)
        | inr returned ↦ rw returned (marks p u l s [] c is who)
      ]

  confirm-IsReported :
      (p : BlockAction) (u : Text × Text) (o : Option ThreadIssueLink) (s : S)
      → IsOpen s
      → store.get_link_by_thread u s ≡ o
      → IsReported p s (confirm store cfg out p u o s)
  confirm-IsReported p u none s c is = not_yet p s (start s) c refl
  confirm-IsReported p u (some l) s c is =
      if-holds (IsReported p s) (not (text_eq p.clicker l.reporter_slack_id)) _ _
        (λ other. perform-IsReported p s _ (start s) (not_yet p s (start s) c refl))
        (λ same.
          let marked =
            mark-IsReported p u l s c is
              (text_eq→eq p.clicker l.reporter_slack_id (ground arith)) in
          if-holds (IsReported p s) (is_empty p.message_ts) _ _ (λ z. marked)
            (λ z. perform-IsReported p s _ (mark store cfg out u l s) marked))

  action-IsReported :
      (p : BlockAction) (s : S) → IsOpen s → IsReported p s (on_block_action store cfg out p s)
  unfolding on_block_action
  action-IsReported p s c =
      if-holds (IsReported p s) (is_confirm p.action_id) _ _ (λ e. pressed p.value)
        (λ e. not_yet p s (start s) c refl)
    where
      pressed : (o : Option (Text × Text)) → IsReported p s (confirm_thread store cfg out p o s)
      pressed none = not_yet p s (start s) c refl
      pressed (some u) = confirm-IsReported p u (store.get_link_by_thread u s) s c refl

  kept_open :
      (e : Event) (s : S)
      → IsHandled store cfg out IsOpen (λ e. Unit) IsOpen-IsKept e s
      → IsOpen s
      → ¬ (has_intent (handle store cfg out e s).state ≡ true)
  kept_open e s asked c intent =
      let kept : has_intent (handle store cfg out e s).state ≡ false =
        (handle-Keeps store cfg out IsOpen (λ e. Unit) IsOpen-IsKept e s asked c).0 in
      absurd (cc)

  -- If the intent of a thread was not confirmed before an event and is confirmed after it, the event was
  -- the press of the button by the reporter of the thread's link, and its issue got the comment /confirm.
  pub handle-ByReporter :
      (e : Event) (s : S)
      → IsOpen s
      → is_some (confirmed_at (store.get_link_by_thread t (handle store cfg out e s).state)) ≡ true
      → (p : BlockAction) × (e ≡ block_action p) × ByReporter p s (handle store cfg out e s)
  unfolding handle
  handle-ByReporter (block_action p) s c intent = (p, refl, action-IsReported p s c intent)
  handle-ByReporter (slash_command p) s c intent =
      absurd (kept_open (slash_command p) s tt c intent)
  handle-ByReporter (modal_submitted v) s c intent =
      absurd (kept_open (modal_submitted v) s tt c intent)
  handle-ByReporter (issue_comment p) s c intent =
      absurd (kept_open (issue_comment p) s tt c intent)
  handle-ByReporter (message p) s c intent = absurd (kept_open (message p) s tt c intent)
