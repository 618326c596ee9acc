-- ===== src/Agents/Intake.antt =====
-- agents/agents/slack_intake/core.py: the handlers of the Slack intake, over the port of its state. A payload is
-- the record of what its `get`s find, with their defaults.
pub mod Handlers
pub mod Rule
pub mod Confirmed
pub mod Reporter
use odoo_custom.Prelude.{
  ℕ, Bool, true, false, not, ◌||◌, List, [], ◌∷◌, ◌++◌, Option, none, some, if◌then◌else◌, ◌==◌,
}
use odoo_custom.Prelude.Text.{Text, codes, text_eq, show_ℕ}
use odoo_custom.Prelude.Split.{lower}

-- What the handlers call at the chat, and at the issue tracker.
pub data Effect : Type 0 where
  -- To a channel and a user: why the intake refuses.
  post_ephemeral : Text → Text → Text → Effect
  open_modal : Text → Text → Effect
  -- The title, the body and the labels.
  open_issue : Text → Text → List Text → Effect
  -- To a channel, on an issue.
  post_message : Text → ℕ → Effect
  -- To a channel and a thread: the author, the text, the address and the number of the issue.
  post_thread_reply : Text × Text → Text → Text → Text → ℕ → Effect
  -- On an issue, a text.
  comment : ℕ → Text → Effect
  add_reaction : Text → Text → Effect
  -- In a channel, the card of a message: the issue, the time and who confirmed.
  update_message : Text → Text → ℕ → ℕ → Text → Effect

-- `shadow_mode` in the configuration, or in the environment.
pub data Flag : Type 0 where
  flag : Bool → Flag
  word : Text → Flag

-- The section `agents.slack_intake` of the configuration, the name of the repository, and the patterns
-- of texts that are sensitive or personal, which `re` matches.
pub record Config : Type 0 where
  pub shadow_mode : Flag
  pub allowed_channels : List Text
  pub relay_authors : List Text
  pub repo : Text
  pub sensitive : Text → Bool
  pub mask : Text → Text

-- What one event meets: which calls of the chat and the tracker raise, the issue that is opened, the
-- message that is posted, and the times that the clock has.
pub record Outside : Type 0 where
  pub raises : Effect → Bool
  pub issue_number : ℕ
  pub posted : Text × Text
  pub now : ℕ
  pub later : ℕ

-- A handler at work: the state of the store, the calls that it has made, and whether one raised.
pub record Run (S : Type 0) : Type 0 where
  pub state : S
  pub made : List Effect
  pub raised : Bool

abbrev pub start : {S : Type 0} → S → Run S
start s = record { state = s; made = []; raised = false }

-- A call of the chat or the tracker.
abbrev pub perform : {S : Type 0} → Outside → Effect → Run S → Run S
perform out e r =
    if r.raised || out.raises e then record r { raised = true } else record r { made = e ∷ r.made }

-- A call of the store, where nothing was raised before.
abbrev pub update : {S : Type 0} → (S → S) → Run S → Run S
update f r = if r.raised then r else record r { state = f r.state }

abbrev pub is_empty : Text → Bool
is_empty [] = true
is_empty (c ∷ cs) = false

unfoldable pub member : Text → List Text → Bool
member t [] = false
member t (u ∷ us) = text_eq t u || member t us

-- `_shadow_mode`
abbrev pub shadow_mode : Config → Bool
shadow_mode cfg = elim cfg.shadow_mode [
  | flag b ↦ b
  | word t ↦ member (lower t) (codes "1" ∷ codes "true" ∷ codes "yes" ∷ [])
]

-- `_channel_allowed`
abbrev pub channel_allowed : Config → Text → Bool
channel_allowed cfg channel_id =
    member (codes "*") cfg.allowed_channels || member channel_id cfg.allowed_channels

abbrev pub intake_label : Text
intake_label = codes "source:slack"

-- /intake
pub record SlashCommand : Type 0 where
  pub command : Text
  pub channel_id : Text
  pub user_id : Text
  pub trigger_id : Text

-- The form that was submitted: `callback_id`, the user, the channel of `private_metadata` and the values.
pub record Submission : Type 0 where
  pub callback_id : Text
  pub user_id : Text
  pub user_name : Text
  pub origin_channel : Text
  pub title : Text
  pub description : Text
  pub kind : Text
  pub severity : Text
  pub addon : Text

-- An issue_comment of GitHub. `number` and `comment_id` are 0 where there is none.
pub record IssueComment : Type 0 where
  pub delivery_id : Text
  pub repo : Text
  pub number : ℕ
  pub labels : List Text
  pub author_login : Text
  pub comment_id : ℕ
  pub body : Text
  pub html_url : Text

-- A message of Slack; the Boolean fields say whether it has a bot_id or a subtype.
pub record Message : Type 0 where
  pub event_id : Text
  pub bot_id : Bool
  pub subtype : Bool
  pub channel : Text
  pub thread_ts : Text
  pub text : Text
  pub user : Text
  pub ts : Text

-- A press of a button: the first action, whose value is JSON or not, and the message it stands in.
pub record BlockAction : Type 0 where
  pub action_id : Option Text
  pub value : Option (Text × Text)
  pub clicker : Text
  pub message_ts : Text

pub data Event : Type 0 where
  slash_command : SlashCommand → Event
  modal_submitted : Submission → Event
  issue_comment : IssueComment → Event
  message : Message → Event
  block_action : BlockAction → Event

-- Lines joined by a line feed.
abbrev pub join_lines : List Text → Text
join_lines [] = []
join_lines (l ∷ []) = l
join_lines (l ∷ m ∷ ls) = l ++ (10 ∷ join_lines (m ∷ ls))

-- `_format_issue_body`
abbrev pub format_issue_body : Submission → Text → Text
format_issue_body v description = join_lines (
    description
    ∷ []
    ∷ codes "---"
    ∷ (codes "Filed via Slack `/intake` by @"
        ++ (v.user_name ++ (codes " (`" ++ (v.user_id ++ codes "`)"))))
    ∷ (codes "From channel `"
        ++ (v.origin_channel
            ++ (codes "` · kind=" ++ (v.kind ++ (codes " · severity=" ++ v.severity)))))
    ∷ (if is_empty v.addon then [] else (codes "Addon: `" ++ (v.addon ++ codes "`")) ∷ []))

abbrev pub labels_of : Submission → List Text
labels_of v =
    (if text_eq v.kind (codes "bug") then codes "bug" else codes "feature-request")
    ∷ (codes "severity:" ++ v.severity)
    ∷ intake_label
    ∷ (if is_empty v.addon then [] else (codes "addon:" ++ v.addon) ∷ [])
