-- ===== src/Bridge/Outgoing/Delivered.antt =====
-- The last request of a Matrix message that is forwarded to a Slack channel.
use matrix_bridge_slack.Prelude.{◌≡◌, ◌⊎◌, String, false, Option, some, List, [], ◌∷◌, ◌++◌}
use matrix_bridge_slack.Text.{is_blank}
use matrix_bridge_slack.Command.Matrix as C
use matrix_bridge_slack.Db.{RoomMapping}
use matrix_bridge_slack.MessageFlow.{
  MatrixInboundMessage, OutboundSlackMessage, extract_plain_text, parse_matrix_event,
  matrix_to_slack,
}
use matrix_bridge_slack.Bridge.{Request, State, Config, send_message_as_user}
use matrix_bridge_slack.Bridge.Monad.{M}
use matrix_bridge_slack.Bridge.Triple.{Triple}
use matrix_bridge_slack.Bridge.Matrix.{MatrixEvent}

-- the requests of a run that began with the log `calls`
module _ (calls : List Request) (channel : String) where
  abbrev Grown : State → Type 0
  Grown u = (more : List Request) × (u.calls ≡ calls ++ more)

  -- the last of them is a message to the channel
  abbrev pub LastSent : String → Option String → Option String → State → Type 0
  LastSent content reply_to edit_of u =
      (more : List Request) × ((username : String) × ((avatar : Option String) × (u.calls
            ≡ (calls ++ more)
              ++ send_message_as_user channel content reply_to edit_of username avatar ∷ [])))

  -- it has the text of the message, and is the reply or the edit that the message is
  abbrev pub IsDelivered : OutboundSlackMessage → State → Type 0
  IsDelivered m = LastSent m.content m.reply_to m.edit_of

  -- there is none, or the last one is a message to the channel
  abbrev pub Refused : State → Type 0
  Refused u =
      (u.calls ≡ calls)
      ⊎ ((content : String) × ((reply_to : Option String) × ((edit_of : Option String) × LastSent
                content reply_to edit_of u)))

  abbrev Keeps : {A : Type 0} → M A → Type 0
  Keeps m = Triple Grown m (λ _. Grown) Refused

  -- a message whose text is not blank
  module _ (m : OutboundSlackMessage) (solid : is_blank m.content ≡ false) where
    abbrev Delivers : M (Unit {0}) → Type 0
    Delivers n = Triple Grown n (λ _. IsDelivered m) Refused

module _ (config : Config) (strip format : String → String) (event : MatrixEvent)
    (mapping : RoomMapping) (message : MatrixInboundMessage)
    (solid : is_blank (matrix_to_slack format message).content ≡ false)
    (parsed : parse_matrix_event (extract_plain_text strip) event ≡ some message) where
  abbrev out : OutboundSlackMessage
  out = matrix_to_slack format message
