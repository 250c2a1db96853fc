-- ===== src/Tests/Handlers.antt =====
-- bridge.rs: one room is bridged, used and unbridged in an environment where all requests succeed.
use matrix_bridge_slack.Prelude.{◌+◌, ◌≤◌, ◌≡◌, refl, true, some, [], ◌∷◌, ◌++◌, map, All, arith}
use mathlib.Core.Option.{map as map_option}
use matrix_bridge_slack.Db.{
  find, count_rooms, get_room_by_slack_channel, get_room_by_matrix_room, create_room_mapping,
}
use matrix_bridge_slack.Cache.{new}
use matrix_bridge_slack.Command.Slack.{kick}
use matrix_bridge_slack.Bridge.Monad.{◌>>=◌}
use matrix_bridge_slack.Bridge.Triple.{Post}
use matrix_bridge_slack.Bridge.Rooms.{
  get_room_mapping_cached, create_mapping, bridge_matrix_room, request_bridge_matrix_room,
  unbridge_matrix_room,
}
use matrix_bridge_slack.Bridge.Rooms.Cached.{key_of, mapped}
use matrix_bridge_slack.Bridge.Rooms.Coherent.{Coherent, Unbridged}
use matrix_bridge_slack.Bridge.Rooms.Created.{Outcome}
use matrix_bridge_slack.Bridge.Matrix.{handle_matrix_redaction}
use matrix_bridge_slack.Bridge.Slack.{
  handle_slack_message_delete, moderate_rooms, target_rooms, member_of,
}
use matrix_bridge_slack.Bridge.Slack.Moderation.{
  moderations, request_for, target_rooms_lem, Distinct,
}
use matrix_bridge_slack.Bridge.History.{
  bridging, start, Reach, begin, step, Reach-Coherent, Reach-get_room_mapping_cached,
}
use matrix_bridge_slack.Bridge.Forget.{Redacted, Forgotten}
use matrix_bridge_slack.Bridge.Promises.{
  bridge_matrix_room-count_rooms, request_bridge_matrix_room-Outcome,
  unbridge_matrix_room-Unbridged, handle_matrix_redaction-Redacted,
  handle_slack_message_delete-Forgotten, moderate_rooms-moderations,
}
use matrix_bridge_slack.Tests.World.{bridged, config, empty, env, event, linked, room}

abbrev bridged_Reach : Reach config 900 bridged
bridged_Reach = step begin (bridging env "!r:example.org" "T1" "C1" empty)

Reach-Coherent_example : Coherent bridged
Reach-Coherent_example = Reach-Coherent config 900 bridged bridged_Reach

pub bridged-Coherent : Coherent bridged
bridged-Coherent = Reach-Coherent config 900 bridged bridged_Reach

Reach-get_room_mapping_cached_example :
    Post
      (λ o t. map_option key_of o ≡ mapped t.rooms "!r:example.org")
      (λ _. Unit)
      (get_room_mapping_cached "!r:example.org" env bridged)
Reach-get_room_mapping_cached_example =
    Reach-get_room_mapping_cached config 900 bridged env "!r:example.org" bridged_Reach

-- the run made the row
bridged_rooms : mapped bridged.rooms "!r:example.org" ≡ some (1, "!r:example.org", "C1", "T1")
unfolding bridge_matrix_room create_mapping create_room_mapping get_room_by_matrix_room
    get_room_by_slack_channel count_rooms start new find ◌>>=◌
bridged_rooms = refl

bridge_matrix_room-count_rooms_example :
    Post
      (λ _ t. count_rooms t.rooms ≤ 2)
      (λ t. count_rooms t.rooms ≤ 2)
      (bridge_matrix_room config "!r:example.org" "T1" "C1" env empty)
unfolding count_rooms start
bridge_matrix_room-count_rooms_example =
    bridge_matrix_room-count_rooms config 2 "!r:example.org" "T1" "C1" env empty refl (omega arith)

request_bridge_matrix_room-Outcome_example :
    Post
      (Outcome empty.rooms "!r:example.org" "T1")
      (λ t. t.rooms ≡ empty.rooms)
      (request_bridge_matrix_room config "!r:example.org" "@u:example.org" "T1" "C1" env empty)
request_bridge_matrix_room-Outcome_example =
    request_bridge_matrix_room-Outcome config "!r:example.org" "@u:example.org" "T1" "C1" env empty

unbridge_matrix_room-Unbridged_example :
    Post
      (λ _. Unbridged "!r:example.org")
      Coherent
      (unbridge_matrix_room config "!r:example.org" env bridged)
unbridge_matrix_room-Unbridged_example =
    unbridge_matrix_room-Unbridged config "!r:example.org" env bridged bridged-Coherent

handle_matrix_redaction-Redacted_example :
    Post
      (λ _. Redacted linked.messages (event "@u:example.org"))
      (λ t. t.messages ≡ linked.messages)
      (handle_matrix_redaction config (event "@u:example.org") env linked)
handle_matrix_redaction-Redacted_example =
    handle_matrix_redaction-Redacted config (event "@u:example.org") env linked

handle_slack_message_delete-Forgotten_example :
    Post
      (λ _. Forgotten linked.messages "171.1")
      (λ t. t.messages ≡ linked.messages)
      (handle_slack_message_delete "171.1" env linked)
handle_slack_message_delete-Forgotten_example =
    handle_slack_message_delete-Forgotten "171.1" env linked

moderate_rooms-moderations_example :
    Post
      (λ counts t.
        (moderations t.calls
          ≡ moderations empty.calls
            ++ map (request_for kick "@u:example.org" "C1" "U1") ("!a" ∷ "!b" ∷ []))
        × (counts.0 + counts.1 ≡ 0 + 0 + 2))
      (λ _. ⊥)
      (moderate_rooms kick "@u:example.org" "C1" "U1" ("!a" ∷ "!b" ∷ []) 0 0 env empty)
moderate_rooms-moderations_example =
    moderate_rooms-moderations kick "@u:example.org" "C1" "U1" ("!a" ∷ "!b" ∷ []) 0 0 env empty

target_rooms_lem_example :
    Distinct (target_rooms (room 1 "!a") (room 1 "!a" ∷ room 2 "!b" ∷ room 3 "!a" ∷ []))
    × All
        (λ r.
          member_of
            (target_rooms (room 1 "!a") (room 1 "!a" ∷ room 2 "!b" ∷ room 3 "!a" ∷ []))
            r.matrix_room_id
          ≡ true)
        (room 1 "!a" ∷ room 2 "!b" ∷ room 3 "!a" ∷ [])
target_rooms_lem_example =
    target_rooms_lem (room 1 "!a") (room 1 "!a" ∷ room 2 "!b" ∷ room 3 "!a" ∷ [])
