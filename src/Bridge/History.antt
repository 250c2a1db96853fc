-- ===== src/Bridge/History.antt =====
-- The handlers one after the other, from empty tables: what every state that they reach has.
use matrix_bridge_slack.Prelude.{Bool, ℕ, ◌≡◌, String, Option, [], arith}
use mathlib.Core.Option.{map as map_option}
use matrix_bridge_slack.Prelude.Assoc.{string_eq, lookup}
use matrix_bridge_slack.Cache.{new}
use matrix_bridge_slack.Bridge.{State, Env, Config}
use matrix_bridge_slack.Json.{Integer}
use matrix_bridge_slack.EventHandler.{process_event}
use matrix_bridge_slack.EventHandler.Impl.{handler_impl, process_event-Coherent}
use matrix_bridge_slack.Bridge.Triple.{Post, Triple-weaken, Triple-state}
use matrix_bridge_slack.Bridge.Rooms.{
  get_room_mapping_cached, bridge_matrix_room, request_bridge_matrix_room, unbridge_matrix_room,
  handle_slack_channel_delete, handle_matrix_encryption, request_bridge_slack_channel,
}
use matrix_bridge_slack.Bridge.Rooms.Cached.{key_of, mapped}
use matrix_bridge_slack.Bridge.Rooms.Coherent.{
  Coherent, get_room_mapping_cached_lem, unbridge_matrix_room_lem, handle_matrix_encryption_lem,
}
use matrix_bridge_slack.Bridge.Rooms.Deleted.{handle_slack_channel_delete_lem}
use matrix_bridge_slack.Bridge.Rooms.Limit.{
  bridge_matrix_room-Coherent, request_bridge_matrix_room-Coherent,
  request_bridge_slack_channel-Coherent,
}
use matrix_bridge_slack.Bridge.Matrix.{
  MatrixEvent, handle_matrix_room_name, handle_matrix_room_topic, handle_matrix_redaction,
  handle_matrix_reaction,
}
use matrix_bridge_slack.Bridge.Matrix.Events.{
  handle_matrix_room_name-Coherent, handle_matrix_room_topic-Coherent,
  handle_matrix_redaction-Coherent, handle_matrix_reaction-Coherent,
}
use matrix_bridge_slack.Bridge.Messages.{
  Parsers, SlackMessageContext, handle_slack_message_with_context,
}
use matrix_bridge_slack.Db.{RoomMapping}
use matrix_bridge_slack.Bridge.Backfill.{backfill_channel, backfill_thread}
use matrix_bridge_slack.Bridge.Backfill.Coherent.{
  backfill_channel-Coherent, backfill_thread-Coherent,
}
use matrix_bridge_slack.Bridge.Guild.Steps.{GuildStep, GuildStep-Coherent}
use matrix_bridge_slack.Bridge.Outgoing.{handle_matrix_message}
use matrix_bridge_slack.Bridge.Outgoing.Coherent.{
  handle_slack_message_with_context-Coherent, handle_matrix_message-Coherent,
}
use matrix_bridge_slack.Bridge.Slack.{
  handle_slack_message_delete, handle_slack_typing, handle_slack_reaction_added,
  handle_slack_reaction_removed, handle_slack_channel_update, handle_slack_channel_archive,
}
use matrix_bridge_slack.Bridge.Slack.Events.{
  handle_slack_message_delete-Coherent, handle_slack_typing-Coherent,
  handle_slack_reaction_added-Coherent, handle_slack_reaction_removed-Coherent,
  handle_slack_channel_update-Coherent, handle_slack_channel_archive-Coherent,
}

module _ (config : Config) where
  -- one handler, run to its end in some environment, whether it returns or fails
  pub data Step : State → State → Type 0 where
    bridging :
        (env : Env) (room guild channel : String) (s : State)
        → Step s (bridge_matrix_room config room guild channel env s).1
    requesting :
        (env : Env) (room user guild channel : String) (s : State)
        → Step s (request_bridge_matrix_room config room user guild channel env s).1
    requesting_slack :
        (env : Env) (guild channel : String) (s : State)
        → Step s (request_bridge_slack_channel guild channel env s).1
    unbridging :
        (env : Env) (room : String) (s : State) → Step s (unbridge_matrix_room config room env s).1
    encrypting :
        (env : Env) (room : String) (s : State) → Step s (handle_matrix_encryption room env s).1
    deleting :
        (env : Env) (channel : String) (s : State)
        → Step s (handle_slack_channel_delete config channel env s).1
    updating :
        (env : Env) (channel : String) (name topic purpose : Option String) (s : State)
        → Step s (handle_slack_channel_update config channel name topic purpose env s).1
    archiving :
        (env : Env) (channel : String) (s : State)
        → Step s (handle_slack_channel_archive config channel env s).1
    renaming :
        (env : Env) (event : MatrixEvent) (s : State)
        → Step s (handle_matrix_room_name event env s).1
    topic_change :
        (env : Env) (event : MatrixEvent) (s : State)
        → Step s (handle_matrix_room_topic event env s).1
    redacting :
        (env : Env) (event : MatrixEvent) (s : State)
        → Step s (handle_matrix_redaction config event env s).1
    slack_message_seen :
        (env : Env) (parsers : Parsers) (show : ℕ → String) (ctx : SlackMessageContext) (s : State)
        → Step s (handle_slack_message_with_context config parsers show ctx env s).1
    matrix_message_seen :
        (env : Env) (strip format : String → String) (event : MatrixEvent) (s : State)
        → Step s (handle_matrix_message config strip format event env s).1
    deleted_on_slack :
        (env : Env) (id : String) (s : State) → Step s (handle_slack_message_delete id env s).1
    typing :
        (env : Env) (channel sender : String) (s : State)
        → Step s (handle_slack_typing config channel sender env s).1
    reacted :
        (env : Env) (channel id user reaction : String) (s : State)
        → Step s (handle_slack_reaction_added channel id user reaction env s).1
    unreacted :
        (env : Env) (channel id user reaction : String) (s : State)
        → Step s (handle_slack_reaction_removed channel id user reaction env s).1
    reacting :
        (env : Env) (event : MatrixEvent) (s : State)
        → Step s (handle_matrix_reaction event env s).1
    backfilling :
        (env : Env) (mapping : RoomMapping) (fuel limit : ℕ) (s : State)
        → Step s (backfill_channel mapping fuel limit env s).1
    backfilling_thread :
        (env : Env) (mapping : RoomMapping) (thread : String) (limit : ℕ) (s : State)
        → Step s (backfill_thread mapping thread limit env s).1
    of_guild : {s t : State} → GuildStep config s t → Step s t
    -- a Matrix event, by the processor with the bridge's handler
    processing :
        (env : Env) (strip format : String → String) (show : Integer → String) (bound : Bool)
        (limit : Integer) (event : MatrixEvent) (s : State)
        → Step s
            (process_event
              (record {
                event_handler = handler_impl config strip format show bound;
                age_limit_ms = limit;
              })
              event
              env
              s).1

  unfoldable pub start : ℕ → State
  unfolding new
  start ttl = record {
    rooms = record { rows = []; next_id = 1 };
    messages = record { rows = []; next_id = 1 };
    users = record { rows = []; next_id = 1 };
    emojis = record { rows = []; next_id = 1 };
    room_cache = new ttl;
    calls = [];
    clock = 0;
  }

  pub data Reach (ttl : ℕ) : State → Type 0 where
    begin : Reach ttl (start ttl)
    step : {s t : State} → Reach ttl s → Step s t → Reach ttl t

  Step-Coherent : (s t : State) → Step s t → Coherent s → Coherent t
  Step-Coherent s t (bridging env room guild channel _) h =
      Triple-state _ (bridge_matrix_room-Coherent config room guild channel) env s h
  Step-Coherent s t (requesting env room user guild channel _) h =
      Triple-state _ (request_bridge_matrix_room-Coherent config room guild user channel) env s h
  Step-Coherent s t (requesting_slack env guild channel _) h =
      Triple-state _ (request_bridge_slack_channel-Coherent guild channel) env s h
  Step-Coherent s t (unbridging env room _) h =
      Triple-state _
        (Triple-weaken _ (unbridge_matrix_room_lem config room) (λ s h. h) (λ a s q. q.0)
          (λ s e. e))
        env s h
  Step-Coherent s t (encrypting env room _) h =
      Triple-state _
        (Triple-weaken _ (handle_matrix_encryption_lem room) (λ s h. h) (λ a s q. q.0) (λ s e. e))
        env s h
  Step-Coherent s t (deleting env channel _) h =
      Triple-state _
        (Triple-weaken _ (handle_slack_channel_delete_lem channel config) (λ s h. h) (λ a s q. q.0)
          (λ s e. e))
        env s h
  Step-Coherent s t (updating env channel name topic purpose _) h =
      Triple-state _ (handle_slack_channel_update-Coherent config channel name topic purpose) env s
        h
  Step-Coherent s t (archiving env channel _) h =
      Triple-state _ (handle_slack_channel_archive-Coherent config channel) env s h
  Step-Coherent s t (renaming env event _) h =
      Triple-state _ (handle_matrix_room_name-Coherent event) env s h
  Step-Coherent s t (topic_change env event _) h =
      Triple-state _ (handle_matrix_room_topic-Coherent event) env s h
  Step-Coherent s t (redacting env event _) h =
      Triple-state _ (handle_matrix_redaction-Coherent config event) env s h
  Step-Coherent s t (slack_message_seen env parsers show ctx _) h =
      Triple-state _ (handle_slack_message_with_context-Coherent config parsers show ctx) env s h
  Step-Coherent s t (matrix_message_seen env strip format event _) h =
      Triple-state _ (handle_matrix_message-Coherent config strip format event) env s h
  Step-Coherent s t (deleted_on_slack env id _) h =
      Triple-state _ (handle_slack_message_delete-Coherent id) env s h
  Step-Coherent s t (typing env channel sender _) h =
      Triple-state _ (handle_slack_typing-Coherent config channel sender) env s h
  Step-Coherent s t (reacted env channel id user reaction _) h =
      Triple-state _ (handle_slack_reaction_added-Coherent channel id user reaction) env s h
  Step-Coherent s t (unreacted env channel id user reaction _) h =
      Triple-state _ (handle_slack_reaction_removed-Coherent channel id user reaction) env s h
  Step-Coherent s t (reacting env event _) h =
      Triple-state _ (handle_matrix_reaction-Coherent event) env s h
  Step-Coherent s t (backfilling env mapping fuel limit _) h =
      Triple-state _ (backfill_channel-Coherent mapping fuel limit) env s h
  Step-Coherent s t (backfilling_thread env mapping thread limit _) h =
      Triple-state _ (backfill_thread-Coherent mapping thread limit) env s h
  Step-Coherent s t (of_guild event) h = GuildStep-Coherent config s t event h
  Step-Coherent s t (processing env strip format show bound limit event _) h =
      Triple-state _ (process_event-Coherent config strip format show bound event limit) env s h

  -- Every state that a sequence of handlers reaches from empty tables and an empty cache, each run
  -- in any environment and each returning or failing, and of Matrix events that the event
  -- processor handles, is coherent: the ids of the room rows are below the counter and unique, no
  -- two rows share a Matrix room or a Slack channel, and what the room cache holds for a room has
  -- the id, the room, the channel and the team of the table's row for that room.
  pub Reach-Coherent : (ttl : ℕ) (s : State) → Reach ttl s → Coherent s
  unfolding start new lookup
  Reach-Coherent ttl s begin =
      ((tt, tt, tt), record { agree = λ room tv found. absurd (ground (arith, found)) })
  Reach-Coherent ttl t (step {s} r a) = Step-Coherent s t a (Reach-Coherent ttl s r)

  -- In every state that such a sequence reaches, at any time, when get_room_mapping_cached
  -- returns, its answer and the table's row for the room have the same id, room, channel and team,
  -- or neither is there.
  pub Reach-get_room_mapping_cached :
      (ttl : ℕ) (s : State) (env : Env) (room : String)
      → Reach ttl s
      → Post
          (λ o t. map_option key_of o ≡ mapped t.rooms room)
          (λ _. Unit)
          (get_room_mapping_cached room env s)
  Reach-get_room_mapping_cached ttl s env room r =
      (Triple-weaken (get_room_mapping_cached room) (get_room_mapping_cached_lem room) (λ _ c. c)
          (λ _ _ q. q.1) (λ _ _. tt)).at
        env s (Reach-Coherent ttl s r)
