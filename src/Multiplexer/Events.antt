-- ===== src/Multiplexer/Events.antt =====
-- packages/multiplexer/Multiplexer.ts: what the socket's events and a channel's `close` do to the
-- multiplexer and its channels.
use proxmoxwhatsapp.Prelude.{
  ℕ, List, [], ◌∷◌, ◌++◌, Bool, true, false, Option, none, some, ◌==◌, ltb, if◌then◌else◌, Result,
  ok, throw, ◌>>=◌,
}
use proxmoxwhatsapp.Text.{TextCodec}
use proxmoxwhatsapp.Multiplexer.Message.{
  Message, parse, to_buffer, from_close_event, to_close_event, CloseEvent, create_channel_type,
  close_channel_type, raw_binary_data_type, raw_string_data_type, data_type,
}
use proxmoxwhatsapp.Multiplexer.Channels.{
  Multiplexer, Channel, SocketState, is_open, closing, closed, get, put, delete, add_channel,
  send_raw,
}

-- `storage.forEach(ws.sendData)`.
unfoldable pub send_stored : List (List ℕ) → Multiplexer → Result Multiplexer
send_stored [] m = ok m
send_stored (bytes ∷ rest) m = send_raw bytes m >>= send_stored rest

-- A channel opens: `readyState`, then its own `open` handler sends what waited.
unfoldable pub open_channel : ℕ → SocketState → Multiplexer → Result Multiplexer
open_channel id state m = elim (get id m.channels) [
  | none ↦ ok m
  | some channel ↦
      send_stored channel.storage
        (record m { channels = put id (record { state = state; storage = [] }) m.channels })
]

unfoldable pub open_channels : List (ℕ × Channel) → Multiplexer → Result Multiplexer
open_channels [] m = ok m
open_channels ((id, channel) ∷ rest) m = open_channel id is_open m >>= open_channels rest

-- The WebSocket's `open` event: the listeners run in the order of registration, the multiplexer's
-- own first, which sends what waited.
unfoldable pub on_open : Multiplexer → Result Multiplexer
on_open m =
    open_channels m.channels
      (record m { ready_state = is_open; sent = m.sent ++ m.storage; storage = [] })

-- The WebSocket's `close` event, when the socket is closed: every channel closes and is removed.
unfoldable pub on_close : Multiplexer → Multiplexer
on_close m = record m {
  ready_state = closed;
  channels = [];
  empty_timer_scheduled = elim m.channels [ [] ↦ m.empty_timer_scheduled | _ ∷ _ ↦ true ];
}

-- The microtask of `scheduleEmptyEvent`: whether `empty` is emitted.
unfoldable pub run_empty_timer : Multiplexer → Bool × Multiplexer
run_empty_timer m = (m.empty_timer_scheduled, record m { empty_timer_scheduled = false })

-- A channel's `close` listener in `_createChannel`.
unfoldable pub remove_channel : ℕ → Multiplexer → Multiplexer
remove_channel id m =
    let rest = delete id m.channels in
    record m {
      channels = rest;
      empty_timer_scheduled = elim rest [ [] ↦ true | _ ∷ _ ↦ m.empty_timer_scheduled ];
    }

module _ (codec : TextCodec) where
  -- What the multiplexer dispatches on a message: on itself, or on the channel of the id.
  pub data Event : Type 0 where
    channel_opened : ℕ → List ℕ → Event
    text_message : ℕ → codec.Text → Event
    binary_message : ℕ → List ℕ → Event
    data_message : ℕ → List ℕ → Event
    channel_closed : ℕ → CloseEvent codec → Event
    channel_not_found : ℕ → Event
    unsupported_type : ℕ → Event

  -- The case of CloseChannel. The disposal sets CLOSED also when `toCloseEvent` throws, and then the
  -- channel stays in the map.
  unfoldable pub on_close_channel : Message → Multiplexer → Result Event × Multiplexer
  on_close_channel message m = elim (to_close_event codec message) [
    | ok event ↦ (ok (channel_closed message.channel_id event), remove_channel message.channel_id m)
    | throw e ↦ (
      throw e,
      record m {
        channels = put message.channel_id (record { state = closed; storage = [] }) m.channels;
      },
    )
  ]

  unfoldable pub dispatch_to_channel : Message → Event → Multiplexer → Result Event × Multiplexer
  dispatch_to_channel message event m = elim (get message.channel_id m.channels) [
    | none ↦ (ok (channel_not_found message.channel_id), m)
    | some channel ↦ (ok event, m)
  ]

  unfoldable pub on_create_channel : Message → Multiplexer → Multiplexer
  on_create_channel message m =
      let raised = if ltb m.next_id message.channel_id then message.channel_id else m.next_id in
      add_channel message.channel_id m.ready_state (record m { next_id = raised })

  unfoldable pub handle_message : Message → Multiplexer → Result Event × Multiplexer
  handle_message message m =
      if message.message_type == create_channel_type
      then (ok (channel_opened message.channel_id message.data_bytes), on_create_channel message m)
      else if message.message_type == raw_string_data_type
      then dispatch_to_channel message
          (text_message message.channel_id (codec.decode message.data_bytes)) m
      else if message.message_type == raw_binary_data_type
      then dispatch_to_channel message (binary_message message.channel_id message.data_bytes) m
      else if message.message_type == data_type
      then dispatch_to_channel message (data_message message.channel_id message.data_bytes) m
      else if message.message_type == close_channel_type
      then elim (get message.channel_id m.channels) [
        | none ↦ (ok (channel_not_found message.channel_id), m)
        | some channel ↦ on_close_channel message m
      ]
      else (ok (unsupported_type message.message_type), m)

  -- The handler of the WebSocket's `message` event.
  unfoldable pub on_message : List ℕ → Multiplexer → Result Event × Multiplexer
  on_message bytes m = elim (parse bytes) [
    | throw e ↦ (throw e, m)
    | ok message ↦ handle_message message m
  ]

  -- `close` of a channel. A failed send leaves the channel closed, and in the map.
  unfoldable pub close_open_channel :
      ℕ → ℕ → Option codec.Text → Multiplexer → Result Multiplexer × Multiplexer
  close_open_channel id code reason m =
      let marked = record m {
        channels = put id (record { state = closed; storage = [] }) m.channels;
      } in
      elim (send_raw (to_buffer (from_close_event codec id code reason)) marked) [
        | throw e ↦ (throw e, marked)
        | ok sent ↦ (ok (remove_channel id sent), remove_channel id sent)
      ]

  unfoldable pub close_channel :
      ℕ → ℕ → Option codec.Text → Multiplexer → Result Multiplexer × Multiplexer
  close_channel id code reason m = elim (get id m.channels) [
    | none ↦ (ok m, m)
    | some channel ↦ elim channel.state [
      | closing ↦ (ok m, m)
      | closed ↦ (ok m, m)
      | _ ↦ close_open_channel id code reason m
    ]
  ]
