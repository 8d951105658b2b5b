-- ===== src/Multiplexer/Channels.antt =====
-- packages/multiplexer/Multiplexer.ts: the multiplexer over the real WebSocket, which owns the
-- channels; a channel is the Multiplexer object whose `ws` is that one. What goes to the WebSocket
-- is the list `sent`. The code's handlers run one after the other, as the event loop calls them.
pub mod NextId
use proxmoxwhatsapp.Prelude.{
  ℕ, zero, suc, ◌+◌, List, [], ◌∷◌, ◌++◌, length, map, Bool, true, false, Option, none, some, ◌==◌,
  ltb, if◌then◌else◌, Result, ok, throw, plain_error,
}
use proxmoxwhatsapp.Text.{TextCodec}
use proxmoxwhatsapp.Multiplexer.Message.{
  Message, parse, create_buffer, to_buffer, from_close_event, to_close_event, CloseEvent,
  create_channel_type, close_channel_type, raw_binary_data_type, raw_string_data_type, data_type,
}

pub data SocketState : Type 0 where
  connecting is_open closing closed : SocketState

pub record Channel : Type 0 where
  pub state : SocketState
  pub storage : List (List ℕ)

-- `channels` is a Map in the order of insertion.
pub record Multiplexer : Type 0 where
  pub ready_state : SocketState
  pub channels : List (ℕ × Channel)
  pub next_id : ℕ
  pub storage : List (List ℕ)
  pub empty_timer_scheduled : Bool
  pub sent : List (List ℕ)

abbrev pub max_id : ℕ
max_id = 4294967296

-- Map's `has`, `get`, `set` and `delete`.
unfoldable pub has : ℕ → List (ℕ × Channel) → Bool
has id [] = false
has id ((key, channel) ∷ rest) = if id == key then true else has id rest

unfoldable pub get : ℕ → List (ℕ × Channel) → Option Channel
get id [] = none
get id ((key, channel) ∷ rest) = if id == key then some channel else get id rest

unfoldable pub put : ℕ → Channel → List (ℕ × Channel) → List (ℕ × Channel)
put id value [] = (id, value) ∷ []
put id value ((key, channel) ∷ rest) =
    if id == key then (key, value) ∷ rest else (key, channel) ∷ put id value rest

unfoldable pub delete : ℕ → List (ℕ × Channel) → List (ℕ × Channel)
delete id [] = []
delete id ((key, channel) ∷ rest) = if id == key then rest else (key, channel) ∷ delete id rest

-- `Multiplexer.wrap(ws)`: the state is the socket's.
unfoldable pub wrap : SocketState → Multiplexer
wrap state = record {
  ready_state = state;
  channels = [];
  next_id = 0;
  storage = [];
  empty_timer_scheduled = true;
  sent = [];
}

-- `_send` and `sendData` of the multiplexer over the WebSocket.
unfoldable pub send_raw : List ℕ → Multiplexer → Result Multiplexer
send_raw bytes m = elim m.ready_state [
  | is_open ↦ ok (record m { sent = m.sent ++ bytes ∷ [] })
  | connecting ↦ ok (record m { storage = m.storage ++ bytes ∷ [] })
  | _ ↦ throw plain_error
]

-- `_send` of a channel: a channel that is not in the map has been closed.
unfoldable pub channel_send_raw : ℕ → List ℕ → Multiplexer → Result Multiplexer
channel_send_raw id bytes m = elim (get id m.channels) [
  | none ↦ throw plain_error
  | some channel ↦ elim channel.state [
    | is_open ↦ send_raw bytes m
    | connecting ↦ ok (record m {
      channels = put id (record channel { storage = channel.storage ++ bytes ∷ [] }) m.channels;
    })
    | _ ↦ throw plain_error
  ]
]

module _ (codec : TextCodec) where
  -- What a client hands to `send`.
  pub data Payload : Type 0 where
    text_payload : codec.Text → Payload
    binary_payload : List ℕ → Payload

  unfoldable pub payload_message : ℕ → Payload → List ℕ
  payload_message id (text_payload text) = create_buffer raw_string_data_type id (codec.encode text)
  payload_message id (binary_payload bytes) = create_buffer raw_binary_data_type id bytes

  unfoldable pub channel_send : ℕ → Payload → Multiplexer → Result Multiplexer
  channel_send id payload m = channel_send_raw id (payload_message id payload) m

  unfoldable pub payload_bytes : Payload → List ℕ
  payload_bytes (text_payload text) = codec.encode text
  payload_bytes (binary_payload bytes) = bytes

  unfoldable pub channel_send_data : ℕ → Payload → Multiplexer → Result Multiplexer
  channel_send_data id payload m =
      channel_send_raw id (create_buffer data_type id (payload_bytes payload)) m

-- `getNextId`'s loop: `next` is `this.nextId`; none when the fuel is used up.
unfoldable pub next_id_loop : ℕ → List (ℕ × Channel) → Bool → ℕ → Option (Result ℕ × ℕ)
next_id_loop zero channels hit_top next = none
next_id_loop (suc fuel) channels hit_top next = elim (has (next + 1) channels) [
  | false ↦ some (ok (next + 1), next + 1)
  | true ↦ elim (next + 1 == max_id) [
    | false ↦ next_id_loop fuel channels hit_top (next + 1)
    | true ↦ elim hit_top [
      | true ↦ some (throw plain_error, next + 1)
      | false ↦ next_id_loop fuel channels true 0
    ]
  ]
]

unfoldable pub get_next_id : Multiplexer → Option (Result ℕ × Multiplexer)
get_next_id m =
    elim (next_id_loop (2 + (length m.channels + length m.channels)) m.channels false m.next_id) [
      | none ↦ none
      | some (result, next) ↦ some (result, record m { next_id = next })
    ]

-- `_createChannel` for a channel that opens later, and for one that the other end asked for.
unfoldable pub add_channel : ℕ → SocketState → Multiplexer → Multiplexer
add_channel id state m = record m {
  channels = put id (record { state = state; storage = [] }) m.channels;
  empty_timer_scheduled = false;
}

unfoldable pub create_with_id : List ℕ → Result ℕ → Multiplexer → Result (ℕ × Multiplexer)
create_with_id bytes (throw e) m = throw e
create_with_id bytes (ok id) m =
    elim (send_raw (create_buffer create_channel_type id bytes) (add_channel id connecting m)) [
      | throw e ↦ throw e
      | ok sent ↦ ok (id, sent)
    ]

-- `createChannel`; the outer option is the loop's fuel.
unfoldable pub create_channel : List ℕ → Multiplexer → Option (Result (ℕ × Multiplexer))
create_channel bytes m = elim m.ready_state [
  | closing ↦ some (throw plain_error)
  | closed ↦ some (throw plain_error)
  | _ ↦ elim (get_next_id m) [
    | none ↦ none
    | some (result, advanced) ↦ some (create_with_id bytes result advanced)
  ]
]
