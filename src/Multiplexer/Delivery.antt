-- ===== src/Multiplexer/Delivery.antt =====
-- Two multiplexers at the ends of one WebSocket: what is sent on a channel arrives on the channel.
use proxmoxwhatsapp.Prelude.{
  ℕ, ◌≡◌, refl, ap, ◌∙◌, List, [], ◌∷◌, ◌++◌, map, false, Option, none, some, Result, ok, throw,
  ◌>>=◌, arith, append_assoc, append-nil,
}
use proxmoxwhatsapp.Bytes.Laws.{IsUint}
use proxmoxwhatsapp.Text.{TextCodec, IsPlain}
use proxmoxwhatsapp.Multiplexer.Message.{
  parse, create_buffer, to_buffer, create_channel_type, raw_binary_data_type, raw_string_data_type,
}
use proxmoxwhatsapp.Multiplexer.Message.RoundTrip.{parse-to_buffer}
use proxmoxwhatsapp.Multiplexer.Channels.{
  Multiplexer, Channel, connecting, is_open, get, put, has, wrap, send_raw, channel_send_raw,
  channel_send, Payload, text_payload, binary_payload, payload_message, next_id_loop, get_next_id,
  add_channel, create_with_id, create_channel,
}
use proxmoxwhatsapp.Multiplexer.Events.{
  send_stored, open_channel, open_channels, on_open, Event, channel_opened, text_message,
  binary_message, dispatch_to_channel, on_create_channel, handle_message, on_message,
}

pub send_raw-open :
    (bytes : List ℕ) (m : Multiplexer)
    → m.ready_state ≡ is_open
    → send_raw bytes m ≡ ok (record m { sent = m.sent ++ bytes ∷ [] })
unfolding send_raw
send_raw-open bytes m o =
    rw (send_raw, o)
      (ap (λ state. ok (record m { ready_state = state; sent = m.sent ++ bytes ∷ [] })) o)

module _ (codec : TextCodec) where
  unfoldable pub channel_send_all : ℕ → List (Payload codec) → Multiplexer → Result Multiplexer
  channel_send_all id [] m = ok m
  channel_send_all id (p ∷ ps) m = channel_send codec id p m >>= channel_send_all id ps

  unfoldable pub on_messages :
      List (List ℕ) → Multiplexer → List (Result (Event codec)) × Multiplexer
  on_messages [] m = ([], m)
  on_messages (bytes ∷ rest) m =
      let (event, next) = on_message codec bytes m in
      let (events, last) = on_messages rest next in (event ∷ events, last)

  -- The event that a payload is to become.
  unfoldable pub event_of : ℕ → Payload codec → Result (Event codec)
  event_of id (text_payload text) = ok (text_message id text)
  event_of id (binary_payload bytes) = ok (binary_message id bytes)

  -- The texts among the payloads have no lone surrogate and no leading U+FEFF.
  abbrev pub PlainPayload : Payload codec → Type 0
  PlainPayload (text_payload text) = IsPlain codec text
  PlainPayload (binary_payload bytes) = Unit

  abbrev pub PlainPayloads : List (Payload codec) → Type 0
  PlainPayloads [] = Unit
  PlainPayloads (p ∷ ps) = PlainPayload p × PlainPayloads ps

  abbrev pub frames : ℕ → List (Payload codec) → List (List ℕ)
  frames id = map (payload_message codec id)

  parse-create_buffer :
      (t id : ℕ) (bytes : List ℕ)
      → IsUint 1 t
      → IsUint 4 id
      → parse (create_buffer t id bytes)
        ≡ ok (record { message_type = t; channel_id = id; data_bytes = bytes })
  unfolding to_buffer
  parse-create_buffer t id bytes h k =
      parse-to_buffer (record { message_type = t; channel_id = id; data_bytes = bytes }) h k

  payload-on_message :
      (id : ℕ) (p : Payload codec) (m : Multiplexer) (channel : Channel)
      → IsUint 4 id
      → PlainPayload p
      → get id m.channels ≡ some channel
      → on_message codec (payload_message codec id p) m ≡ (event_of id p, m)
  unfolding on_message payload_message event_of handle_message dispatch_to_channel
  payload-on_message id (text_payload text) m channel k u e =
      rw
        (
          on_message,
          parse-create_buffer raw_string_data_type id (codec.encode text) (omega arith) k,
        )
        (rw (dispatch_to_channel, e, codec.decode-encode text u) refl)
  payload-on_message id (binary_payload bytes) m channel k u e =
      rw (on_message, parse-create_buffer raw_binary_data_type id bytes (omega arith) k)
        (rw (dispatch_to_channel, e) refl)

  -- When a multiplexer has a channel whose id fits four bytes and the frames of payloads for that
  -- channel arrive, whose texts have no lone surrogate and no leading U+FEFF, each payload is
  -- dispatched on the channel, a text as a text and bytes as bytes, once and in order, and nothing
  -- else changes.
  pub frames-on_messages :
      (id : ℕ) (ps : List (Payload codec)) (m : Multiplexer) (channel : Channel)
      → IsUint 4 id
      → PlainPayloads ps
      → get id m.channels ≡ some channel
      → on_messages (frames id ps) m ≡ (map (event_of id) ps, m)
  unfolding on_messages
  frames-on_messages id [] m channel k u e = refl
  frames-on_messages id (p ∷ ps) m channel k u e =
      rw (payload-on_message id p m channel k u.0 e, frames-on_messages id ps m channel k u.1 e)
        refl

  -- A multiplexer while the socket connects, with a channel that waits with it.
  abbrev waiting : List ℕ → List (List ℕ) → Multiplexer
  waiting bytes stored = record {
    ready_state = connecting;
    channels = (1, record { state = connecting; storage = stored }) ∷ [];
    next_id = 1;
    storage = create_buffer create_channel_type 1 bytes ∷ [];
    empty_timer_scheduled = false;
    sent = [];
  }

  create_channel-waiting :
      (bytes : List ℕ) → create_channel bytes (wrap connecting) ≡ some (ok (1, waiting bytes []))
  unfolding create_channel wrap get_next_id next_id_loop create_with_id add_channel send_raw put has
  create_channel-waiting bytes = refl

  channel_send_all-waiting :
      (bytes : List ℕ) (ps : List (Payload codec)) (stored : List (List ℕ))
      → channel_send_all 1 ps (waiting bytes stored) ≡ ok (waiting bytes (stored ++ frames 1 ps))
  unfolding channel_send_all channel_send channel_send_raw get put
  channel_send_all-waiting bytes [] stored = rw (append-nil stored) refl
  channel_send_all-waiting bytes (p ∷ ps) stored =
      channel_send_all-waiting bytes ps (stored ++ payload_message codec 1 p ∷ [])
      ∙ ap (λ s. ok (waiting bytes s))
          (append_assoc stored (payload_message codec 1 p ∷ []) (frames 1 ps))

  send_stored-open :
      (stored : List (List ℕ)) (m : Multiplexer)
      → m.ready_state ≡ is_open
      → send_stored stored m ≡ ok (record m { sent = m.sent ++ stored })
  unfolding send_stored
  send_stored-open [] m o = rw (append-nil m.sent) refl
  send_stored-open (bytes ∷ rest) m o = rw (send_raw-open bytes m o) (
      send_stored-open rest (record m { sent = m.sent ++ bytes ∷ [] }) o
      ∙ ap (λ sent. ok (record m { sent = sent })) (append_assoc m.sent (bytes ∷ []) rest))

  -- A channel is created and used before the socket is open, and the socket opens.
  unfoldable pub create_send_open : List ℕ → List (Payload codec) → Option (Result Multiplexer)
  create_send_open bytes ps = elim (create_channel bytes (wrap connecting)) [
    | none ↦ none
    | some (throw e) ↦ some (throw e)
    | some (ok (id, m)) ↦ some (channel_send_all id ps m >>= on_open)
  ]

  -- The ends when the socket is open: the sender with `sent`, the receiver that has the channel.
  abbrev open_sender : List (List ℕ) → Multiplexer
  open_sender sent = record {
    ready_state = is_open;
    channels = (1, record { state = is_open; storage = [] }) ∷ [];
    next_id = 1;
    storage = [];
    empty_timer_scheduled = false;
    sent = sent;
  }

  waiting-on_open :
      (bytes : List ℕ) (stored : List (List ℕ))
      → on_open (waiting bytes stored)
        ≡ ok (open_sender (create_buffer create_channel_type 1 bytes ∷ stored))
  unfolding on_open open_channels open_channel get put
  waiting-on_open bytes stored =
      rw
        (send_stored-open stored (open_sender (create_buffer create_channel_type 1 bytes ∷ []))
          refl)
        refl

  create-on_message :
      (bytes : List ℕ)
      → on_message codec (create_buffer create_channel_type 1 bytes) (wrap is_open)
        ≡ (ok (channel_opened 1 bytes), open_sender [])
  unfolding on_message handle_message on_create_channel wrap add_channel put
  create-on_message bytes =
      rw (on_message, parse-create_buffer create_channel_type 1 bytes (omega arith) (omega arith))
        refl

  opened :
      (bytes : List ℕ) (ps : List (Payload codec))
      → PlainPayloads ps
      → (on_messages (create_buffer create_channel_type 1 bytes ∷ frames 1 ps) (wrap is_open)).0
        ≡ ok (channel_opened 1 bytes) ∷ map (event_of 1) ps
  unfolding on_messages get
  opened bytes ps u =
      rw
        (
          create-on_message bytes,
          frames-on_messages 1 ps (open_sender []) (record { state = is_open; storage = [] })
              (omega arith) u refl,
        )
        refl

  -- A channel is created, and payloads are sent on it, whose texts have no lone surrogate and no
  -- leading U+FEFF, while the socket still connects; then the socket opens. No step fails, and the
  -- other end, which had no channel, learns of the channel with the bytes of its creation first and
  -- then gets every payload on it, once and in order.
  pub create_send_open-on_messages :
      (bytes : List ℕ) (ps : List (Payload codec))
      → PlainPayloads ps
      → (m : Multiplexer) × (create_send_open bytes ps ≡ some (ok m))
        × ((on_messages m.sent (wrap is_open)).0
            ≡ ok (channel_opened 1 bytes) ∷ map (event_of 1) ps)
  unfolding create_send_open
  create_send_open-on_messages bytes ps u = (
    open_sender (create_buffer create_channel_type 1 bytes ∷ frames 1 ps),
    rw (create_send_open, create_channel-waiting bytes, channel_send_all-waiting bytes ps [])
        (ap some (waiting-on_open bytes (frames 1 ps))),
    opened bytes ps u,
  )
