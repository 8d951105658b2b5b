-- ===== src/Multiplexer/Tests.antt =====
-- Two multiplexers and one channel, with texts that are their bytes.
use proxmoxwhatsapp.Prelude.{
  ℕ, ◌<◌, ◌≡◌, refl, List, [], ◌∷◌, map, false, Option, none, some, ok, arith,
}
use proxmoxwhatsapp.Text.{byte_text}
use proxmoxwhatsapp.Multiplexer.Message.{Message, parse, to_buffer, reason_bytes, from_close_event}
use proxmoxwhatsapp.Multiplexer.Message.RoundTrip.{parse-to_buffer}
use proxmoxwhatsapp.Multiplexer.Channels.{
  Multiplexer, Channel, is_open, wrap, get, has, get_next_id, Payload, text_payload, binary_payload,
}
use proxmoxwhatsapp.Multiplexer.Channels.NextId.{get_next_id-fresh}
use proxmoxwhatsapp.Multiplexer.Events.{
  channel_opened, channel_closed, text_message, binary_message, on_message, remove_channel,
  close_channel,
}
use proxmoxwhatsapp.Multiplexer.Delivery.{
  event_of, frames, on_messages, frames-on_messages, create_send_open, create_send_open-on_messages,
}
use proxmoxwhatsapp.Multiplexer.Closing.{unique, close_channel-open, close_channel-on_message}

abbrev channel : Channel
channel = record { state = is_open; storage = [] }

abbrev opened : Multiplexer
opened = record {
  ready_state = is_open;
  channels = (1, channel) ∷ ((3, channel) ∷ []);
  next_id = 2;
  storage = [];
  empty_timer_scheduled = false;
  sent = [];
}

abbrev message : Message
message = record { message_type = 16; channel_id = 3; data_bytes = 5 ∷ (6 ∷ []) }

abbrev payloads : List (Payload byte_text)
payloads = text_payload (104 ∷ (105 ∷ [])) ∷ (binary_payload (5 ∷ (6 ∷ [])) ∷ [])

parse-to_buffer_example : parse (to_buffer message) ≡ ok message
parse-to_buffer_example = parse-to_buffer message (omega arith) (omega arith)

get_next_id-fresh_example :
    (id : ℕ) × (get_next_id opened ≡ some (ok id, record opened { next_id = id }))
    × (has id opened.channels ≡ false)
    × (0 < id)
get_next_id-fresh_example = get_next_id-fresh opened (omega arith)

frames-on_messages_example :
    on_messages byte_text (frames byte_text 3 payloads) opened
    ≡ (ok (text_message 3 (104 ∷ (105 ∷ []))) ∷ (ok (binary_message 3 (5 ∷ (6 ∷ []))) ∷ []), opened)
unfolding event_of get
frames-on_messages_example =
    frames-on_messages byte_text 3 payloads opened channel (omega arith) (refl, (tt, tt)) refl

create_send_open-on_messages_example :
    (m : Multiplexer) × (create_send_open byte_text (9 ∷ []) payloads ≡ some (ok m))
    × ((on_messages byte_text m.sent (wrap is_open)).0
        ≡ ok (channel_opened 1 (9 ∷ [])) ∷ map (event_of byte_text 1) payloads)
create_send_open-on_messages_example =
    create_send_open-on_messages byte_text (9 ∷ []) payloads (refl, (tt, tt))

close_channel-open_example :
    (after : Multiplexer) × (close_channel byte_text 3 1000 none opened ≡ (ok after, after))
    × (after.sent ≡ to_buffer (from_close_event byte_text 3 1000 none) ∷ [])
    × (get 3 after.channels ≡ none)
unfolding get unique has
close_channel-open_example =
    close_channel-open byte_text 3 1000 none opened channel refl refl refl refl

abbrev reason : Option (List ℕ)
reason = some (98 ∷ (121 ∷ []))

close_channel-on_message_example :
    (on_message byte_text (to_buffer (from_close_event byte_text 3 1001 reason)) opened ≡ (
      ok (channel_closed 3 (record { was_clean = false; code = some 1001; reason = reason })),
      remove_channel 3 opened,
    ))
    × (get 3 (remove_channel 3 opened).channels ≡ none)
unfolding get unique has reason_bytes
close_channel-on_message_example =
    close_channel-on_message byte_text 3 1001 reason opened channel (omega arith) (omega arith)
      (omega arith) refl refl refl
