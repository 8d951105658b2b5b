-- ===== src/Multiplexer/Closing.antt =====
-- Closing a channel: both ends drop it, and the other end hears the code and the reason.
use proxmoxwhatsapp.Prelude.{
  ℕ, ◌≡◌, refl, List, [], ◌∷◌, ◌++◌, length, Bool, true, false, not, ◌&&◌, Option, none, some, ◌==◌,
  ok, arith,
}
use proxmoxwhatsapp.Bytes.Laws.{IsUint}
use proxmoxwhatsapp.Text.{TextCodec, ArePlain}
use proxmoxwhatsapp.Multiplexer.Message.{to_buffer, reason_bytes, from_close_event}
use proxmoxwhatsapp.Multiplexer.Message.RoundTrip.{
  parse-to_buffer, to_close_event-from_close_event, heard,
}
use proxmoxwhatsapp.Multiplexer.Channels.{
  Multiplexer, Channel, is_open, closed, get, put, has, delete,
}
use proxmoxwhatsapp.Multiplexer.Delivery.{send_raw-open}
use proxmoxwhatsapp.Multiplexer.Events.{
  remove_channel, channel_closed, on_close_channel, handle_message, on_message, close_open_channel,
  close_channel,
}

-- No key stands twice: what a Map guarantees.
unfoldable pub unique : List (ℕ × Channel) → Bool
unique [] = true
unique ((key, channel) ∷ rest) = not (has key rest) && unique rest

get-has :
    (id : ℕ) (channels : List (ℕ × Channel)) → has id channels ≡ false → get id channels ≡ none
unfolding has get
get-has id [] h = refl
get-has id ((key, channel) ∷ rest) h = grind (arith, get-has id rest)

has-put :
    (id key : ℕ) (value : Channel) (channels : List (ℕ × Channel))
    → has key channels ≡ false
    → (id == key) ≡ false
    → has key (put id value channels) ≡ false
unfolding has put
has-put id key value [] h k = ground arith
has-put id key value ((other, channel) ∷ rest) h k = grind (arith, has-put id key value rest)

unique-put :
    (id : ℕ) (value : Channel) (channels : List (ℕ × Channel))
    → unique channels ≡ true
    → unique (put id value channels) ≡ true
unfolding unique has put
unique-put id value [] h = refl
unique-put id value ((key, channel) ∷ rest) h =
    grind (arith, unique-put id value rest, has-put id key value rest)

get-delete :
    (id : ℕ) (channels : List (ℕ × Channel))
    → unique channels ≡ true
    → get id (delete id channels) ≡ none
unfolding unique has get delete
get-delete id [] h = refl
get-delete id ((key, channel) ∷ rest) h = grind (arith, get-delete id rest, get-has id rest)

module _ (codec : TextCodec) where
  -- Closing an open channel of an open multiplexer, whose map has no key twice, sends the close
  -- message as the last one and removes the channel.
  pub close_channel-open :
      (id code : ℕ) (reason : Option codec.Text) (m : Multiplexer) (channel : Channel)
      → m.ready_state ≡ is_open
      → unique m.channels ≡ true
      → get id m.channels ≡ some channel
      → channel.state ≡ is_open
      → (after : Multiplexer) × (close_channel codec id code reason m ≡ (ok after, after))
        × (after.sent ≡ m.sent ++ to_buffer (from_close_event codec id code reason) ∷ [])
        × (get id after.channels ≡ none)
  unfolding close_channel close_open_channel remove_channel
  close_channel-open id code reason m channel o u e c =
      let marked = record m {
        channels = put id (record { state = closed; storage = [] }) m.channels;
      } in
      let bytes = to_buffer (from_close_event codec id code reason) in
      (
        remove_channel id (record marked { sent = m.sent ++ bytes ∷ [] }),
        rw (close_channel, e, c, close_open_channel, send_raw-open bytes marked o) refl,
        refl,
        get-delete id (put id (record { state = closed; storage = [] }) m.channels)
            (unique-put id (record { state = closed; storage = [] }) m.channels u),
      )

  -- When a close message arrives for a channel that the multiplexer has, with an id, a code and a
  -- reason's length that fit their fields a reason without lone surrogates and a leading U+FEFF,
  -- and no key twice in the map, the channel gets a close event with the code, with wasClean for
  -- 1000, and with the reason unless it is empty, and the channel is removed.
  pub close_channel-on_message :
      (id code : ℕ) (reason : Option codec.Text) (m : Multiplexer) (channel : Channel)
      → IsUint 4 id
      → IsUint 2 code
      → IsUint 4 (length (reason_bytes codec reason))
      → ArePlain codec reason
      → unique m.channels ≡ true
      → get id m.channels ≡ some channel
      → (on_message codec (to_buffer (from_close_event codec id code reason)) m ≡ (
        ok (
            channel_closed id
              (record { was_clean = code == 1000; code = some code; reason = heard codec reason })),
        remove_channel id m,
      ))
        × (get id (remove_channel id m).channels ≡ none)
  unfolding from_close_event remove_channel handle_message on_message on_close_channel
  close_channel-on_message id code reason m channel k h r a u e = (
    rw (on_message, parse-to_buffer (from_close_event codec id code reason) (omega arith) k, e)
        (rw (on_close_channel, to_close_event-from_close_event codec id code reason h r a) refl),
    get-delete id m.channels u,
  )
