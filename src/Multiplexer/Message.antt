-- ===== src/Multiplexer/Message.antt =====
-- packages/multiplexer/Message.ts and MessageType.ts: the frame of a channel's message.
pub mod RoundTrip
use proxmoxwhatsapp.Prelude.{
  ℕ, zero, ◌+◌, List, [], ◌∷◌, length, take, drop, zeros, leb, ltb, Bool, Option, none, some, ◌==◌,
  if◌then◌else◌, pos, Result, ok, throw, range_error, ◌>>=◌,
}
use proxmoxwhatsapp.Bytes.{le_bytes, le_value, to_uint}
use proxmoxwhatsapp.Writer.{blit}
use proxmoxwhatsapp.Text.{TextCodec}

-- A message's type is a number: `parse` takes any.
abbrev pub create_channel_type : ℕ
create_channel_type = 4

abbrev pub close_channel_type : ℕ
close_channel_type = 8

abbrev pub raw_binary_data_type : ℕ
raw_binary_data_type = 16

abbrev pub raw_string_data_type : ℕ
raw_string_data_type = 32

abbrev pub data_type : ℕ
data_type = 64

pub record Message : Type 0 where
  pub message_type : ℕ
  pub channel_id : ℕ
  pub data_bytes : List ℕ

-- `getUint8`, `getUint16` and `getUint32` with `littleEndian`: they throw outside the buffer.
unfoldable pub get_uint_le : ℕ → ℕ → List ℕ → Result ℕ
get_uint_le k offset buffer =
    if leb (offset + k) (length buffer)
    then ok (le_value (take k (drop offset buffer)))
    else throw range_error

unfoldable pub parse : List ℕ → Result Message
parse buffer = do
  message_type ← get_uint_le 1 0 buffer
  channel_id ← get_uint_le 4 1 buffer
  ok (record { message_type = message_type; channel_id = channel_id; data_bytes = drop 5 buffer })

-- Absent data is no bytes: the code does the same for both.
unfoldable pub create_buffer : ℕ → ℕ → List ℕ → List ℕ
create_buffer message_type channel_id data_bytes =
    let result = zeros (5 + length data_bytes) in
    let typed = blit 0 (le_bytes 1 (to_uint 1 (pos message_type))) result in
    let addressed = blit 1 (le_bytes 4 (to_uint 4 (pos channel_id))) typed in
    if length data_bytes == 0 then addressed else blit 5 data_bytes addressed

unfoldable pub to_buffer : Message → List ℕ
to_buffer m = create_buffer m.message_type m.channel_id m.data_bytes

module _ (codec : TextCodec) where
  -- `reason ? encode(reason) : new Uint8Array(0)`: both "" and no reason have no bytes.
  unfoldable pub reason_bytes : Option codec.Text → List ℕ
  reason_bytes none = []
  reason_bytes (some reason) = if codec.is_empty reason then [] else codec.encode reason

  unfoldable pub from_close_event : ℕ → ℕ → Option codec.Text → Message
  from_close_event id code reason =
      let bytes = reason_bytes reason in
      let buf = blit 0 (le_bytes 2 (to_uint 2 (pos code))) (zeros (2 + 4 + length bytes)) in
      record {
        message_type = close_channel_type;
        channel_id = id;
        data_bytes =
            if length bytes == 0
            then buf
            else blit 6 bytes (blit 2 (le_bytes 4 (to_uint 4 (pos (length bytes)))) buf);
      }

  pub record CloseEvent : Type 0 where
    pub was_clean : Bool
    pub code : Option ℕ
    pub reason : Option codec.Text

  -- `new Uint8Array(data, 6, length)` throws when the array would leave the data.
  unfoldable pub close_reason : List ℕ → Result (Option codec.Text)
  close_reason bytes =
      if ltb 6 (length bytes)
      then (get_uint_le 4 2 bytes >>= λ n.
          if leb (6 + n) (length bytes)
          then ok (some (codec.decode (take n (drop 6 bytes))))
          else throw range_error)
      else ok none

  unfoldable pub to_close_event : Message → Result CloseEvent
  to_close_event m =
      if length m.data_bytes == 0
      then ok (record { was_clean = Bool.false; code = none; reason = none })
      else (get_uint_le 2 0 m.data_bytes >>= λ code. close_reason m.data_bytes >>= λ reason.
          ok (record { was_clean = code == 1000; code = some code; reason = reason }))
