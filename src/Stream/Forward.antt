-- ===== src/Stream/Forward.antt =====
-- server/ScrcpyConnection.ts: `startForwarding` and `sendChannel` on the way to the browser,
-- `onSocketMessage` on the way back, and `parseMetadata` at the start.
use Prim.Native.Nat.{bit_and, bit_or}
use proxmoxwhatsapp.Prelude.{
  ℕ, ◌^◌, List, [], ◌∷◌, ◌++◌, length, take, drop, Bool, ◌&&◌, Option, none, some, ltb, ◌==◌,
  if◌then◌else◌, Result, ok, throw, range_error, plain_error, ◌>>=◌,
}
use proxmoxwhatsapp.Bytes.{be_bytes, be_value}
use proxmoxwhatsapp.Stream.FrameReader.{config, keyframe, frame, ScrcpyFrame}

-- ChannelId.ts
abbrev pub video_channel : ℕ
video_channel = 0

abbrev pub audio_channel : ℕ
audio_channel = 1

abbrev pub control_channel : ℕ
control_channel = 2

abbrev pub device_msg_channel : ℕ
device_msg_channel = 3

abbrev pub metadata_channel : ℕ
metadata_channel = 4

abbrev pub pts_flag_config : ℕ
pts_flag_config = 0x8000_0000_0000_0000

abbrev pub pts_flag_keyframe : ℕ
pts_flag_keyframe = 0x4000_0000_0000_0000

-- `Buffer.writeBigUInt64BE` and `writeUInt32BE`: unlike a DataView they refuse a number that does
-- not fit.
abbrev pub write_uint : ℕ → ℕ → Result (List ℕ)
write_uint k n = if ltb n (256 ^ k) then ok (be_bytes k n) else throw range_error

unfoldable pub video_pts : ScrcpyFrame → ℕ
video_pts f = elim f.type [
  | config ↦ bit_or f.pts pts_flag_config
  | keyframe ↦ bit_or f.pts pts_flag_keyframe
  | frame ↦ f.pts
]

-- An audio stream has no key frames to mark.
unfoldable pub audio_pts : ScrcpyFrame → ℕ
audio_pts f = elim f.type [
  | config ↦ bit_or f.pts pts_flag_config
  | keyframe ↦ f.pts
  | frame ↦ f.pts
]

abbrev with_header : ℕ → List ℕ → Result (List ℕ)
with_header pts payload = write_uint 8 pts >>= λ head.
    write_uint 4 (length payload) >>= λ size. ok ((head ++ size) ++ payload)

-- `sendChannel`: the message on the WebSocket, or none when that is not open.
unfoldable pub send_channel : Bool → ℕ → List ℕ → Option (List ℕ)
send_channel is_open channel payload = if is_open then some (channel ∷ payload) else none

unfoldable pub forward_video : Bool → ScrcpyFrame → Result (Option (List ℕ))
unfolding video_pts send_channel
forward_video is_open f = with_header (video_pts f) f.payload >>= λ message.
    ok (send_channel is_open video_channel message)

unfoldable pub forward_audio : Bool → ScrcpyFrame → Result (Option (List ℕ))
unfolding audio_pts send_channel
forward_audio is_open f = with_header (audio_pts f) f.payload >>= λ message.
    ok (send_channel is_open audio_channel message)

-- A chunk of the control socket goes to the browser as it is.
unfoldable pub forward_device_message : Bool → List ℕ → Option (List ℕ)
unfolding send_channel
forward_device_message is_open bytes = send_channel is_open device_msg_channel bytes

-- `onSocketMessage`: what is written to the control socket, which is given with its state.
unfoldable pub on_socket_message : Bool → List ℕ → Option (List ℕ)
on_socket_message control_socket_open [] = none
on_socket_message control_socket_open (channel ∷ payload) =
    if ltb (length (channel ∷ payload)) 2
    then none
    else if channel == control_channel && control_socket_open
    then some payload
    else none

-- `parseMetadata` of the video socket's first 80 bytes.
pub record VideoMetadata : Type 0 where
  pub device_name : List ℕ
  pub video_codec_id : ℕ
  pub screen_width : ℕ
  pub screen_height : ℕ

-- `deviceNameBytes.subarray(0, nullIdx === -1 ? 64 : nullIdx)`: up to the first zero byte.
unfoldable pub until_zero : List ℕ → List ℕ
until_zero [] = []
until_zero (b ∷ bs) = if b == 0 then [] else b ∷ until_zero bs

abbrev field : ℕ → List ℕ → ℕ
field offset bytes = be_value (take 4 (drop offset bytes))

unfoldable pub parse_video_metadata : List ℕ → Result VideoMetadata
unfolding until_zero
parse_video_metadata video_meta =
    if bit_and (field 68 video_meta) 0x8000_0000 == 0
    then throw plain_error
    else ok (record {
      device_name = until_zero (take 64 video_meta);
      video_codec_id = field 64 video_meta;
      screen_width = field 72 video_meta;
      screen_height = field 76 video_meta;
    })
