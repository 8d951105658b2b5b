-- ===== src/Stream/Demuxer.antt =====
-- app/ScrcpyDemuxer.ts: the browser's end of the WebSocket.
use Prim.Native.Nat.{bit_and}
use proxmoxwhatsapp.Prelude.{
  ℕ, List, [], ◌∷◌, ◌++◌, length, take, drop, Bool, true, false, Option, none, some, ltb, ◌==◌,
  if◌then◌else◌,
}
use proxmoxwhatsapp.Bytes.{be_value}
use proxmoxwhatsapp.Stream.FrameReader.{has_flag}
use proxmoxwhatsapp.Stream.Forward.{
  video_channel, audio_channel, control_channel, device_msg_channel, metadata_channel,
}

abbrev pub frame_header_size : ℕ
frame_header_size = 12

abbrev pub pts_flag_config : ℕ
pts_flag_config = 0x8000_0000_0000_0000

abbrev pub pts_flag_keyframe : ℕ
pts_flag_keyframe = 0x4000_0000_0000_0000

abbrev pub pts_clear_flags : ℕ
pts_clear_flags = 0x3fff_ffff_ffff_ffff

-- The call of a callback that a message leads to. The metadata callback gets what `JSON.parse` makes
-- of the bytes.
pub data Delivery : Type 0 where
  -- data, pts, isConfig, isKeyframe
  video_frame : List ℕ → ℕ → Bool → Bool → Delivery
  -- data, pts, isConfig
  audio_frame : List ℕ → ℕ → Bool → Delivery
  device_message : List ℕ → Delivery
  metadata : List ℕ → Delivery

unfoldable pub handle_media_frame : List ℕ → Bool → Option Delivery
handle_media_frame payload is_video =
    let raw_pts = be_value (take 8 payload) in
    let size = be_value (take 4 (drop 8 payload)) in
    let bytes = take size (drop frame_header_size payload) in
    let is_config = has_flag raw_pts pts_flag_config in
    let is_keyframe = has_flag raw_pts pts_flag_keyframe in
    let pts = bit_and raw_pts pts_clear_flags in
    if ltb (length payload) frame_header_size
    then none
    else if is_video
    then some (video_frame bytes pts is_config is_keyframe)
    else some (audio_frame bytes pts is_config)

unfoldable pub on_message : List ℕ → Option Delivery
on_message [] = none
on_message (channel ∷ payload) =
    if channel == video_channel
    then handle_media_frame payload true
    else if channel == audio_channel
    then handle_media_frame payload false
    else if channel == device_msg_channel
    then some (device_message payload)
    else if channel == metadata_channel
    then some (metadata payload)
    else none

-- `ws.readyState`
pub data ReadyState : Type 0 where
  connecting is_open closing closed : ReadyState

-- The sending side: the socket's state, what it has been handed, and `pendingControl`.
pub record Demuxer : Type 0 where
  pub ready_state : ReadyState
  pub sent : List (List ℕ)
  pub pending_control : List (List ℕ)

unfoldable pub new_demuxer : Demuxer
new_demuxer = record { ready_state = connecting; sent = []; pending_control = [] }

-- The argument is `message.toUint8Array()`.
unfoldable pub send_control : List ℕ → Demuxer → Demuxer
send_control payload d =
    let message = control_channel ∷ payload in
    elim d.ready_state [
      | is_open ↦ record d { sent = d.sent ++ message ∷ [] }
      | _ ↦ record d { pending_control = d.pending_control ++ message ∷ [] }
    ]

-- The socket opens, and `onopen` flushes what has waited.
unfoldable pub flush_pending : Demuxer → Demuxer
flush_pending d = record d { sent = d.sent ++ d.pending_control; pending_control = [] }

unfoldable pub on_open : Demuxer → Demuxer
unfolding flush_pending
on_open d = flush_pending (record d { ready_state = is_open })

unfoldable pub close : Demuxer → Demuxer
close d = elim d.ready_state [
  | connecting ↦ record d { ready_state = closing }
  | is_open ↦ record d { ready_state = closing }
  | _ ↦ d
]
