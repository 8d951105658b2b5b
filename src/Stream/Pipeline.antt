-- ===== src/Stream/Pipeline.antt =====
-- From the device to the player, and from the player to the device.
use Prim.Native.Nat.{bit_and, bit_or}
use proxmoxwhatsapp.Prelude.{
  ℕ, ◌+◌, ◌^◌, ◌<◌, ◌≡◌, refl, List, [], ◌∷◌, ◌++◌, length, take, arith, Bool, true, false, Option,
  none, some, length-append, take-append_left, drop-append_left, append_assoc, append-nil,
  if◌then◌else◌, lt→ltb, map, All, flatten, ap₂, Result, ok, ◌>>=◌,
}
use proxmoxwhatsapp.Prelude.Bits.{bit_and_mask, bit_and_flag, bit_or_above}
use proxmoxwhatsapp.Bytes.{be_bytes}
use proxmoxwhatsapp.Bytes.Laws.{length-be_bytes, be_value-be_bytes}
use proxmoxwhatsapp.Stream.FrameReader.{
  FrameType, config, keyframe, frame, ScrcpyFrame, has_flag, next_packet, new_frame_reader,
  on_chunks,
}
use proxmoxwhatsapp.Stream.FrameReader.Packets.{
  IsFrame, IsPacket, Packet, media, session, packet_bytes, packet_frames, on_chunks-packets,
}
use proxmoxwhatsapp.Stream.Forward.{video_pts, audio_pts, forward_video, forward_audio}
use proxmoxwhatsapp.Stream.Demuxer.{
  Delivery, video_frame, audio_frame, handle_media_frame, on_message, pts_clear_flags,
  pts_flag_config, pts_flag_keyframe,
}

abbrev pub is_config : FrameType → Bool
is_config config = true
is_config _ = false

abbrev pub is_keyframe : FrameType → Bool
is_keyframe keyframe = true
is_keyframe _ = false

-- The stamp with its flags, as a number.
abbrev flagged : FrameType → ℕ → ℕ
flagged config pts = pts + 2 ^ 63
flagged keyframe pts = pts + 2 ^ 62
flagged frame pts = pts

video_pts-flagged : (f : ScrcpyFrame) → f.pts < 2 ^ 61 → video_pts f ≡ flagged f.type f.pts
unfolding video_pts
video_pts-flagged f lt = by_type f.type f.pts lt
  where
    by_type :
        (t : FrameType) (pts : ℕ)
        → pts < 2 ^ 61
        → elim t as (λ _. ℕ) [
          | config ↦ bit_or pts pts_flag_config
          | keyframe ↦ bit_or pts pts_flag_keyframe
          | frame ↦ pts
        ]
          ≡ flagged t pts
    by_type config pts lt = bit_or_above 63 pts 1 (omega arith)
    by_type keyframe pts lt = bit_or_above 62 pts 1 (omega arith)
    by_type frame pts lt = refl

audio_pts-flagged :
    (f : ScrcpyFrame)
    → f.pts < 2 ^ 61
    → audio_pts f ≡ (if is_config f.type then f.pts + 2 ^ 63 else f.pts)
unfolding audio_pts
audio_pts-flagged f lt = by_type f.type f.pts lt
  where
    by_type :
        (t : FrameType) (pts : ℕ)
        → pts < 2 ^ 61
        → elim t as (λ _. ℕ) [ config ↦ bit_or pts pts_flag_config | keyframe ↦ pts | frame ↦ pts ]
          ≡ (if is_config t then pts + 2 ^ 63 else pts)
    by_type config pts lt = bit_or_above 63 pts 1 (omega arith)
    by_type keyframe pts lt = refl
    by_type frame pts lt = refl

flagged_lt : (t : FrameType) (pts : ℕ) → pts < 2 ^ 61 → flagged t pts < 2 ^ 64
flagged_lt config pts lt = omega arith
flagged_lt keyframe pts lt = omega arith
flagged_lt frame pts lt = omega arith

config_back :
    (t : FrameType) (pts : ℕ)
    → pts < 2 ^ 61
    → has_flag (flagged t pts) pts_flag_config ≡ is_config t
config_back config pts lt = ground (arith, bit_and_flag 63 (pts + 2 ^ 63))
config_back keyframe pts lt = ground (arith, bit_and_flag 63 (pts + 2 ^ 62))
config_back frame pts lt = ground (arith, bit_and_flag 63 pts)

keyframe_back :
    (t : FrameType) (pts : ℕ)
    → pts < 2 ^ 61
    → has_flag (flagged t pts) pts_flag_keyframe ≡ is_keyframe t
keyframe_back config pts lt = ground (arith, bit_and_flag 62 (pts + 2 ^ 63))
keyframe_back keyframe pts lt = ground (arith, bit_and_flag 62 (pts + 2 ^ 62))
keyframe_back frame pts lt = ground (arith, bit_and_flag 62 pts)

stamp_back :
    (t : FrameType) (pts : ℕ) → pts < 2 ^ 61 → bit_and (flagged t pts) pts_clear_flags ≡ pts
stamp_back config pts lt = ground (arith, bit_and_mask 62 (pts + 2 ^ 63))
stamp_back keyframe pts lt = ground (arith, bit_and_mask 62 (pts + 2 ^ 62))
stamp_back frame pts lt = ground (arith, bit_and_mask 62 pts)

-- The demuxer's cuts of a header with any stamp.
handle_message :
    (raw : ℕ) (payload : List ℕ) (is_video : Bool)
    → raw < 2 ^ 64
    → length payload < 2 ^ 32
    → handle_media_frame ((be_bytes 8 raw ++ be_bytes 4 (length payload)) ++ payload) is_video ≡ (
        if is_video
        then some (
            video_frame payload
              (bit_and raw pts_clear_flags)
              (has_flag raw pts_flag_config)
              (has_flag raw pts_flag_keyframe))
        else some
            (audio_frame payload (bit_and raw pts_clear_flags) (has_flag raw pts_flag_config)))
unfolding handle_media_frame
handle_message raw payload is_video fits sized =
    rw
      (
        append_assoc (be_bytes 8 raw) (be_bytes 4 (length payload)) payload,
        take-append_left 8 (be_bytes 8 raw) (be_bytes 4 (length payload) ++ payload)
            (length-be_bytes 8 raw),
        drop-append_left 8 (be_bytes 8 raw) (be_bytes 4 (length payload) ++ payload)
            (length-be_bytes 8 raw),
        take-append_left 4 (be_bytes 4 (length payload)) payload
            (length-be_bytes 4 (length payload)),
        be_value-be_bytes 8 raw fits,
        be_value-be_bytes 4 (length payload) sized,
        ← append_assoc (be_bytes 8 raw) (be_bytes 4 (length payload)) payload,
        drop-append_left 12 (be_bytes 8 raw ++ be_bytes 4 (length payload)) payload head_length,
        whole,
      )
      (ground
        (arith, length-append (be_bytes 8 raw ++ be_bytes 4 (length payload)) payload, head_length))
  where
    head_length : length (be_bytes 8 raw ++ be_bytes 4 (length payload)) ≡ 12
    head_length = omega (
      arith,
      length-append (be_bytes 8 raw) (be_bytes 4 (length payload)),
      length-be_bytes 8 raw,
      length-be_bytes 4 (length payload),
    )

    whole : take (length payload) payload ≡ payload
    whole = rw (append-nil payload) at (take-append_left (length payload) payload [] refl)

-- A video frame with a time stamp below 2^61 and a payload shorter than 2^32 that the server
-- forwards on an open WebSocket reaches the player with the same bytes and time stamp, and with the
-- flags of its type, although the two protocol versions put the flags at different bits.
pub forward_video-on_message :
    (f : ScrcpyFrame)
    → IsFrame f
    → (m : List ℕ) × (forward_video true f ≡ ok (some m))
      × (on_message m ≡ some (video_frame f.payload f.pts (is_config f.type) (is_keyframe f.type)))
unfolding forward_video on_message
forward_video-on_message f (pts_fits, sized) =
    let raw = flagged f.type f.pts in
    let fits = flagged_lt f.type f.pts pts_fits in
    (
      0 ∷ ((be_bytes 8 raw ++ be_bytes 4 (length f.payload)) ++ f.payload),
      rw (
        video_pts-flagged f pts_fits,
        lt→ltb raw (2 ^ 64) fits,
        lt→ltb (length f.payload) (2 ^ 32) sized,
      ),
      rw (
        handle_message raw f.payload true fits sized,
        stamp_back f.type f.pts pts_fits,
        config_back f.type f.pts pts_fits,
        keyframe_back f.type f.pts pts_fits,
      ),
    )

-- An audio frame with a time stamp below 2^61 and a payload shorter than 2^32 that the server
-- forwards on an open WebSocket reaches the player with the same bytes and time stamp, and is
-- marked as configuration exactly if it is.
pub forward_audio-on_message :
    (f : ScrcpyFrame)
    → IsFrame f
    → (m : List ℕ) × (forward_audio true f ≡ ok (some m))
      × (on_message m ≡ some (audio_frame f.payload f.pts (is_config f.type)))
unfolding forward_audio on_message
forward_audio-on_message f (pts_fits, sized) =
    let t = audio_type f.type in
    let raw = flagged t f.pts in
    let fits = flagged_lt t f.pts pts_fits in
    (
      1 ∷ ((be_bytes 8 raw ++ be_bytes 4 (length f.payload)) ++ f.payload),
      rw (
        audio_pts-flagged f pts_fits,
        as_type f.type,
        lt→ltb raw (2 ^ 64) fits,
        lt→ltb (length f.payload) (2 ^ 32) sized,
      ),
      rw (
        handle_message raw f.payload false fits sized,
        stamp_back t f.pts pts_fits,
        config_back t f.pts pts_fits,
        same_config f.type,
      ),
    )
  where
    audio_type : FrameType → FrameType
    audio_type config = config
    audio_type keyframe = frame
    audio_type frame = frame

    same_config : (t : FrameType) → is_config (audio_type t) ≡ is_config t
    same_config config = refl
    same_config keyframe = refl
    same_config frame = refl

    as_type :
        (t : FrameType)
        → (if is_config t then f.pts + 2 ^ 63 else f.pts) ≡ flagged (audio_type t) f.pts
    as_type config = refl
    as_type keyframe = refl
    as_type frame = refl

-- What the browser makes of a frame that the server forwards on an open WebSocket.
unfoldable pub relay_video : ScrcpyFrame → Result (Option Delivery)
relay_video f = forward_video true f >>= λ message. ok (delivery message)
  where
    delivery : Option (List ℕ) → Option Delivery
    delivery none = none
    delivery (some m) = on_message m

abbrev pub shown : ScrcpyFrame → Result (Option Delivery)
shown f = ok (some (video_frame f.payload f.pts (is_config f.type) (is_keyframe f.type)))

relay_video-shown : (f : ScrcpyFrame) → IsFrame f → relay_video f ≡ shown f
unfolding relay_video
relay_video-shown f h = let (m, sent, got) = forward_video-on_message f h in rw (sent, got)

relay_packets :
    (ps : List Packet)
    → All IsPacket ps
    → map relay_video (packet_frames ps) ≡ map shown (packet_frames ps)
relay_packets [] h = refl
relay_packets (media f ∷ ps) (hf, h) = ap₂ ◌∷◌ (relay_video-shown f hf) (relay_packets ps h)
relay_packets (session low height ∷ ps) (hf, h) = relay_packets ps h

-- Let the device send any packets (frames with time stamps below 2^61 and payloads shorter than
-- 2^32, and session packets), let the socket cut them into chunks anywhere, and let part of a
-- further packet follow. Then reading the chunks, forwarding each frame on an open WebSocket and
-- demultiplexing it in the browser gives exactly the frames of the media packets, in order, each
-- with its bytes, its time stamp and its type.
pub relay_video-on_chunks :
    (chunks : List (List ℕ)) (ps : List Packet) (tail : List ℕ)
    → All IsPacket ps
    → next_packet tail ≡ none
    → flatten chunks ≡ flatten (map packet_bytes ps) ++ tail
    → map relay_video (on_chunks new_frame_reader chunks).0 ≡ map shown (packet_frames ps)
relay_video-on_chunks chunks ps tail h e same =
    rw (on_chunks-packets chunks ps tail h e same) (relay_packets ps h)
