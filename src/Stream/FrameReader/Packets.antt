-- ===== src/Stream/FrameReader/Packets.antt =====
-- The device's side of the stream, from the comments of FrameReader.ts: media packets with their
-- flags, and session packets. The reader gives back the frames that were put in.
use Prim.Native.Nat.{bit_and}
use proxmoxwhatsapp.Prelude.{
  ℕ, zero, suc, ◌+◌, ◌*◌, ◌/◌, ◌%◌, ◌^◌, ◌≤◌, ◌<◌, ◌≡◌, refl, ap, ◌∙◌, List, [], ◌∷◌, ◌++◌, length,
  take, drop, arith, true, false, Option, none, some, length-append, take-append_left,
  drop-append_left, append_assoc, ◌==◌, not, flatten, All, map,
}
use proxmoxwhatsapp.Prelude.Bits.{bit_and_mask, bit_and_flag}
use proxmoxwhatsapp.Bytes.{be_bytes}
use proxmoxwhatsapp.Bytes.Laws.{length-be_bytes, be_value-be_bytes}
use proxmoxwhatsapp.Stream.FrameReader.{
  FrameType, config, keyframe, frame, ScrcpyFrame, next_packet, cons?, drain, new_frame_reader,
  on_data, on_chunks, has_flag, packet_flag_session, pts_clear_flags, frame_type,
}
use proxmoxwhatsapp.Stream.FrameReader.Chunks.{
  drain_all, drain_goes, drain_stops, on_chunks-flatten, listens, heard,
}

abbrev pub type_flag : FrameType → ℕ
type_flag config = 2 ^ 62
type_flag keyframe = 2 ^ 61
type_flag frame = 0

-- A packet of the device: a frame, or a session packet whose first 8 bytes are 2 ^ 63 + `low`.
pub data Packet : Type 0 where
  media : ScrcpyFrame → Packet
  session : ℕ → ℕ → Packet

abbrev media_header : ScrcpyFrame → List ℕ
media_header f = be_bytes 8 (type_flag f.type + f.pts) ++ be_bytes 4 (length f.payload)

unfoldable pub packet_bytes : Packet → List ℕ
packet_bytes (media f) = media_header f ++ f.payload
packet_bytes (session low height) = be_bytes 8 (2 ^ 63 + low) ++ be_bytes 4 height

abbrev pub packet_frame : Packet → Option ScrcpyFrame
packet_frame (media f) = some f
packet_frame (session low height) = none

abbrev pub packet_frames : List Packet → List ScrcpyFrame
packet_frames [] = []
packet_frames (p ∷ ps) = cons? (packet_frame p) (packet_frames ps)

-- A time stamp has 61 bits, and a payload a length of 32 bits.
abbrev pub IsFrame : ScrcpyFrame → Type 0
IsFrame f = (f.pts < 2 ^ 61) × (length f.payload < 2 ^ 32)

abbrev pub IsPacket : Packet → Type 0
IsPacket (media f) = IsFrame f
IsPacket (session low height) = (low < 2 ^ 63) × (height < 2 ^ 32)

-- A flag of a 64-bit header is a binary digit of it.
has_flag_digit : (k h : ℕ) → has_flag h (2 ^ k) ≡ not (h / 2 ^ k % 2 * 2 ^ k == 0)
has_flag_digit k h = rw (bit_and_flag k h)

no_session : (h : ℕ) → h < 2 ^ 63 → has_flag h packet_flag_session ≡ false
no_session h lt = ground (arith, bit_and_flag 63 h)

is_session : (low : ℕ) → low < 2 ^ 63 → has_flag (2 ^ 63 + low) packet_flag_session ≡ true
is_session low lt = ground (arith, bit_and_flag 63 (2 ^ 63 + low))

frame_type_back : (t : FrameType) (pts : ℕ) → pts < 2 ^ 61 → frame_type (type_flag t + pts) ≡ t
unfolding frame_type
frame_type_back config pts lt = ground (arith, bit_and_flag 62 (2 ^ 62 + pts))
frame_type_back keyframe pts lt =
    ground (arith, bit_and_flag 62 (2 ^ 61 + pts), bit_and_flag 61 (2 ^ 61 + pts))
frame_type_back frame pts lt = ground (arith, bit_and_flag 62 (0 + pts), bit_and_flag 61 (0 + pts))

pts_back :
    (t : FrameType) (pts : ℕ) → pts < 2 ^ 61 → bit_and (type_flag t + pts) pts_clear_flags ≡ pts
pts_back config pts lt = ground (arith, bit_and_mask 61 (2 ^ 62 + pts))
pts_back keyframe pts lt = ground (arith, bit_and_mask 61 (2 ^ 61 + pts))
pts_back frame pts lt = ground (arith, bit_and_mask 61 (0 + pts))

type_flag_lt : (t : FrameType) → type_flag t ≤ 2 ^ 62
type_flag_lt config = omega arith
type_flag_lt keyframe = omega arith
type_flag_lt frame = omega arith

-- The reader's cuts of a buffer that begins with a header of 8 and 4 bytes.
module _ (raw size : ℕ) (payload rest : List ℕ) (sized : length payload ≡ size)
    (raw_fits : raw < 2 ^ 64) (size_fits : size < 2 ^ 32) where
  abbrev header : List ℕ
  header = be_bytes 8 raw ++ be_bytes 4 size

  length-header : length header ≡ 12
  length-header = omega (
    arith,
    length-append (be_bytes 8 raw) (be_bytes 4 size),
    length-be_bytes 8 raw,
    length-be_bytes 4 size,
  )

  cut_raw : take 8 (header ++ (payload ++ rest)) ≡ be_bytes 8 raw
  cut_raw =
      rw (append_assoc (be_bytes 8 raw) (be_bytes 4 size) (payload ++ rest))
        (take-append_left 8 (be_bytes 8 raw) _ (length-be_bytes 8 raw))

  cut_size : take 4 (drop 8 (header ++ (payload ++ rest))) ≡ be_bytes 4 size
  cut_size =
      rw
        (
          append_assoc (be_bytes 8 raw) (be_bytes 4 size) (payload ++ rest),
          drop-append_left 8 (be_bytes 8 raw) (be_bytes 4 size ++ (payload ++ rest))
              (length-be_bytes 8 raw),
        )
        (take-append_left 4 (be_bytes 4 size) _ (length-be_bytes 4 size))

  cut_payload : take size (drop 12 (header ++ (payload ++ rest))) ≡ payload
  cut_payload =
      rw (drop-append_left 12 header (payload ++ rest) length-header)
        (take-append_left size payload rest sized)

  cut_rest : drop (12 + size) (header ++ (payload ++ rest)) ≡ rest
  cut_rest = rw (← append_assoc header payload rest) (
      drop-append_left (12 + size) (header ++ payload) rest
        (omega (arith, length-append header payload, length-header)))

  whole_length : length (header ++ (payload ++ rest)) ≡ 12 + size + length rest
  whole_length =
      omega
        (arith, length-append header (payload ++ rest), length-append payload rest, length-header)

  next_packet_media :
      has_flag raw packet_flag_session ≡ false
      → next_packet (header ++ (payload ++ rest))
        ≡ some (
          some (record {
            type = frame_type raw;
            pts = bit_and raw pts_clear_flags;
            payload = payload;
          }),
          rest,
        )
  unfolding next_packet
  next_packet_media clear =
      rw
        (
          cut_raw,
          cut_size,
          be_value-be_bytes 8 raw raw_fits,
          be_value-be_bytes 4 size size_fits,
          cut_payload,
          cut_rest,
        )
        (ground (arith, whole_length))

session_header_length : (raw height : ℕ) → length (be_bytes 8 raw ++ be_bytes 4 height) ≡ 12
session_header_length raw height = omega (
  arith,
  length-append (be_bytes 8 raw) (be_bytes 4 height),
  length-be_bytes 8 raw,
  length-be_bytes 4 height,
)

next_packet_session :
    (raw height : ℕ) (rest : List ℕ)
    → raw < 2 ^ 64
    → has_flag raw packet_flag_session ≡ true
    → next_packet ((be_bytes 8 raw ++ be_bytes 4 height) ++ rest) ≡ some (none, rest)
unfolding next_packet
next_packet_session raw height rest fits flag =
    rw
      (
        append_assoc (be_bytes 8 raw) (be_bytes 4 height) rest,
        take-append_left 8 (be_bytes 8 raw) (be_bytes 4 height ++ rest) (length-be_bytes 8 raw),
        be_value-be_bytes 8 raw fits,
        ← append_assoc (be_bytes 8 raw) (be_bytes 4 height) rest,
        drop-append_left 12 (be_bytes 8 raw ++ be_bytes 4 height) rest
            (session_header_length raw height),
      )
      (ground (
        arith,
        length-append (be_bytes 8 raw ++ be_bytes 4 height) rest,
        session_header_length raw height,
      ))

next_packet-packet_bytes :
    (p : Packet) (rest : List ℕ)
    → IsPacket p
    → next_packet (packet_bytes p ++ rest) ≡ some (packet_frame p, rest)
unfolding packet_bytes
next_packet-packet_bytes (media f) rest (pts_fits, size_fits) =
    let raw = type_flag f.type + f.pts in
    let fits : raw < 2 ^ 63 = omega (arith, type_flag_lt f.type) in
    rw (append_assoc (be_bytes 8 raw ++ be_bytes 4 (length f.payload)) f.payload rest) (
      next_packet_media raw (length f.payload) f.payload rest refl (omega arith) size_fits
        (no_session raw fits)
      ∙ ap (λ g. some (some g, rest))
          (λ i. record {
            type = frame_type_back f.type f.pts pts_fits i;
            pts = pts_back f.type f.pts pts_fits i;
            payload = f.payload;
          }))
next_packet-packet_bytes (session low height) rest (low_fits, height_fits) =
    next_packet_session (2 ^ 63 + low) height rest (omega arith) (is_session low low_fits)

length-packet_bytes : (p : Packet) → 12 ≤ length (packet_bytes p)
unfolding packet_bytes
length-packet_bytes (media f) = omega (
  arith,
  length-append (media_header f) f.payload,
  session_header_length (type_flag f.type + f.pts) (length f.payload),
)
length-packet_bytes (session low height) =
    omega (arith, session_header_length (2 ^ 63 + low) height)

-- Whole packets, and behind them what is not yet a packet.
drain_packets :
    (n : ℕ) (ps : List Packet) (tail : List ℕ)
    → All IsPacket ps
    → next_packet tail ≡ none
    → length (flatten (map packet_bytes ps) ++ tail) ≤ n
    → drain n (flatten (map packet_bytes ps) ++ tail) ≡ (packet_frames ps, tail)
drain_packets n [] tail h e k = drain_stops n tail e
drain_packets zero (p ∷ ps) tail h e k =
    absurd (omega (arith, length-append {0}, length-packet_bytes p))
drain_packets (suc n) (p ∷ ps) tail (hp, hs) e k =
    let more = flatten (map packet_bytes ps) ++ tail in
    rw (append_assoc (packet_bytes p) (flatten (map packet_bytes ps)) tail) (
      drain_goes n (packet_bytes p ++ more) (packet_frame p) more
        (next_packet-packet_bytes p more hp)
      ∙ rw (drain_packets n ps tail hs e (omega (arith, length-append {0}, length-packet_bytes p))))

-- For a device's stream of packets whose fields fit their places, cut into chunks anywhere and
-- followed by part of a packet that is still to come, the frame callback sees exactly the frames of
-- the media packets, in order, and the reader keeps the bytes of the unfinished packet.
pub on_chunks-packets :
    (chunks : List (List ℕ)) (ps : List Packet) (tail : List ℕ)
    → All IsPacket ps
    → next_packet tail ≡ none
    → flatten chunks ≡ flatten (map packet_bytes ps) ++ tail
    → on_chunks new_frame_reader chunks ≡ (packet_frames ps, listens tail)
unfolding on_data new_frame_reader
on_chunks-packets chunks ps tail h e same =
    on_chunks-flatten chunks
    ∙ ap (λ b. heard (drain_all b)) same
    ∙ ap heard (drain_packets _ ps tail h e (omega arith))
