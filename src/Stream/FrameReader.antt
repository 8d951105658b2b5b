-- ===== src/Stream/FrameReader.antt =====
-- server/FrameReader.ts. A `Buffer` is the list of its bytes; `subarray` is `take` and `drop`.
pub mod Chunks
pub mod Packets
use Prim.Native.Nat.{bit_and}
use proxmoxwhatsapp.Prelude.{
  ℕ, zero, suc, ◌+◌, ◌^◌, ◌-◌, List, [], ◌∷◌, ◌++◌, length, take, drop, Bool, true, false, not,
  Option, none, some, if◌then◌else◌, ltb, ◌==◌,
}
use proxmoxwhatsapp.Bytes.{be_value}

abbrev pub packet_flag_session : ℕ
packet_flag_session = 0x8000_0000_0000_0000

abbrev pub pts_flag_config : ℕ
pts_flag_config = 0x4000_0000_0000_0000

abbrev pub pts_flag_keyframe : ℕ
pts_flag_keyframe = 0x2000_0000_0000_0000

abbrev pub pts_clear_flags : ℕ
pts_clear_flags = 0x1fff_ffff_ffff_ffff

abbrev pub header_size : ℕ
header_size = 12

pub data FrameType : Type 0 where
  config keyframe frame : FrameType

pub record ScrcpyFrame : Type 0 where
  pub type : FrameType
  pub pts : ℕ
  pub payload : List ℕ

-- Bits `mask` of the header are not all clear.
abbrev pub has_flag : ℕ → ℕ → Bool
has_flag header mask = not (bit_and header mask == 0)

unfoldable pub frame_type : ℕ → FrameType
frame_type raw_header =
    if has_flag raw_header pts_flag_config
    then config
    else if has_flag raw_header pts_flag_keyframe
    then keyframe
    else frame

-- One round of the loop in `drain`: `none` where it stops for want of bytes, else the frame (none for
-- a session packet) and the rest of the buffer.
unfoldable pub next_packet : List ℕ → Option (Option ScrcpyFrame × List ℕ)
next_packet buffer =
    let raw_header = be_value (take 8 buffer) in
    let size = be_value (take 4 (drop 8 buffer)) in
    let total_size = header_size + size in
    if ltb (length buffer) header_size
    then none
    else if has_flag raw_header packet_flag_session
    then some (none, drop header_size buffer)
    else if ltb (length buffer) total_size
    then none
    else some (
      some (record {
        type = frame_type raw_header;
        pts = bit_and raw_header pts_clear_flags;
        payload = take size (drop header_size buffer);
      }),
      drop total_size buffer,
    )

abbrev pub cons? {ℓ} : {A : Type ℓ} → Option A → List A → List A
cons? none xs = xs
cons? (some x) xs = x ∷ xs

-- `drain`: the frames handed to the callback, in order, and the bytes that stay. A round takes 12
-- bytes at least, so the length of the buffer is fuel enough.
unfoldable pub drain : ℕ → List ℕ → List ScrcpyFrame × List ℕ
drain zero buffer = ([], buffer)
drain (suc fuel) buffer = elim (next_packet buffer) [
  | none ↦ ([], buffer)
  | some (found, rest) ↦ (cons? found (drain fuel rest).0, (drain fuel rest).1)
]

pub record FrameReader : Type 0 where
  pub buffer : List ℕ
  -- Whether `frameCallback` is set and the socket's 'data' event still reaches `onData`.
  pub frame_callback : Bool
  pub listening : Bool

unfoldable pub new_frame_reader : FrameReader
new_frame_reader = record { buffer = []; frame_callback = true; listening = true }

-- A chunk from the socket: the frames that the callback sees, and the new state.
unfoldable pub on_data : FrameReader → List ℕ → List ScrcpyFrame × FrameReader
on_data r chunk =
    let buffer = r.buffer ++ chunk in
    let (frames, rest) = drain (length buffer) buffer in
    if r.listening
    then (if r.frame_callback then frames else [], record r { buffer = rest })
    else ([], r)

unfoldable pub destroy : FrameReader → FrameReader
destroy r = record r { frame_callback = false; listening = false }

-- A run of chunks.
unfoldable pub on_chunks : FrameReader → List (List ℕ) → List ScrcpyFrame × FrameReader
on_chunks r [] = ([], r)
on_chunks r (chunk ∷ chunks) =
    let (frames, r') = on_data r chunk in
    let (more, last) = on_chunks r' chunks in (frames ++ more, last)
