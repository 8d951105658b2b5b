-- ===== src/VideoSettings.antt =====
-- app/VideoSettings.ts, with app/Rect.ts and app/Size.ts: the stream's settings and their bytes.
pub mod RoundTrip
mod Tests
use proxmoxwhatsapp.Prelude.{
  ℕ, ◌+◌, List, [], length, Bool, true, false, not, ◌&&◌, ◌||◌, Option, none, some, if◌then◌else◌,
  ℤ, pos, negsuc, eqb_ℤ, leb_ℤ, Result, ok, ◌>>=◌,
}
use proxmoxwhatsapp.Text.{TextCodec}
use proxmoxwhatsapp.Reader.{
  Reader, Read, new_reader, read_int8, read_int16_be, read_int32_be, read_bytes_of,
}
use proxmoxwhatsapp.Writer.{
  Write, write_int8, write_int16_be, write_int32_be, write_bytes, ◌▹◌, written,
}

pub record Rect : Type 0 where
  pub left : ℤ
  pub top : ℤ
  pub right : ℤ
  pub bottom : ℤ

pub record Size : Type 0 where
  pub width : ℤ
  pub height : ℤ

abbrev pub base_buffer_length : ℕ
base_buffer_length = 35

abbrev pub is_zero : ℤ → Bool
is_zero z = eqb_ℤ z (pos 0)

module _ (c : TextCodec) where
  -- The interface `Settings`, whose optional fields may be undefined.
  pub record Settings : Type 0 where
    pub crop : Option Rect
    pub bitrate : ℤ
    pub bounds : Option Size
    pub max_fps : ℤ
    pub i_frame_interval : ℤ
    pub send_frame_meta : Option Bool
    pub locked_video_orientation : Option ℤ
    pub display_id : Option ℤ
    pub codec_options : Option c.Text
    pub encoder_name : Option c.Text

  pub record VideoSettings : Type 0 where
    pub crop : Option Rect
    pub bitrate : ℤ
    pub bounds : Option Size
    pub max_fps : ℤ
    pub i_frame_interval : ℤ
    pub send_frame_meta : Bool
    pub locked_video_orientation : ℤ
    pub display_id : ℤ
    pub codec_options : Option c.Text
    pub encoder_name : Option c.Text
    pub bytes_length : ℕ

  -- `x || false` and `x || -1`: undefined and 0 are falsy.
  abbrev pub or_false : Option Bool → Bool
  or_false none = false
  or_false (some b) = b

  abbrev pub or_minus_one : Option ℤ → ℤ
  or_minus_one none = negsuc 0
  or_minus_one (some z) = if is_zero z then negsuc 0 else z

  abbrev pub display_or_zero : Option ℤ → ℤ
  display_or_zero none = pos 0
  display_or_zero (some z) = if leb_ℤ (pos 0) z then z else pos 0

  -- `if (text) this.text = text.trim()`
  abbrev pub trimmed : Option c.Text → Option c.Text
  trimmed none = none
  trimmed (some t) = if c.is_empty t then none else some (c.trim t)

  unfoldable pub new_video_settings : Settings → ℕ → VideoSettings
  new_video_settings s bytes_length = record {
    crop = s.crop;
    bitrate = s.bitrate;
    bounds = s.bounds;
    max_fps = s.max_fps;
    i_frame_interval = s.i_frame_interval;
    send_frame_meta = or_false s.send_frame_meta;
    locked_video_orientation = or_minus_one s.locked_video_orientation;
    display_id = display_or_zero s.display_id;
    codec_options = trimmed s.codec_options;
    encoder_name = trimmed s.encoder_name;
    bytes_length = bytes_length;
  }

  -- The bytes of an optional text: none when it is undefined or "".
  unfoldable pub text_field : Option c.Text → List ℕ
  text_field none = []
  text_field (some t) = if c.is_empty t then [] else c.encode t

  -- The length and the bytes, or a length of 0 when there are none.
  unfoldable pub write_text : Option c.Text → Write
  write_text none = write_int32_be (pos 0)
  write_text (some t) =
      if c.is_empty t
      then write_int32_be (pos 0)
      else write_int32_be (pos (length (c.encode t))) ▹ write_bytes (c.encode t)

  -- `{ width = 0, height = 0 } = this.bounds || {}`
  abbrev pub bounds_or_zero : Option Size → Size
  bounds_or_zero none = record { width = pos 0; height = pos 0 }
  bounds_or_zero (some s) = s

  abbrev pub crop_or_zero : Option Rect → Rect
  crop_or_zero none = record { left = pos 0; top = pos 0; right = pos 0; bottom = pos 0 }
  crop_or_zero (some r) = r

  unfoldable pub to_uint8_array : VideoSettings → Result (List ℕ)
  to_uint8_array v =
      let size = bounds_or_zero v.bounds in
      let rect = crop_or_zero v.crop in
      written
        (base_buffer_length
          + (length (text_field v.codec_options) + length (text_field v.encoder_name)))
        (write_int32_be v.bitrate
          ▹ write_int32_be v.max_fps
          ▹ write_int8 v.i_frame_interval
          ▹ write_int16_be size.width
          ▹ write_int16_be size.height
          ▹ write_int16_be rect.left
          ▹ write_int16_be rect.top
          ▹ write_int16_be rect.right
          ▹ write_int16_be rect.bottom
          ▹ write_int8 (if v.send_frame_meta then pos 1 else pos 0)
          ▹ write_int8 v.locked_video_orientation
          ▹ write_int32_be v.display_id
          ▹ write_text v.codec_options
          ▹ write_text v.encoder_name)

  -- A length, and the text of so many bytes unless it is 0.
  unfoldable pub read_text : Read (Option c.Text)
  read_text r = do
    (n, r) ← read_int32_be r
    let none_read = ok (none, r)
    let some_read = read_bytes_of n r >>= λ t. ok (some (c.decode t.0), t.1)
    if is_zero n then none_read else some_read

  abbrev pub bounds_of : ℤ → ℤ → Option Size
  bounds_of width height =
      if not (is_zero width) && not (is_zero height)
      then some (record { width = width; height = height })
      else none

  abbrev pub crop_of : ℤ → ℤ → ℤ → ℤ → Option Rect
  crop_of left top right bottom =
      if not (is_zero left) || (not (is_zero top) || (not (is_zero right) || not (is_zero bottom)))
      then some (record { left = left; top = top; right = right; bottom = bottom })
      else none

  unfoldable pub from_uint8_array : List ℕ → Result VideoSettings
  unfolding new_video_settings
  from_uint8_array bytes = do
    (bitrate, r) ← read_int32_be (new_reader bytes 0)
    (max_fps, r) ← read_int32_be r
    (i_frame_interval, r) ← read_int8 r
    (width, r) ← read_int16_be r
    (height, r) ← read_int16_be r
    (left, r) ← read_int16_be r
    (top, r) ← read_int16_be r
    (right, r) ← read_int16_be r
    (bottom, r) ← read_int16_be r
    (send_frame_meta, r) ← read_int8 r
    (locked_video_orientation, r) ← read_int8 r
    (display_id, r) ← read_int32_be r
    (codec_options, r) ← read_text r
    (encoder_name, r) ← read_text r
    ok (
        new_video_settings
          (record {
            crop = crop_of left top right bottom;
            bitrate = bitrate;
            bounds = bounds_of width height;
            max_fps = max_fps;
            i_frame_interval = i_frame_interval;
            send_frame_meta = some (not (is_zero send_frame_meta));
            locked_video_orientation = some locked_video_orientation;
            display_id = some display_id;
            codec_options = codec_options;
            encoder_name = encoder_name;
          })
          r.offset)
