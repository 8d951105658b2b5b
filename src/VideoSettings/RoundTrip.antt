-- ===== src/VideoSettings/RoundTrip.antt =====
-- Settings whose fields fit their places are read back as they were written.
use proxmoxwhatsapp.Prelude.{
  ℕ, ◌+◌, ◌≡◌, ◌≢◌, refl, List, ◌++◌, length, arith, false, Option, none, some, ℤ, pos, negsuc,
  ◌≤ℤ◌, if◌then◌else◌, inl, ◌⊎◌, ◌↔◌,
}
use proxmoxwhatsapp.Text.{TextCodec, IsPlain}
use proxmoxwhatsapp.Bytes.Fields.{u8, u16, u32}
use proxmoxwhatsapp.Bytes.Laws.{IsInt}
use proxmoxwhatsapp.VideoSettings.{
  Rect, Size, Settings, VideoSettings, base_buffer_length, or_minus_one, new_video_settings,
  text_field, bounds_or_zero, crop_or_zero,
}

module _ (c : TextCodec) where
  -- The twelve fields of a fixed size.
  abbrev fixed_fields : VideoSettings c → List ℕ
  fixed_fields v =
      let size = bounds_or_zero c v.bounds in
      let rect = crop_or_zero c v.crop in
      u32 v.bitrate
      ++ u32 v.max_fps
      ++ u8 v.i_frame_interval
      ++ u16 size.width
      ++ u16 size.height
      ++ u16 rect.left
      ++ u16 rect.top
      ++ u16 rect.right
      ++ u16 rect.bottom
      ++ u8 (if v.send_frame_meta then pos 1 else pos 0)
      ++ u8 v.locked_video_orientation
      ++ u32 v.display_id

  -- A text that the wire can carry: not "", already trimmed, of a length that fits, with no
  -- lone surrogate and no leading U+FEFF.
  abbrev pub TextFits : Option c.Text → Type 0
  TextFits none = Unit
  TextFits (some t) =
      (c.is_empty t ≡ false) × (c.trim t ≡ t) × IsInt 4 (pos (length (c.encode t))) × IsPlain c t

  abbrev pub BoundsFit : Option Size → Type 0
  BoundsFit none = Unit
  BoundsFit (some s) = IsInt 2 s.width × IsInt 2 s.height × (s.width ≢ pos 0) × (s.height ≢ pos 0)

  abbrev pub CropFits : Option Rect → Type 0
  CropFits none = Unit
  CropFits (some r) =
      IsInt 2 r.left
      × IsInt 2 r.top
      × IsInt 2 r.right
      × IsInt 2 r.bottom
      × (r ≢ record { left = pos 0; top = pos 0; right = pos 0; bottom = pos 0 })

  -- Settings that their 35 bytes and texts can carry. A locked orientation of 0 cannot: the
  -- constructor turns it into -1.
  pub record IsCarried (v : VideoSettings c) : Type 0 where
    pub bitrate : IsInt 4 v.bitrate
    pub max_fps : IsInt 4 v.max_fps
    pub i_frame_interval : IsInt 1 v.i_frame_interval
    pub bounds : BoundsFit v.bounds
    pub crop : CropFits v.crop
    pub locked : IsInt 1 v.locked_video_orientation
    pub locked_set : v.locked_video_orientation ≢ pos 0
    pub display : IsInt 4 v.display_id
    pub display_sign : pos 0 ≤ℤ v.display_id
    pub codec_options : TextFits v.codec_options
    pub encoder_name : TextFits v.encoder_name

  abbrev whole_length : VideoSettings c → ℕ
  whole_length v =
      base_buffer_length
      + (length (text_field c v.codec_options) + length (text_field c v.encoder_name))

  -- The constructor's locked orientation is -1, unlocked, exactly when the settings give none, or
  -- -1, or 0: a lock to the natural orientation is lost.
  pub new_video_settings-orientation :
      (s : Settings c) (n : ℕ)
      → ((new_video_settings c s n).locked_video_orientation ≡ negsuc 0) ↔ (
          (s.locked_video_orientation ≡ none)
          ⊎ ((s.locked_video_orientation ≡ some (pos 0))
              ⊎ (s.locked_video_orientation ≡ some (negsuc 0))))
  unfolding new_video_settings
  new_video_settings-orientation s n = orientation s.locked_video_orientation
    where
      orientation :
          (o : Option ℤ)
          → (or_minus_one c o ≡ negsuc 0)
            ↔ ((o ≡ none) ⊎ ((o ≡ some (pos 0)) ⊎ (o ≡ some (negsuc 0))))
      orientation none = (λ e. inl refl, λ e. refl)
      orientation (some z) = ground arith
