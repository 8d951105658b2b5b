-- ===== src/VideoSettings/Tests.antt =====
-- Settings with every field given.
use proxmoxwhatsapp.Prelude.{◌≡◌, ◌↔◌, ◌⊎◌, [], ◌∷◌, true, none, some, pos, negsuc}
use proxmoxwhatsapp.Text.{byte_text}
use proxmoxwhatsapp.VideoSettings.{VideoSettings, Settings, new_video_settings}
use proxmoxwhatsapp.VideoSettings.RoundTrip.{new_video_settings-orientation}

abbrev settings : VideoSettings byte_text
settings = record {
  crop = some (record { left = pos 1; top = pos 2; right = pos 30; bottom = pos 40 });
  bitrate = pos 8000000;
  bounds = some (record { width = pos 1280; height = pos 720 });
  max_fps = pos 60;
  i_frame_interval = pos 10;
  send_frame_meta = true;
  locked_video_orientation = pos 1;
  display_id = pos 0;
  codec_options = none;
  encoder_name = some (97 ∷ (98 ∷ []));
  bytes_length = 0;
}

abbrev natural : Settings byte_text
natural = record {
  crop = none;
  bitrate = pos 1;
  bounds = none;
  max_fps = pos 1;
  i_frame_interval = pos 1;
  send_frame_meta = none;
  locked_video_orientation = some (pos 0);
  display_id = none;
  codec_options = none;
  encoder_name = none;
}

new_video_settings-orientation_example :
    ((new_video_settings byte_text natural 0).locked_video_orientation ≡ negsuc 0) ↔ (
      (natural.locked_video_orientation ≡ none)
      ⊎ ((natural.locked_video_orientation ≡ some (pos 0))
          ⊎ (natural.locked_video_orientation ≡ some (negsuc 0))))
new_video_settings-orientation_example = new_video_settings-orientation byte_text natural 0
