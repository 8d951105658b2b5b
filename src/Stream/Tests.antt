-- ===== src/Stream/Tests.antt =====
-- Runs of the video path at concrete inputs.
use proxmoxwhatsapp.Prelude.{ℕ, ◌≡◌, refl, List, [], ◌∷◌, ◌++◌, flatten, map, arith}
use proxmoxwhatsapp.Bytes.{be_bytes}
use proxmoxwhatsapp.Stream.FrameReader.{
  config, keyframe, ScrcpyFrame, new_frame_reader, on_data, on_chunks,
}
use proxmoxwhatsapp.Stream.FrameReader.Chunks.{on_chunks-flatten, next_packet_short, listens}
use proxmoxwhatsapp.Stream.FrameReader.Packets.{
  Packet, media, session, packet_bytes, on_chunks-packets,
}
use proxmoxwhatsapp.Stream.Demuxer.{is_open, new_demuxer, on_open}
use proxmoxwhatsapp.Stream.Pipeline.{relay_video, shown, relay_video-on_chunks}
use proxmoxwhatsapp.Stream.ControlChannel.{send_all, send_all-on_open}

abbrev key : ScrcpyFrame
key = record { type = keyframe; pts = 40; payload = 9 ∷ (8 ∷ []) }

abbrev head : ScrcpyFrame
head = record { type = config; pts = 0; payload = 7 ∷ [] }

abbrev stream : List Packet
stream = media head ∷ (session 1 1080 ∷ (media key ∷ []))

abbrev in_two : List (List ℕ)
in_two =
    (packet_bytes (media head) ++ (128 ∷ []))
    ∷ ((0 ∷ (0 ∷ (0 ∷ (0 ∷ (0 ∷ (0 ∷ (1 ∷ (0 ∷ (0 ∷ (4 ∷ (56 ∷ [])))))))))))
        ∷ (packet_bytes (media key) ∷ ((0 ∷ []) ∷ [])))

relay_video-on_chunks_example :
    map relay_video (on_chunks new_frame_reader in_two).0 ≡ map shown (head ∷ (key ∷ []))
unfolding packet_bytes be_bytes
relay_video-on_chunks_example =
    relay_video-on_chunks in_two stream (0 ∷ [])
      ((omega arith, omega arith), ((omega arith, omega arith), ((omega arith, omega arith), tt)))
      (next_packet_short (0 ∷ []) (omega arith)) refl

on_chunks-packets_example :
    on_chunks new_frame_reader in_two ≡ (head ∷ (key ∷ []), listens (0 ∷ []))
unfolding packet_bytes be_bytes
on_chunks-packets_example =
    on_chunks-packets in_two stream (0 ∷ [])
      ((omega arith, omega arith), ((omega arith, omega arith), ((omega arith, omega arith), tt)))
      (next_packet_short (0 ∷ []) (omega arith)) refl

on_chunks-flatten_example :
    on_chunks new_frame_reader in_two ≡ on_data new_frame_reader (flatten in_two)
on_chunks-flatten_example = on_chunks-flatten in_two

send_all-on_open_example :
    send_all ((3 ∷ []) ∷ []) (on_open (send_all ((1 ∷ []) ∷ ((2 ∷ []) ∷ [])) new_demuxer))
    ≡ record {
      ready_state = is_open;
      sent = (2 ∷ (1 ∷ [])) ∷ ((2 ∷ (2 ∷ [])) ∷ ((2 ∷ (3 ∷ [])) ∷ []));
      pending_control = [];
    }
send_all-on_open_example = send_all-on_open ((1 ∷ []) ∷ ((2 ∷ []) ∷ [])) ((3 ∷ []) ∷ [])
