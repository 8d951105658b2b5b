-- ===== src/Stream/ControlChannel.antt =====
-- Control messages from the browser to the device: nothing that was sent while the socket was
-- connecting is lost, repeated or overtaken, and the server hands on exactly the message.
use proxmoxwhatsapp.Prelude.{
  ℕ, ◌≡◌, ap, sym, ◌∙◌, List, [], ◌∷◌, ◌++◌, arith, true, some, append_assoc, append-nil, map,
}
use mathlib.Core.List.{map-append}
use proxmoxwhatsapp.Stream.Forward.{on_socket_message, control_channel}
use proxmoxwhatsapp.Stream.Demuxer.{
  Demuxer, ReadyState, connecting, is_open, new_demuxer, send_control, on_open,
}

unfoldable pub send_all : List (List ℕ) → Demuxer → Demuxer
send_all [] d = d
send_all (m ∷ ms) d = send_all ms (send_control m d)

abbrev pub framed : List (List ℕ) → List (List ℕ)
framed = map (λ m. control_channel ∷ m)

abbrev at : ReadyState → List (List ℕ) → List (List ℕ) → Demuxer
at state sent pending = record { ready_state = state; sent = sent; pending_control = pending }

waiting :
    (ms sent pending : List (List ℕ))
    → send_all ms (at connecting sent pending) ≡ at connecting sent (pending ++ framed ms)
unfolding send_all send_control
waiting [] sent pending = rw (append-nil pending)
waiting (m ∷ ms) sent pending =
    waiting ms sent (pending ++ (control_channel ∷ m) ∷ [])
    ∙ ap (at connecting sent) (append_assoc pending ((control_channel ∷ m) ∷ []) (framed ms))

passing :
    (ms sent : List (List ℕ)) → send_all ms (at is_open sent []) ≡ at is_open (sent ++ framed ms) []
unfolding send_all send_control
passing [] sent = rw (append-nil sent)
passing (m ∷ ms) sent =
    passing ms (sent ++ (control_channel ∷ m) ∷ [])
    ∙ ap (λ s. at is_open s []) (append_assoc sent ((control_channel ∷ m) ∷ []) (framed ms))

-- Control messages that are sent before the socket opens and after it go out all, once and in
-- order, each behind the byte of the control channel, and none is left waiting.
pub send_all-on_open :
    (before after : List (List ℕ))
    → send_all after (on_open (send_all before new_demuxer))
      ≡ record { ready_state = is_open; sent = framed (before ++ after); pending_control = [] }
unfolding on_open new_demuxer
send_all-on_open before after = rw (waiting before [] []) (
    passing after (framed before)
    ∙ ap (λ s. at is_open s []) (sym (map-append (λ m. control_channel ∷ m) before after)))

-- The server writes to the device the payload of what the demuxer sends, unless it is empty.
pub on_socket_message-send_control :
    (b : ℕ) (payload : List ℕ)
    → on_socket_message true (control_channel ∷ (b ∷ payload)) ≡ some (b ∷ payload)
unfolding on_socket_message
on_socket_message-send_control b payload = ground arith
