-- ===== src/Multiplexer/Message/RoundTrip.antt =====
-- Messages and close events through a buffer and back.
use proxmoxwhatsapp.Prelude.{
  ℕ, suc, ◌+◌, ◌<◌, ◌≡◌, refl, sym, ap, ◌∙◌, List, [], ◌∷◌, ◌++◌, length, take, zeros, Option, none,
  some, ◌==◌, if◌then◌else◌, pos, ok, arith, length-append, take-append_left, drop-append_left,
  append_assoc, append-nil, le→leb, Bool-cases, inl, inr, ne→==, lt→ltb,
}
use proxmoxwhatsapp.Bytes.{le_bytes, to_uint}
use proxmoxwhatsapp.Bytes.Laws.{le_value-le_bytes, length-le_bytes, to_uint_pos, IsUint}
use proxmoxwhatsapp.Writer.{blit}
use proxmoxwhatsapp.Writer.Laws.{blit-zeros}
use proxmoxwhatsapp.Text.{TextCodec, ArePlain}
use proxmoxwhatsapp.Multiplexer.Message.{
  Message, get_uint_le, parse, create_buffer, to_buffer, close_channel_type, reason_bytes,
  from_close_event, close_reason, to_close_event,
}

set_fields :
    (t id : ℕ) (n : ℕ)
    → IsUint 1 t
    → IsUint 4 id
    → blit 1
        (le_bytes 4 (to_uint 4 (pos id)))
        (blit 0 (le_bytes 1 (to_uint 1 (pos t))) (zeros (5 + n)))
      ≡ (le_bytes 1 t ++ le_bytes 4 id) ++ zeros n
set_fields t id n h k = rw (
  to_uint_pos 1 t h,
  to_uint_pos 4 id k,
  blit-zeros [] (le_bytes 1 t) 0 (5 + n) (4 + n) refl (omega (arith, length-le_bytes 1 t)),
  blit-zeros (le_bytes 1 t) (le_bytes 4 id) 1 (4 + n) n (sym (length-le_bytes 1 t))
      (omega (arith, length-le_bytes 4 id)),
)

-- The layout of a message.
pub create_buffer-layout :
    (t id : ℕ) (bytes : List ℕ)
    → IsUint 1 t
    → IsUint 4 id
    → create_buffer t id bytes ≡ (le_bytes 1 t ++ le_bytes 4 id) ++ bytes
unfolding create_buffer
create_buffer-layout t id [] h k = set_fields t id 0 h k
create_buffer-layout t id (b ∷ bytes) h k =
    rw (set_fields t id (length (b ∷ bytes)) h k, ne→== (suc (length bytes)) 0 (omega arith))
      (blit-zeros (le_bytes 1 t ++ le_bytes 4 id) (b ∷ bytes) 5 (suc (length bytes)) 0
          (omega (
            arith,
            length-append (le_bytes 1 t) (le_bytes 4 id),
            length-le_bytes 1 t,
            length-le_bytes 4 id,
          ))
          (omega arith)
        ∙ append-nil _)

pub get_uint_le-at :
    (k offset n : ℕ) (front back buffer : List ℕ)
    → length front ≡ offset
    → IsUint k n
    → buffer ≡ front ++ (le_bytes k n ++ back)
    → get_uint_le k offset buffer ≡ ok n
unfolding get_uint_le
get_uint_le-at k offset n front back buffer h u e = rw (
  e,
  length-append front (le_bytes k n ++ back),
  length-append (le_bytes k n) back,
  length-le_bytes k n,
  le→leb (offset + k) (length front + (k + length back)) (omega arith),
  drop-append_left offset front (le_bytes k n ++ back) h,
  take-append_left k (le_bytes k n) back (length-le_bytes k n),
  le_value-le_bytes k n u,
)

-- A message whose type fits one byte and whose channel id fits four is read back from its buffer as
-- it was, whatever data it carries.
pub parse-to_buffer :
    (m : Message) → IsUint 1 m.message_type → IsUint 4 m.channel_id → parse (to_buffer m) ≡ ok m
unfolding parse to_buffer
parse-to_buffer m h k = rw (
  create_buffer-layout m.message_type m.channel_id m.data_bytes h k,
  get_uint_le-at 1 0 m.message_type [] (le_bytes 4 m.channel_id ++ m.data_bytes) _ refl h
      (append_assoc (le_bytes 1 m.message_type) (le_bytes 4 m.channel_id) m.data_bytes),
  get_uint_le-at 4 1 m.channel_id (le_bytes 1 m.message_type) m.data_bytes _
      (length-le_bytes 1 m.message_type) k
      (append_assoc (le_bytes 1 m.message_type) (le_bytes 4 m.channel_id) m.data_bytes),
  drop-append_left 5 (le_bytes 1 m.message_type ++ le_bytes 4 m.channel_id) m.data_bytes (
      omega (
        arith,
        length-append (le_bytes 1 m.message_type) (le_bytes 4 m.channel_id),
        length-le_bytes 1 m.message_type,
        length-le_bytes 4 m.channel_id,
      )),
)

take_all : (bytes : List ℕ) → take (length bytes) bytes ≡ bytes
take_all bytes =
    ap (take (length bytes)) (sym (append-nil bytes))
    ∙ take-append_left (length bytes) bytes [] refl

closed_fields :
    (code n : ℕ)
    → IsUint 2 code
    → blit 0 (le_bytes 2 (to_uint 2 (pos code))) (zeros (2 + 4 + n))
      ≡ le_bytes 2 code ++ zeros (4 + n)
closed_fields code n h = rw (
  to_uint_pos 2 code h,
  blit-zeros [] (le_bytes 2 code) 0 (2 + 4 + n) (4 + n) refl
      (omega (arith, length-le_bytes 2 code)),
)

some_bytes : (bytes : List ℕ) → (bytes ≡ [] → ⊥) → 0 < length bytes
some_bytes [] h = absurd (h refl)
some_bytes (b ∷ bytes) h = omega arith

module _ (codec : TextCodec) where
  -- What the other end learns of a reason: an empty one is as good as none.
  abbrev pub heard : Option codec.Text → Option codec.Text
  heard none = none
  heard (some reason) = if codec.is_empty reason then none else some reason

  closed_silent :
      (id code : ℕ)
      → IsUint 2 code
      → to_close_event codec (record {
        message_type = close_channel_type;
        channel_id = id;
        data_bytes = blit 0 (le_bytes 2 (to_uint 2 (pos code))) (zeros 6);
      })
        ≡ ok (record { was_clean = code == 1000; code = some code; reason = none })
  unfolding to_close_event close_reason
  closed_silent id code h = rw (
    closed_fields code 0 h,
    length-append (le_bytes 2 code) (zeros 4),
    length-le_bytes 2 code,
    get_uint_le-at 2 0 code [] (zeros 4) _ refl h refl,
  )

  closed_spoken :
      (id code : ℕ) (bytes : List ℕ)
      → IsUint 2 code
      → IsUint 4 (length bytes)
      → 0 < length bytes
      → to_close_event codec (record {
        message_type = close_channel_type;
        channel_id = id;
        data_bytes = blit 6 bytes (
            blit 2
              (le_bytes 4 (to_uint 4 (pos (length bytes))))
              (blit 0 (le_bytes 2 (to_uint 2 (pos code))) (zeros (2 + 4 + length bytes))));
      })
        ≡ ok (record {
          was_clean = code == 1000;
          code = some code;
          reason = some (codec.decode bytes);
        })
  unfolding to_close_event close_reason
  closed_spoken id code bytes h k p =
      let head = le_bytes 2 code ++ le_bytes 4 (length bytes) in
      let size : length head ≡ 6 = omega (
        arith,
        length-append (le_bytes 2 code) (le_bytes 4 (length bytes)),
        length-le_bytes 2 code,
        length-le_bytes 4 (length bytes),
      ) in
      rw (
        closed_fields code (length bytes) h,
        to_uint_pos 4 (length bytes) k,
        blit-zeros (le_bytes 2 code) (le_bytes 4 (length bytes)) 2 (4 + length bytes) (length bytes)
            (sym (length-le_bytes 2 code)) (omega (arith, length-le_bytes 4 (length bytes))),
        blit-zeros head bytes 6 (length bytes) 0 (sym size) (omega arith),
        append-nil (head ++ bytes),
        length-append head bytes,
        size,
        get_uint_le-at 2 0 code [] (le_bytes 4 (length bytes) ++ bytes) (head ++ bytes) refl h
            (append_assoc (le_bytes 2 code) (le_bytes 4 (length bytes)) bytes),
        get_uint_le-at 4 2 (length bytes) (le_bytes 2 code) bytes (head ++ bytes)
            (length-le_bytes 2 code) k
            (append_assoc (le_bytes 2 code) (le_bytes 4 (length bytes)) bytes),
        ne→== (6 + length bytes) 0 (omega arith),
        lt→ltb 6 (6 + length bytes) (omega arith),
        le→leb (6 + length bytes) (6 + length bytes) (omega arith),
        drop-append_left 6 head bytes size,
        take_all bytes,
      )

  -- A code of two bytes and a reason whose length fits four bytes, with no lone surrogate and no
  -- leading U+FEFF, come through a close message as
  -- they were, except that an empty reason is heard as none; the close is clean exactly if the code
  -- is 1000.
  pub to_close_event-from_close_event :
      (id code : ℕ) (reason : Option codec.Text)
      → IsUint 2 code
      → IsUint 4 (length (reason_bytes codec reason))
      → ArePlain codec reason
      → to_close_event codec (from_close_event codec id code reason)
        ≡ ok (record { was_clean = code == 1000; code = some code; reason = heard reason })
  unfolding from_close_event reason_bytes
  to_close_event-from_close_event id code none h k u = closed_silent id code h
  to_close_event-from_close_event id code (some reason) h k u =
      elim (Bool-cases (codec.is_empty reason)) [
        | inl e ↦ rw e (closed_silent id code h)
        | inr e ↦
            let p = some_bytes (codec.encode reason) (codec.is_empty-false reason e) in
            rw (e, ne→== (length (codec.encode reason)) 0 (omega arith))
              (closed_spoken id code (codec.encode reason) h (rw e at k) p
                ∙ ap
                    (λ t.
                      ok (record { was_clean = code == 1000; code = some code; reason = some t }))
                    (codec.decode-encode reason u))
      ]
