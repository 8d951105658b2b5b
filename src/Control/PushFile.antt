-- ===== src/Control/PushFile.antt =====
-- CommandControlMessage.ts: the commands of a file push, and their decoder, which the server uses.
pub mod RoundTrip
use proxmoxwhatsapp.Prelude.{
  ℕ, ◌+◌, List, length, Option, none, some, if◌then◌else◌, not, ℤ, pos, eqb_ℤ, Result, ok, throw,
  type_error, ◌>>=◌, ◌==◌,
}
use proxmoxwhatsapp.Text.{TextCodec}
use proxmoxwhatsapp.Reader.{
  Reader, Read, new_reader, read_uint8, read_int8, read_int16_be, read_uint16_be, read_uint32_be,
  read_bytes,
}
use proxmoxwhatsapp.Writer.{
  write_uint8, write_int8, write_int16_be, write_uint16_be, write_uint32_be, write_bytes, ◌▹◌,
  written,
}
use proxmoxwhatsapp.Control.Types.{type_push_file}
use proxmoxwhatsapp.Control.Command.{payload_length}

pub data FilePushState : Type 0 where
  new start append finish cancel : FilePushState

abbrev pub state_code : FilePushState → ℤ
state_code new = pos 0
state_code start = pos 1
state_code append = pos 2
state_code finish = pos 3
state_code cancel = pos 4

module _ (c : TextCodec) where
  pub record FilePushParams : Type 0 where
    pub id : ℤ
    pub state : FilePushState
    pub chunk : Option (List ℕ)
    pub file_name : Option c.Text
    pub file_size : Option ℤ

  -- `TextEncoder.encode(undefined)` is empty, and `setUint32(undefined)` writes 0.
  abbrev encode_or_empty : Option c.Text → List ℕ
  encode_or_empty none = List.[]
  encode_or_empty (some t) = c.encode t

  abbrev number_or_zero : Option ℤ → ℤ
  number_or_zero none = pos 0
  number_or_zero (some z) = z

  unfoldable pub push_file_start_command : ℤ → Option c.Text → Option ℤ → Result (List ℕ)
  push_file_start_command id file_name file_size =
      let text = encode_or_empty file_name in
      written (payload_length + 1 + 2 + 1 + 4 + 2 + length text) (
        write_uint8 type_push_file
        ▹ write_int16_be id
        ▹ write_int8 (state_code start)
        ▹ write_uint32_be (number_or_zero file_size)
        ▹ write_uint16_be (pos (length text))
        ▹ write_bytes text)

  -- What `pushFileCommandFromData` returns; the state is any number of the wire.
  pub record FilePushCommand : Type 0 where
    pub id : ℤ
    pub state : ℤ
    pub chunk : Option (List ℕ)
    pub file_size : Option ℕ
    pub file_name : Option c.Text

unfoldable pub push_file_chunk_command : ℤ → List ℕ → Result (List ℕ)
push_file_chunk_command id chunk = written (payload_length + 1 + 2 + 1 + 4 + length chunk) (
    write_uint8 type_push_file
    ▹ write_int16_be id
    ▹ write_int8 (state_code append)
    ▹ write_uint32_be (pos (length chunk))
    ▹ write_bytes chunk)

unfoldable pub push_file_other_command : ℤ → FilePushState → Result (List ℕ)
push_file_other_command id state =
    written (payload_length + 1 + 2 + 1)
      (write_uint8 type_push_file ▹ write_int16_be id ▹ write_int8 (state_code state))

module _ (c : TextCodec) where
  abbrev chunk_command : ℤ → Option (List ℕ) → Result (List ℕ)
  chunk_command id none = throw type_error
  chunk_command id (some chunk) = push_file_chunk_command id chunk

  unfoldable pub push_file_command : FilePushParams c → Result (List ℕ)
  push_file_command p = elim p.state [
    | start ↦ push_file_start_command c p.id p.file_name p.file_size
    | append ↦ chunk_command p.id p.chunk
    | other ↦ push_file_other_command p.id other
  ]

  -- The fields after the state, on each of the decoder's three branches.
  unfoldable pub read_append : ℤ → Reader → Result (FilePushCommand c)
  read_append id r = do
    (chunk_length, r) ← read_uint32_be r
    (chunk, r) ← read_bytes chunk_length r
    ok (record {
      id = id;
      state = state_code append;
      chunk = some chunk;
      file_size = none;
      file_name = none;
    })

  unfoldable pub read_start : ℤ → Reader → Result (FilePushCommand c)
  read_start id r = do
    (file_size, r) ← read_uint32_be r
    (text_length, r) ← read_uint16_be r
    (name, r) ← read_bytes text_length r
    ok (record {
      id = id;
      state = state_code start;
      chunk = none;
      file_size = some file_size;
      file_name = some (c.decode name);
    })

  -- The three branches on the state.
  unfoldable pub read_state : ℤ → ℤ → Reader → Result (FilePushCommand c)
  unfolding read_append read_start
  read_state id state r =
      if eqb_ℤ state (state_code append)
      then read_append id r
      else if eqb_ℤ state (state_code start)
      then read_start id r
      else ok (record { id = id; state = state; chunk = none; file_size = none; file_name = none })

  unfoldable pub push_file_command_from_data : List ℕ → Result (FilePushCommand c)
  unfolding read_state
  push_file_command_from_data bytes = do
    (type, r) ← read_uint8 (new_reader bytes 0)
    if type == 102 then body r else throw type_error
    where
      body : Reader → Result (FilePushCommand c)
      body r = do (id, r) ← read_int16_be r; (state, r) ← read_int8 r; read_state id state r
