-- ===== src/Control/PushFile/RoundTrip.antt =====
-- The decoder gives back what the encoder was given, for every state of a push.
use proxmoxwhatsapp.Prelude.{
  ℕ, ◌≡◌, List, [], ◌++◌, length, arith, Option, none, some, ℤ, pos, negsuc, ok, ◌>>=◌,
  length-append, append-nil, append_assoc,
}
use proxmoxwhatsapp.Text.{TextCodec, IsPlain}
use proxmoxwhatsapp.Bytes.Fields.{u8, u16, u32}
use proxmoxwhatsapp.Bytes.Laws.{length-be_bytes, IsUint, IsInt}
use proxmoxwhatsapp.Reader.Laws.{
  reader_at, new_reader-reader_at, read_uint8-Reads, read_int8-Reads, read_int16_be-Reads,
  read_uint16_be-Reads, read_uint32_be-Reads, read_bytes_last,
}
use proxmoxwhatsapp.Writer.Laws.{writing, written-Writes}
use proxmoxwhatsapp.Control.Types.{type_push_file}
use proxmoxwhatsapp.Control.PushFile.{
  FilePushState, new, start, append, finish, cancel, state_code, FilePushParams, FilePushCommand,
  push_file_start_command, push_file_chunk_command, push_file_other_command, push_file_command,
  read_append, read_start, read_state, push_file_command_from_data,
}

state_code-IsInt : (state : FilePushState) → IsInt 1 (state_code state)
state_code-IsInt new = omega arith
state_code-IsInt start = omega arith
state_code-IsInt append = omega arith
state_code-IsInt finish = omega arith
state_code-IsInt cancel = omega arith

module _ (c : TextCodec) where
  -- The decoder on the fields that every command of a push begins with.
  read_head :
      (id : ℤ) (state : FilePushState) (rest : List ℕ)
      → IsInt 2 id
      → push_file_command_from_data c (u8 type_push_file ++ u16 id ++ u8 (state_code state) ++ rest)
        ≡ read_state c id
            (state_code state)
            (reader_at (u8 type_push_file ++ u16 id ++ u8 (state_code state)) rest)
  unfolding push_file_command_from_data
  read_head id state rest h = rw (
    append_assoc (u8 type_push_file ++ u16 id) (u8 (state_code state)) rest,
    append_assoc (u8 type_push_file) (u16 id) (u8 (state_code state) ++ rest),
    new_reader-reader_at,
    read_uint8-Reads 102 (omega arith),
    read_int16_be-Reads id h,
    read_int8-Reads (state_code state) (state_code-IsInt state),
  )

  -- The fields that a state's command carries are given, and fit their places on the wire; the
  -- name has no lone surrogate and no leading U+FEFF.
  abbrev pub Fits : FilePushState → Option (List ℕ) → Option c.Text → Option ℤ → Type 0
  Fits start chunk (some t) (some (pos n)) =
      IsUint 2 (length (c.encode t)) × IsUint 4 n × IsPlain c t
  Fits append (some bs) name size = IsUint 4 (length bs)
  Fits start chunk name size = ⊥
  Fits append none name size = ⊥
  Fits new chunk name size = Unit
  Fits finish chunk name size = Unit
  Fits cancel chunk name size = Unit

  abbrev size_of : Option ℤ → Option ℕ
  size_of (some (pos n)) = some n
  size_of _ = none

  -- What the server should see of a command: the fields of its state, and no others.
  abbrev pub seen :
      ℤ → FilePushState → Option (List ℕ) → Option c.Text → Option ℤ → FilePushCommand c
  seen id start chunk name size = record {
    id = id;
    state = state_code start;
    chunk = none;
    file_size = size_of size;
    file_name = name;
  }
  seen id append chunk name size = record {
    id = id;
    state = state_code append;
    chunk = chunk;
    file_size = none;
    file_name = none;
  }
  seen id state chunk name size = record {
    id = id;
    state = state_code state;
    chunk = none;
    file_size = none;
    file_name = none;
  }

  start_layout :
      (id : ℤ) (t : c.Text) (n : ℕ)
      → push_file_start_command c id (some t) (some (pos n))
        ≡ ok (
            u8 type_push_file
            ++ u16 id
            ++ u8 (state_code start)
            ++ u32 (pos n)
            ++ u16 (pos (length (c.encode t)))
            ++ c.encode t)
  unfolding push_file_start_command
  start_layout id t n =
      written-Writes _ 0 _ _ (search writing depth 20)
        (omega (arith, length-append {0}, length-be_bytes))

  start_round_trip :
      (id : ℤ) (chunk : Option (List ℕ)) (t : c.Text) (n : ℕ)
      → IsInt 2 id
      → IsUint 2 (length (c.encode t))
      → IsUint 4 n
      → IsPlain c t
      → (push_file_start_command c id (some t) (some (pos n)) >>= push_file_command_from_data c)
        ≡ ok (seen id start chunk (some t) (some (pos n)))
  unfolding read_state read_start
  start_round_trip id chunk t n h k l u =
      let head = u8 type_push_file ++ u16 id ++ u8 (state_code start) in
      rw (
        start_layout id t n,
        append_assoc (head ++ u32 (pos n)) (u16 (pos (length (c.encode t)))) (c.encode t),
        append_assoc head (u32 (pos n)) (u16 (pos (length (c.encode t))) ++ c.encode t),
        read_head id start (u32 (pos n) ++ (u16 (pos (length (c.encode t))) ++ c.encode t)) h,
        read_uint32_be-Reads n l,
        read_uint16_be-Reads (length (c.encode t)) k,
        read_bytes_last,
        c.decode-encode t u,
      )

  append_layout :
      (id : ℤ) (bs : List ℕ)
      → push_file_chunk_command id bs
        ≡ ok (u8 type_push_file ++ u16 id ++ u8 (state_code append) ++ u32 (pos (length bs)) ++ bs)
  unfolding push_file_chunk_command
  append_layout id bs =
      written-Writes _ 0 _ _ (search writing depth 20)
        (omega (arith, length-append {0}, length-be_bytes))

  append_round_trip :
      (id : ℤ) (bs : List ℕ) (name : Option c.Text) (size : Option ℤ)
      → IsInt 2 id
      → IsUint 4 (length bs)
      → (push_file_chunk_command id bs >>= push_file_command_from_data c)
        ≡ ok (seen id append (some bs) name size)
  unfolding read_state read_append
  append_round_trip id bs name size h k =
      let head = u8 type_push_file ++ u16 id ++ u8 (state_code append) in
      rw (
        append_layout id bs,
        append_assoc head (u32 (pos (length bs))) bs,
        read_head id append (u32 (pos (length bs)) ++ bs) h,
        read_uint32_be-Reads (length bs) k,
        read_bytes_last,
      )

  other_layout :
      (id : ℤ) (state : FilePushState)
      → push_file_other_command id state ≡ ok (u8 type_push_file ++ u16 id ++ u8 (state_code state))
  unfolding push_file_other_command
  other_layout id state =
      written-Writes _ 0 _ _ (search writing depth 20)
        (omega (arith, length-append {0}, length-be_bytes))

  other_round_trip :
      (id : ℤ) (state : FilePushState)
      → IsInt 2 id
      → (push_file_other_command id state >>= push_file_command_from_data c)
        ≡ read_state c id
            (state_code state)
            (reader_at (u8 type_push_file ++ u16 id ++ u8 (state_code state)) [])
  other_round_trip id state h = rw (
    other_layout id state,
    ← append-nil (u8 type_push_file ++ u16 id ++ u8 (state_code state)),
    read_head id state [] h,
    append-nil (u8 type_push_file ++ u16 id ++ u8 (state_code state)),
  )

  push_round_trip :
      (id : ℤ) (state : FilePushState) (chunk : Option (List ℕ)) (name : Option c.Text)
      (size : Option ℤ)
      → IsInt 2 id
      → Fits state chunk name size
      → (push_file_command c
            (record { id = id; state = state; chunk = chunk; file_name = name; file_size = size })
          >>= push_file_command_from_data c)
        ≡ ok (seen id state chunk name size)
  unfolding push_file_command read_state
  push_round_trip id start chunk (some t) (some (pos n)) h f =
      start_round_trip id chunk t n h f.0 f.1 f.2
  push_round_trip id start chunk (some t) (some (negsuc n)) h f = absurd f
  push_round_trip id start chunk (some t) none h f = absurd f
  push_round_trip id start chunk none size h f = absurd f
  push_round_trip id append (some bs) name size h f = append_round_trip id bs name size h f
  push_round_trip id append none name size h f = absurd f
  push_round_trip id new chunk name size h f = other_round_trip id new h
  push_round_trip id finish chunk name size h f = other_round_trip id finish h
  push_round_trip id cancel chunk name size h f = other_round_trip id cancel h

  -- A push command that the browser encodes, with an id of 16 bits and the fields of its state
  -- given and in range, a name being without lone surrogates and a leading U+FEFF, is decoded by
  -- the server to the same id, state and fields of that state, and no others.
  pub push_file_command-from_data :
      (p : FilePushParams c)
      → IsInt 2 p.id
      → Fits p.state p.chunk p.file_name p.file_size
      → (push_file_command c p >>= push_file_command_from_data c)
        ≡ ok (seen p.id p.state p.chunk p.file_name p.file_size)
  push_file_command-from_data p h f =
      push_round_trip p.id p.state p.chunk p.file_name p.file_size h f
