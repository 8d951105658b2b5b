-- ===== src/FilePush/Delivery.antt =====
-- A push from its first command to its end: what reaches the device.
use proxmoxwhatsapp.Prelude.{
  ℕ, List, [], ◌∷◌, ◌++◌, map, true, false, Option, none, some, Result, ok, ◌>>=◌, ℤ, pos,
}
use proxmoxwhatsapp.Bytes.{be_bytes, to_uint}
use proxmoxwhatsapp.Text.{TextCodec}
use proxmoxwhatsapp.Subnet.Text.{Str}
use proxmoxwhatsapp.Control.PushFile.{FilePushCommand, FilePushState, state_code}
use proxmoxwhatsapp.FilePush.{FilePushReader, PushState, on_command}

-- The answer to a command.
abbrev pub answer : ℕ → ℤ → List ℕ
answer id status = be_bytes 2 (to_uint 2 (pos id)) ++ be_bytes 1 (to_uint 1 status)

-- A reader in the middle of its push.
abbrev pushing : PushState → ℕ → Str → List ℕ → List (List ℕ) → FilePushReader
pushing state id name content sent = record {
  file_id = id;
  file_name = name;
  push_id = pos id;
  state = state;
  temp_file = some content;
  is_writing = true;
  is_finishing = false;
  disposed = false;
  channel_open = true;
  close_code = none;
  sent = sent;
  pushed = [];
}

module _ (codec : TextCodec) (units : codec.Text → Str) where
  abbrev pub command :
      ℕ → FilePushState → Option (List ℕ) → Option ℕ → Option codec.Text → FilePushCommand codec
  command id state chunk size name = record {
    id = pos id;
    state = state_code state;
    chunk = chunk;
    file_size = size;
    file_name = name;
  }

  unfoldable pub on_commands : List (FilePushCommand codec) → FilePushReader → Result FilePushReader
  on_commands [] r = ok r
  on_commands (c ∷ cs) r = on_command codec units c r >>= on_commands cs

  abbrev pub appends : ℕ → List (List ℕ) → List (FilePushCommand codec)
  appends id = map (λ chunk. command id FilePushState.append (some chunk) none none)

  -- The commands of a whole push: NEW, whose id does not matter, START, the chunks, FINISH.
  abbrev pub whole_push : ℕ → codec.Text → ℕ → List (List ℕ) → List (FilePushCommand codec)
  whole_push id name size chunks =
      command 0 FilePushState.new none none none
      ∷ (command id FilePushState.start none (some size) (some name)
          ∷ (appends id chunks ++ command id FilePushState.finish none none none ∷ []))

  -- The reader that waits for its push.
  abbrev waiting : ℕ → Str → List ℕ → List (List ℕ) → FilePushReader
  waiting id name content sent = record (pushing PushState.finish id name content sent) {
    is_writing = false;
    is_finishing = true;
  }
