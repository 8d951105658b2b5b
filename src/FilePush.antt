-- ===== src/FilePush.antt =====
-- server/goog-device/filePush/FilePushReader.ts and the check of a push destination of
-- server/security/deviceInput.ts: the server's end of a file push. A step is one message, the end
-- of the push that FINISH started, or the close of the channel. A handler that throws gives `throw`:
-- its promise is rejected, and no answer is sent; what it has set by then is in Named.Left. The
-- temporary file is taken to exist from START on: the model leaves out that createWriteStream opens
-- it a little later, so what it says of its removal holds where the file is open by then.
pub mod Delivery
pub mod Named
pub mod Destination
pub mod Reachable
mod Tests
use proxmoxwhatsapp.Prelude.{
  ℕ, zero, suc, ◌+◌, ◌-◌, List, [], ◌∷◌, ◌++◌, length, Bool, true, false, ◌||◌, ◌&&◌, not, Option,
  none, some, ltb, if◌then◌else◌, ◌==◌, ℤ, pos, negsuc, ◌-ℤ◌, eqb_ℤ, leb_ℤ, Result, ok, throw,
  range_error, ◌>>=◌,
}
use proxmoxwhatsapp.Bytes.{be_bytes, to_uint}
use proxmoxwhatsapp.Text.{TextCodec}
use proxmoxwhatsapp.Subnet.Text.{Str, includes, dash}
use proxmoxwhatsapp.Control.PushFile.{
  FilePushCommand, FilePushState, state_code, push_file_command_from_data,
}

pub data PushState : Type 0 where
  initial new start append finish cancel : PushState

-- FilePushResponseStatus, where the reader uses it.
abbrev pub new_push_id : ℤ
new_push_id = pos 1

abbrev pub no_error : ℤ
no_error = pos 0

abbrev pub error_invalid_name : ℤ
error_invalid_name = negsuc 0

abbrev pub error_invalid_state : ℤ
error_invalid_state = negsuc 7

abbrev pub error_unknown_id : ℤ
error_unknown_id = negsuc 8

abbrev pub error_incorrect_size : ℤ
error_incorrect_size = negsuc 10

abbrev pub error_other : ℤ
error_other = negsuc 11

abbrev pub max_file_id : ℕ
max_file_id = 4294967295

-- The static `getNextId`, on the static `fileId`.
unfoldable pub next_file_id : ℕ → ℕ
next_file_id file_id = if ltb max_file_id (file_id + 1) then 1 else file_id + 1

-- Buffer's `writeInt16BE` and `writeInt8` throw outside their ranges.
unfoldable pub create_response : ℤ → ℤ → Result (List ℕ)
create_response id code =
    if leb_ℤ (negsuc 32767) id && leb_ℤ id (pos 32767)
    then ok (be_bytes 2 (to_uint 2 id) ++ be_bytes 1 (to_uint 1 code))
    else throw range_error

-- `assertSafeRemotePath` of a string: whether it returns.
unfoldable pub is_safe_remote_path : Str → Bool
is_safe_remote_path [] = false
is_safe_remote_path (x ∷ xs) = if x == dash then false else not (includes 0 (x ∷ xs))

-- The temporary file and its content, while there is one; whether FINISH waits for its push; the
-- channel, and how it was closed; what was pushed to the device.
pub record FilePushReader : Type 0 where
  pub file_id : ℕ
  pub file_name : Str
  pub push_id : ℤ
  pub state : PushState
  pub temp_file : Option (List ℕ)
  pub is_writing : Bool
  pub is_finishing : Bool
  pub disposed : Bool
  pub channel_open : Bool
  pub close_code : Option ℤ
  pub sent : List (List ℕ)
  pub pushed : List (Option (List ℕ) × Str)

unfoldable pub new_reader : ℕ → FilePushReader
new_reader file_id = record {
  file_id = file_id;
  file_name = [];
  push_id = negsuc 0;
  state = initial;
  temp_file = none;
  is_writing = false;
  is_finishing = false;
  disposed = false;
  channel_open = true;
  close_code = none;
  sent = [];
  pushed = [];
}

unfoldable pub send_response : ℤ → FilePushReader → Result FilePushReader
send_response status r =
    if r.channel_open
    then (create_response r.push_id status >>= λ response.
        ok (record r { sent = r.sent ++ response ∷ [] }))
    else ok r

-- The stream ends, the temporary file goes, and the channel is closed if it is open.
unfoldable pub release : FilePushReader → FilePushReader
release r =
    if r.disposed
    then r
    else record r { disposed = true; is_writing = false; temp_file = none; channel_open = false }

unfoldable pub close_with_error : ℤ → FilePushReader → FilePushReader
close_with_error code r = release (record r {
  close_code = if r.channel_open then some (pos 4000 -ℤ code) else r.close_code;
  channel_open = false;
})

-- The handlers of the messages, with the state that they test.
unfoldable pub on_new : PushState → FilePushReader → Result FilePushReader
on_new initial r =
    let id = next_file_id r.file_id in
    send_response new_push_id (record r { state = new; file_id = id; push_id = pos id })
on_new _ r = ok (close_with_error error_invalid_state r)

unfoldable pub start_named : Str → Option ℕ → FilePushReader → Result FilePushReader
start_named name size r =
    if is_safe_remote_path name
    then elim size [
      | some (suc n) ↦
          send_response no_error
            (record r { file_name = name; state = start; temp_file = some []; is_writing = true })
      | _ ↦ ok (close_with_error error_incorrect_size r)
    ]
    else ok (close_with_error error_invalid_name r)

unfoldable pub on_start : Str → Option ℕ → PushState → FilePushReader → Result FilePushReader
on_start name size new r = start_named name size r
on_start name size _ r = ok (close_with_error error_invalid_state r)

abbrev written_to : List ℕ → FilePushReader → Option (List ℕ)
written_to chunk r = elim r.temp_file [ none ↦ none | some content ↦ some (content ++ chunk) ]

unfoldable pub append_chunk : List ℕ → FilePushReader → Result FilePushReader
append_chunk chunk r = send_response no_error (record r {
  state = append;
  temp_file = if r.is_writing then written_to chunk r else r.temp_file;
})

unfoldable pub on_append : List ℕ → PushState → FilePushReader → Result FilePushReader
on_append [] state r = ok (close_with_error error_incorrect_size r)
on_append (b ∷ bs) start r = append_chunk (b ∷ bs) r
on_append (b ∷ bs) append r = append_chunk (b ∷ bs) r
on_append (b ∷ bs) _ r = ok (close_with_error error_invalid_state r)

-- FINISH up to its first `await`.
unfoldable pub on_finish : PushState → FilePushReader → Result FilePushReader
on_finish append r = ok (record r { state = finish; is_writing = false; is_finishing = true })
on_finish _ r = ok (close_with_error error_invalid_state r)

-- The rest of FINISH: `adb push` of the temporary file, which works or throws; an answer that throws
-- is caught with it.
unfoldable pub push_failed : FilePushReader → FilePushReader
push_failed r = record (close_with_error error_other r) { temp_file = none }

unfoldable pub on_pushed : Bool → FilePushReader → FilePushReader
on_pushed works r =
    let after = record r {
      is_finishing = false;
      pushed = r.pushed ++ (r.temp_file, r.file_name) ∷ [];
    } in
    if works
    then elim (send_response no_error after) [
      | ok answered ↦ release (record answered { temp_file = none })
      | throw e ↦ push_failed after
    ]
    else push_failed after

unfoldable pub on_cancel : FilePushReader → Result FilePushReader
on_cancel r =
    send_response no_error (record r { state = cancel; is_writing = false; temp_file = none })
    >>= λ answered. ok (release answered)

-- `onClose`: the channel's `close` event.
unfoldable pub on_close : FilePushReader → FilePushReader
on_close r = release (record r { channel_open = false })

module _ (codec : TextCodec) (units : codec.Text → Str) where
  -- The name and the chunk of a command, as the handlers test them.
  unfoldable pub name_of : FilePushCommand codec → Str
  name_of command = elim command.file_name [ none ↦ [] | some name ↦ units name ]

  unfoldable pub chunk_of : FilePushCommand codec → List ℕ
  chunk_of command = elim command.chunk [ none ↦ [] | some chunk ↦ chunk ]

  -- The handlers behind `verifyId`.
  unfoldable pub on_identified : FilePushCommand codec → FilePushReader → Result FilePushReader
  on_identified command r =
      if eqb_ℤ command.state (state_code FilePushState.start)
      then on_start (name_of command) command.file_size r.state r
      else if eqb_ℤ command.state (state_code FilePushState.append)
      then on_append (chunk_of command) r.state r
      else if eqb_ℤ command.state (state_code FilePushState.finish)
      then on_finish r.state r
      else if eqb_ℤ command.state (state_code FilePushState.cancel)
      then on_cancel r
      else ok (close_with_error error_invalid_state r)

  unfoldable pub on_command : FilePushCommand codec → FilePushReader → Result FilePushReader
  on_command command r =
      if eqb_ℤ command.state (state_code FilePushState.new)
      then on_new r.state r
      else if eqb_ℤ command.id r.push_id
      then on_identified command r
      else ok (close_with_error error_unknown_id r)

  -- `onMessage`; a reader that is disposed of listens no more.
  unfoldable pub on_message : List ℕ → FilePushReader → Result FilePushReader
  on_message bytes r =
      if r.disposed
      then ok r
      else push_file_command_from_data codec bytes >>= λ command. on_command command r
