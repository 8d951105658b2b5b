-- ===== src/FilePush/Tests.antt =====
-- A push of two chunks to "/a", with texts that are their code units.
use proxmoxwhatsapp.Prelude.{
  ℕ, ◌≡◌, refl, List, [], ◌∷◌, replicate, All, pos, true, false, none, some, ok,
}
use proxmoxwhatsapp.Text.{byte_text}
use proxmoxwhatsapp.FilePush.{
  finish, send_response, create_response, release, on_command, on_identified, on_new, on_start,
  start_named, on_append, append_chunk, on_finish, next_file_id, name_of, chunk_of, FilePushReader,
  new_reader, is_safe_remote_path, on_pushed, new_push_id, no_error,
}
use proxmoxwhatsapp.FilePush.Named.{WasChecked}
use proxmoxwhatsapp.FilePush.Reachable.{
  created, then_step, push_ended, on_commands-Reachable, Reachable-WasChecked,
}
use proxmoxwhatsapp.FilePush.Delivery.{answer, on_commands, whole_push}
use proxmoxwhatsapp.Subnet.Text.{includes}

abbrev units : List ℕ → List ℕ
units name = name

abbrev chunks : List (List ℕ)
chunks = (1 ∷ (2 ∷ [])) ∷ ((3 ∷ []) ∷ [])

-- The reader of that push while FINISH waits.
abbrev finishing : FilePushReader
finishing = record {
  file_id = 5;
  file_name = 47 ∷ (97 ∷ []);
  push_id = pos 5;
  state = finish;
  temp_file = some (1 ∷ (2 ∷ (3 ∷ [])));
  is_writing = false;
  is_finishing = true;
  disposed = false;
  channel_open = true;
  close_code = none;
  sent = answer 5 new_push_id ∷ replicate 3 (answer 5 no_error);
  pushed = [];
}

commands_run :
    on_commands byte_text units
      (whole_push byte_text units 5 (47 ∷ (97 ∷ [])) 3 chunks)
      (new_reader 4)
    ≡ ok finishing
unfolding on_commands on_command on_identified on_new on_start start_named on_append append_chunk
    on_finish send_response create_response new_reader next_file_id name_of chunk_of
    is_safe_remote_path includes
commands_run = refl

Reachable-WasChecked_example : All WasChecked ((some (1 ∷ (2 ∷ (3 ∷ []))), 47 ∷ (97 ∷ [])) ∷ [])
unfolding on_pushed send_response create_response release
Reachable-WasChecked_example = Reachable-WasChecked byte_text units (on_pushed true finishing) (
    then_step finishing (on_pushed true finishing)
      (on_commands-Reachable byte_text units
        (whole_push byte_text units 5 (47 ∷ (97 ∷ [])) 3 chunks) (new_reader 4) finishing
        commands_run (created 4))
      (push_ended true finishing refl))
