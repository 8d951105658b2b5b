-- ===== src/FilePush/Reachable.antt =====
-- Whatever a reader's client sends, in whatever order, and whatever fails on the way.
use proxmoxwhatsapp.Prelude.{
  ℕ, ◌≡◌, refl, List, [], ◌∷◌, All, Bool, true, Result, ok, throw, ◌>>=◌, eqb_ℤ,
}
use mathlib.Core.Path.{subst}
use proxmoxwhatsapp.Text.{TextCodec}
use proxmoxwhatsapp.Subnet.Text.{Str}
use proxmoxwhatsapp.Control.PushFile.{
  FilePushCommand, new, start, append, finish, cancel, state_code,
}
use proxmoxwhatsapp.FilePush.{
  FilePushReader, on_pushed, on_close, on_identified, on_command, new_reader,
}
use proxmoxwhatsapp.FilePush.Named.{
  IsNamed, IsNamedResult, WasChecked, either, new_reader-IsNamed, close_with_error-IsNamed, Left,
  Left-IsNamed,
}
use proxmoxwhatsapp.FilePush.Destination.{
  on_new-IsNamed, on_start-IsNamed, on_append-IsNamed, on_finish-IsNamed, on_cancel-IsNamed,
  on_pushed-IsNamed, on_close-IsNamed,
}
use proxmoxwhatsapp.FilePush.Delivery.{on_commands}

module _ (codec : TextCodec) (units : codec.Text → Str) where
  on_identified-IsNamed :
      (command : FilePushCommand codec) (r : FilePushReader)
      → IsNamed r
      → IsNamedResult (on_identified codec units command r)
  unfolding on_identified
  on_identified-IsNamed command r h =
      either (eqb_ℤ command.state (state_code start)) _ _
        (λ _. on_start-IsNamed _ _ r.state r refl h)
        (λ _.
          either (eqb_ℤ command.state (state_code append)) _ _
            (λ _. on_append-IsNamed _ r.state r refl h)
            (λ _.
              either (eqb_ℤ command.state (state_code finish)) _ _
                (λ _. on_finish-IsNamed r.state r refl h)
                (λ _.
                  either (eqb_ℤ command.state (state_code cancel)) _ _ (λ _. on_cancel-IsNamed r h)
                    (λ _. close_with_error-IsNamed _ r h))))

  on_command-IsNamed :
      (command : FilePushCommand codec) (r : FilePushReader)
      → IsNamed r
      → IsNamedResult (on_command codec units command r)
  unfolding on_command
  on_command-IsNamed command r h =
      either (eqb_ℤ command.state (state_code new)) _ _ (λ _. on_new-IsNamed r.state r refl h)
        (λ _.
          either (eqb_ℤ command.id r.push_id) _ _ (λ _. on_identified-IsNamed command r h)
            (λ _. close_with_error-IsNamed _ r h))

  -- What may happen to a reader, one event at a time: a command whose handler returns, or throws in
  -- its answer and leaves what it had set; the end of the push that FINISH waits for; the close of
  -- the channel. A message that is no command throws before it sets anything.
  pub data Step : FilePushReader → FilePushReader → Type 0 where
    returned :
        (command : FilePushCommand codec) (r s : FilePushReader)
        → on_command codec units command r ≡ ok s
        → Step r s
    threw : (r s : FilePushReader) → Left r s → Step r s
    push_ended :
        (works : Bool) (r : FilePushReader) → r.is_finishing ≡ true → Step r (on_pushed works r)
    channel_closed : (r : FilePushReader) → Step r (on_close r)

  pub data Reachable : FilePushReader → Type 0 where
    created : (file_id : ℕ) → Reachable (new_reader file_id)
    then_step : (r s : FilePushReader) → Reachable r → Step r s → Reachable s

  Step-IsNamed : (r s : FilePushReader) → Step r s → IsNamed r → IsNamed s
  Step-IsNamed _ _ (returned command r s e) h =
      subst IsNamedResult e (on_command-IsNamed command r h)
  Step-IsNamed _ _ (threw r s l) h = Left-IsNamed r s l h
  Step-IsNamed _ _ (push_ended works r f) h = on_pushed-IsNamed works r f h
  Step-IsNamed _ _ (channel_closed r) h = on_close-IsNamed r h

  Reachable-IsNamed : (r : FilePushReader) → Reachable r → IsNamed r
  Reachable-IsNamed _ (created file_id) = new_reader-IsNamed file_id
  Reachable-IsNamed _ (then_step q r k s) = Step-IsNamed q r s (Reachable-IsNamed q k)

  -- Commands one after the other are steps.
  after_command :
      (first : Result FilePushReader) (rest : FilePushReader → Result FilePushReader)
      (s : FilePushReader)
      → (first >>= rest) ≡ ok s
      → (r : FilePushReader) × (first ≡ ok r) × (rest r ≡ ok s)
  after_command (ok r) rest s e = (r, refl, e)
  after_command (throw x) rest s e = absurd cc

  pub on_commands-Reachable :
      (commands : List (FilePushCommand codec)) (r s : FilePushReader)
      → on_commands codec units commands r ≡ ok s
      → Reachable r
      → Reachable s
  unfolding on_commands
  on_commands-Reachable [] r s e k = subst Reachable (ok_same e) k
    where
      ok_same : ok r ≡ ok s → r ≡ s
      ok_same q = cc
  on_commands-Reachable (command ∷ commands) r s e k =
      let (next, one, more) = after_command (on_command codec units command r) _ s e in
      on_commands-Reachable commands next s more (then_step r next k (returned command r next one))

  -- Whatever commands a file push reader gets and in whatever order, also when sending an answer
  -- throws, whenever the push that FINISH waits for ends or fails, and whenever the channel closes:
  -- each push went to a destination that assertSafeRemotePath accepts.
  pub Reachable-WasChecked : (r : FilePushReader) → Reachable r → All WasChecked r.pushed
  Reachable-WasChecked r k = (Reachable-IsNamed r k).checked
