-- ===== src/FilePush/Destination.antt =====
-- Each handler of a reader keeps where a push may go.
use proxmoxwhatsapp.Prelude.{
  ℕ, ap, zero, suc, ◌≡◌, refl, List, [], ◌∷◌, ◌++◌, All-append, Bool, true, false, Option, none,
  some, ℤ, Result, ok, throw, ◌>>=◌, arith,
}
use proxmoxwhatsapp.Subnet.Text.{Str}
use proxmoxwhatsapp.FilePush.{
  FilePushReader, PushState, initial, new, start, append, finish, cancel, is_safe_remote_path,
  no_error, send_response, release, on_new, start_named, on_start, append_chunk, on_append,
  on_finish, on_cancel, on_pushed, push_failed, on_close,
}
use proxmoxwhatsapp.FilePush.Named.{
  IsNamed, IsNamedResult, WasChecked, has_name, either, same_names, send_response-IsNamed,
  release-IsNamed, close_with_error-IsNamed, Left, begun, started, appended_first, appended,
  cancelled, Left-IsNamed,
}

-- A handler that sets and then answers.
answers :
    (status : ℤ) (r s : FilePushReader)
    → Left r s
    → IsNamed r
    → IsNamedResult (send_response status s)
answers status r s l h = send_response-IsNamed status s (Left-IsNamed r s l h)

pub on_new-IsNamed :
    (state : PushState) (r : FilePushReader)
    → r.state ≡ state
    → IsNamed r
    → IsNamedResult (on_new state r)
unfolding on_new
on_new-IsNamed initial r e h = answers _ r _ (begun r _ _ e) h
on_new-IsNamed new r e h = close_with_error-IsNamed _ r h
on_new-IsNamed start r e h = close_with_error-IsNamed _ r h
on_new-IsNamed append r e h = close_with_error-IsNamed _ r h
on_new-IsNamed finish r e h = close_with_error-IsNamed _ r h
on_new-IsNamed cancel r e h = close_with_error-IsNamed _ r h

start_named-IsNamed :
    (name : Str) (size : Option ℕ) (r : FilePushReader)
    → r.state ≡ new
    → IsNamed r
    → IsNamedResult (start_named name size r)
unfolding start_named
start_named-IsNamed name none r e h =
    either (is_safe_remote_path name) _ _ (λ _. close_with_error-IsNamed _ r h)
      (λ _. close_with_error-IsNamed _ r h)
start_named-IsNamed name (some zero) r e h =
    either (is_safe_remote_path name) _ _ (λ _. close_with_error-IsNamed _ r h)
      (λ _. close_with_error-IsNamed _ r h)
start_named-IsNamed name (some (suc n)) r e h =
    either (is_safe_remote_path name) _ _ (λ safe. answers _ r _ (started r name e safe) h)
      (λ _. close_with_error-IsNamed _ r h)

pub on_start-IsNamed :
    (name : Str) (size : Option ℕ) (state : PushState) (r : FilePushReader)
    → r.state ≡ state
    → IsNamed r
    → IsNamedResult (on_start name size state r)
unfolding on_start
on_start-IsNamed name size initial r e h = close_with_error-IsNamed _ r h
on_start-IsNamed name size new r e h = start_named-IsNamed name size r e h
on_start-IsNamed name size start r e h = close_with_error-IsNamed _ r h
on_start-IsNamed name size append r e h = close_with_error-IsNamed _ r h
on_start-IsNamed name size finish r e h = close_with_error-IsNamed _ r h
on_start-IsNamed name size cancel r e h = close_with_error-IsNamed _ r h

pub on_append-IsNamed :
    (chunk : List ℕ) (state : PushState) (r : FilePushReader)
    → r.state ≡ state
    → IsNamed r
    → IsNamedResult (on_append chunk state r)
unfolding on_append append_chunk
on_append-IsNamed [] state r e h = close_with_error-IsNamed _ r h
on_append-IsNamed (b ∷ bs) initial r e h = close_with_error-IsNamed _ r h
on_append-IsNamed (b ∷ bs) new r e h = close_with_error-IsNamed _ r h
on_append-IsNamed (b ∷ bs) start r e h = answers _ r _ (appended_first r _ e) h
on_append-IsNamed (b ∷ bs) append r e h = answers _ r _ (appended r _ e) h
on_append-IsNamed (b ∷ bs) finish r e h = close_with_error-IsNamed _ r h
on_append-IsNamed (b ∷ bs) cancel r e h = close_with_error-IsNamed _ r h

pub on_finish-IsNamed :
    (state : PushState) (r : FilePushReader)
    → r.state ≡ state
    → IsNamed r
    → IsNamedResult (on_finish state r)
unfolding on_finish
on_finish-IsNamed initial r e h = close_with_error-IsNamed _ r h
on_finish-IsNamed new r e h = close_with_error-IsNamed _ r h
on_finish-IsNamed start r e h = close_with_error-IsNamed _ r h
on_finish-IsNamed append r e h =
    let safe = h.named (ap has_name e) in
    record { named = λ _. safe; finishing = λ _. (safe, refl); checked = h.checked }
on_finish-IsNamed finish r e h = close_with_error-IsNamed _ r h
on_finish-IsNamed cancel r e h = close_with_error-IsNamed _ r h

pub on_cancel-IsNamed : (r : FilePushReader) → IsNamed r → IsNamedResult (on_cancel r)
unfolding on_cancel
on_cancel-IsNamed r h = answered _ (answers no_error r _ (cancelled r) h)
  where
    answered :
        (x : Result FilePushReader) → IsNamedResult x → IsNamedResult (x >>= λ a. ok (release a))
    answered (ok a) k = release-IsNamed a k
    answered (throw e) k = tt

push_failed-IsNamed : (r : FilePushReader) → IsNamed r → IsNamed (push_failed r)
unfolding push_failed
push_failed-IsNamed r h = same_names _ _ refl refl refl refl (close_with_error-IsNamed _ r h)

pushed_after :
    (r : FilePushReader)
    → r.is_finishing ≡ true
    → IsNamed r
    → IsNamed
        (record r { is_finishing = false; pushed = r.pushed ++ (r.temp_file, r.file_name) ∷ [] })
pushed_after r f h = record {
  named = h.named;
  finishing = λ g. ground arith;
  checked = All-append WasChecked r.pushed _ h.checked ((h.finishing f).0, tt);
}

pub on_pushed-IsNamed :
    (works : Bool) (r : FilePushReader)
    → r.is_finishing ≡ true
    → IsNamed r
    → IsNamed (on_pushed works r)
unfolding on_pushed
on_pushed-IsNamed false r f h = push_failed-IsNamed _ (pushed_after r f h)
on_pushed-IsNamed true r f h = answered _ (send_response-IsNamed no_error _ (pushed_after r f h))
  where
    answered :
        (x : Result FilePushReader)
        → IsNamedResult x
        → IsNamed (elim x [
          | ok a ↦ release (record a { temp_file = none })
          | throw e ↦ push_failed (record r {
            is_finishing = false;
            pushed = r.pushed ++ (r.temp_file, r.file_name) ∷ [];
          })
        ])
    answered (ok a) k = release-IsNamed _ (same_names a _ refl refl refl refl k)
    answered (throw e) k = push_failed-IsNamed _ (pushed_after r f h)

pub on_close-IsNamed : (r : FilePushReader) → IsNamed r → IsNamed (on_close r)
unfolding on_close
on_close-IsNamed r h = release-IsNamed _ (same_names r _ refl refl refl refl h)
