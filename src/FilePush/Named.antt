-- ===== src/FilePush/Named.antt =====
-- Where a push may go, and that every handler of a reader keeps it.
use proxmoxwhatsapp.Prelude.{
  ℕ, sym, ap, ◌∙◌, ◌≡◌, refl, List, [], ◌∷◌, ◌++◌, All, Bool, true, false, Option, none, some, ℤ,
  Result, ok, throw, ◌>>=◌, if◌then◌else◌, arith,
}
use mathlib.Core.Path.{subst}
use proxmoxwhatsapp.Subnet.Text.{Str}
use proxmoxwhatsapp.FilePush.{
  FilePushReader, PushState, initial, new, start, append, finish, cancel, is_safe_remote_path,
  send_response, create_response, release, close_with_error, new_reader,
}

-- The states in which a name has been given, and those in which a push may be under way.
abbrev pub has_name : PushState → Bool
has_name start = true
has_name append = true
has_name finish = true
has_name _ = false

abbrev pub may_finish : PushState → Bool
may_finish finish = true
may_finish cancel = true
may_finish _ = false

abbrev pub WasChecked : Option (List ℕ) × Str → Type 0
WasChecked push = is_safe_remote_path push.1 ≡ true

-- Everything pushed went to a destination that was checked, and what may yet be pushed has one.
pub record IsNamed (r : FilePushReader) : Type 0 where
  pub named : has_name r.state ≡ true → is_safe_remote_path r.file_name ≡ true
  pub finishing :
      r.is_finishing ≡ true → (is_safe_remote_path r.file_name ≡ true) × (may_finish r.state ≡ true)
  pub checked : All WasChecked r.pushed

abbrev pub IsNamedResult : Result FilePushReader → Type 0
IsNamedResult (ok r) = IsNamed r
IsNamedResult (throw e) = Unit

pub new_reader-IsNamed : (file_id : ℕ) → IsNamed (new_reader file_id)
unfolding new_reader
new_reader-IsNamed file_id = record {
  named = λ h. ground arith;
  finishing = λ h. ground arith;
  checked = tt;
}

pub either :
    (c : Bool) (x y : Result FilePushReader)
    → (c ≡ true → IsNamedResult x)
    → (c ≡ false → IsNamedResult y)
    → IsNamedResult (if c then x else y)
either true x y f g = f refl
either false x y f g = g refl

-- The fields that count are those of another reader.
pub same_names :
    (r s : FilePushReader)
    → r.state ≡ s.state
    → r.file_name ≡ s.file_name
    → r.is_finishing ≡ s.is_finishing
    → r.pushed ≡ s.pushed
    → IsNamed r
    → IsNamed s
same_names r s a b c d h = record {
  named = λ e. sym (ap is_safe_remote_path b) ∙ h.named (ap has_name a ∙ e);
  finishing = λ e.
      let (safe, under_way) = h.finishing (c ∙ e) in
      (sym (ap is_safe_remote_path b) ∙ safe, sym (ap may_finish a) ∙ under_way);
  checked = subst (All WasChecked) d h.checked;
}

pub send_response-IsNamed :
    (status : ℤ) (r : FilePushReader) → IsNamed r → IsNamedResult (send_response status r)
unfolding send_response
send_response-IsNamed status r h =
    either r.channel_open _ _ (λ _. answered (create_response r.push_id status)) (λ _. h)
  where
    answered :
        (response : Result (List ℕ))
        → IsNamedResult (response >>= λ bytes. ok (record r { sent = r.sent ++ bytes ∷ [] }))
    answered (ok bytes) = same_names r _ refl refl refl refl h
    answered (throw e) = tt

pub release-IsNamed : (r : FilePushReader) → IsNamed r → IsNamed (release r)
unfolding release
release-IsNamed r h = by_disposed r.disposed
  where
    by_disposed :
        (disposed : Bool)
        → IsNamed (
            if disposed then r else record r {
              disposed = true;
              is_writing = false;
              temp_file = none;
              channel_open = false;
            })
    by_disposed true = h
    by_disposed false = same_names r _ refl refl refl refl h

pub close_with_error-IsNamed :
    (code : ℤ) (r : FilePushReader) → IsNamed r → IsNamed (close_with_error code r)
unfolding close_with_error
close_with_error-IsNamed code r h = release-IsNamed _ (same_names r _ refl refl refl refl h)

-- No push waits before FINISH.
idle :
    {P : Type 0} (state : PushState) (r : FilePushReader)
    → IsNamed r
    → r.state ≡ state
    → may_finish state ≡ false
    → r.is_finishing ≡ true
    → P
idle state r h e m f = absurd (true-false (sym (h.finishing f).1 ∙ ap may_finish e ∙ m))
  where
    true-false : true ≡ false → ⊥
    true-false q = ground arith

-- What NEW, START, APPEND and CANCEL have set when they answer: what they leave when that throws.
pub data Left : FilePushReader → FilePushReader → Type 0 where
  begun :
      (r : FilePushReader) (file_id : ℕ) (push_id : ℤ)
      → r.state ≡ initial
      → Left r (record r { state = new; file_id = file_id; push_id = push_id })
  started :
      (r : FilePushReader) (name : Str)
      → r.state ≡ new
      → is_safe_remote_path name ≡ true
      → Left r
          (record r { file_name = name; state = start; temp_file = some []; is_writing = true })
  appended_first :
      (r : FilePushReader) (file : Option (List ℕ))
      → r.state ≡ start
      → Left r (record r { state = append; temp_file = file })
  appended :
      (r : FilePushReader) (file : Option (List ℕ))
      → r.state ≡ append
      → Left r (record r { state = append; temp_file = file })
  cancelled :
      (r : FilePushReader)
      → Left r (record r { state = cancel; is_writing = false; temp_file = none })

pub Left-IsNamed : (r s : FilePushReader) → Left r s → IsNamed r → IsNamed s
Left-IsNamed _ _ (begun r file_id push_id e) h = record {
  named = λ f. ground arith;
  finishing = λ f. idle initial r h e refl f;
  checked = h.checked;
}
Left-IsNamed _ _ (started r name e safe) h = record {
  named = λ _. safe;
  finishing = λ f. idle new r h e refl f;
  checked = h.checked;
}
Left-IsNamed _ _ (appended_first r file e) h = record {
  named = λ _. h.named (ap has_name e);
  finishing = λ f. idle start r h e refl f;
  checked = h.checked;
}
Left-IsNamed _ _ (appended r file e) h = record {
  named = λ _. h.named (ap has_name e);
  finishing = λ f. idle append r h e refl f;
  checked = h.checked;
}
Left-IsNamed _ _ (cancelled r) h = record {
  named = λ f. ground arith;
  finishing = λ f. ((h.finishing f).0, refl);
  checked = h.checked;
}
