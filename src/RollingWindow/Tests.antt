-- ===== src/RollingWindow/Tests.antt =====
-- Four values in a window of two.
use proxmoxwhatsapp.Prelude.{◌≡◌, [], ◌∷◌, pos, ok, ◌>>=◌, arith}
use proxmoxwhatsapp.RollingWindow.{new_rolling_window, average}
use proxmoxwhatsapp.RollingWindow.Window.{total}
use proxmoxwhatsapp.RollingWindow.Latest.{push_all, average-push_all}

average-push_all_example :
    new_rolling_window 2
      >>= (λ w. ok (average (push_all (pos 1 ∷ (pos 2 ∷ (pos 3 ∷ (pos 4 ∷ [])))) w)))
    ≡ ok (record { numerator = total (pos 3 ∷ (pos 4 ∷ [])); denominator = 2 })
average-push_all_example =
    average-push_all 2 (pos 1 ∷ (pos 2 ∷ (pos 3 ∷ (pos 4 ∷ [])))) (omega arith) (omega arith)
