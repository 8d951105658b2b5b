-- ===== src/RollingWindow.antt =====
-- app/googDevice/client/RollingWindow.ts: a ring buffer of fixed capacity with a running sum. The
-- values are integers.
pub mod Window
pub mod Latest
mod Tests
use proxmoxwhatsapp.Prelude.{
  ℕ, zero, suc, ◌+◌, ◌%◌, List, set, get_or, replicate, if◌then◌else◌, ltb, ◌==◌, ℤ, pos, ◌+ℤ◌,
  ◌-ℤ◌, Result, ok, throw, plain_error,
}

pub record RollingWindow : Type 0 where
  pub buffer : List ℤ
  pub capacity : ℕ
  pub start : ℕ
  pub size : ℕ
  pub sum : ℤ

unfoldable pub new_rolling_window : ℕ → Result RollingWindow
new_rolling_window capacity =
    if capacity == 0
    then throw plain_error
    else ok (record {
      buffer = replicate capacity (pos 0);
      capacity = capacity;
      start = 0;
      size = 0;
      sum = pos 0;
    })

unfoldable pub count : RollingWindow → ℕ
count w = w.size

unfoldable pub push : ℤ → RollingWindow → RollingWindow
push value w =
    let index = (w.start + w.size) % w.capacity in
    let evicted = get_or w.buffer w.start (pos 0) in
    if ltb w.size w.capacity
    then record w { buffer = set w.buffer index value; size = w.size + 1; sum = w.sum +ℤ value }
    else record w {
      buffer = set w.buffer w.start value;
      start = (w.start + 1) % w.capacity;
      sum = w.sum +ℤ (value -ℤ evicted);
    }

-- `sum / size`, as a fraction; 0 when the window is empty.
pub record Fraction : Type 0 where
  pub numerator : ℤ
  pub denominator : ℕ

unfoldable pub average : RollingWindow → Fraction
average w =
    if w.size == 0
    then record { numerator = pos 0; denominator = 1 }
    else record { numerator = w.sum; denominator = w.size }

unfoldable pub clear : RollingWindow → RollingWindow
clear w = record w { start = 0; size = 0; sum = pos 0 }
