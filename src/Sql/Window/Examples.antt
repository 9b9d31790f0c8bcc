-- ===== src/Sql/Window/Examples.antt =====
-- Windows of 20 nanoseconds every 10 nanoseconds.
use dozer.Common.{ℕ, ◌+◌, ◌<◌, ◌≡◌, refl, Bool, true, some, length, All, ◌-◌, ◌%◌, Succeeds, arith}
use dozer.Sql.Window.Operator.{Clock, timestamp, hop_windows}
use dozer.Sql.Window.Hopping.{hops, has_start, Covers, hop_windows-Covers}

abbrev clock : Clock
clock = record { last_instant = 1000; duration_trunc = λ t d. some (t - t % d) }

hop_windows-Covers_example : Succeeds (hop_windows {F = Bool} clock (timestamp 101) 10 20) (λ ws.
    (length ws ≡ 2)
    × All (Covers 101 100 10 20) ws
    × ((s j : ℕ) → s + hops j 10 ≡ 100 → 101 < s + 20 → has_start s ws ≡ true))
hop_windows-Covers_example =
    hop_windows-Covers {F = Bool} clock 101 100 1 10 (omega arith) refl (omega arith) (omega arith)
      (omega arith) (omega arith)
