-- ===== src/Barrier/Tests.antt =====
-- A barrier of three threads.
use tmpi.Barrier.{Barrier, recheck, bar_wait, passes, waits}
use tmpi.Barrier.Round.{idle, arrivals, waiting, round_lem}
use tmpi.Base.{ℕ, ◌<◌, ◌≡◌, refl, true, false, some, arith}

two_wait : arrivals 2 (idle 3 false) ≡ some (waiting 3 false 2)
unfolding bar_wait recheck
two_wait = refl

round_lem_example :
    ((k : ℕ)
      → 0 < k
      → k < 3
      → (b : Barrier) × (arrivals k (idle 3 true) ≡ some b) × (recheck true b ≡ waits true b))
    × ((b : Barrier) × (arrivals 2 (idle 3 true) ≡ some b) × (bar_wait b ≡ passes (idle 3 false)))
    × ((k : ℕ)
        → k < 3
        → (b : Barrier) × (arrivals k (idle 3 false) ≡ some b) × (recheck true b ≡ passes b))
round_lem_example = round_lem 3 true (omega arith)
