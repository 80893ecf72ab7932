-- ===== src/Barrier/Round.antt =====
-- A round of the barrier.
use tmpi.Barrier.{Barrier, set_runners, Arrival, recheck, bar_wait, passes, waits}
use tmpi.Base.{
  ℕ, zero, suc, ◌+◌, ◌-◌, ◌<◌, ◌≡◌, refl, ap, Bool, true, false, not, Option, none, some, arith,
  ◌==◌, ==_refl,
}

-- a barrier at which nobody waits
abbrev pub idle : (count : ℕ) (s : Bool) → Barrier
idle count s = record { maxcnt = count; runners_0 = count; runners_1 = count; second = s }

-- `k` arrivals, none of which may pass
abbrev pub still_waits : Arrival → Option Barrier
still_waits (passes b) = none
still_waits (waits s b) = some b

abbrev pub and_waits : Option Barrier → Option Barrier
and_waits none = none
and_waits (some b) = still_waits (bar_wait b)

abbrev pub arrivals : (k : ℕ) → Barrier → Option Barrier
arrivals zero b = some b
arrivals (suc k) b = and_waits (arrivals k b)

-- the barrier at which `k` threads wait
abbrev pub waiting : (count : ℕ) (s : Bool) (k : ℕ) → Barrier
waiting count s k = set_runners (idle count s) s (count - k)

one_waits :
    (count : ℕ) (s : Bool) (k : ℕ)
    → k + 1 < count
    → bar_wait (waiting count s k) ≡ waits s (waiting count s (suc k))
unfolding bar_wait recheck
one_waits count false k h =
    let many : (count - k == 1) ≡ false = ground arith in
    let less : (count - k - 1 == count) ≡ false = ground arith in
    rw (many, less)
      (ap (λ (n : ℕ). waits false (set_runners (idle count false) false n)) (omega arith))
one_waits count true k h =
    let many : (count - k == 1) ≡ false = ground arith in
    let less : (count - k - 1 == count) ≡ false = ground arith in
    rw (many, less)
      (ap (λ (n : ℕ). waits true (set_runners (idle count true) true n)) (omega arith))

arrivals-waiting :
    (count : ℕ) (s : Bool) (k : ℕ)
    → k < count
    → arrivals k (idle count s) ≡ some (waiting count s k)
arrivals-waiting count false zero h =
    ap (λ (n : ℕ). some (set_runners (idle count false) false n)) (omega arith)
arrivals-waiting count true zero h =
    ap (λ (n : ℕ). some (set_runners (idle count true) true n)) (omega arith)
arrivals-waiting count s (suc k) h =
    rw (arrivals-waiting count s k (omega arith), one_waits count s k (omega arith)) refl

-- the last one
last_passes :
    (count : ℕ) (s : Bool) (k : ℕ)
    → k + 1 ≡ count
    → 1 < count
    → bar_wait (waiting count s k) ≡ passes (idle count (not s))
unfolding bar_wait
last_passes count false k h many =
    let last : (count - k == 1) ≡ true = ground arith in
    let several : (count == 1) ≡ false = ground arith in rw (last, several) refl
last_passes count true k h many =
    let last : (count - k == 1) ≡ true = ground arith in
    let several : (count == 1) ≡ false = ground arith in rw (last, several) refl

waiter_stays :
    (count : ℕ) (s : Bool) (k : ℕ)
    → 0 < k
    → k < count
    → recheck s (waiting count s k) ≡ waits s (waiting count s k)
unfolding recheck
waiter_stays count false k a b =
    let less : (count - k == count) ≡ false = ground arith in rw less refl
waiter_stays count true k a b =
    let less : (count - k == count) ≡ false = ground arith in rw less refl

waiter_leaves :
    (count : ℕ) (s : Bool) (k : ℕ)
    → recheck s (waiting count (not s) k) ≡ passes (waiting count (not s) k)
unfolding recheck
waiter_leaves count false k = rw (==_refl count) refl
waiter_leaves count true k = rw (==_refl count) refl

-- A round of a barrier of `count` threads, at least two, on either sub-barrier: of the first
-- count - 1 that arrive each one waits, and stays there however often it is woken; the last one
-- passes, and makes the barrier ready for the next round on the other sub-barrier. From then on each
-- waiter passes when it is woken, also when up to count - 1 threads have already arrived for the
-- next round.
pub round_lem :
    (count : ℕ) (s : Bool)
    → 1 < count
    → ((k : ℕ)
        → 0 < k
        → k < count
        → (b : Barrier) × (arrivals k (idle count s) ≡ some b) × (recheck s b ≡ waits s b))
      × ((b : Barrier) × (arrivals (count - 1) (idle count s) ≡ some b)
          × (bar_wait b ≡ passes (idle count (not s))))
      × ((k : ℕ)
          → k < count
          → (b : Barrier) × (arrivals k (idle count (not s)) ≡ some b) × (recheck s b ≡ passes b))
round_lem count s many = (
  λ k some_one few.
      (waiting count s k, arrivals-waiting count s k few, waiter_stays count s k some_one few),
  (
    waiting count s (count - 1),
    arrivals-waiting count s (count - 1) (omega arith),
    last_passes count s (count - 1) (omega arith) many,
  ),
  λ k few. (waiting count (not s) k, arrivals-waiting count (not s) k few, waiter_leaves count s k),
)
