-- ===== src/Barrier.antt =====
-- The barrier of the threads of a node: src/runtime/src/intra/barrier.c. A call runs under the lock
-- of a sub-barrier up to its wait, and from there on.
pub mod Round
mod Tests
use tmpi.Base.{
  ℕ, ◌-◌, Bool, true, false, not, Option, none, some, List, [], ◌∷◌, ltb, ◌==◌, if◌then◌else◌, ℤ,
  pos, negsuc,
}

-- tmpi_Bar; `second` says that sbp is &sb[1]
pub record Barrier : Type 0 where
  pub maxcnt : ℕ
  pub runners_0 : ℕ
  pub runners_1 : ℕ
  pub second : Bool

-- sb[s].runners
abbrev pub runners : Barrier → (s : Bool) → ℕ
runners b false = b.runners_0
runners b true = b.runners_1

abbrev pub set_runners : Barrier → (s : Bool) → ℕ → Barrier
set_runners b false n = record b { runners_0 = n }
set_runners b true n = record b { runners_1 = n }

-- bar_wait returns, or waits on the condition of a sub-barrier.
pub data Arrival : Type 0 where
  passes : Barrier → Arrival
  waits : (s : Bool) → Barrier → Arrival

-- the first result that is not 0
abbrev pub first_error : List ℕ → ℕ
first_error [] = 0
first_error (n ∷ ns) = if n == 0 then first_error ns else n

-- bar_init, on the results of the four initialisations: what it returns, and the barrier if that is 0
unfoldable pub bar_init : (count : ℤ) (results : List ℕ) → ℤ × Option Barrier
bar_init (negsuc n) results = (negsuc 0, none)
bar_init (pos count) results =
    if ltb count 1
    then (negsuc 0, none)
    else if first_error results == 0
    then (
      pos 0,
      some (record { maxcnt = count; runners_0 = count; runners_1 = count; second = false }),
    )
    else (pos (first_error results), none)

-- the loop around the wait, on sub-barrier `s`
unfoldable pub recheck : (s : Bool) → Barrier → Arrival
recheck s b = if runners b s == b.maxcnt then passes b else waits s b

-- bar_wait; a sub-barrier has at least one runner, so that the subtraction is exact
unfoldable pub bar_wait : Barrier → Arrival
bar_wait b =
    let s = b.second in
    if runners b s == 1
    then (if b.maxcnt == 1
        then passes b
        else passes (record (set_runners b s b.maxcnt) { second = not s }))
    else recheck s (set_runners b s (runners b s - 1))
