-- ===== src/Fifo.antt =====
-- The bounded queue between the threads and the network: src/runtime/src/net/netd/fifo.c. A call
-- runs under q->mtx up to a wait on one of the two condition variables, and from there on. Items are
-- numbers.
pub mod Items
pub mod Refine
mod Tests
use tmpi.Base.{
  ℕ, ◌+◌, ◌%◌, Bool, ◌&&◌, Option, none, some, ltb, ◌==◌, if◌then◌else◌, ℤ, pos, negsuc,
}
use tmpi.Intra.Types.{update}

-- FIFO_LEN_DEFAULT of fifo.h
abbrev pub fifo_len_default : ℕ
fifo_len_default = 1024

pub record Fifo : Type 0 where
  pub buf_size : ℕ
  pub header : ℕ
  pub tail : ℕ
  pub queue : ℕ → ℕ

-- What a call comes to: -1 or NULL, a wait for room or for an item, or the new state with its result.
pub data Call (A : Type 0) : Type 0 where
  fails : Call A
  waits : Call A
  succeeds : A → Fifo → Call A

-- `if (len<FIFO_LEN_DEFAULT) len=FIFO_LEN_DEFAULT;`
abbrev pub at_least : ℤ → ℕ
at_least (pos n) = if ltb n fifo_len_default then fifo_len_default else n
at_least (negsuc n) = fifo_len_default

-- fifo_create; the arguments after `len` say which of the allocations and initialisations succeed
unfoldable pub fifo_create :
    (len : ℤ) (got_fifo got_queue got_mtx got_full got_empty : Bool) → Option Fifo
fifo_create len got_fifo got_queue got_mtx got_full got_empty =
    if got_fifo && got_queue && got_mtx && got_full && got_empty
    then some (record { buf_size = at_least len; header = 0; tail = 0; queue = λ i. 0 })
    else none

-- the loop of fifo_enqueue and what follows it
unfoldable pub put_item : Fifo → (item : ℕ) → Call (Unit {0})
put_item q item =
    let newtail = (q.tail + 1) % q.buf_size in
    if newtail == q.header
    then waits
    else succeeds tt (record q { queue = update q.queue q.tail item; tail = newtail })

-- fifo_enqueue
unfoldable pub fifo_enqueue : (got_lock : Bool) → Fifo → (item : ℕ) → Call (Unit {0})
fifo_enqueue got_lock q item = if got_lock then put_item q item else fails

-- fifo_enqueue after its wait
unfoldable pub wake_enqueue : (waited : Bool) → Fifo → (item : ℕ) → Call (Unit {0})
wake_enqueue waited q item = if waited then put_item q item else fails

-- the loop of fifo_dequeue and what follows it
unfoldable pub take_item : Fifo → Call ℕ
take_item q =
    if q.tail == q.header
    then waits
    else succeeds (q.queue q.header) (record q { header = (q.header + 1) % q.buf_size })

-- fifo_dequeue
unfoldable pub fifo_dequeue : (got_lock : Bool) → Fifo → Call ℕ
fifo_dequeue got_lock q = if got_lock then take_item q else fails

-- fifo_dequeue after its wait
unfoldable pub wake_dequeue : (waited : Bool) → Fifo → Call ℕ
wake_dequeue waited q = if waited then take_item q else fails
