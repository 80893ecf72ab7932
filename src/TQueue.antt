-- ===== src/TQueue.antt =====
-- src/runtime/src/utils/tqueue/tqueue.c: a circular doubly linked list through the BUCKET in front of
-- each item, and a cache of free buckets that are chained by `prev`. The link fields of all buckets
-- are two functions of the address; 0 is NULL. alloc_lock and the caller's lock make each call one
-- step.
pub mod Links
pub mod Refine
pub mod Find
pub mod Cache
pub mod Init
pub mod Reset
mod Tests
use tmpi.Base.{
  ℕ, zero, suc, ◌+◌, ◌-◌, ◌*◌, ◌/◌, ◌%◌, Bool, not, ◌||◌, Option, none, some, leb, ◌==◌,
  if◌then◌else◌, ℤ,
}

-- a comparison function of the client
abbrev pub Cmp : Type 0
Cmp = (item context : ℕ) (tag src : ℤ) → ℕ

-- sizeof(BUCKET): two pointers
abbrev pub bucket_size : ℕ
bucket_size = 16

-- `(void *)(b + 1)` and `(BUCKET *)elem - 1`
abbrev pub to_user : ℕ → ℕ
to_user b = b + bucket_size

abbrev pub to_bucket : ℕ → ℕ
to_bucket elem = elem - bucket_size

abbrev pub update : (ℕ → ℕ) → ℕ → ℕ → ℕ → ℕ
update f p v a = if a == p then v else f a

-- TQueue, with the links of every bucket. `ctrl` is the address of its own bucket, qctrl. `count`
-- goes down only when an item is unlinked, so it does not fall below 0 in a well-formed queue.
pub record TQueue : Type 0 where
  pub next : ℕ → ℕ
  pub prev : ℕ → ℕ
  pub ctrl : ℕ
  pub count : ℕ
  pub ucount : ℕ
  pub cmp : Option Cmp
  pub allocate : ℕ
  pub item_size : ℕ
  pub chunk_group : ℕ

-- The loop of Q_newElem over a new chunk: each bucket from the second on is chained to the one
-- behind it. Returns the chain and the last bucket.
unfoldable pub chain_chunk : (rounds size b1 : ℕ) → (ℕ → ℕ) → (ℕ → ℕ) × ℕ
chain_chunk zero size b1 prev = (prev, b1)
chain_chunk (suc n) size b1 prev = chain_chunk n size (b1 + size) (update prev b1 (b1 + size))

-- A new chunk: its first bucket is handed out, the others become the cache.
unfoldable pub take_chunk : (chunk : ℕ) → TQueue → TQueue
take_chunk chunk q =
    let (prev, last) = chain_chunk (q.chunk_group - 2) q.item_size (chunk + q.item_size) q.prev in
    record q {
      prev = update prev last 0;
      allocate = chunk + q.item_size;
      next = update q.next chunk 0;
    }

-- Q_newElem; `chunk` is what malloc returns if the cache is empty. The result is NULL or a pointer
-- to the item.
unfoldable pub new_elem : (chunk : ℕ) → TQueue → TQueue × ℕ
new_elem chunk q =
    if not (q.allocate == 0)
    then (
      record q { allocate = q.prev q.allocate; next = update q.next q.allocate 0 },
      to_user q.allocate,
    )
    else if chunk == 0
    then (q, 0)
    else (take_chunk chunk q, to_user chunk)

-- Q_freeElem
unfoldable pub free_elem : TQueue → ℕ → TQueue
free_elem q elem =
    if elem == 0
    then q
    else record q { prev = update q.prev (to_bucket elem) q.allocate; allocate = to_bucket elem }

-- the three assignments of Q_delElem
unfoldable pub unlinked : TQueue → ℕ → TQueue
unlinked q e =
    let next = update q.next (q.prev e) (q.next e) in
    record q { next = next; prev = update q.prev (next e) (q.prev e); count = q.count - 1 }

-- Q_delElem; none when it writes at NULL. A link that is not NULL is taken to point to a BUCKET.
unfoldable pub del_elem : TQueue → ℕ → Option TQueue
del_elem q e = if q.prev e == 0 || q.next e == 0 then none else some (unlinked q e)

-- a queue with the item that a call returns, if the call does not fault
abbrev pub and_item : (item : ℕ) → Option TQueue → Option (TQueue × ℕ)
and_item item none = none
and_item item (some q) = some (q, item)

-- Q_removeElem
unfoldable pub remove_elem : TQueue → ℕ → Option (TQueue × ℕ)
remove_elem q elem = and_item elem (del_elem q (to_bucket elem))

-- `item_size % 0x07` decides whether the size is rounded up to a multiple of 8.
unfoldable pub round_size : ℕ → ℕ
round_size item_size = if item_size % 0x07 == 0 then item_size else (item_size + 7) / 8 * 8

-- Q_init; `cmp` is the function pointer, `none` for NULL, and `chunk` what malloc returns
unfoldable pub init : (chunk : ℕ) → TQueue → Option Cmp → (item_size group : ℕ) → TQueue
init chunk q cmp item_size group =
    let q' : TQueue = record q {
      count = 0;
      ucount = 0;
      cmp = cmp;
      prev = update q.prev q.ctrl q.ctrl;
      next = update q.next q.ctrl q.ctrl;
      allocate = 0;
      item_size = round_size item_size + bucket_size;
      chunk_group = group;
    } in
    let (q'', elem) = new_elem chunk q' in free_elem q'' elem

-- Q_create; `object` is the new TQueue, `none` if malloc fails
unfoldable pub create :
    (chunk : ℕ) (object : Option TQueue) → Option Cmp → (item_size group : ℕ) → Option TQueue
create chunk object cmp item_size group =
    if item_size == 0 || leb group 1
    then none
    else elim object [ none ↦ none | some q ↦ some (init chunk q cmp item_size group) ]

-- enQ
unfoldable pub enq : TQueue → ℕ → TQueue
enq q elem =
    let e = to_bucket elem in
    let next₁ = update q.next e q.ctrl in
    let prev₁ = update q.prev e (q.prev q.ctrl) in
    record q {
      next = update next₁ (prev₁ q.ctrl) e;
      prev = update prev₁ q.ctrl e;
      count = q.count + 1;
    }

-- deQ
unfoldable pub deq : TQueue → Option (TQueue × ℕ)
deq q =
    if q.next q.ctrl == q.ctrl
    then some (q, 0)
    else and_item (to_user (q.next q.ctrl)) (del_elem q (q.next q.ctrl))

-- The walk of Q_probe and Q_find from bucket `e`: the first bucket whose item passes, `none` at the
-- end of the queue. `out_of_fuel` is not reached with `count + 1` rounds.
pub data Walk : Type 0 where
  found : ℕ → Walk
  at_end out_of_fuel : Walk

unfoldable pub walk : (ℕ → Bool) → (ctrl : ℕ) (next : ℕ → ℕ) → (fuel e : ℕ) → Walk
walk test ctrl next zero e = out_of_fuel
walk test ctrl next (suc n) e =
    let rest = walk test ctrl next n (next e) in
    if e == 0 || e == ctrl then at_end else if test e then found e else rest

-- `(*p->cmp)((void *)(e+1), context, tag, src)==0`
abbrev pub passes : Cmp → (context : ℕ) (tag src : ℤ) → ℕ → Bool
passes cmp context tag src e = cmp (to_user e) context tag src == 0

-- what Q_probe and Q_find make of the end of the walk
abbrev pub probed : Walk → ℕ
probed (found e) = to_user e
probed at_end = 0
probed out_of_fuel = 0

abbrev pub take_found : TQueue → Walk → Option (TQueue × ℕ)
take_found q (found e) = and_item (to_user e) (del_elem q e)
take_found q at_end = some (q, 0)
take_found q out_of_fuel = some (q, 0)

-- Q_probe, by the client's function
unfoldable pub probe_with : TQueue → Option Cmp → (context : ℕ) (tag src : ℤ) → ℕ
probe_with q none context tag src = 0
probe_with q (some cmp) context tag src =
    probed (walk (passes cmp context tag src) q.ctrl q.next (q.count + 1) (q.next q.ctrl))

unfoldable pub probe_q : TQueue → (context : ℕ) (tag src : ℤ) → ℕ
probe_q q = probe_with q q.cmp

-- Q_find, by the client's function
unfoldable pub find_with : TQueue → Option Cmp → (context : ℕ) (tag src : ℤ) → Option (TQueue × ℕ)
find_with q none context tag src = some (q, 0)
find_with q (some cmp) context tag src =
    take_found q (walk (passes cmp context tag src) q.ctrl q.next (q.count + 1) (q.next q.ctrl))

unfoldable pub find : TQueue → (context : ℕ) (tag src : ℤ) → Option (TQueue × ℕ)
find q = find_with q q.cmp

-- Q_isEmpty
unfoldable pub is_empty : TQueue → Bool
is_empty q = q.count == 0

-- Q_first, Q_last, Q_next
unfoldable pub first : TQueue → ℕ
first q = if q.ctrl == q.next q.ctrl then 0 else to_user (q.next q.ctrl)

unfoldable pub last : TQueue → ℕ
last q = if q.ctrl == q.prev q.ctrl then 0 else to_user (q.prev q.ctrl)

unfoldable pub next_of : TQueue → ℕ → ℕ
next_of q item = if q.ctrl == q.next (to_bucket item) then 0 else to_user (q.next (to_bucket item))

-- the item of a call goes back to the cache
abbrev pub free_removed : Option (TQueue × ℕ) → Option TQueue
free_removed none = none
free_removed (some (q, elem)) = some (free_elem q elem)

-- One round of the loop of Q_reset, which hands Q_removeElem a bucket, not an item; none when it
-- writes at NULL.
unfoldable pub reset_step : TQueue → Option TQueue
reset_step q = free_removed (remove_elem q (q.next q.ctrl))

-- what Q_reset comes to, of a number of tests of its loop's condition
pub data ResetRun : Type 0 where
  done : TQueue → ResetRun
  goes_on faults : ResetRun

-- Q_reset, of at most `fuel` tests
unfoldable pub reset : (fuel : ℕ) → TQueue → ResetRun
reset zero q = goes_on
reset (suc n) q =
    if q.ctrl == q.next q.ctrl
    then done (record q { ucount = 0 })
    else elim (reset_step q) [ none ↦ faults | some q' ↦ reset n q' ]
