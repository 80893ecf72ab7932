-- ===== src/TQueue/Tests.antt =====
-- A queue of items of eight bytes with four buckets at 1000, and what the calls make of it.
use tmpi.Base.{
  ℕ, ◌+◌, ◌≡◌, refl, subst, ◌≢◌, inl, false, none, some, List, [], ◌∷◌, arith, ◌==◌, if◌then◌else◌,
  eqb, pos,
}
use tmpi.Queue.{probe}
use tmpi.TQueue.{
  Cmp, to_bucket, TQueue, chain_chunk, take_chunk, new_elem, free_elem, round_size, init, enq,
  passes, find, reset, done, faults,
}
use tmpi.TQueue.Cache.{new_elem-cached, buckets}
use tmpi.TQueue.Find.{item_of, without, find-probe}
use tmpi.TQueue.Init.{init-IsQueue}
use tmpi.TQueue.Refine.{IsQueue, IsFresh, enq-IsQueue}
use tmpi.TQueue.Reset.{reset-cons}

-- an item passes if its address is the tag
abbrev by_tag : Cmp
by_tag item context tag src = if eqb (pos item) tag then 0 else 1

abbrev blank : TQueue
blank = record {
  next = λ a. 0;
  prev = λ a. 0;
  ctrl = 8;
  count = 7;
  ucount = 7;
  cmp = none;
  allocate = 0;
  item_size = 0;
  chunk_group = 0;
}

abbrev start : TQueue
start = init 1000 blank (some by_tag) 8 4

rounded : round_size 8 ≡ 8
unfolding round_size
rounded = refl

empty : IsQueue start [] (1000 ∷ 1024 ∷ 1048 ∷ 1072 ∷ [])
empty =
    subst (λ n. IsQueue start [] (buckets 4 1000 (n + 16))) rounded
      (init-IsQueue 1000 2 blank (some by_tag) 8 (omega arith) (omega arith) (inl (omega arith)))

-- the first bucket is taken and put in the queue
abbrev taken : TQueue
taken = (new_elem 0 start).0

took :
    ((new_elem 0 start).1 ≡ 1016)
    × IsQueue taken [] (1024 ∷ 1048 ∷ 1072 ∷ [])
    × IsFresh taken [] (1024 ∷ 1048 ∷ 1072 ∷ []) 1000
took = new_elem-cached 0 start [] (1024 ∷ 1048 ∷ 1072 ∷ []) 1000 empty

abbrev one : TQueue
one = enq taken 1016

enq-IsQueue_example : IsQueue one (1000 ∷ []) (1024 ∷ 1048 ∷ 1072 ∷ [])
enq-IsQueue_example = enq-IsQueue taken [] (1024 ∷ 1048 ∷ 1072 ∷ []) 1000 took.1 took.2

one-IsQueue : IsQueue one (1000 ∷ []) (1024 ∷ 1048 ∷ 1072 ∷ [])
one-IsQueue = enq-IsQueue taken [] (1024 ∷ 1048 ∷ 1072 ∷ []) 1000 took.1 took.2

-- and a second
took₂ :
    ((new_elem 0 one).1 ≡ 1040)
    × IsQueue (new_elem 0 one).0 (1000 ∷ []) (1048 ∷ 1072 ∷ [])
    × IsFresh (new_elem 0 one).0 (1000 ∷ []) (1048 ∷ 1072 ∷ []) 1024
took₂ = new_elem-cached 0 one (1000 ∷ []) (1048 ∷ 1072 ∷ []) 1024 one-IsQueue

abbrev two : TQueue
two = enq (new_elem 0 one).0 1040

two-IsQueue : IsQueue two (1000 ∷ 1024 ∷ []) (1048 ∷ 1072 ∷ [])
two-IsQueue = enq-IsQueue (new_elem 0 one).0 (1000 ∷ []) (1048 ∷ 1072 ∷ []) 1024 took₂.1 took₂.2

two-cmp : two.cmp ≡ some by_tag
unfolding enq new_elem init free_elem take_chunk round_size
two-cmp = refl

find-probe_example :
    let r = probe (passes by_tag 0 (pos 1040) (pos 0)) (1000 ∷ 1024 ∷ []) in
    (q' : TQueue) × (find two 0 (pos 1040) (pos 0) ≡ some (q', item_of r))
    × IsQueue q' (without (1000 ∷ 1024 ∷ []) r) (1048 ∷ 1072 ∷ [])
find-probe_example =
    find-probe two (1000 ∷ 1024 ∷ []) (1048 ∷ 1072 ∷ []) by_tag 0 (pos 1040) (pos 0) two-IsQueue
      two-cmp

-- a queue whose cache is empty, and a chunk at 2000 that it gets
abbrev drained : TQueue
drained = record blank { next = λ a. 8; prev = λ a. 8; count = 0; item_size = 24; chunk_group = 3 }

drained-IsQueue : IsQueue drained [] []
drained-IsQueue = record {
  links = (refl, refl);
  distinct = (refl, tt);
  counted = refl;
  nonzero = refl;
  cache = refl;
  apart = λ a m. absurd (ground arith);
  spare = tt;
}

two-apart : (to_bucket 1000 == two.ctrl) ≡ false
unfolding enq new_elem init free_elem take_chunk round_size
two-apart = refl

two-head : (two.prev (to_bucket 1000) == two.ctrl) ≡ false
unfolding enq new_elem init free_elem take_chunk chain_chunk round_size
two-head = refl

-- the same queue with no free bucket
abbrev full : TQueue
full = record two { allocate = 0 }

full-IsQueue : IsQueue full (1000 ∷ 1024 ∷ []) []
full-IsQueue = record {
  links = two-IsQueue.links;
  distinct = two-IsQueue.distinct;
  counted = two-IsQueue.counted;
  nonzero = two-IsQueue.nonzero;
  cache = refl;
  apart = λ a m. absurd (ground arith);
  spare = tt;
}

reset-cons_example :
    ((n : ℕ) (r : TQueue) → reset n full ≢ done r)
    × (◌≡◌ {A = List ℕ} [] [] → (n : ℕ) → reset (n + 2) full ≡ faults)
reset-cons_example = reset-cons full 1000 (1024 ∷ []) [] full-IsQueue two-apart two-head
