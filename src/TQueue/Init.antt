-- ===== src/TQueue/Init.antt =====
-- Q_init: the first chunk of a new queue.
use tmpi.Base.{ℕ, suc, ◌+◌, ◌*◌, ◌≤◌, ◌<◌, refl, sym, subst, ◌⊎◌, Option, [], arith}
use tmpi.TQueue.{Cmp, bucket_size, update, TQueue, new_elem, free_elem, round_size, init}
use tmpi.TQueue.Refine.{IsQueue}
use tmpi.TQueue.Cache.{free_elem-IsQueue, buckets, new_elem-chunk}

-- Q_init, with a chunk for at least two buckets that does not hold `qctrl`, makes an empty,
-- well-formed queue that has the whole chunk in its cache, in order.
pub init-IsQueue :
    (chunk g : ℕ) (q : TQueue) (cmp : Option Cmp) (item_size : ℕ)
    → 0 < chunk
    → 0 < q.ctrl
    → (q.ctrl < chunk) ⊎ (chunk + suc (suc g) * (round_size item_size + bucket_size) ≤ q.ctrl)
    → IsQueue
        (init chunk q cmp item_size (suc (suc g)))
        []
        (buckets (suc (suc g)) chunk (round_size item_size + bucket_size))
unfolding init
init-IsQueue chunk g q cmp item_size there here out =
    let size = round_size item_size + bucket_size in
    let q' : TQueue = record q {
      count = 0;
      ucount = 0;
      cmp = cmp;
      prev = update q.prev q.ctrl q.ctrl;
      next = update q.next q.ctrl q.ctrl;
      allocate = 0;
      item_size = size;
      chunk_group = suc (suc g);
    } in
    let empty : IsQueue q' [] [] = record {
      links = (ground arith, ground arith);
      distinct = ground arith;
      counted = refl;
      nonzero = ground arith;
      cache = refl;
      apart = λ a m. absurd (ground arith);
      spare = tt;
    } in
    let got = new_elem-chunk chunk g q' [] empty there refl (omega arith) (out, tt) in
    let (q'', elem) = new_elem chunk q' in
    subst (λ e. IsQueue (free_elem q'' e) [] (buckets (suc (suc g)) chunk size)) (sym got.0)
      (free_elem-IsQueue q'' [] (buckets (suc g) (chunk + size) size) chunk got.1 got.2)
