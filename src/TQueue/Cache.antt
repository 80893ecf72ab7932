-- ===== src/TQueue/Cache.antt =====
-- The cache of free buckets: Q_freeElem, and Q_newElem from the cache and from a new chunk.
use tmpi.Base.{
  ◌-◌, inl, ℕ, zero, suc, ◌+◌, ◌*◌, ◌≤◌, ◌<◌, ◌≡◌, refl, sym, ap, ◌∙◌, subst, ◌⊎◌, inr, true, false,
  List, [], ◌∷◌, arith, ◌==◌, ==_iff, Bool-cases, ==_refl,
}
use tmpi.Queue.{has, ◌∈◌, ◌∉◌, Distinct}
use tmpi.TQueue.{to_user, update, TQueue, chain_chunk, take_chunk, new_elem, free_elem, last}
use tmpi.TQueue.Links.{Links-frame}
use tmpi.TQueue.Refine.{Chain, Chain-frame, IsQueue, to_bucket-to_user, IsFresh}

-- Q_freeElem puts a bucket that is in no use in front of the cache of a well-formed queue.
pub free_elem-IsQueue :
    (q : TQueue) (xs fs : List ℕ) (e : ℕ)
    → IsQueue q xs fs
    → IsFresh q xs fs e
    → IsQueue (free_elem q (to_user e)) xs (e ∷ fs)
unfolding free_elem
free_elem-IsQueue q xs fs e v f =
    let item : (to_user e == 0) ≡ false = ground arith in
    rw (item, to_bucket-to_user e)
      (record {
        links =
            Links-frame q.next q.prev _ _ q.ctrl xs q.ctrl (λ a m. refl) (λ a m. ground arith)
              v.links;
        distinct = v.distinct;
        counted = v.counted;
        nonzero = v.nonzero;
        cache = (
          refl,
          f.not_null,
          rw (==_refl e) (Chain-frame q.prev _ q.allocate fs (λ b m. ground arith) v.cache),
        );
        apart = λ a m. ground (arith, v.apart a);
        spare = (f.not_spare, v.spare);
      })

-- While the cache of a well-formed queue is not empty, Q_newElem returns the item of its first
-- bucket, which is then in no use, whatever malloc would return.
pub new_elem-cached :
    (chunk : ℕ) (q : TQueue) (xs fs : List ℕ) (f : ℕ)
    → IsQueue q xs (f ∷ fs)
    → let (q', p) = new_elem chunk q in (p ≡ to_user f) × IsQueue q' xs fs × IsFresh q' xs fs f
unfolding new_elem
new_elem-cached chunk q xs fs f v =
    let there : (q.allocate == 0) ≡ false = rw v.cache.0 v.cache.1 in
    rw there (
      ap to_user v.cache.0,
      record {
        links =
            Links-frame q.next q.prev _ _ q.ctrl xs q.ctrl
              (λ a m. ground (arith, v.apart f (ground arith), v.cache.0)) (λ a m. refl) v.links;
        distinct = v.distinct;
        counted = v.counted;
        nonzero = v.nonzero;
        cache = rw v.cache.0 v.cache.2;
        apart = λ a m. v.apart a (ground arith);
        spare = v.spare.1;
      },
      record { not_null = v.cache.1; not_queued = v.apart f (ground arith); not_spare = v.spare.0 },
    )

-- the buckets of a stretch of memory
abbrev pub buckets : (n b size : ℕ) → List ℕ
buckets zero b size = []
buckets (suc n) b size = b ∷ buckets n (b + size) size

pub buckets_range :
    (n b size a : ℕ) → 0 < size → a ∈ buckets n b size → (b ≤ a) × (a < b + n * size)
buckets_range zero b size a sized m = absurd (ground arith)
buckets_range (suc n) b size a sized m = elim (Bool-cases (a == b)) [
  | inl here ↦ let e : a ≡ b = (==_iff a b).0 here in (omega arith, omega arith)
  | inr there ↦
      let r = buckets_range n (b + size) size a sized (ground arith) in
      (omega (arith, r.0), omega (arith, r.1))
]

buckets-below : (n b size a : ℕ) → 0 < size → a < b → a ∉ buckets n b size
buckets-below n b size a sized h = elim (Bool-cases (has a (buckets n b size))) [
  | inl m ↦ absurd (omega (arith, (buckets_range n b size a sized m).0))
  | inr out ↦ out
]

Distinct-buckets : (n b size : ℕ) → 0 < size → Distinct (buckets n b size)
Distinct-buckets zero b size sized = tt
Distinct-buckets (suc n) b size sized = (
  buckets-below n (b + size) size b sized (omega arith),
  Distinct-buckets n (b + size) size sized,
)

-- the links that the loop and the last write leave
abbrev chained : (rounds size b : ℕ) (prev : ℕ → ℕ) → ℕ → ℕ
chained rounds size b prev =
    let (prev', last) = chain_chunk rounds size b prev in update prev' last 0

chained-frame :
    (n size b : ℕ) (prev : ℕ → ℕ) (a : ℕ)
    → a ∉ buckets (suc n) b size
    → chained n size b prev a ≡ prev a
unfolding chain_chunk
chained-frame zero size b prev a out = ground arith
chained-frame (suc n) size b prev a out =
    chained-frame n size (b + size) (update prev b (b + size)) a (ground arith) ∙ ground arith

-- The buckets of the chunk are chained in order.
chained-Chain :
    (n size b : ℕ) (prev : ℕ → ℕ)
    → 0 < size
    → 0 < b
    → Chain (chained n size b prev) b (buckets (suc n) b size)
unfolding chain_chunk
chained-Chain zero size b prev sized there = ground arith
chained-Chain (suc n) size b prev sized there =
    let prev₁ = update prev b (b + size) in
    let own : chained n size (b + size) prev₁ b ≡ b + size =
      chained-frame n size (b + size) prev₁ b
        (buckets-below (suc n) (b + size) size b sized (omega arith))
      ∙ ground arith in
    (
      refl,
      ground arith,
      subst (λ y. Chain (chained n size (b + size) prev₁) y (buckets (suc n) (b + size) size))
          (sym own) (chained-Chain n size (b + size) prev₁ sized (omega arith)),
    )

-- what malloc grants: the chunk shares no address with the queue
abbrev pub IsApart : (chunk bytes : ℕ) → List ℕ → Type 0
IsApart chunk bytes [] = Unit {0}
IsApart chunk bytes (a ∷ xs) = ((a < chunk) ⊎ (chunk + bytes ≤ a)) × IsApart chunk bytes xs

IsApart-mem :
    (chunk bytes a : ℕ) (xs : List ℕ)
    → IsApart chunk bytes xs
    → a ∈ xs
    → (a < chunk) ⊎ (chunk + bytes ≤ a)
IsApart-mem chunk bytes a [] out m = absurd (ground arith)
IsApart-mem chunk bytes a (x ∷ xs) out m = elim (Bool-cases (a == x)) [
  | inl here ↦ let e : a ≡ x = (==_iff a x).0 here in rw e out.0
  | inr there ↦ IsApart-mem chunk bytes a xs out.1 (ground arith)
]

not-mem-chunk :
    (chunk size n a : ℕ) (xs : List ℕ)
    → 0 < size
    → IsApart chunk (suc n * size) xs
    → a ∈ buckets (suc n) chunk size
    → a ∉ xs
not-mem-chunk chunk size n a xs sized out m = elim (Bool-cases (has a xs)) [
  | inl k ↦
      let r = buckets_range (suc n) chunk size a sized m in
      absurd (omega (arith, r.0, r.1, IsApart-mem chunk (suc n * size) a xs out k))
  | inr apart ↦ apart
]

-- When the cache of a well-formed queue is empty and malloc returns a chunk for at least two
-- buckets, apart from the queue's, Q_newElem returns the item of the first bucket of the chunk,
-- which is in no use, and the other buckets are the cache.
pub new_elem-chunk :
    (chunk g : ℕ) (q : TQueue) (xs : List ℕ)
    → IsQueue q xs []
    → 0 < chunk
    → q.chunk_group ≡ suc (suc g)
    → 0 < q.item_size
    → IsApart chunk (q.chunk_group * q.item_size) (q.ctrl ∷ xs)
    → let (q', p) = new_elem chunk q in
      let rest = buckets (suc g) (chunk + q.item_size) q.item_size in
      (p ≡ to_user chunk) × IsQueue q' xs rest × IsFresh q' xs rest chunk
unfolding new_elem take_chunk
new_elem-chunk chunk g q xs v there group sized out =
    let size = q.item_size in
    let behind = chunk + size in
    let outside : (a : ℕ) → a ∈ buckets (suc (suc g)) chunk size → a ∉ q.ctrl ∷ xs = λ a m.
      not-mem-chunk chunk size (suc g) a (q.ctrl ∷ xs) sized
        (subst (λ n. IsApart chunk (n * size) (q.ctrl ∷ xs)) group out) m in
    let none_left : (q.allocate == 0) ≡ true = (==_iff q.allocate 0).1 v.cache in
    let rounds : q.chunk_group - 2 ≡ g = omega (arith, group) in
    let granted : (chunk == 0) ≡ false = ground arith in
    let apart : (a : ℕ) → a ∈ buckets (suc g) behind size → a ∉ q.ctrl ∷ xs =
      λ a m. outside a (ground arith) in
    rw (none_left, granted, rounds)
      (
        refl,
        record {
          links =
              Links-frame q.next q.prev _ _ q.ctrl xs q.ctrl
                (λ a m. ground (arith, outside chunk (ground arith)))
                (λ a m. chained-frame g size behind q.prev a (ground (arith, apart a))) v.links;
          distinct = v.distinct;
          counted = v.counted;
          nonzero = v.nonzero;
          cache = chained-Chain g size behind q.prev sized (omega arith);
          apart = apart;
          spare = Distinct-buckets (suc g) behind size sized;
        },
        record {
          not_null = granted;
          not_queued = outside chunk (ground arith);
          not_spare = buckets-below (suc g) behind size chunk sized (omega arith);
        },
      )
