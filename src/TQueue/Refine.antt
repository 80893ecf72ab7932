-- ===== src/TQueue/Refine.antt =====
-- The linked list of tqueue.c as a queue of `Queue`: when it is well formed, and what enQ, deQ and
-- Q_delElem make of it.
use tmpi.Base.{
  ℕ, ◌+◌, ◌-◌, ◌≡◌, refl, sym, subst, inl, inr, false, ◌||◌, some, List, [], ◌∷◌, arith, ◌==◌,
  ==_iff, Bool-cases, ==_refl, length, length-append,
}
use tmpi.Queue.{◌∈◌, ◌∉◌, Distinct, enqueue, remove}
use tmpi.Queue.Members.{
  has-enqueue, Distinct-enqueue, not-mem-remove, Distinct-remove, length-remove,
}
use tmpi.TQueue.{to_user, to_bucket, update, TQueue, unlinked, del_elem, enq, deq}
use tmpi.TQueue.Links.{Links, Links-prev, Links-next, Links-prev_ne, Links-enqueue, Links-remove}

-- the free buckets, chained by `prev` from `a`
abbrev pub Chain : (prev : ℕ → ℕ) → ℕ → List ℕ → Type 0
Chain prev a [] = a ≡ 0
Chain prev a (x ∷ xs) = (a ≡ x) × ((x == 0) ≡ false) × Chain prev (prev x) xs

pub Chain-frame :
    (prev prev' : ℕ → ℕ) (a : ℕ) (fs : List ℕ)
    → ((b : ℕ) → b ∈ fs → prev' b ≡ prev b)
    → Chain prev a fs
    → Chain prev' a fs
Chain-frame prev prev' a [] same c = c
Chain-frame prev prev' a (x ∷ fs) same c = (
  c.0,
  c.1,
  Chain-frame prev prev' (prev' x) fs (λ b m. same b (ground arith))
      (subst (λ y. Chain prev y fs) (sym (same x (ground arith))) c.2),
)

-- `q` holds the buckets `xs`, head first, and keeps `fs` for later: none is NULL or `qctrl`, and
-- none is there twice.
pub record IsQueue (q : TQueue) (xs fs : List ℕ) : Type 0 where
  pub links : Links q.next q.prev q.ctrl xs q.ctrl
  pub distinct : Distinct (q.ctrl ∷ xs)
  pub counted : q.count ≡ length xs
  pub nonzero : 0 ∉ q.ctrl ∷ xs
  pub cache : Chain q.prev q.allocate fs
  pub apart : (a : ℕ) → a ∈ fs → a ∉ q.ctrl ∷ xs
  pub spare : Distinct fs

pub to_bucket-to_user : (e : ℕ) → to_bucket (to_user e) ≡ e
to_bucket-to_user e = omega arith

-- a bucket that may be put in the queue
pub record IsFresh (q : TQueue) (xs fs : List ℕ) (e : ℕ) : Type 0 where
  pub not_null : (e == 0) ≡ false
  pub not_queued : e ∉ q.ctrl ∷ xs
  pub not_spare : e ∉ fs

enq-writes :
    (q : TQueue) (e : ℕ)
    → (q.ctrl == e) ≡ false
    → enq q (to_user e) ≡ record q {
      next = update (update q.next e q.ctrl) (q.prev q.ctrl) e;
      prev = update (update q.prev e (q.prev q.ctrl)) q.ctrl e;
      count = q.count + 1;
    }
unfolding enq
enq-writes q e h = rw to_bucket-to_user (rw h refl)

-- enQ of an item whose bucket is in no use puts it at the tail of a well-formed queue, which stays
-- well formed and keeps its cache.
pub enq-IsQueue :
    (q : TQueue) (xs fs : List ℕ) (e : ℕ)
    → IsQueue q xs fs
    → IsFresh q xs fs e
    → IsQueue (enq q (to_user e)) (enqueue xs e) fs
enq-IsQueue q xs fs e v f = rw (enq-writes q e (ground arith)) (record {
  links =
      Links-enqueue q.next q.prev e q.ctrl xs q.ctrl v.links v.distinct (ground arith)
        (ground arith);
  distinct =
      (ground (arith, has-enqueue q.ctrl e xs), Distinct-enqueue e xs v.distinct.1 (ground arith));
  counted = omega (arith, v.counted, length-append {0} xs (e ∷ []));
  nonzero = ground (arith, has-enqueue 0 e xs);
  cache = Chain-frame q.prev _ q.allocate fs (λ b m. ground (arith, v.apart b m)) v.cache;
  apart = λ a m. ground (arith, v.apart a m, has-enqueue a e xs, (==_iff a e).0);
  spare = v.spare;
})

unlinked-writes :
    (q : TQueue) (x : ℕ)
    → (x == q.prev x) ≡ false
    → unlinked q x ≡ record q {
      next = update q.next (q.prev x) (q.next x);
      prev = update q.prev (q.next x) (q.prev x);
      count = q.count - 1;
    }
unfolding unlinked
unlinked-writes q x h = rw (h, unlinked) refl

unlinked-IsQueue :
    (q : TQueue) (xs fs : List ℕ) (x : ℕ)
    → IsQueue q xs fs
    → x ∈ xs
    → IsQueue (unlinked q x) (remove x xs) fs
unlinked-IsQueue q xs fs x v m =
    let behind = Links-next q.next q.prev q.ctrl xs q.ctrl x v.links (ground arith) in
    rw (unlinked-writes q x (Links-prev_ne q.next q.prev q.ctrl xs q.ctrl x v.links v.distinct m))
      (record {
        links = Links-remove q.next q.prev x q.ctrl xs q.ctrl v.links v.distinct (ground arith) m;
        distinct = (not-mem-remove q.ctrl x xs v.distinct.0, Distinct-remove x xs v.distinct.1);
        counted = omega (arith, v.counted, length-remove x xs m);
        nonzero = ground (arith, v.nonzero, not-mem-remove 0 x xs);
        cache = Chain-frame q.prev _ q.allocate fs (λ b n. ground (arith, v.apart b n)) v.cache;
        apart = λ a n. ground (arith, v.apart a n, not-mem-remove a x xs);
        spare = v.spare;
      })

-- the links of a bucket in a well-formed queue are not NULL
links_there :
    (q : TQueue) (xs fs : List ℕ) (x : ℕ)
    → IsQueue q xs fs
    → x ∈ xs
    → ((q.prev x == 0) || (q.next x == 0)) ≡ false
links_there q xs fs x v m =
    let ahead = Links-prev q.next q.prev q.ctrl xs q.ctrl x v.links m in
    let behind = Links-next q.next q.prev q.ctrl xs q.ctrl x v.links (ground arith) in
    ground (
      arith,
      there (q.prev x) (q.ctrl ∷ xs) ahead v.nonzero,
      there (q.next x) (q.ctrl ∷ xs) behind v.nonzero,
    )
  where
    there : (a : ℕ) (ys : List ℕ) → a ∈ ys → 0 ∉ ys → (a == 0) ≡ false
    there a ys here out = elim (Bool-cases (a == 0)) [
      | inr other ↦ other
      | inl null ↦
          let e : a ≡ 0 = (==_iff a 0).0 null in
          absurd (ground (arith, subst (λ (b : ℕ). b ∈ ys) e here))
    ]

-- Q_delElem takes a bucket of a well-formed queue out, wherever it stands, and does not fault; the
-- queue stays well formed, its other entries keep their order and its cache is as it was.
pub del_elem-IsQueue :
    (q : TQueue) (xs fs : List ℕ) (x : ℕ)
    → IsQueue q xs fs
    → x ∈ xs
    → (q' : TQueue) × (del_elem q x ≡ some q') × IsQueue q' (remove x xs) fs
unfolding del_elem
del_elem-IsQueue q xs fs x v m =
    (unlinked q x, rw (links_there q xs fs x v m) refl, unlinked-IsQueue q xs fs x v m)

-- deQ returns NULL on the empty queue, and changes nothing.
pub deq-nil : (q : TQueue) (fs : List ℕ) → IsQueue q [] fs → deq q ≡ some (q, 0)
unfolding deq
deq-nil q fs v = rw (v.links.0, ==_refl q.ctrl) refl

remove-head : (x : ℕ) (xs : List ℕ) → remove x (x ∷ xs) ≡ xs
unfolding remove
remove-head x xs = rw (==_refl x) refl

-- deQ of a well-formed queue that is not empty returns the item at its head and takes it out.
pub deq-cons :
    (q : TQueue) (x : ℕ) (xs fs : List ℕ)
    → IsQueue q (x ∷ xs) fs
    → (q' : TQueue) × (deq q ≡ some (q', to_user x)) × IsQueue q' xs fs
unfolding deq
deq-cons q x xs fs v =
    let not_end : (x == q.ctrl) ≡ false = ground (arith, v.distinct.0) in
    let (q', taken, good) = del_elem-IsQueue q (x ∷ xs) fs x v (ground arith) in
    (q', rw (v.links.0, not_end, taken) refl, subst (λ l. IsQueue q' l fs) (remove-head x xs) good)
