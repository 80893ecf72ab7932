-- ===== src/Fifo/Refine.antt =====
-- The ring is a bounded queue.
use tmpi.Fifo.{
  Fifo, Call, at_least, fifo_create, put_item, fifo_enqueue, take_item, fifo_dequeue, fails, waits,
  succeeds,
}
use tmpi.Fifo.Items.{wrap, items, next-wrap, items-eq, items-snoc, items-shift}
use tmpi.Base.{
  ℕ, suc, ◌+◌, ◌%◌, ◌<◌, ◌≡◌, refl, sym, ap, ap₂, ◌∙◌, subst, inl, inr, Bool, true, false, ◌&&◌,
  some, List, [], ◌∷◌, ◌++◌, arith, ◌==◌, Bool-cases, length, length-append, ℤ, pos, negsuc,
}
use tmpi.Intra.Types.{update, update_self}

-- The ring holds `xs`, and has a place to spare.
pub record IsFifo (q : Fifo) (xs : List ℕ) : Type 0 where
  pub header_in : q.header < q.buf_size
  pub room : length xs < q.buf_size
  pub tail_at : q.tail ≡ wrap q.buf_size (q.header + length xs)
  pub holds : items q.queue q.buf_size q.header 0 (length xs) ≡ xs

-- what a call on the ring should come to: `P` of its result and the new state, or a wait when `blocked`
abbrev pub Does : {A : Type 0} (blocked : Bool) → (P : A → Fifo → Type 0) → Call A → Type 0
Does blocked P fails = ⊥
Does blocked P waits = blocked ≡ true
Does blocked P (succeeds a q) = (blocked ≡ false) × P a q

-- the place behind the last item
place-next :
    (size h n : ℕ) → h < size → n < size → (wrap size (h + n) + 1) % size ≡ wrap size (h + (n + 1))
place-next size h n a b =
    let inside : wrap size (h + n) < size = ground arith in
    next-wrap size (wrap size (h + n)) inside ∙ ground arith

-- the ring is full when the place behind the next item is the header
place-full : (size h n : ℕ) → h < size → n < size → (wrap size (h + (n + 1)) == h) ≡ (n + 1 == size)
place-full size h n a b = ground arith

-- the ring is empty when its two ends meet
place-empty : (size h n : ℕ) → h < size → n < size → (wrap size (h + n) == h) ≡ (n == 0)
place-empty size h n a b = ground arith

-- the items in the ring do not see a write behind them
items-update :
    (f : ℕ → ℕ) (size h n v : ℕ)
    → h < size
    → n < size
    → items (update f (wrap size (h + n)) v) size h 0 n ≡ items f size h 0 n
items-update f size h n v a b =
    items-eq (update f (wrap size (h + n)) v) f size h 0 n (λ j low high. ground arith)

-- an item is put into a ring with room for it
put-IsFifo :
    (q : Fifo) (xs : List ℕ) (item : ℕ)
    → IsFifo q xs
    → (length xs + 1 == q.buf_size) ≡ false
    → IsFifo
        (record q { queue = update q.queue q.tail item; tail = (q.tail + 1) % q.buf_size })
        (xs ++ item ∷ [])
put-IsFifo q xs item w has_room =
    let n = length xs in
    let len : length (xs ++ item ∷ []) ≡ n + 1 = omega (arith, length-append xs (item ∷ [])) in
    let len' : length (xs ++ item ∷ []) ≡ suc n = omega (arith, len) in
    let last : wrap q.buf_size (q.header + (0 + n)) ≡ q.tail =
      ap (λ (j : ℕ). wrap q.buf_size (q.header + j)) (omega arith) ∙ sym w.tail_at in
    let kept = items-update q.queue q.buf_size q.header n item w.header_in w.room in
    record {
      header_in = w.header_in;
      room = ground arith;
      tail_at = rw (len, w.tail_at) (place-next q.buf_size q.header n w.header_in w.room);
      holds = rw len' (
          items-snoc (update q.queue q.tail item) q.buf_size q.header 0 n
          ∙ ap₂ (λ ys v. ys ++ v ∷ []) (rw w.tail_at (kept ∙ w.holds))
              (ap (update q.queue q.tail item) last ∙ update_self q.queue q.tail item));
    }

-- A call of fifo_enqueue that gets the lock puts the item behind those in the ring and returns 0,
-- unless the ring holds one item less than its length: then, and only then, it waits for room.
pub fifo_enqueue-IsFifo :
    (q : Fifo) (xs : List ℕ) (item : ℕ)
    → IsFifo q xs
    → Does
        (length xs + 1 == q.buf_size)
        (λ r q'. IsFifo q' (xs ++ item ∷ []))
        (fifo_enqueue true q item)
unfolding fifo_enqueue put_item
fifo_enqueue-IsFifo q xs item w =
    let n = length xs in
    let next : (q.tail + 1) % q.buf_size ≡ wrap q.buf_size (q.header + (n + 1)) =
      rw w.tail_at (place-next q.buf_size q.header n w.header_in w.room) in
    let same : (n + 1 == q.buf_size) ≡ ((q.tail + 1) % q.buf_size == q.header) =
      rw next (sym (place-full q.buf_size q.header n w.header_in w.room)) in
    let after = record q { queue = update q.queue q.tail item; tail = (q.tail + 1) % q.buf_size } in
    elim (Bool-cases ((q.tail + 1) % q.buf_size == q.header)) [
      | inl e ↦ rw e (same ∙ e)
      | inr e ↦ rw e (same ∙ e, put-IsFifo q xs item w (same ∙ e))
    ]

-- an item is taken from a ring that holds one
take-IsFifo :
    (q : Fifo) (x : ℕ) (xs : List ℕ)
    → IsFifo q (x ∷ xs)
    → (q.queue q.header ≡ x) × IsFifo (record q { header = (q.header + 1) % q.buf_size }) xs
take-IsFifo q x xs w =
    let n = length xs in
    let next : (q.header + 1) % q.buf_size ≡ wrap q.buf_size (q.header + 1) =
      next-wrap q.buf_size q.header w.header_in in
    let fits : suc n < q.buf_size = w.room in
    let first : wrap q.buf_size (q.header + 0) ≡ q.header = ground (arith, w.header_in) in
    let rest = items-shift q.queue q.buf_size q.header 0 n w.header_in (omega arith) in
    let both : q.queue q.header ∷ items q.queue q.buf_size q.header 1 n ≡ x ∷ xs =
      rw first at w.holds in
    (
      cc,
      record {
        header_in = rw next (ground (arith, w.header_in));
        room = omega arith;
        tail_at = rw next (w.tail_at ∙ ground (arith, w.header_in, fits));
        holds = rw next (sym rest ∙ cc);
      },
    )

-- A call of fifo_dequeue that gets the lock returns the oldest item of the ring and leaves the others
-- in their order, unless the ring is empty: then, and only then, it waits for an item.
pub fifo_dequeue-IsFifo :
    (q : Fifo) (xs : List ℕ)
    → IsFifo q xs
    → Does
        (length xs == 0)
        (λ r q'. (rest : List ℕ) × (xs ≡ r ∷ rest) × IsFifo q' rest)
        (fifo_dequeue true q)
unfolding fifo_dequeue take_item
fifo_dequeue-IsFifo q [] w =
    let meet : (q.tail == q.header) ≡ true =
      rw w.tail_at (place-empty q.buf_size q.header 0 w.header_in w.room) in
    rw meet refl
fifo_dequeue-IsFifo q (x ∷ xs) w =
    let some_item : (suc (length xs) == 0) ≡ false = ground arith in
    let apart : (q.tail == q.header) ≡ false =
      rw w.tail_at
        (place-empty q.buf_size q.header (suc (length xs)) w.header_in w.room ∙ some_item) in
    let taken = take-IsFifo q x xs w in
    rw apart (some_item, (xs, ap (λ y. y ∷ xs) (sym taken.0), taken.1))

at_least-positive : (len : ℤ) → 0 < at_least len
at_least-positive (pos n) = ground arith
at_least-positive (negsuc n) = omega arith

created-IsFifo :
    (size : ℕ)
    → 0 < size
    → IsFifo (record { buf_size = size; header = 0; tail = 0; queue = λ i. 0 }) []
created-IsFifo size h = record { header_in = h; room = h; tail_at = ground arith; holds = refl }

-- A ring that fifo_create returns is empty, and has at least the standard length.
pub fifo_create-IsFifo :
    (len : ℤ) (got_fifo got_queue got_mtx got_full got_empty : Bool) (q : Fifo)
    → fifo_create len got_fifo got_queue got_mtx got_full got_empty ≡ some q
    → IsFifo q [] × (q.buf_size ≡ at_least len)
unfolding fifo_create
fifo_create-IsFifo len a b c d e q made = elim (Bool-cases (a && b && c && d && e)) [
  | inl got ↦
      let eq : record { buf_size = at_least len; header = 0; tail = 0; queue = λ i. 0 } ≡ q = cc in
      subst (λ r. IsFifo r [] × (r.buf_size ≡ at_least len)) eq
        (created-IsFifo (at_least len) (at_least-positive len), refl)
  | inr got ↦ cc
]
