-- ===== src/TQueue/Reset.antt =====
-- Q_reset, which hands Q_removeElem the bucket at the head where it takes an item.
use tmpi.Base.{
  ℕ, zero, suc, ◌+◌, ◌≡◌, refl, sym, ap, ◌∙◌, subst, ◌≢◌, inr, Bool, true, false, ◌||◌, none, some,
  List, [], ◌∷◌, arith, ◌==◌, if◌then◌else◌, Bool-cases, ==_refl, inl,
}
use tmpi.Queue.{◌∈◌}
use tmpi.TQueue.{
  to_bucket, TQueue, free_elem, unlinked, del_elem, remove_elem, reset_step, reset, done, faults,
}
use tmpi.TQueue.Refine.{Chain, IsQueue}

-- what keeps the loop going: the bucket in front of the one at the head stands apart from `qctrl`
record GoesOn (q : TQueue) (x : ℕ) : Type 0 where
  pub head : q.next q.ctrl ≡ x
  pub not_end : (q.ctrl == x) ≡ false
  pub not_null : (x == 0) ≡ false
  pub not_before : (to_bucket x == q.ctrl) ≡ false
  pub away : (q.prev (to_bucket x) == q.ctrl) ≡ false
  pub free_away : (q.allocate == q.ctrl) ≡ false

-- a round that does not write at NULL
abbrev round : TQueue → (x : ℕ) → TQueue
round q x = free_elem (unlinked q (to_bucket x)) x

abbrev has_null : TQueue → (x : ℕ) → Bool
has_null q x = q.prev (to_bucket x) == 0 || q.next (to_bucket x) == 0

reset_step_lem :
    (q : TQueue) (x : ℕ)
    → q.next q.ctrl ≡ x
    → reset_step q ≡ (if has_null q x then none else some (round q x))
unfolding reset_step remove_elem del_elem
reset_step_lem q x head = elim (Bool-cases (has_null q x)) [
  | inl null ↦ rw (head, null) refl
  | inr linked ↦ rw (head, linked) refl
]

round-GoesOn : (q : TQueue) (x : ℕ) → GoesOn q x → GoesOn (round q x) x
unfolding unlinked free_elem
round-GoesOn q x g = rw g.not_null (record {
  head = ground (arith, g.away, g.head);
  not_end = g.not_end;
  not_null = g.not_null;
  not_before = g.not_before;
  away = ground (arith, g.free_away);
  free_away = g.not_before;
})

-- one test of the loop's condition that is passed
reset_once :
    (n : ℕ) (q : TQueue) (x : ℕ)
    → GoesOn q x
    → reset (suc n) q ≡ (if has_null q x then faults else reset n (round q x))
unfolding reset
reset_once n q x g = elim (Bool-cases (has_null q x)) [
  | inl null ↦ rw (g.head, g.not_end, reset_step_lem q x g.head, null) refl
  | inr linked ↦ rw (g.head, g.not_end, reset_step_lem q x g.head, linked) refl
]

never_done : (n : ℕ) (q : TQueue) (x : ℕ) → GoesOn q x → (r : TQueue) → reset n q ≢ done r
unfolding reset
never_done zero q x g r e = cc
never_done (suc n) q x g r e = elim (Bool-cases (has_null q x)) [
  | inl null ↦ let stop : faults ≡ done r = sym (reset_once n q x g ∙ rw null refl) ∙ e in cc
  | inr linked ↦
      never_done n (round q x) x (round-GoesOn q x g) r
        (sym (reset_once n q x g ∙ rw linked refl) ∙ e)
]

-- With no free bucket the second round finds NULL in the place of the link `prev`.
faults_without_cache :
    (n : ℕ) (q : TQueue) (x : ℕ) → GoesOn q x → q.allocate ≡ 0 → reset (suc (suc n)) q ≡ faults
unfolding unlinked free_elem
faults_without_cache n q x g none_free = elim (Bool-cases (has_null q x)) [
  | inl null ↦ reset_once (suc n) q x g ∙ rw null refl
  | inr linked ↦
      let null : has_null (round q x) x ≡ true = ground arith in
      reset_once (suc n) q x g
      ∙ rw linked (reset_once n (round q x) x (round-GoesOn q x g) ∙ rw null refl)
]

cache-away :
    (prev : ℕ → ℕ) (a c : ℕ) (fs : List ℕ)
    → Chain prev a fs
    → ((b : ℕ) → b ∈ fs → (b == c) ≡ false)
    → (0 == c) ≡ false
    → (a == c) ≡ false
cache-away prev a c [] ch out z = rw ch z
cache-away prev a c (f ∷ fs) ch out z = rw (ch.0) (out f (ground arith))

-- Q_reset never completes on a well-formed queue that holds an item, however many rounds its loop
-- runs; and if the cache holds no free bucket it writes at NULL in the second round at the latest.
-- This is where the address sixteen bytes in front of the bucket at the head is not `qctrl`, and
-- what stands there in the place of the link `prev` does not point to it.
pub reset-cons :
    (q : TQueue) (x : ℕ) (xs fs : List ℕ)
    → IsQueue q (x ∷ xs) fs
    → (to_bucket x == q.ctrl) ≡ false
    → (q.prev (to_bucket x) == q.ctrl) ≡ false
    → ((n : ℕ) (r : TQueue) → reset n q ≢ done r) × (fs ≡ [] → (n : ℕ) → reset (n + 2) q ≡ faults)
reset-cons q x xs fs v before away =
    let g : GoesOn q x = record {
      head = v.links.0;
      not_end = ground (arith, v.distinct.0);
      not_null = ground (arith, v.nonzero);
      not_before = before;
      away = away;
      free_away =
          cache-away q.prev q.allocate q.ctrl fs v.cache (λ b m. ground (arith, v.apart b m))
            (ground (arith, v.nonzero));
    } in
    (
      λ n r. never_done n q x g r,
      λ drained n.
          ap (λ (k : ℕ). reset k q) (omega arith)
          ∙ faults_without_cache n q x g (subst (λ l. Chain q.prev q.allocate l) drained v.cache),
    )

-- Q_reset of an empty queue ends at once and changes nothing but `ucount`, which is 0.
pub reset-nil :
    (n : ℕ) (q : TQueue) (fs : List ℕ)
    → IsQueue q [] fs
    → reset (suc n) q ≡ done (record q { ucount = 0 })
unfolding reset
reset-nil n q fs v = rw (v.links.0, ==_refl q.ctrl) refl
