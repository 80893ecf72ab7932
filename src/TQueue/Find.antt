-- ===== src/TQueue/Find.antt =====
-- Q_probe and Q_find, as a search of the abstract queue.
use tmpi.Base.{
  ℕ, zero, suc, ◌+◌, ◌<◌, ◌≡◌, refl, ap, ◌∙◌, inl, inr, Bool, false, ◌||◌, Option, none, some, List,
  [], ◌∷◌, arith, ◌==◌, if◌then◌else◌, Bool-cases, Option-cases, ==_refl, length, ℤ,
}
use tmpi.Queue.{◌∉◌, probe, remove}
use tmpi.Queue.Search.{probe-some}
use tmpi.TQueue.{
  Cmp, to_user, TQueue, and_item, remove_elem, Walk, walk, passes, probed, take_found, probe_with,
  probe_q, find_with, find, found, at_end,
}
use tmpi.TQueue.Links.{Links}
use tmpi.TQueue.Refine.{IsQueue, to_bucket-to_user, del_elem-IsQueue}

-- what the walk returns for the abstract search's answer
abbrev pub as_walk : Option ℕ → Walk
as_walk none = at_end
as_walk (some e) = found e

pub walk-probe :
    (test : ℕ → Bool) (next prev : ℕ → ℕ) (ctrl p : ℕ) (xs : List ℕ) (fuel : ℕ)
    → Links next prev p xs ctrl
    → ctrl ∉ xs
    → 0 ∉ xs
    → length xs < fuel
    → walk test ctrl next fuel (next p) ≡ as_walk (probe test xs)
unfolding walk probe
walk-probe test next prev ctrl p xs zero l end null h = absurd (omega arith)
walk-probe test next prev ctrl p [] (suc n) l end null h = rw (l.0, ==_refl ctrl) (ground arith)
walk-probe test next prev ctrl p (x ∷ xs) (suc n) l end null h =
    let go =
      walk-probe test next prev ctrl x xs n l.2 (ground arith) (ground arith) (omega arith) in
    let inside : ((x == 0) || (x == ctrl)) ≡ false = ground arith in
    rw l.0
      (rw inside (elim (Bool-cases (test x)) [ inl hit ↦ rw hit refl | inr miss ↦ rw miss go ]))

-- the pointer that a search returns, and the entries that Q_find leaves
abbrev pub item_of : Option ℕ → ℕ
item_of none = 0
item_of (some e) = to_user e

abbrev pub without : List ℕ → Option ℕ → List ℕ
without xs none = xs
without xs (some e) = remove e xs

probed-as_walk : (r : Option ℕ) → probed (as_walk r) ≡ item_of r
probed-as_walk none = refl
probed-as_walk (some e) = refl

-- The search of a well-formed queue, whose `count + 1` rounds suffice.
search_of_IsQueue :
    (test : ℕ → Bool) (q : TQueue) (xs fs : List ℕ)
    → IsQueue q xs fs
    → walk test q.ctrl q.next (q.count + 1) (q.next q.ctrl) ≡ as_walk (probe test xs)
search_of_IsQueue test q xs fs v =
    walk-probe test q.next q.prev q.ctrl q.ctrl xs (q.count + 1) v.links v.distinct.0
      (ground (arith, v.nonzero)) (omega (arith, v.counted))

module _ (q : TQueue) (xs fs : List ℕ) (cmp : Cmp) (context : ℕ) (tag src : ℤ) (v : IsQueue q xs fs)
    (has_cmp : q.cmp ≡ some cmp) where
  searched :
      walk (passes cmp context tag src) q.ctrl q.next (q.count + 1) (q.next q.ctrl)
      ≡ as_walk (probe (passes cmp context tag src) xs)
  searched = search_of_IsQueue (passes cmp context tag src) q xs fs v

  -- Q_probe returns the first item that passes, or NULL if none does.
  pub probe_q-probe : probe_q q context tag src ≡ item_of (probe (passes cmp context tag src) xs)
  unfolding probe_q probe_with
  probe_q-probe =
      ap (λ c. probe_with q c context tag src) has_cmp
      ∙ ap probed searched
      ∙ probed-as_walk (probe (passes cmp context tag src) xs)

  find-taken :
      find q context tag src ≡ take_found q (as_walk (probe (passes cmp context tag src) xs))
  unfolding find find_with
  find-taken = ap (λ c. find_with q c context tag src) has_cmp ∙ ap (take_found q) searched

  -- Of a well-formed queue with a comparison function, Q_find returns the first item from the head
  -- that passes it, and takes that item out; the other entries keep their order and the cache is
  -- as it was. If none passes it returns NULL and the entries are as they were.
  pub find-probe :
      let r = probe (passes cmp context tag src) xs in
      (q' : TQueue) × (find q context tag src ≡ some (q', item_of r)) × IsQueue q' (without xs r) fs
  find-probe = rw find-taken (elim (Option-cases (probe (passes cmp context tag src) xs)) [
    | inl nothing ↦ rw nothing (q, refl, v)
    | inr (e, hit) ↦
        let (q', taken, good) = del_elem-IsQueue q xs fs e v (probe-some _ e xs hit).1 in
        rw hit (q', ap (and_item (to_user e)) taken, good)
  ])

  -- "Q_probe + Q_removeElem == Q_find", for a well-formed queue with a comparison function: if
  -- Q_probe returns NULL, Q_find returns NULL and changes nothing, and if it returns an item,
  -- removing it gives the result and the queue of Q_find.
  pub find_lem : find q context tag src ≡ (
      if probe_q q context tag src == 0
      then some (q, 0)
      else remove_elem q (probe_q q context tag src))
  unfolding remove_elem
  find_lem =
      rw (find-taken, probe_q-probe)
        (elim (Option-cases (probe (passes cmp context tag src) xs)) [
          | inl nothing ↦ rw nothing refl
          | inr (e, hit) ↦
              let item : (to_user e == 0) ≡ false = ground arith in
              rw hit (rw (item, to_bucket-to_user e) refl)
        ])
