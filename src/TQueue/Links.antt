-- ===== src/TQueue/Links.antt =====
-- Doubly linked segments, and what the writes of enQ and Q_delElem do to them.
use tmpi.Base.{
  ℕ, ◌≡◌, sym, ap, ◌∙◌, subst, inl, inr, false, List, [], ◌∷◌, arith, ◌==◌, ==_iff, Bool-cases,
}
use tmpi.Queue.{◌∈◌, ◌∉◌, Distinct, enqueue, remove}
use tmpi.TQueue.{update}

-- from `p` the `next` links lead through `xs` to `s`, and the `prev` links lead back
abbrev pub Links : (next prev : ℕ → ℕ) → ℕ → List ℕ → ℕ → Type 0
Links next prev p [] s = (next p ≡ s) × (prev s ≡ p)
Links next prev p (x ∷ xs) s = (next p ≡ x) × (prev x ≡ p) × Links next prev x xs s

module _ (next prev : ℕ → ℕ) where
  -- A change that spares the links between the entries keeps the segment.
  pub Links-frame :
      (next' prev' : ℕ → ℕ) (p : ℕ) (xs : List ℕ) (s : ℕ)
      → ((a : ℕ) → a ∈ p ∷ xs → next' a ≡ next a)
      → ((a : ℕ) → a ∈ s ∷ xs → prev' a ≡ prev a)
      → Links next prev p xs s
      → Links next' prev' p xs s
  Links-frame next' prev' p [] s n v l = (n p (ground arith) ∙ l.0, v s (ground arith) ∙ l.1)
  Links-frame next' prev' p (x ∷ xs) s n v l = (
    n p (ground arith) ∙ l.0,
    v x (ground arith) ∙ l.1,
    Links-frame next' prev' x xs s (λ a m. n a (ground arith)) (λ a m. v a (ground arith)) l.2,
  )

  -- The entry before the end, and those beside an entry.
  pub Links-last : (p : ℕ) (xs : List ℕ) (s : ℕ) → Links next prev p xs s → prev s ∈ p ∷ xs
  Links-last p [] s l = ground arith
  Links-last p (x ∷ xs) s l = ground (arith, Links-last x xs s l.2)

  pub Links-prev :
      (p : ℕ) (xs : List ℕ) (s a : ℕ) → Links next prev p xs s → a ∈ xs → prev a ∈ p ∷ xs
  Links-prev p [] s a l m = absurd (ground arith)
  Links-prev p (x ∷ xs) s a l m = elim (Bool-cases (a == x)) [
    | inl here ↦ ground (arith, ap prev ((==_iff a x).0 here))
    | inr there ↦ ground (arith, Links-prev x xs s a l.2)
  ]

  pub Links-next :
      (p : ℕ) (xs : List ℕ) (s a : ℕ) → Links next prev p xs s → a ∈ p ∷ xs → next a ∈ s ∷ xs
  Links-next p [] s a l m = ground (arith, ap next ((==_iff a p).0 (ground arith)))
  Links-next p (x ∷ xs) s a l m = elim (Bool-cases (a == p)) [
    | inl here ↦ ground (arith, ap next ((==_iff a p).0 here))
    | inr there ↦ ground (arith, Links-next x xs s a l.2)
  ]

  pub Links-prev_ne :
      (p : ℕ) (xs : List ℕ) (s a : ℕ)
      → Links next prev p xs s
      → Distinct (p ∷ xs)
      → a ∈ xs
      → (a == prev a) ≡ false
  Links-prev_ne p [] s a l d m = absurd (ground arith)
  Links-prev_ne p (x ∷ xs) s a l d m = elim (Bool-cases (a == x)) [
    | inl here ↦ ground (arith, ap prev ((==_iff a x).0 here))
    | inr there ↦ Links-prev_ne x xs s a l.2 d.1 (ground arith)
  ]

  -- The four writes of enQ put `e` between the last entry and the end.
  pub Links-enqueue :
      (e p : ℕ) (xs : List ℕ) (s : ℕ)
      → Links next prev p xs s
      → Distinct (p ∷ xs)
      → e ∉ s ∷ p ∷ xs
      → s ∉ xs
      → Links
          (update (update next e s) (prev s) e)
          (update (update prev e (prev s)) s e)
          p
          (enqueue xs e)
          s
  Links-enqueue e p [] s l d out end = ground arith
  Links-enqueue e p (x ∷ xs) s l d out end =
      let t = Links-last x xs s l.2 in
      let rest = Links-enqueue e x xs s l.2 d.1 (ground arith) (ground arith) in
      (ground arith, ground arith, rest)

  unlink_head :
      (y p : ℕ) (ys : List ℕ) (s : ℕ)
      → Links next prev p (y ∷ ys) s
      → Distinct (p ∷ y ∷ ys)
      → s ∉ y ∷ ys
      → Links (update next (prev y) (next y)) (update prev (next y) (prev y)) p ys s
  unlink_head y p [] s l d end = ground arith
  unlink_head y p (b ∷ bs) s l d end = (
    ground arith,
    ground arith,
    Links-frame _ _ b bs s (λ a m. ground arith) (λ a m. ground arith) l.2.2,
  )

  -- The two writes of Q_delElem take `x` out.
  pub Links-remove :
      (x p : ℕ) (xs : List ℕ) (s : ℕ)
      → Links next prev p xs s
      → Distinct (p ∷ xs)
      → s ∉ xs
      → x ∈ xs
      → Links (update next (prev x) (next x)) (update prev (next x) (prev x)) p (remove x xs) s
  unfolding remove
  Links-remove x p [] s l d end m = absurd (ground arith)
  Links-remove x p (y ∷ ys) s l d end m = elim (Bool-cases (x == y)) [
    | inl here ↦ rw here (
        subst (λ a. Links (update next (prev a) (next a)) (update prev (next a) (prev a)) p ys s)
          (sym ((==_iff x y).0 here)) (unlink_head y p ys s l d end))
    | inr there ↦ rw there (
        let before = Links-prev y ys s x l.2 (ground arith) in
        let behind = Links-next y ys s x l.2 (ground arith) in
        (ground arith, ground arith, Links-remove x y ys s l.2 d.1 (ground arith) (ground arith)))
  ]
