-- ===== src/Queue/Search.antt =====
-- The search of the abstract queue.
use tmpi.Base.{
  ℕ, ◌≡◌, Bool, false, true, none, some, List, [], ◌∷◌, ◌++◌, arith, Bool-cases, inl, inr,
}
use tmpi.Queue.{◌∈◌, ◌∉◌, probe, remove}

module _ (test : ℕ → Bool) where
  pub probe-none : (a : ℕ) (xs : List ℕ) → probe test xs ≡ none → a ∈ xs → test a ≡ false
  unfolding probe
  probe-none a [] e m = cc
  probe-none a (x ∷ xs) e m = elim (Bool-cases (test x)) [
    | inl hit ↦ ground arith
    | inr miss ↦ ground (arith, probe-none a xs)
  ]

  pub probe-some : (a : ℕ) (xs : List ℕ) → probe test xs ≡ some a → (test a ≡ true) × (a ∈ xs)
  unfolding probe
  probe-some a [] e = cc
  probe-some a (x ∷ xs) e = ground (arith, probe-some a xs)

  -- No entry before the one that is found passes.
  pub probe_of_first :
      (a : ℕ) (xs ys : List ℕ)
      → ((b : ℕ) → b ∈ xs → test b ≡ false)
      → test a ≡ true
      → probe test (xs ++ a ∷ ys) ≡ some a
  unfolding probe
  probe_of_first a [] ys none_before hit = rw hit
  probe_of_first a (x ∷ xs) ys none_before hit =
      rw (none_before x (ground arith))
        (probe_of_first a xs ys (λ b m. none_before b (ground arith)) hit)

pub remove-append : (a : ℕ) (xs ys : List ℕ) → a ∉ xs → remove a (xs ++ a ∷ ys) ≡ xs ++ ys
unfolding remove
remove-append a [] ys out = ground arith
remove-append a (x ∷ xs) ys out = ground (arith, remove-append a xs ys)
