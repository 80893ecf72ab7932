-- ===== src/Queue/Members.antt =====
-- Membership under enqueueing and removal.
use tmpi.Base.{ℕ, ◌+◌, ◌≡◌, refl, ◌||◌, List, [], ◌∷◌, ◌++◌, arith, ◌==◌, length}
use tmpi.Queue.{has, ◌∈◌, ◌∉◌, Distinct, enqueue, remove}

pub has-append : (a : ℕ) (xs ys : List ℕ) → has a (xs ++ ys) ≡ (has a xs || has a ys)
has-append a [] ys = refl
has-append a (x ∷ xs) ys = ground (arith, has-append a xs ys)

pub has-enqueue : (a x : ℕ) (xs : List ℕ) → has a (enqueue xs x) ≡ (has a xs || (a == x))
has-enqueue a x xs = ground (arith, has-append a xs (x ∷ []))

pub Distinct-enqueue : (a : ℕ) (xs : List ℕ) → Distinct xs → a ∉ xs → Distinct (enqueue xs a)
Distinct-enqueue a [] d out = (refl, tt)
Distinct-enqueue a (x ∷ xs) d out =
    (ground (arith, has-enqueue x a xs), Distinct-enqueue a xs d.1 (ground arith))

pub mem_of_remove : (a b : ℕ) (xs : List ℕ) → a ∈ remove b xs → a ∈ xs
unfolding remove
mem_of_remove a b [] h = h
mem_of_remove a b (x ∷ xs) h = ground (arith, mem_of_remove a b xs)

pub not-mem-remove : (a b : ℕ) (xs : List ℕ) → a ∉ xs → a ∉ remove b xs
unfolding remove
not-mem-remove a b [] h = h
not-mem-remove a b (x ∷ xs) h = ground (arith, not-mem-remove a b xs)

pub Distinct-remove : (a : ℕ) (xs : List ℕ) → Distinct xs → Distinct (remove a xs)
unfolding remove
Distinct-remove a [] d = tt
Distinct-remove a (x ∷ xs) d = ground (arith, Distinct-remove a xs, not-mem-remove x a xs)

pub remove_gone : (a : ℕ) (xs : List ℕ) → Distinct xs → a ∉ remove a xs
unfolding remove
remove_gone a [] d = refl
remove_gone a (x ∷ xs) d = ground (arith, remove_gone a xs)

pub length-remove : (a : ℕ) (xs : List ℕ) → a ∈ xs → length (remove a xs) + 1 ≡ length xs
unfolding remove
length-remove a [] m = absurd (ground arith)
length-remove a (x ∷ xs) m = ground (arith, length-remove a xs)
