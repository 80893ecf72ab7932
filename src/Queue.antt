-- ===== src/Queue.antt =====
-- What src/runtime/src/utils/tqueue promises its clients: a queue of distinct handles, searched
-- from its head. `TQueue` has the linked list of tqueue.c; the send and receive queues of `Intra`
-- are such queues.
pub mod Search
pub mod Members
use tmpi.Base.{
  ℕ, ◌≡◌, Bool, false, true, ◌||◌, Option, none, some, List, [], ◌∷◌, ◌++◌, ◌==◌, if◌then◌else◌,
}

-- is the address in the queue?
abbrev pub has : ℕ → List ℕ → Bool
has a [] = false
has a (x ∷ xs) = (a == x) || has a xs

infix 40 ◌∈◌ ◌∉◌
abbrev pub ◌∈◌ : ℕ → List ℕ → Type 0
a ∈ xs = has a xs ≡ true

abbrev pub ◌∉◌ : ℕ → List ℕ → Type 0
a ∉ xs = has a xs ≡ false

abbrev pub Distinct : List ℕ → Type 0
Distinct [] = Unit {0}
Distinct (x ∷ xs) = (x ∉ xs) × Distinct xs

-- enQ: at the tail
abbrev pub enqueue : List ℕ → ℕ → List ℕ
enqueue xs a = xs ++ a ∷ []

-- Q_probe: the first entry, from the head, that passes the test
unfoldable pub probe : (ℕ → Bool) → List ℕ → Option ℕ
probe test [] = none
probe test (x ∷ xs) = if test x then some x else probe test xs

-- Q_removeElem
unfoldable pub remove : ℕ → List ℕ → List ℕ
remove a [] = []
remove a (x ∷ xs) = if a == x then xs else x ∷ remove a xs
