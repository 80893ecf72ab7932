-- ===== src/Fifo/Items.antt =====
-- The items of a ring, read from its header on.
use tmpi.Base.{
  ℕ, zero, suc, ◌+◌, ◌-◌, ◌%◌, ◌≤◌, ◌<◌, ◌≡◌, refl, ap, ap₂, ◌∙◌, inl, inr, List, [], ◌∷◌, ◌++◌,
  arith, ltb, if◌then◌else◌, ltb→lt, Bool-cases,
}
use native.Mathlib.Nat.{mod-eq_of_lt, mod_self}

-- the place of x < 2 * size in the ring
abbrev pub wrap : (size x : ℕ) → ℕ
wrap size x = if ltb x size then x else x - size

-- the `n` items from the `k`-th behind `header` on
abbrev pub items : (ℕ → ℕ) → (size header k n : ℕ) → List ℕ
items f size header k zero = []
items f size header k (suc n) = f (wrap size (header + k)) ∷ items f size header (k + 1) n

pub next-wrap : (size x : ℕ) → x < size → (x + 1) % size ≡ wrap size (x + 1)
next-wrap size x h = elim (Bool-cases (ltb (x + 1) size)) [
  | inl inside ↦ rw inside (mod-eq_of_lt (ltb→lt (x + 1) size inside))
  | inr last ↦
      let e : x + 1 ≡ size = ground arith in
      rw last (ap (λ y. y % size) e ∙ mod_self size ∙ omega arith)
]

pub items-eq :
    (f g : ℕ → ℕ) (size h : ℕ) (k n : ℕ)
    → ((j : ℕ) → k ≤ j → j < k + n → f (wrap size (h + j)) ≡ g (wrap size (h + j)))
    → items f size h k n ≡ items g size h k n
items-eq f g size h k zero same = refl
items-eq f g size h k (suc n) same =
    ap₂ ◌∷◌ (same k (omega arith) (omega arith))
      (items-eq f g size h (k + 1) n (λ j a b. same j (omega arith) (omega arith)))

-- one more item at the end
pub items-snoc :
    (f : ℕ → ℕ) (size h k n : ℕ)
    → items f size h k (suc n) ≡ items f size h k n ++ f (wrap size (h + (k + n))) ∷ []
items-snoc f size h k zero = ap (λ (j : ℕ). f (wrap size (h + j)) ∷ []) (omega arith)
items-snoc f size h k (suc n) =
    let e : (k + 1) + n ≡ k + suc n = omega arith in
    ap (λ xs. f (wrap size (h + k)) ∷ xs)
      (items-snoc f size h (k + 1) n
        ∙ ap (λ (j : ℕ). items f size h (k + 1) n ++ f (wrap size (h + j)) ∷ []) e)

-- the ring read from the place behind its header
pub items-shift :
    (f : ℕ → ℕ) (size h k n : ℕ)
    → h < size
    → k + n < size
    → items f size h (k + 1) n ≡ items f size (wrap size (h + 1)) k n
items-shift f size h k zero a b = refl
items-shift f size h k (suc n) a b =
    let e : wrap size (h + (k + 1)) ≡ wrap size (wrap size (h + 1) + k) = ground arith in
    ap₂ ◌∷◌ (ap f e) (items-shift f size h (k + 1) n a (omega arith))
