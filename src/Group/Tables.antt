-- ===== src/Group/Tables.antt =====
-- Tables of ranks: what the loops that search and copy them do.
use tmpi.Base.{
  negsuc, pos, inr, inl, ℕ, zero, suc, ◌+◌, ◌≤◌, ◌≡◌, refl, sym, ap, ◌∙◌, inl, inr, Bool, true,
  false, ◌&&◌, ◌||◌, none, some, List, [], ◌∷◌, ◌++◌, arith, Bool-cases, length, get_elem?, ℤ, eqb,
  eqb_iff, pos, negsuc,
}
use tmpi.Group.{entry, next_index, index_of, contains, select}

-- no rank is there twice
abbrev pub Unique : List ℤ → Type 0
Unique [] = Unit {0}
Unique (x ∷ xs) = (contains x xs ≡ false) × Unique xs

pub contains-append :
    (r : ℤ) (xs ys : List ℤ) → contains r (xs ++ ys) ≡ (contains r xs || contains r ys)
contains-append r [] ys = refl
contains-append r (x ∷ xs) ys = ground (arith, contains-append r xs ys)

pub contains-select :
    (test : ℤ → Bool) (r : ℤ) (xs : List ℤ)
    → contains r (select test xs) ≡ (contains r xs && test r)
unfolding select
contains-select test r [] = refl
contains-select test r (x ∷ xs) = elim (Bool-cases (eqb x r)) [
  | inl here ↦
      let e : test x ≡ test r = ap test ((eqb_iff x r).0 here) in
      elim (Bool-cases (test x)) [
        | inl kept ↦ rw kept (rw here (sym (sym e ∙ kept)))
        | inr left ↦ rw left (rw here (contains-select test r xs ∙ ground (arith, e, left)))
      ]
  | inr there ↦ elim (Bool-cases (test x)) [
    | inl kept ↦ rw kept (rw there (contains-select test r xs))
    | inr left ↦ rw left (rw there (contains-select test r xs))
  ]
]

pub Unique-select : (test : ℤ → Bool) (xs : List ℤ) → Unique xs → Unique (select test xs)
unfolding select
Unique-select test [] u = tt
Unique-select test (x ∷ xs) u = elim (Bool-cases (test x)) [
  | inl kept ↦ rw kept (contains-select test x xs ∙ ground (arith, u.0), Unique-select test xs u.1)
  | inr left ↦ rw left (Unique-select test xs u.1)
]

pub Unique-append :
    (xs ys : List ℤ)
    → Unique xs
    → Unique ys
    → ((r : ℤ) → contains r ys ≡ true → contains r xs ≡ false)
    → Unique (xs ++ ys)
Unique-append [] ys u v apart = v
Unique-append (x ∷ xs) ys u v apart = (
  contains-append x xs ys ∙ elim (Bool-cases (contains x ys)) [
    | inl m ↦ absurd (ground (arith, apart x m, (eqb_iff x x).1 refl))
    | inr out ↦ ground (arith, u.0, out)
  ],
  Unique-append xs ys u.1 v (λ r m. ground (arith, apart r m)),
)

pub length-select : (test : ℤ → Bool) (xs : List ℤ) → length (select test xs) ≤ length xs
unfolding select
length-select test [] = omega arith
length-select test (x ∷ xs) = elim (Bool-cases (test x)) [
  | inl kept ↦ rw kept (omega (arith, length-select test xs))
  | inr left ↦ rw left (omega (arith, length-select test xs))
]

-- The search finds what is there.
pub index_of-contains :
    (r : ℤ) (xs : List ℤ)
    → contains r xs ≡ true
    → (i : ℕ) × (index_of r xs ≡ some i) × (get_elem? xs i ≡ some r)
unfolding index_of
index_of-contains r [] m = absurd (ground arith)
index_of-contains r (x ∷ xs) m = elim (Bool-cases (eqb x r)) [
  | inl here ↦ (0, rw here refl, ap some ((eqb_iff x r).0 here))
  | inr there ↦
      let (i, e, f) = index_of-contains r xs (ground (arith, m, there)) in
      (suc i, rw there (ap next_index e), f)
]

pub index_of-out : (r : ℤ) (xs : List ℤ) → contains r xs ≡ false → index_of r xs ≡ none
unfolding index_of
index_of-out r [] m = refl
index_of-out r (x ∷ xs) m =
    let there : eqb x r ≡ false = ground (arith, m) in
    rw there (ap next_index (index_of-out r xs (ground (arith, m))))

pub get_elem?-contains :
    (r : ℤ) (xs : List ℤ) (i : ℕ) → get_elem? xs i ≡ some r → contains r xs ≡ true
get_elem?-contains r [] i e = absurd cc
get_elem?-contains r (x ∷ xs) zero e = ground (arith, e, (eqb_iff x r).1)
get_elem?-contains r (x ∷ xs) (suc i) e = ground (arith, get_elem?-contains r xs i e)

pub get_elem?-append :
    (xs ys : List ℤ) (i : ℕ) → get_elem? (xs ++ ys) (length xs + i) ≡ get_elem? ys i
get_elem?-append [] ys i = let e : 0 + i ≡ i = omega arith in ap (get_elem? ys) e
get_elem?-append (x ∷ xs) ys i =
    let e : suc (length xs) + i ≡ suc (length xs + i) = omega arith in
    ap (get_elem? (x ∷ xs ++ ys)) e ∙ get_elem?-append xs ys i

pub get_elem?-front :
    (r : ℤ) (xs ys : List ℤ) (i : ℕ) → get_elem? xs i ≡ some r → get_elem? (xs ++ ys) i ≡ some r
get_elem?-front r [] ys i e = absurd cc
get_elem?-front r (x ∷ xs) ys zero e = e
get_elem?-front r (x ∷ xs) ys (suc i) e = get_elem?-front r xs ys i e

pub entry-front :
    (r : ℤ) (xs ys : List ℤ) (l : ℤ) → entry xs l ≡ some r → entry (xs ++ ys) l ≡ some r
entry-front r xs ys (pos i) e = get_elem?-front r xs ys i e
entry-front r xs ys (negsuc i) e = absurd cc
