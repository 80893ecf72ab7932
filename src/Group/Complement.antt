-- ===== src/Group/Complement.antt =====
-- MPI_Group_excl is MPI_Group_incl of the other ranks.
use tmpi.Base.{
  ℕ, zero, suc, ◌+◌, ◌-◌, ◌*◌, ◌<◌, ◌≡◌, refl, ap, ◌∙◌, inl, inr, true, false, some, List, [], ◌∷◌,
  arith, leb, ◌==◌, if◌then◌else◌, Bool-cases, length, get_elem?, ℤ, eqb, pos,
}
use tmpi.Group.{
  undefined_rank, group_cookie, Group, with_group, entry, index_of, contains, new_group, found_rank,
  rank_of, group_at, invalid_access, returns,
}
use tmpi.Group.Subset.{
  include_ranks, include_in, group_incl, leave_out, excluded_rank, exclude_in, group_excl,
}

-- the ranks from `i` on that are not listed, of `n`
abbrev pub complement : (ranks : List ℤ) (i n : ℕ) → List ℤ
complement ranks i zero = []
complement ranks i (suc n) =
    let rest = complement ranks (suc i) n in if contains (pos i) ranks then rest else pos i ∷ rest

-- What MPI_Group_incl does to valid ranks: an entry of the new table for each.
pub data Included (t : List ℤ) : (ranks new : List ℤ) → Type 0 where
  all_included : Included t [] []
  one_included :
      {r x : ℤ} {ranks new : List ℤ}
      → entry t r ≡ some x
      → Included t ranks new
      → Included t (r ∷ ranks) (x ∷ new)

include_ranks-Included :
    (t : List ℤ) (local_rank : ℤ) (i : ℕ) (mine : ℤ) (ranks new : List ℤ)
    → Included t ranks new
    → (m : ℤ) × (include_ranks t local_rank i mine ranks ≡ some (new, m))
unfolding include_ranks
include_ranks-Included t local_rank i mine [] [] all_included = (mine, refl)
include_ranks-Included t local_rank i mine [] (x ∷ new) w = elim w [ ]
include_ranks-Included t local_rank i mine (r ∷ ranks) [] w = elim w [ ]
include_ranks-Included t local_rank i mine (r ∷ ranks) (x ∷ new) (one_included e rest) =
    let (m, eq) =
      include_ranks-Included t local_rank (suc i) (if eqb local_rank r then pos i else mine) ranks
        new rest in
    (m, rw (e, eq) refl)

leave_out-Included :
    (t ranks : List ℤ) (i : ℕ) (xs : List ℤ)
    → ((j : ℕ) → get_elem? t (i + j) ≡ get_elem? xs j)
    → Included t (complement ranks i (length xs)) (leave_out ranks i xs)
unfolding leave_out
leave_out-Included t ranks i [] same = all_included
leave_out-Included t ranks i (x ∷ xs) same =
    let here : get_elem? t i ≡ some x = ap (λ (j : ℕ). get_elem? t j) (omega arith) ∙ same 0 in
    let rest =
      leave_out-Included t ranks (suc i) xs
        (λ j. ap (λ (k : ℕ). get_elem? t k) (omega arith) ∙ same (suc j)) in
    elim (Bool-cases (contains (pos i) ranks)) [
      | inl listed ↦ rw listed rest
      | inr other ↦ rw other (one_included here rest)
    ]

length-leave_out :
    (ranks : List ℤ) (i : ℕ) (t : List ℤ)
    → length (leave_out ranks i t) ≡ length (complement ranks i (length t))
unfolding leave_out
length-leave_out ranks i [] = refl
length-leave_out ranks i (x ∷ xs) = elim (Bool-cases (contains (pos i) ranks)) [
  | inl listed ↦ rw listed (length-leave_out ranks (suc i) xs)
  | inr other ↦ rw other (ap suc (length-leave_out ranks (suc i) xs))
]

excluded_rank-some :
    (g : Group) (t : List ℤ) (me : ℤ)
    → entry g.lrank2grank g.local_rank ≡ some me
    → (r : ℤ) × (excluded_rank g t ≡ some r)
unfolding excluded_rank rank_of
excluded_rank-some g t me mine = elim (Bool-cases (eqb g.local_rank undefined_rank)) [
  | inl out ↦ (undefined_rank, rw out refl)
  | inr there ↦ (found_rank 0 undefined_rank (index_of me t), rw (there, mine) refl)
]

-- MPI_Group_excl of fewer ranks than a valid group has, and MPI_Group_incl of all its other ranks, of
-- which there is one at least, in their order, make groups with the same table, where the group's
-- local rank is in its table. Each call succeeds if what malloc gives for its request, np - n and n bytes, has
-- room for that table, four bytes an entry, and else writes outside of it.
pub group_excl-group_incl :
    (granted : ℕ → ℕ) (g : Group) (ranks : List ℤ) (me : ℤ)
    → (g.cookie == group_cookie) ≡ true
    → entry g.lrank2grank g.local_rank ≡ some me
    → length ranks < length g.lrank2grank
    → 0 < length (complement ranks 0 (length g.lrank2grank))
    → let others = complement ranks 0 (length g.lrank2grank) in
      (g₁ g₂ : Group) × (g₁.lrank2grank ≡ g₂.lrank2grank)
      × (group_excl granted (group_at g) ranks ≡ (
          if leb (4 * length others) (granted (length g.lrank2grank - length ranks))
          then returns (group_at g₁)
          else invalid_access))
      × (group_incl granted (group_at g) others ≡ (
          if leb (4 * length others) (granted (length others))
          then returns (group_at g₂)
          else invalid_access))
unfolding group_excl group_incl exclude_in include_in with_group
group_excl-group_incl granted g ranks me valid mine few some_left =
    let t = g.lrank2grank in
    let others = complement ranks 0 (length t) in
    let new = leave_out ranks 0 t in
    let (m, made) =
      include_ranks-Included t g.local_rank 0 undefined_rank others new
        (leave_out-Included t ranks 0 t (λ j. ap (λ (k : ℕ). get_elem? t k) (omega arith))) in
    let size : length new ≡ length others = length-leave_out ranks 0 t in
    let fewer : leb (length t) (length ranks) ≡ false = ground arith in
    let left : (length others == 0) ≡ false = ground arith in
    let (r, rank) = excluded_rank-some g new me mine in
    (
      new_group r new,
      new_group m new,
      refl,
      rw (valid, fewer, rank, size) refl,
      rw (valid, left, made) refl,
    )
