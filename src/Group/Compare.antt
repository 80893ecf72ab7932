-- ===== src/Group/Compare.antt =====
-- MPI_Group_compare and MPI_Group_translate_ranks.
use tmpi.Base.{
  pos, inr, inl, ◌+◌, ◌≡◌, refl, ap, ap₂, ◌∙◌, subst, ◌≢◌, ◌⊎◌, inl, inr, true, false, some, List,
  [], ◌∷◌, arith, ◌==◌, ==_iff, Bool-cases, length, get_elem?, ℤ, eqb, eqb_iff, pos,
}
use tmpi.Group.{
  undefined_rank, group_cookie, Group, with_group, entry, contains, found_rank, Comparison,
  same_table, all_in, group_compare, translate_one, translate, group_translate_ranks, group_at,
  returns, ident, similar, unequal,
}
use tmpi.Group.Tables.{index_of-contains, index_of-out}

same_table-eq : (xs ys : List ℤ) → length xs ≡ length ys → same_table xs ys ≡ true → xs ≡ ys
same_table-eq [] [] l e = refl
same_table-eq [] (y ∷ ys) l e = absurd (omega (arith, l))
same_table-eq (x ∷ xs) [] l e = absurd (omega (arith, l))
same_table-eq (x ∷ xs) (y ∷ ys) l e =
    ap₂ ◌∷◌ ((eqb_iff x y).0 (ground arith)) (same_table-eq xs ys (omega (arith, l)) (ground arith))

pub same_table_self : (xs : List ℤ) → same_table xs xs ≡ true
same_table_self [] = refl
same_table_self (x ∷ xs) = ground (arith, (eqb_iff x x).1 refl, same_table_self xs)

all_in-contains :
    (xs ys : List ℤ) → all_in xs ys ≡ true → (r : ℤ) → contains r xs ≡ true → contains r ys ≡ true
all_in-contains [] ys e r m = absurd (ground arith)
all_in-contains (x ∷ xs) ys e r m = elim (Bool-cases (eqb x r)) [
  | inl here ↦ subst (λ z. contains z ys ≡ true) ((eqb_iff x r).0 here) (ground arith)
  | inr there ↦ all_in-contains xs ys (ground arith) r (ground arith)
]

not_all_in :
    (xs ys : List ℤ)
    → all_in xs ys ≡ false
    → (r : ℤ) × (contains r xs ≡ true) × (contains r ys ≡ false)
not_all_in [] ys e = absurd (ground arith)
not_all_in (x ∷ xs) ys e = elim (Bool-cases (contains x ys)) [
  | inr out ↦ (x, ground (arith, (eqb_iff x x).1 refl), out)
  | inl m ↦ let (r, a, b) = not_all_in xs ys (ground arith) in (r, ground (arith, a), b)
]

-- What each answer says of the two tables.
abbrev pub Means : Comparison → (t₁ t₂ : List ℤ) → Type 0
Means ident t₁ t₂ = t₁ ≡ t₂
Means similar t₁ t₂ =
    (t₁ ≢ t₂) × (length t₁ ≡ length t₂) × ((r : ℤ) → contains r t₁ ≡ true → contains r t₂ ≡ true)
Means unequal t₁ t₂ =
    (length t₁ ≢ length t₂) ⊎ ((r : ℤ) × (contains r t₁ ≡ true) × (contains r t₂ ≡ false))

-- MPI_Group_compare of two valid groups returns MPI_IDENT only if the tables are the same,
-- MPI_SIMILAR only if they are not, but are of one length and each rank of the first is in the
-- second, and MPI_UNEQUAL only if their lengths differ or some rank of the first is not in the
-- second.
pub group_compare_lem :
    (g₁ g₂ : Group)
    → (g₁.cookie == group_cookie) ≡ true
    → (g₂.cookie == group_cookie) ≡ true
    → (c : Comparison) × (group_compare (group_at g₁) (group_at g₂) ≡ returns c)
      × Means c g₁.lrank2grank g₂.lrank2grank
unfolding group_compare with_group
group_compare_lem g₁ g₂ valid₁ valid₂ =
    let t₁ = g₁.lrank2grank in
    let t₂ = g₂.lrank2grank in
    elim (Bool-cases (length t₁ == length t₂)) [
      | inr differ ↦ (unequal, rw (valid₁, valid₂) (rw differ refl), inl (ground (arith, differ)))
      | inl same ↦
          let l : length t₁ ≡ length t₂ = (==_iff (length t₁) (length t₂)).0 same in
          elim (Bool-cases (same_table t₁ t₂)) [
            | inl equal ↦
                (ident, rw (valid₁, valid₂) (rw (same, equal) refl), same_table-eq t₁ t₂ l equal)
            | inr other ↦ elim (Bool-cases (all_in t₁ t₂)) [
              | inl inside ↦ (
                similar,
                rw (valid₁, valid₂) (rw (same, other) (rw inside refl)),
                (
                  (λ e. absurd (
                      ground (
                        arith,
                        other,
                        subst (λ t. same_table t₁ t ≡ true) e (same_table_self t₁),
                      ))),
                  l,
                  all_in-contains t₁ t₂ inside,
                ),
              )
              | inr outside ↦ (
                unequal,
                rw (valid₁, valid₂) (rw (same, other) (rw outside refl)),
                inr (not_all_in t₁ t₂ outside),
              )
            ]
          ]
    ]

-- What MPI_Group_translate_ranks writes for the rank `r`: the rank in the second group of the same
-- process, or MPI_UNDEFINED if it is not there.
abbrev pub Translated : (t₁ t₂ : List ℤ) → (r r' : ℤ) → Type 0
Translated t₁ t₂ r r' =
    (grank : ℤ) × (entry t₁ r ≡ some grank)
    × ((entry t₂ r' ≡ some grank) ⊎ ((r' ≡ undefined_rank) × (contains grank t₂ ≡ false)))

abbrev pub AllTranslated : (t₁ t₂ rs rs' : List ℤ) → Type 0
AllTranslated t₁ t₂ [] [] = Unit {0}
AllTranslated t₁ t₂ [] (r' ∷ rs') = ⊥
AllTranslated t₁ t₂ (r ∷ rs) [] = ⊥
AllTranslated t₁ t₂ (r ∷ rs) (r' ∷ rs') = Translated t₁ t₂ r r' × AllTranslated t₁ t₂ rs rs'

-- each rank is one of the group's
abbrev pub AllRanks : List ℤ → List ℤ → Type 0
AllRanks t [] = Unit {0}
AllRanks t (r ∷ rs) = ((grank : ℤ) × (entry t r ≡ some grank)) × AllRanks t rs

translate_lem :
    (t₁ t₂ rs : List ℤ)
    → AllRanks t₁ rs
    → (rs' : List ℤ) × (translate t₁ t₂ rs ≡ returns rs') × AllTranslated t₁ t₂ rs rs'
unfolding translate translate_one
translate_lem t₁ t₂ [] v = ([], refl, tt)
translate_lem t₁ t₂ (r ∷ rs) ((grank, at), v) =
    let (rs', e, all) = translate_lem t₁ t₂ rs v in
    elim (Bool-cases (contains grank t₂)) [
      | inl m ↦
          let (i, found, f) = index_of-contains grank t₂ m in
          let at_i : 0 + i ≡ i = omega arith in
          (
            pos (0 + i) ∷ rs',
            ap₂ (translate_one t₂) at e
                ∙ ap (λ x. returns (found_rank 0 undefined_rank x ∷ rs')) found,
            ((grank, at, inl (ap (get_elem? t₂) at_i ∙ f)), all),
          )
      | inr out ↦ (
        undefined_rank ∷ rs',
        ap₂ (translate_one t₂) at e
            ∙ ap (λ x. returns (found_rank 0 undefined_rank x ∷ rs')) (index_of-out grank t₂ out),
        ((grank, at, inr (refl, out)), all),
      )
    ]

-- MPI_Group_translate_ranks of two valid groups, given ranks of the first, returns for each a rank
-- that the same process has in the second, or MPI_UNDEFINED if it is not there.
pub group_translate_ranks_lem :
    (g₁ g₂ : Group) (ranks1 : List ℤ)
    → (g₁.cookie == group_cookie) ≡ true
    → (g₂.cookie == group_cookie) ≡ true
    → AllRanks g₁.lrank2grank ranks1
    → (ranks2 : List ℤ) × (group_translate_ranks (group_at g₁) ranks1 (group_at g₂)
        ≡ returns ranks2)
      × AllTranslated g₁.lrank2grank g₂.lrank2grank ranks1 ranks2
unfolding group_translate_ranks with_group
group_translate_ranks_lem g₁ g₂ ranks1 valid₁ valid₂ v =
    let (ranks2, e, all) = translate_lem g₁.lrank2grank g₂.lrank2grank ranks1 v in
    (ranks2, rw (valid₁, valid₂) e, all)
