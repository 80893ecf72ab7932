-- ===== src/Group/Sets.antt =====
-- MPI_Group_union, MPI_Group_intersection and MPI_Group_difference, as operations on sets of
-- ranks.
use tmpi.Base.{
  ℕ, ◌+◌, ◌*◌, ◌≤◌, ◌<◌, ◌≡◌, refl, ap, ◌∙◌, true, false, not, ◌&&◌, ◌||◌, List, ◌++◌, arith, leb,
  length, length-append, ℤ,
}
use tmpi.Group.{
  Group, Handle, Result, contains, new_group, room, or_empty, make_with, added, common, others,
  union_of, intersection_of, difference_of, group_union, group_intersection, group_difference,
  group_at, invalid_access,
}
use tmpi.Group.Tables.{contains-select, length-select}
use tmpi.Group.Ranks.{
  IsGroup, Makes, or_empty-IsHandle, both_valid, IsRank, members-union, intersection_rank-IsRank,
  difference_rank-IsRank, union_rank-IsRank,
}

module _ (junk : ℤ) (me : ℤ) (g₁ g₂ : Group) (v₁ : IsGroup me g₁) (v₂ : IsGroup me g₂) where
  fits_table :
      (granted : ℕ → ℕ) (bytes n : ℕ) (t : List ℤ) (o : Result Handle)
      → length t ≤ n
      → 4 * n ≤ granted bytes
      → room granted bytes t o ≡ o
  fits_table granted bytes n t o le enough =
      let fits : leb (4 * length t) (granted bytes) ≡ true = ground arith in rw fits refl

  -- Where malloc has room for the table, the union of two groups holds the ranks of both, each
  -- once. The local rank in it is where the calling process `me` stands, or MPI_UNDEFINED if it is
  -- in neither.
  pub group_union_lem :
      (granted : ℕ → ℕ)
      → 4 * (length g₁.lrank2grank + length g₂.lrank2grank)
        ≤ granted (length g₁.lrank2grank + length g₂.lrank2grank)
      → Makes me
          (λ r. contains r g₁.lrank2grank || contains r g₂.lrank2grank)
          (group_union granted junk (group_at g₁) (group_at g₂))
  unfolding group_union union_of IsRank
  group_union_lem granted enough =
      let t = g₁.lrank2grank ++ added g₁ g₂ in
      let n = length g₁.lrank2grank + length g₂.lrank2grank in
      let (r, e, v) = union_rank-IsRank junk me g₁ g₂ v₁ v₂ in
      let short : length t ≤ n = omega (
        arith,
        length-append g₁.lrank2grank (added g₁ g₂),
        length-select (λ x. not (contains x g₁.lrank2grank)) g₂.lrank2grank,
      ) in
      (
        group_at (new_group r t),
        both_valid g₁ g₂ (union_of granted junk) v₁.valid v₂.valid
            ∙ fits_table granted n n t _ short enough
            ∙ ap (make_with (λ x. group_at (new_group x t))) e,
        v,
        members-union junk me g₁ g₂ v₁ v₂,
      )

  -- Where malloc has room for the first group's table, the intersection holds the ranks that are
  -- in both groups, each once. The local rank in it is where the calling process `me` stands, or
  -- MPI_UNDEFINED if it is not in both.
  pub group_intersection_lem :
      (granted : ℕ → ℕ)
      → 4 * length g₁.lrank2grank ≤ granted (length g₁.lrank2grank)
      → Makes me
          (λ r. contains r g₁.lrank2grank && contains r g₂.lrank2grank)
          (group_intersection granted junk (group_at g₁) (group_at g₂))
  unfolding group_intersection intersection_of IsRank
  group_intersection_lem granted enough =
      let t = common g₁ g₂ in
      let n = length g₁.lrank2grank in
      let (r, e, v) = intersection_rank-IsRank junk me g₁ g₂ v₁ v₂ in
      let made = or_empty-IsHandle me (new_group r t) v in
      (
        or_empty (new_group r t),
        both_valid g₁ g₂ (intersection_of granted junk) v₁.valid v₂.valid
            ∙ fits_table granted n n t _ (length-select _ g₁.lrank2grank) enough
            ∙ ap (make_with (λ x. or_empty (new_group x t))) e,
        made.0,
        λ x. made.1 x ∙ contains-select (λ y. contains y g₂.lrank2grank) x g₁.lrank2grank,
      )

  -- Where malloc has room for the first group's table, the difference holds the ranks of the first
  -- group that are not in the second, each once. The local rank in it is where the calling process
  -- `me` stands, or MPI_UNDEFINED if it is not there.
  pub group_difference_lem :
      (granted : ℕ → ℕ)
      → 4 * length g₁.lrank2grank ≤ granted (length g₁.lrank2grank)
      → Makes me
          (λ r. contains r g₁.lrank2grank && not (contains r g₂.lrank2grank))
          (group_difference granted junk (group_at g₁) (group_at g₂))
  unfolding group_difference difference_of IsRank
  group_difference_lem granted enough =
      let t = others g₁ g₂ in
      let n = length g₁.lrank2grank in
      let (r, e, v) = difference_rank-IsRank junk me g₁ g₂ v₁ v₂ in
      let made = or_empty-IsHandle me (new_group r t) v in
      (
        or_empty (new_group r t),
        both_valid g₁ g₂ (difference_of granted junk) v₁.valid v₂.valid
            ∙ fits_table granted n n t _ (length-select _ g₁.lrank2grank) enough
            ∙ ap (make_with (λ x. or_empty (new_group x t))) e,
        made.0,
        λ x. made.1 x ∙ contains-select (λ y. not (contains y g₂.lrank2grank)) x g₁.lrank2grank,
      )

  -- group.c asks malloc for one byte for each rank, and an int takes four. If malloc has room for
  -- the bytes that it is asked for and no more, the union of a group that is not empty and one whose
  -- ranks are all new to it writes past its table.
  pub group_union-overruns :
      0 < length g₁.lrank2grank
      → length (added g₁ g₂) ≡ length g₂.lrank2grank
      → group_union (λ bytes. bytes) junk (group_at g₁) (group_at g₂) ≡ invalid_access
  unfolding group_union union_of
  group_union-overruns some_ranks all_new =
      both_valid g₁ g₂ (union_of (λ bytes. bytes) junk) v₁.valid v₂.valid
      ∙ (let over : leb (4 * length (g₁.lrank2grank ++ added g₁ g₂))
                (length g₁.lrank2grank + length g₂.lrank2grank)
              ≡ false =
            ground (arith, length-append g₁.lrank2grank (added g₁ g₂)) in
          rw over refl)
