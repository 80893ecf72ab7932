-- ===== src/Group/Subset.antt =====
-- MPI_Group_incl and MPI_Group_excl.
use tmpi.Base.{
  ℕ, suc, ◌-◌, Option, none, some, List, [], ◌∷◌, leb, ◌==◌, if◌then◌else◌, length, ℤ, eqb, pos,
}
use tmpi.Group.{
  undefined_rank, Group, Handle, Result, with_group, entry, contains, new_group, room, rank_of,
  make_with, group_empty, group_at, invalid_access, returns,
}

-- what the loop of MPI_Group_incl leaves: the table and the local rank
abbrev pub add_rank : Option ℤ → Option (List ℤ × ℤ) → Option (List ℤ × ℤ)
add_rank none rest = none
add_rank (some grank) none = none
add_rank (some grank) (some (t, mine)) = some (grank ∷ t, mine)

-- that loop from its round `i` on; `mine` is the local rank so far
unfoldable pub include_ranks :
    (t : List ℤ) (local_rank : ℤ) (i : ℕ) (mine : ℤ) (ranks : List ℤ) → Option (List ℤ × ℤ)
include_ranks t local_rank i mine [] = some ([], mine)
include_ranks t local_rank i mine (r ∷ rs) =
    add_rank (entry t r)
      (include_ranks t local_rank (suc i) (if eqb local_rank r then pos i else mine) rs)

abbrev pub included : Option (List ℤ × ℤ) → Result Handle
included none = invalid_access
included (some (t, mine)) = returns (group_at (new_group mine t))

unfoldable pub include_in : (granted : ℕ → ℕ) → Group → (ranks : List ℤ) → Result Handle
include_in granted g ranks =
    if length ranks == 0
    then returns group_empty
    else room granted (length ranks) ranks
        (included (include_ranks g.lrank2grank g.local_rank 0 undefined_rank ranks))

-- MPI_Group_incl; `n` is the length of `ranks`
unfoldable pub group_incl : (granted : ℕ → ℕ) → Handle → (ranks : List ℤ) → Result Handle
group_incl granted h ranks = with_group h (λ g. include_in granted g ranks)

-- the entries of a table, from its rank `i` on, whose ranks are not listed
unfoldable pub leave_out : (ranks : List ℤ) (i : ℕ) (t : List ℤ) → List ℤ
leave_out ranks i [] = []
leave_out ranks i (x ∷ xs) =
    let rest = leave_out ranks (suc i) xs in if contains (pos i) ranks then rest else x ∷ rest

-- the local rank of the group without these ranks
unfoldable pub excluded_rank : Group → (t : List ℤ) → Option ℤ
excluded_rank g t =
    if eqb g.local_rank undefined_rank
    then some undefined_rank
    else rank_of 0 undefined_rank t (entry g.lrank2grank g.local_rank)

unfoldable pub exclude_in : (granted : ℕ → ℕ) → Group → (ranks : List ℤ) → Result Handle
exclude_in granted g ranks =
    let t = leave_out ranks 0 g.lrank2grank in
    if leb (length g.lrank2grank) (length ranks)
    then returns group_empty
    else room granted (length g.lrank2grank - length ranks) t
        (make_with (λ r. group_at (new_group r t)) (excluded_rank g t))

-- MPI_Group_excl
unfoldable pub group_excl : (granted : ℕ → ℕ) → Handle → (ranks : List ℤ) → Result Handle
group_excl granted h ranks = with_group h (λ g. exclude_in granted g ranks)
