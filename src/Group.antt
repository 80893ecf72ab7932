-- ===== src/Group.antt =====
-- src/runtime/src/mpi/context/group.c: groups of processes, by their tables of global ranks.
pub mod Tables
pub mod Ranks
pub mod Sets
pub mod Compare
pub mod Subset
pub mod Complement
mod Tests
use tmpi.Base.{
  ℕ, suc, ◌+◌, ◌-◌, ◌*◌, Bool, true, false, not, ◌&&◌, ◌||◌, Option, none, some, List, [], ◌∷◌,
  ◌++◌, leb, ◌==◌, if◌then◌else◌, length, get_elem?, ℤ, eqb, pos, negsuc,
}

-- MPI_UNDEFINED
abbrev pub undefined_rank : ℤ
undefined_rank = negsuc 32765

-- MPI_GROUP_COOKIE
abbrev pub group_cookie : ℕ
group_cookie = 0x87ef54a0

-- tmpi_Group; `np` is the length of the table
pub record Group : Type 0 where
  pub cookie : ℕ
  pub local_rank : ℤ
  pub ref_count : ℕ
  pub is_permanent : Bool
  pub lrank2grank : List ℤ

-- MPI_Group: MPI_GROUP_NULL, MPI_GROUP_EMPTY, or the address of a group
pub data Handle : Type 0 where
  group_null group_empty : Handle
  group_at : Group → Handle

pub data Failure : Type 0 where
  err_group err_perm_group err_comm err_intern : Failure

-- What a call does: it fails, returns, or reads or writes where it may not.
pub data Result {ℓ} (A : Type ℓ) : Type ℓ where
  invalid_access : Result A
  fails : Failure → Result A
  returns : A → Result A

-- group_verify, and what its callers do with NULL
unfoldable pub with_group {ℓ} : {A : Type ℓ} → Handle → (Group → Result A) → Result A
with_group group_null k = invalid_access
with_group group_empty k = fails err_group
with_group (group_at g) k = if g.cookie == group_cookie then k g else fails err_group

-- lrank2grank[i], none outside of the table
abbrev pub entry : List ℤ → ℤ → Option ℤ
entry t (pos i) = get_elem? t i
entry t (negsuc i) = none

abbrev pub next_index : Option ℕ → Option ℕ
next_index none = none
next_index (some i) = some (suc i)

-- the loop `for (j...) if (t[j]==grank) { lrank=j; break; }`
unfoldable pub index_of : ℤ → List ℤ → Option ℕ
index_of grank [] = none
index_of grank (x ∷ xs) = if eqb x grank then some 0 else next_index (index_of grank xs)

-- whether that loop finds anything
abbrev pub contains : ℤ → List ℤ → Bool
contains grank [] = false
contains grank (x ∷ xs) = eqb x grank || contains grank xs

-- the entries that a loop over a table copies
unfoldable pub select : (ℤ → Bool) → List ℤ → List ℤ
select test [] = []
select test (x ∷ xs) = if test x then x ∷ select test xs else select test xs

abbrev pub new_group : (local_rank : ℤ) → List ℤ → Group
new_group local_rank t = record {
  cookie = group_cookie;
  local_rank = local_rank;
  ref_count = 1;
  is_permanent = false;
  lrank2grank = t;
}

-- a rank that a search sets; `junk` is what malloc left in the field
abbrev pub found_rank : (first : ℕ) (junk : ℤ) → Option ℕ → ℤ
found_rank first junk none = junk
found_rank first junk (some i) = pos (first + i)

-- The table that is filled with `t` has room for `granted bytes` bytes, and an int takes four.
abbrev pub room : (granted : ℕ → ℕ) (bytes : ℕ) → List ℤ → Result Handle → Result Handle
room granted bytes t r = if leb (4 * length t) (granted bytes) then r else invalid_access

-- an empty group is freed again
abbrev pub or_empty : Group → Handle
or_empty g = if length g.lrank2grank == 0 then group_empty else group_at g

-- the rank in table `t` of the process that a table's entry names; none for an invalid access
unfoldable pub rank_of : (first : ℕ) (junk : ℤ) → List ℤ → Option ℤ → Option ℤ
rank_of first junk t none = none
rank_of first junk t (some grank) = some (found_rank first junk (index_of grank t))

abbrev pub make_with : (ℤ → Handle) → Option ℤ → Result Handle
make_with f none = invalid_access
make_with f (some r) = returns (f r)

-- the entries that a union adds to the first table, and those of the other two operations
abbrev pub added : Group → Group → List ℤ
added g₁ g₂ = select (λ r. not (contains r g₁.lrank2grank)) g₂.lrank2grank

abbrev pub common : Group → Group → List ℤ
common g₁ g₂ = select (λ r. contains r g₂.lrank2grank) g₁.lrank2grank

abbrev pub others : Group → Group → List ℤ
others g₁ g₂ = select (λ r. not (contains r g₂.lrank2grank)) g₁.lrank2grank

-- the local rank of the union
unfoldable pub union_rank : (junk : ℤ) → Group → Group → Option ℤ
union_rank junk g₁ g₂ =
    if not (eqb g₁.local_rank undefined_rank)
    then some g₁.local_rank
    else if not (eqb g₂.local_rank undefined_rank)
    then rank_of (length g₁.lrank2grank) junk (added g₁ g₂) (entry g₂.lrank2grank g₂.local_rank)
    else some undefined_rank

unfoldable pub intersection_rank : (junk : ℤ) → Group → Group → Option ℤ
intersection_rank junk g₁ g₂ =
    if eqb g₁.local_rank undefined_rank || eqb g₂.local_rank undefined_rank
    then some undefined_rank
    else rank_of 0 junk (common g₁ g₂) (entry g₁.lrank2grank g₁.local_rank)

unfoldable pub difference_rank : (junk : ℤ) → Group → Group → Option ℤ
difference_rank junk g₁ g₂ =
    if eqb g₁.local_rank undefined_rank || not (eqb g₂.local_rank undefined_rank)
    then some undefined_rank
    else rank_of 0 junk (others g₁ g₂) (entry g₁.lrank2grank g₁.local_rank)

-- The three operations on valid groups; `granted` says how many bytes a malloc of some has room
-- for.
unfoldable pub union_of : (granted : ℕ → ℕ) (junk : ℤ) → Group → Group → Result Handle
union_of granted junk g₁ g₂ =
    let t = g₁.lrank2grank ++ added g₁ g₂ in
    room granted (length g₁.lrank2grank + length g₂.lrank2grank) t
      (make_with (λ r. group_at (new_group r t)) (union_rank junk g₁ g₂))

unfoldable pub intersection_of : (granted : ℕ → ℕ) (junk : ℤ) → Group → Group → Result Handle
intersection_of granted junk g₁ g₂ =
    room granted (length g₁.lrank2grank) (common g₁ g₂)
      (make_with (λ r. or_empty (new_group r (common g₁ g₂))) (intersection_rank junk g₁ g₂))

unfoldable pub difference_of : (granted : ℕ → ℕ) (junk : ℤ) → Group → Group → Result Handle
difference_of granted junk g₁ g₂ =
    room granted (length g₁.lrank2grank) (others g₁ g₂)
      (make_with (λ r. or_empty (new_group r (others g₁ g₂))) (difference_rank junk g₁ g₂))

-- MPI_Group_union, MPI_Group_intersection and MPI_Group_difference
unfoldable pub group_union : (granted : ℕ → ℕ) (junk : ℤ) → Handle → Handle → Result Handle
group_union granted junk h₁ h₂ = with_group h₁ (λ g₁. with_group h₂ (union_of granted junk g₁))

unfoldable pub group_intersection : (granted : ℕ → ℕ) (junk : ℤ) → Handle → Handle → Result Handle
group_intersection granted junk h₁ h₂ =
    with_group h₁ (λ g₁. with_group h₂ (intersection_of granted junk g₁))

unfoldable pub group_difference : (granted : ℕ → ℕ) (junk : ℤ) → Handle → Handle → Result Handle
group_difference granted junk h₁ h₂ =
    with_group h₁ (λ g₁. with_group h₂ (difference_of granted junk g₁))

-- MPI_Group_size and MPI_Group_rank
unfoldable pub group_size : Handle → Result ℕ
group_size h = with_group h (λ g. returns (length g.lrank2grank))

unfoldable pub group_rank : Handle → Result ℤ
group_rank h = with_group h (λ g. returns g.local_rank)

-- MPI_IDENT, MPI_SIMILAR and MPI_UNEQUAL
pub data Comparison : Type 0 where
  ident similar unequal : Comparison

-- the first loop of MPI_Group_compare, over tables of one length
abbrev pub same_table : List ℤ → List ℤ → Bool
same_table [] t = true
same_table (x ∷ xs) [] = true
same_table (x ∷ xs) (y ∷ ys) = eqb x y && same_table xs ys

-- the second loop
abbrev pub all_in : List ℤ → List ℤ → Bool
all_in [] t = true
all_in (x ∷ xs) t = contains x t && all_in xs t

-- MPI_Group_compare
unfoldable pub group_compare : Handle → Handle → Result Comparison
group_compare h₁ h₂ = with_group h₁ (λ g₁. with_group h₂ (λ g₂.
    let t₁ = g₁.lrank2grank in
    let t₂ = g₂.lrank2grank in
    if not (length t₁ == length t₂)
    then returns unequal
    else if same_table t₁ t₂
    then returns ident
    else if all_in t₁ t₂
    then returns similar
    else returns unequal))

-- one round of MPI_Group_translate_ranks, in front of those that follow
unfoldable pub translate_one : (t₂ : List ℤ) → Option ℤ → Result (List ℤ) → Result (List ℤ)
translate_one t₂ none rest = invalid_access
translate_one t₂ (some grank) invalid_access = invalid_access
translate_one t₂ (some grank) (fails e) = fails e
translate_one t₂ (some grank) (returns ranks2) =
    returns (found_rank 0 undefined_rank (index_of grank t₂) ∷ ranks2)

-- MPI_Group_translate_ranks: the entries of `ranks2`
unfoldable pub translate : (t₁ t₂ ranks1 : List ℤ) → Result (List ℤ)
translate t₁ t₂ [] = returns []
translate t₁ t₂ (r ∷ rs) = translate_one t₂ (entry t₁ r) (translate t₁ t₂ rs)

unfoldable pub group_translate_ranks : Handle → (ranks1 : List ℤ) → Handle → Result (List ℤ)
group_translate_ranks h₁ ranks1 h₂ =
    with_group h₁ (λ g₁. with_group h₂ (λ g₂. translate g₁.lrank2grank g₂.lrank2grank ranks1))

-- MPI_Group_free: the group that is left at the address, none if it is freed, and *group_ptr
unfoldable pub group_free : Handle → Result (Option Group × Handle)
group_free h = with_group h (λ g.
    if g.is_permanent
    then fails err_perm_group
    else if leb g.ref_count 1
    then returns (none, group_null)
    else returns (some (record g { ref_count = g.ref_count - 1 }), group_null))
