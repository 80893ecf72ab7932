-- ===== src/Group/Tests.antt =====
-- Groups as the process with global rank 3 sees them.
use tmpi.Base.{ℕ, ◌≡◌, refl, inl, inr, ◌||◌, [], ◌∷◌, arith, ltb, if◌then◌else◌, length, ℤ, pos}
use tmpi.Group.{
  undefined_rank, Group, with_group, index_of, contains, select, new_group, rank_of, added,
  union_rank, union_of, group_union, group_at, invalid_access, returns,
}
use tmpi.Group.Ranks.{IsGroup, Makes}
use tmpi.Group.Sets.{group_union_lem, group_union-overruns}
use tmpi.Group.Subset.{group_incl, group_excl}
use tmpi.Group.Complement.{group_excl-group_incl}

abbrev me : ℤ
me = pos 3

-- ranks 5, 3 and 8, of which 3 is the caller
abbrev one : Group
one = new_group (pos 1) (pos 5 ∷ pos 3 ∷ pos 8 ∷ [])

abbrev two : Group
two = new_group (pos 0) (pos 3 ∷ pos 9 ∷ [])

-- no member
abbrev away : Group
away = new_group undefined_rank (pos 8 ∷ pos 9 ∷ [])

one-IsGroup : IsGroup me one
one-IsGroup = record {
  valid = refl;
  unique = (refl, (refl, (refl, tt)));
  mine = inr (refl, refl, refl);
}

two-IsGroup : IsGroup me two
two-IsGroup = record { valid = refl; unique = (refl, (refl, tt)); mine = inr (refl, refl, refl) }

away-IsGroup : IsGroup me away
away-IsGroup = record { valid = refl; unique = (refl, (refl, tt)); mine = inl (refl, refl) }

-- a malloc that never has room for less than 32 bytes
abbrev at_least : ℕ → ℕ
at_least n = if ltb n 32 then 32 else n

joined :
    group_union at_least (pos 77) (group_at away) (group_at two)
    ≡ returns (group_at (new_group (pos 2) (pos 8 ∷ pos 9 ∷ pos 3 ∷ [])))
unfolding group_union union_of union_rank rank_of with_group select index_of
joined = refl

group_union_lem_example :
    Makes me
      (λ r. contains r away.lrank2grank || contains r two.lrank2grank)
      (group_union at_least (pos 77) (group_at away) (group_at two))
group_union_lem_example =
    group_union_lem (pos 77) me away two away-IsGroup two-IsGroup at_least (omega arith)

abbrev third : Group
third = new_group undefined_rank (pos 7 ∷ [])

third-IsGroup : IsGroup me third
third-IsGroup = record { valid = refl; unique = (refl, tt); mine = inl (refl, refl) }

all_new : length (added two third) ≡ 1
unfolding select
all_new = refl

group_union-overruns_example :
    group_union (λ bytes. bytes) (pos 77) (group_at two) (group_at third) ≡ invalid_access
group_union-overruns_example =
    group_union-overruns (pos 77) me two third two-IsGroup third-IsGroup (omega arith) all_new

abbrev three : Group
three = new_group (pos 2) (pos 4 ∷ pos 7 ∷ pos 9 ∷ [])

-- malloc gives 24 bytes at least
abbrev at_least_24 : ℕ → ℕ
at_least_24 n = if ltb n 24 then 24 else n

group_excl-group_incl_example :
    (g₁ g₂ : Group) × (g₁.lrank2grank ≡ g₂.lrank2grank)
    × (group_excl at_least_24 (group_at three) (pos 1 ∷ []) ≡ returns (group_at g₁))
    × (group_incl at_least_24 (group_at three) (pos 0 ∷ pos 2 ∷ []) ≡ returns (group_at g₂))
group_excl-group_incl_example =
    group_excl-group_incl at_least_24 three (pos 1 ∷ []) (pos 9) refl refl (omega arith)
      (omega arith)
