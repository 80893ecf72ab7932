-- ===== src/Group/Ranks.antt =====
-- Groups as one process sees them, and the local rank that the set operations compute.
use tmpi.Base.{
  pos, inr, inl, ℕ, ◌+◌, ◌≡◌, refl, sym, ap, ◌∙◌, ◌⊎◌, inl, inr, Bool, true, false, not, ◌||◌,
  Option, some, List, [], ◌∷◌, ◌++◌, arith, ◌==◌, if◌then◌else◌, length, get_elem?, ℤ, eqb, pos,
}
use tmpi.Group.{
  undefined_rank, group_cookie, Group, Handle, Result, with_group, entry, contains, new_group,
  found_rank, or_empty, rank_of, added, common, others, union_rank, intersection_rank,
  difference_rank, group_null, group_empty, group_at, returns,
}
use tmpi.Group.Tables.{
  Unique, contains-append, contains-select, Unique-select, Unique-append, index_of-contains,
  get_elem?-contains, get_elem?-append, entry-front,
}

-- the ranks of what a handle stands for
abbrev pub table_of : Handle → List ℤ
table_of group_null = []
table_of group_empty = []
table_of (group_at g) = g.lrank2grank

-- A group as the process with global rank `me` sees it: its own entry is where `local_rank` says,
-- and there is none if that is MPI_UNDEFINED.
pub record IsGroup (me : ℤ) (g : Group) : Type 0 where
  pub valid : (g.cookie == group_cookie) ≡ true
  pub unique : Unique g.lrank2grank
  pub mine :
      ((eqb g.local_rank undefined_rank ≡ true) × (contains me g.lrank2grank ≡ false))
      ⊎ ((eqb g.local_rank undefined_rank ≡ false)
          × (contains me g.lrank2grank ≡ true)
          × (entry g.lrank2grank g.local_rank ≡ some me))

abbrev pub IsHandle : (me : ℤ) → Handle → Type 0
IsHandle me group_null = ⊥
IsHandle me group_empty = Unit {0}
IsHandle me (group_at g) = IsGroup me g

-- The call made a handle that `me` may use, and the ranks behind it are those that pass the test.
abbrev pub Makes : (me : ℤ) → (ℤ → Bool) → Result Handle → Type 0
Makes me test o =
    (h : Handle) × (o ≡ returns h) × IsHandle me h × ((r : ℤ) → contains r (table_of h) ≡ test r)

new_group-out :
    (me : ℤ) (t : List ℤ)
    → Unique t
    → contains me t ≡ false
    → IsGroup me (new_group undefined_rank t)
new_group-out me t u out = record { valid = refl; unique = u; mine = inl (refl, out) }

new_group-in :
    (me : ℤ) (t : List ℤ) (i : ℕ)
    → Unique t
    → get_elem? t i ≡ some me
    → IsGroup me (new_group (pos i) t)
new_group-in me t i u at = record {
  valid = refl;
  unique = u;
  mine = inr (refl, get_elem?-contains me t i at, at);
}

pub or_empty-IsHandle :
    (me : ℤ) (g : Group)
    → IsGroup me g
    → IsHandle me (or_empty g)
      × ((r : ℤ) → contains r (table_of (or_empty g)) ≡ contains r g.lrank2grank)
or_empty-IsHandle me g v = go g.lrank2grank refl
  where
    go :
        (t : List ℤ)
        → g.lrank2grank ≡ t
        → let h = if length t == 0 then group_empty else group_at g in
          IsHandle me h × ((r : ℤ) → contains r (table_of h) ≡ contains r g.lrank2grank)
    go [] e = (tt, λ r. ap (contains r) (sym e))
    go (x ∷ xs) e =
        let some_there : (length (x ∷ xs) == 0) ≡ false = ground arith in
        rw some_there (v, λ r. refl)

pub both_valid :
    (g₁ g₂ : Group) (k : Group → Group → Result Handle)
    → (g₁.cookie == group_cookie) ≡ true
    → (g₂.cookie == group_cookie) ≡ true
    → with_group (group_at g₁) (λ g. with_group (group_at g₂) (k g)) ≡ k g₁ g₂
unfolding with_group
both_valid g₁ g₂ k e f = rw (e, f) refl

rank_of-some :
    (first : ℕ) (junk me : ℤ) (t : List ℤ) (o : Option ℤ)
    → o ≡ some me
    → contains me t ≡ true
    → (i : ℕ) × (get_elem? t i ≡ some me) × (rank_of first junk t o ≡ some (pos (first + i)))
unfolding rank_of
rank_of-some first junk me t o at m =
    let (i, e, f) = index_of-contains me t m in
    (i, f, rw at (ap (λ x. some (found_rank first junk x)) e))

-- A rank that is right in a table.
unfoldable pub IsRank : (me : ℤ) → List ℤ → ℤ → Type 0
IsRank me t r = IsGroup me (new_group r t)

module _ (junk : ℤ) (me : ℤ) (g₁ g₂ : Group) (v₁ : IsGroup me g₁) (v₂ : IsGroup me g₂) where
  pub members-union :
      (r : ℤ)
      → contains r (g₁.lrank2grank ++ added g₁ g₂)
        ≡ (contains r g₁.lrank2grank || contains r g₂.lrank2grank)
  members-union r =
      contains-append r g₁.lrank2grank (added g₁ g₂)
      ∙ ground (arith, contains-select (λ x. not (contains x g₁.lrank2grank)) r g₂.lrank2grank)

  Unique-union : Unique (g₁.lrank2grank ++ added g₁ g₂)
  Unique-union =
      Unique-append g₁.lrank2grank (added g₁ g₂) v₁.unique
        (Unique-select _ g₂.lrank2grank v₂.unique)
        (λ r m.
          ground
            (arith, m, contains-select (λ x. not (contains x g₁.lrank2grank)) r g₂.lrank2grank))

  -- the rank in a table of the first group's entries
  rank_of-IsRank :
      (t : List ℤ) (l : ℤ)
      → Unique t
      → contains me t ≡ true
      → entry g₁.lrank2grank l ≡ some me
      → (r : ℤ) × (rank_of 0 junk t (entry g₁.lrank2grank l) ≡ some r) × IsRank me t r
  unfolding IsRank
  rank_of-IsRank t l u m at =
      let (i, f, e) = rank_of-some 0 junk me t _ at m in
      let at_i : 0 + i ≡ i = omega arith in
      (pos (0 + i), e, new_group-in me t (0 + i) u (ap (get_elem? t) at_i ∙ f))

  pub intersection_rank-IsRank :
      (r : ℤ) × (intersection_rank junk g₁ g₂ ≡ some r) × IsRank me (common g₁ g₂) r
  unfolding intersection_rank IsRank
  intersection_rank-IsRank =
      let test = λ (r : ℤ). contains r g₂.lrank2grank in
      let u : Unique (common g₁ g₂) = Unique-select test g₁.lrank2grank v₁.unique in
      let members = contains-select test me g₁.lrank2grank in
      elim v₁.mine [
        | inl (nowhere, out) ↦
            (undefined_rank, rw nowhere refl, new_group-out me _ u (members ∙ ground (arith, out)))
        | inr (there, m, at) ↦ elim v₂.mine [
          | inl (nowhere₂, out₂) ↦ (
            undefined_rank,
            rw (there, nowhere₂) refl,
            new_group-out me _ u (members ∙ ground (arith, m, out₂)),
          )
          | inr (there₂, m₂, at₂) ↦
              let k =
                rank_of-IsRank (common g₁ g₂) g₁.local_rank u (members ∙ ground (arith, m, m₂))
                  at in
              (k.0, rw (there, there₂) k.1, k.2)
        ]
      ]

  pub difference_rank-IsRank :
      (r : ℤ) × (difference_rank junk g₁ g₂ ≡ some r) × IsRank me (others g₁ g₂) r
  unfolding difference_rank IsRank
  difference_rank-IsRank =
      let test = λ (r : ℤ). not (contains r g₂.lrank2grank) in
      let u : Unique (others g₁ g₂) = Unique-select test g₁.lrank2grank v₁.unique in
      let members = contains-select test me g₁.lrank2grank in
      elim v₁.mine [
        | inl (nowhere, out) ↦
            (undefined_rank, rw nowhere refl, new_group-out me _ u (members ∙ ground (arith, out)))
        | inr (there, m, at) ↦ elim v₂.mine [
          | inr (there₂, m₂, at₂) ↦ (
            undefined_rank,
            rw (there, there₂) refl,
            new_group-out me _ u (members ∙ ground (arith, m, m₂)),
          )
          | inl (nowhere₂, out₂) ↦
              let k =
                rank_of-IsRank (others g₁ g₂) g₁.local_rank u (members ∙ ground (arith, m, out₂))
                  at in
              (k.0, rw (there, nowhere₂) k.1, k.2)
        ]
      ]

  pub union_rank-IsRank :
      (r : ℤ) × (union_rank junk g₁ g₂ ≡ some r) × IsRank me (g₁.lrank2grank ++ added g₁ g₂) r
  unfolding union_rank IsRank
  union_rank-IsRank = elim v₁.mine [
    | inr (there, m, at) ↦ (
      g₁.local_rank,
      rw there refl,
      record {
        valid = refl;
        unique = Unique-union;
        mine = inr (
          there,
          members-union me ∙ ground (arith, m),
          entry-front me g₁.lrank2grank (added g₁ g₂) g₁.local_rank at,
        );
      },
    )
    | inl (nowhere, out) ↦ elim v₂.mine [
      | inl (nowhere₂, out₂) ↦ (
        undefined_rank,
        rw (nowhere, nowhere₂) refl,
        new_group-out me _ Unique-union (members-union me ∙ ground (arith, out, out₂)),
      )
      | inr (there, m, at) ↦
          let t = added g₁ g₂ in
          let mine : contains me t ≡ true =
            contains-select (λ x. not (contains x g₁.lrank2grank)) me g₂.lrank2grank
            ∙ ground (arith, m, out) in
          let (i, f, e) = rank_of-some (length g₁.lrank2grank) junk me t _ at mine in
          (
            pos (length g₁.lrank2grank + i),
            rw (nowhere, there) e,
            new_group-in me _ (length g₁.lrank2grank + i) Unique-union
                (get_elem?-append g₁.lrank2grank t i ∙ f),
          )
    ]
  ]
