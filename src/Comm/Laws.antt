-- ===== src/Comm/Laws.antt =====
-- MPI_COMM_WORLD from its set-up to its end.
use tmpi.Comm.{
  comm_cookie, Comm, World, verified, world_comm, comm_verify, when_verified, comm_size, comm_rank,
  CommComparison, by_group, group_result, answer, comm_compare, table_entry, comm_global_id,
  comm_world, comm_at, same, congruent, alike, different,
}
use tmpi.Comm.Setup.{
  own_ranks, world_group, new_comm, end_in, comm_end, init_failed, init_in, comm_init,
}
use tmpi.Base.{
  ℕ, zero, suc, ◌+◌, ◌<◌, ◌≡◌, refl, ap, ◌∙◌, ◌≢◌, ◌⊎◌, inl, inr, Bool, true, false, ◌&&◌, Option,
  none, some, List, arith, ◌==◌, Bool-cases, ==_refl, length, get_elem?, ℤ, pos,
}
use tmpi.Group.{
  group_cookie, Group, with_group, Comparison, group_compare, group_at, err_comm, err_intern, fails,
  returns, ident, similar, unequal,
}
use tmpi.Group.Compare.{same_table_self, Means, group_compare_lem}
use tmpi.Intra.Types.{update, update_self, err_intern, err_comm}

own_ranks-entry : (k n i : ℕ) → i < n → get_elem? (own_ranks k n) i ≡ some (pos (k + i))
unfolding own_ranks
own_ranks-entry k zero i h = absurd (omega arith)
own_ranks-entry k (suc n) zero h = ap (λ (j : ℕ). some (pos j)) (omega arith)
own_ranks-entry k (suc n) (suc i) h =
    own_ranks-entry (suc k) n i (omega arith) ∙ ap (λ (j : ℕ). some (pos j)) (omega arith)

-- What the calls say of MPI_COMM_WORLD in a process of rank `grank` out of `nproc`, whatever
-- `group_result` held.
pub record Works (w : World) (myid nproc : ℕ) (grank : ℤ) : Type 0 where
  pub size : comm_size w comm_world myid ≡ returns nproc
  pub rank : comm_rank w comm_world myid ≡ returns grank
  pub compares :
      (junk : Option Comparison)
      → comm_compare w junk comm_world comm_world myid ≡ returns (some same)
  pub global_ids :
      (i : ℕ)
      → i < nproc
      → (c : Comm) × (comm_verify w comm_world myid ≡ returns (some c))
        × (comm_global_id (some c) (pos i) ≡ returns (pos i))

compare_self :
    (g : Group)
    → (g.cookie == group_cookie) ≡ true
    → group_compare (group_at g) (group_at g) ≡ returns ident
unfolding group_compare with_group
compare_self g h = rw (h, ==_refl (length g.lrank2grank), same_table_self g.lrank2grank) refl

-- After tmpi_comm_init in a process with a table of communicators, where no allocation fails, its
-- MPI_COMM_WORLD has the number of processes as its size, the process's global rank as its rank, and
-- is identical to itself; the global rank of each of its ranks is that rank. The communicators of the
-- other processes are as before.
pub comm_init_lem :
    (w : World) (t : ℕ → Option Comm) (myid nproc : ℕ) (grank : ℤ)
    → w.comms ≡ some t
    → (w' : World) × (comm_init w myid nproc grank true true true ≡ returns (w', none))
      × Works w' myid nproc grank
      × ((other : ℕ)
          → other ≢ myid
          → comm_verify w' comm_world other ≡ comm_verify w comm_world other)
unfolding comm_init init_in comm_size comm_rank comm_verify world_comm when_verified verified
    comm_compare answer group_result comm_global_id table_entry
comm_init_lem w t myid nproc grank has =
    let c = new_comm w nproc grank in
    let w' = record w { comms = some (update t myid (some c)) } in
    let mine : update t myid (some c) myid ≡ some c = update_self t myid (some c) in
    (
      w',
      rw has refl,
      record {
        size = rw mine refl;
        rank = rw mine refl;
        compares = λ junk. rw (mine, compare_self (world_group nproc grank) refl) refl;
        global_ids = λ i h. (
          c,
          rw mine refl,
          rw (own_ranks-entry 0 nproc i h) (ap (λ (j : ℕ). returns (pos j)) (omega arith)),
        );
      },
      λ other differs. let apart : (other == myid) ≡ false = ground arith in rw (has, apart) refl,
    )

-- What MPI_Comm_compare answers says of the tables and the contexts.
abbrev pub Says : CommComparison → (c₁ c₂ : Comm) (t₁ t₂ : List ℤ) → Type 0
Says same c₁ c₂ t₁ t₂ =
    (t₁ ≡ t₂) × (c₁.pt2pt_context ≡ c₂.pt2pt_context) × (c₁.coll_context ≡ c₂.coll_context)
Says congruent c₁ c₂ t₁ t₂ =
    (t₁ ≡ t₂) × (c₁.pt2pt_context ≢ c₂.pt2pt_context ⊎ c₁.coll_context ≢ c₂.coll_context)
Says alike c₁ c₂ t₁ t₂ = Means similar t₁ t₂
Says different c₁ c₂ t₁ t₂ = Means unequal t₁ t₂

by_group-Says :
    (c₁ c₂ : Comm) (t₁ t₂ : List ℤ) (r : Comparison)
    → Means r t₁ t₂
    → Says (by_group c₁ c₂ r) c₁ c₂ t₁ t₂
by_group-Says c₁ c₂ t₁ t₂ similar m = m
by_group-Says c₁ c₂ t₁ t₂ unequal m = m
by_group-Says c₁ c₂ t₁ t₂ ident m = elim (Bool-cases (c₁.pt2pt_context == c₂.pt2pt_context)) [
  | inr a ↦ rw a (m, inl (ground arith))
  | inl a ↦ elim (Bool-cases (c₁.coll_context == c₂.coll_context)) [
    | inr b ↦ rw (a, b) (m, inr (ground arith))
    | inl b ↦ rw (a, b) (m, ground arith, ground arith)
  ]
]

-- MPI_Comm_compare of two valid communicators with valid groups returns: MPI_IDENT only if their
-- groups have the same table and both contexts agree, MPI_CONGRUENT only if the tables are the same
-- and a context differs, MPI_SIMILAR and MPI_UNEQUAL as MPI_Group_compare does.
pub comm_compare_lem :
    (w : World) (junk : Option Comparison) (c₁ c₂ : Comm) (g₁ g₂ : Group) (myid : ℕ)
    → (c₁.cookie == comm_cookie) ≡ true
    → (c₂.cookie == comm_cookie) ≡ true
    → c₁.group ≡ some g₁
    → c₂.group ≡ some g₂
    → (g₁.cookie == group_cookie) ≡ true
    → (g₂.cookie == group_cookie) ≡ true
    → (r : CommComparison) × (comm_compare w junk (comm_at c₁) (comm_at c₂) myid ≡ returns (some r))
      × Says r c₁ c₂ g₁.lrank2grank g₂.lrank2grank
unfolding comm_compare comm_verify when_verified verified answer group_result
comm_compare_lem w junk c₁ c₂ g₁ g₂ myid a b p q v₁ v₂ =
    let (r, eq, m) = group_compare_lem g₁ g₂ v₁ v₂ in
    (
      by_group c₁ c₂ r,
      rw (a, b, p, q, eq) refl,
      by_group-Says c₁ c₂ g₁.lrank2grank g₂.lrank2grank r m,
    )

-- tmpi_comm_end after a tmpi_comm_init that succeeded takes the process's communicator away again,
-- and no other one.
pub comm_end-comm_init :
    (w : World) (t : ℕ → Option Comm) (myid nproc : ℕ) (grank : ℤ)
    → w.comms ≡ some t
    → (w' w'' : World) × (comm_init w myid nproc grank true true true ≡ returns (w', none))
      × (comm_end w' myid ≡ returns w'')
      × (comm_verify w'' comm_world myid ≡ returns none)
      × ((other : ℕ)
          → other ≢ myid
          → comm_verify w'' comm_world other ≡ comm_verify w comm_world other)
unfolding comm_init init_in comm_end end_in comm_verify world_comm
comm_end-comm_init w t myid nproc grank has =
    let made = update t myid (some (new_comm w nproc grank)) in
    (
      record w { comms = some made },
      record w { comms = some (update made myid none) },
      rw has refl,
      refl,
      ap returns (update_self made myid none),
      λ other differs. let apart : (other == myid) ≡ false = ground arith in rw (has, apart) refl,
    )

-- tmpi_comm_init that runs out of memory reports it, and leaves the process no communicator, so that
-- every later call on MPI_COMM_WORLD in it fails.
pub comm_init-fails :
    (w : World) (t : ℕ → Option Comm) (myid nproc : ℕ) (grank : ℤ)
    (got_comm got_table got_group : Bool)
    → w.comms ≡ some t
    → (got_comm && got_table && got_group) ≡ false
    → (w' : World) × (comm_init w myid nproc grank got_comm got_table got_group
        ≡ returns (w', some err_intern))
      × (comm_size w' comm_world myid ≡ fails err_comm)
      × (comm_rank w' comm_world myid ≡ fails err_comm)
unfolding comm_init init_in comm_end end_in init_failed comm_size comm_rank comm_verify world_comm
    when_verified verified
comm_init-fails w t myid nproc grank a b c has lacks =
    let gone = update_self t myid none in
    (
      record w { comms = some (update t myid none) },
      rw (has, lacks) refl,
      rw gone refl,
      rw gone refl,
    )
