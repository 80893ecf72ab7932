-- ===== src/Comm/Setup.antt =====
-- The set-up and the end of MPI_COMM_WORLD: tmpi_comm_ginit, tmpi_comm_gend, tmpi_comm_init and
-- tmpi_comm_end.
use tmpi.Comm.{comm_cookie, world_pt2pt_context, world_coll_context, Comm, World, intra}
use tmpi.Base.{
  ℕ, zero, suc, Bool, true, not, ◌&&◌, ◌||◌, Option, none, some, List, [], ◌∷◌, ◌==◌, if◌then◌else◌,
  ℤ, pos,
}
use tmpi.Group.{group_cookie, Group, Failure, Result, err_intern, invalid_access, fails, returns}
use tmpi.Intra.Types.{update, err_intern}

-- `if (p) { destroy(p); ... }`
abbrev pub release : (p : ℕ) → List ℕ → List ℕ
release p ps = if p == 0 then ps else p ∷ ps

-- tmpi_comm_gend; its fourth test is of tmpi_COMM_WORLD_Bcast, which the third has set to NULL
unfoldable pub comm_gend : World → World
comm_gend w = record {
  comms = none;
  bar = 0;
  bcast = 0;
  reduce = w.reduce;
  allreduce = 0;
  released = release w.allreduce (release w.bcast (release w.bar w.released));
}

-- tmpi_comm_ginit. `got_table` says whether the table of communicators is allocated, `bar_started`
-- whether bar_init succeeds; the other arguments are the addresses of the new objects.
unfoldable pub comm_ginit :
    (got_table bar_started : Bool) (bar bcast reduce allreduce : ℕ) → World → World × Option Failure
comm_ginit got_table bar_started bar bcast reduce allreduce w =
    if not got_table
    then (comm_gend (record w { comms = none }), some err_intern)
    else if bar == 0 || not bar_started
    then (comm_gend (record w { comms = some (λ i. none); bar = bar }), some err_intern)
    else let made = record w {
      comms = some (λ i. none);
      bar = bar;
      bcast = bcast;
      reduce = reduce;
      allreduce = allreduce;
    } in
      if bar == 0 || reduce == 0 || allreduce == 0
      then (comm_gend made, some err_intern)
      else (made, none)

-- the identity table of tmpi_comm_init, from `i` on
unfoldable pub own_ranks : (i nproc : ℕ) → List ℤ
own_ranks i zero = []
own_ranks i (suc n) = pos i ∷ own_ranks (suc i) n

-- the communicator that tmpi_comm_init makes, and its group
abbrev pub world_group : (nproc : ℕ) (grank : ℤ) → Group
world_group nproc grank = record {
  cookie = group_cookie;
  local_rank = grank;
  ref_count = 1;
  is_permanent = true;
  lrank2grank = own_ranks 0 nproc;
}

abbrev pub new_comm : World → (nproc : ℕ) (grank : ℤ) → Comm
new_comm w nproc grank = record {
  cookie = comm_cookie;
  np = nproc;
  local_rank = grank;
  lrank2grank = some (own_ranks 0 nproc);
  pt2pt_context = world_pt2pt_context;
  coll_context = world_coll_context;
  comm_type = intra;
  group = some (world_group nproc grank);
  ref_count = 1;
  is_permanent = true;
  bc_ptr = w.bcast;
  rdc_ptr = w.reduce;
  ardc_ptr = w.allreduce;
  br = w.bar;
}

unfoldable pub end_in : World → Option (ℕ → Option Comm) → (myid : ℕ) → Result World
end_in w none myid = invalid_access
end_in w (some t) myid = returns (record w { comms = some (update t myid none) })

-- tmpi_comm_end
unfoldable pub comm_end : World → (myid : ℕ) → Result World
comm_end w myid = end_in w w.comms myid

-- the jump to _error_out
unfoldable pub init_failed : Result World → Result (World × Option Failure)
init_failed invalid_access = invalid_access
init_failed (fails e) = fails e
init_failed (returns w) = returns (w, some err_intern)

-- The body of tmpi_comm_init behind its first test. What a failed allocation leaves behind it is
-- undone by tmpi_comm_end.
unfoldable pub init_in :
    World
    → (ℕ → Option Comm)
    → (myid nproc : ℕ) (grank : ℤ) (got_comm got_table got_group : Bool)
    → Result (World × Option Failure)
init_in w t myid nproc grank got_comm got_table got_group =
    if got_comm && got_table && got_group
    then returns (record w { comms = some (update t myid (some (new_comm w nproc grank))) }, none)
    else init_failed (comm_end w myid)

-- tmpi_comm_init; `grank` is what netq_transLocalRank says
unfoldable pub comm_init :
    World
    → (myid nproc : ℕ) (grank : ℤ) (got_comm got_table got_group : Bool)
    → Result (World × Option Failure)
comm_init w myid nproc grank got_comm got_table got_group = elim w.comms [
  | none ↦ init_failed (comm_end w myid)
  | some t ↦ init_in w t myid nproc grank got_comm got_table got_group
]
