-- ===== src/Comm/Tests.antt =====
-- The set-up of a node with two processes.
use tmpi.Comm.{Comm, World, comm_verify, CommComparison, comm_compare, comm_world, comm_at}
use tmpi.Comm.Setup.{comm_gend, comm_ginit, own_ranks, world_group, new_comm, comm_init}
use tmpi.Comm.Laws.{Works, comm_init_lem, Says, comm_compare_lem}
use tmpi.Comm.Hazards.{gend_leaks_reduce, init_after_failed_ginit}
use tmpi.Base.{ℕ, ◌≡◌, refl, ◌≢◌, true, false, none, some, [], ◌∷◌, arith, pos}
use tmpi.Group.{err_intern, invalid_access, returns}

abbrev start : World
start = record { comms = none; bar = 0; bcast = 0; reduce = 0; allreduce = 0; released = [] }

abbrev node : World
node = record {
  comms = some (λ i. none);
  bar = 16;
  bcast = 32;
  reduce = 48;
  allreduce = 64;
  released = [];
}

abbrev own : Comm
own = new_comm node 2 (pos 1)

abbrev other_comm : Comm
other_comm = record own { coll_context = 5 }

ginit_node : comm_ginit true true 16 32 48 64 start ≡ (node, none)
unfolding comm_ginit
ginit_node = refl

two_own_ranks : own_ranks 0 2 ≡ pos 0 ∷ pos 1 ∷ []
unfolding own_ranks
two_own_ranks = refl

comm_init_lem_example :
    (w' : World) × (comm_init node 1 2 (pos 1) true true true ≡ returns (w', none))
    × Works w' 1 2 (pos 1)
    × ((other : ℕ)
        → other ≢ 1
        → comm_verify w' comm_world other ≡ comm_verify node comm_world other)
comm_init_lem_example = comm_init_lem node (λ i. none) 1 2 (pos 1) refl

comm_compare_lem_example :
    (r : CommComparison) × (comm_compare node none (comm_at own) (comm_at other_comm) 0
      ≡ returns (some r))
    × Says r own other_comm (own_ranks 0 2) (own_ranks 0 2)
comm_compare_lem_example =
    comm_compare_lem node none own other_comm (world_group 2 (pos 1)) (world_group 2 (pos 1)) 0 refl
      refl refl refl refl refl

gend_leaks_reduce_example :
    ((comm_gend node).released ≡ 64 ∷ 32 ∷ 16 ∷ []) × ((comm_gend node).reduce ≡ 48)
gend_leaks_reduce_example = gend_leaks_reduce start 16 32 48 64 node refl (omega arith) ginit_node

no_memory : (comm_ginit false true 16 32 48 64 start).1 ≡ some err_intern
unfolding comm_ginit
no_memory = refl

init_after_failed_ginit_example :
    comm_init (comm_ginit false true 16 32 48 64 start).0 0 2 (pos 0) true true true
    ≡ invalid_access
init_after_failed_ginit_example =
    init_after_failed_ginit start false true 16 32 48 64 err_intern 0 2 (pos 0) true true true
      no_memory
