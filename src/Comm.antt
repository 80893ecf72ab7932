-- ===== src/Comm.antt =====
-- Communicators: src/runtime/src/mpi/context/comm.c, with tmpi_Comm of
-- src/runtime/src/mpi/include/tmpi_struct.h.
pub mod Setup
pub mod Laws
pub mod Hazards
mod Tests
use tmpi.Base.{ℕ, Bool, ◌&&◌, ◌||◌, Option, none, some, List, ◌==◌, if◌then◌else◌, ℤ, negsuc}
use tmpi.Group.{
  Group, Handle, Result, entry, Comparison, group_compare, group_null, group_at, err_comm,
  invalid_access, fails, returns, ident, similar, unequal,
}

-- MPI_COMM_COOKIE
abbrev pub comm_cookie : ℕ
comm_cookie = 0xbad2face

-- MPI_COMM_WORLD_PT2PT_CONTEXT and MPI_COMM_WORLD_COLL_CONTEXT
abbrev pub world_pt2pt_context : ℕ
world_pt2pt_context = 0x02020202

abbrev pub world_coll_context : ℕ
world_coll_context = 0x04040404

-- tmpi_Comm_type
pub data CommType : Type 0 where
  inter intra : CommType

-- tmpi_Comm; a table or a group that is NULL is `none`, and the objects of the collective operations
-- are their addresses. comm_cache and attr_cache are always NULL.
pub record Comm : Type 0 where
  pub cookie : ℕ
  pub np : ℕ
  pub local_rank : ℤ
  pub lrank2grank : Option (List ℤ)
  pub pt2pt_context : ℕ
  pub coll_context : ℕ
  pub comm_type : CommType
  pub group : Option Group
  pub ref_count : ℕ
  pub is_permanent : Bool
  pub bc_ptr : ℕ
  pub rdc_ptr : ℕ
  pub ardc_ptr : ℕ
  pub br : ℕ

-- MPI_Comm: MPI_COMM_NULL, MPI_COMM_WORLD, or the address of a communicator
pub data CommHandle : Type 0 where
  comm_null comm_world : CommHandle
  comm_at : Comm → CommHandle

-- The variables of comm.c: tmpi_COMM_WORLD by local rank, and the addresses of the objects that all
-- share. `released` are those that were destroyed.
pub record World : Type 0 where
  pub comms : Option (ℕ → Option Comm)
  pub bar : ℕ
  pub bcast : ℕ
  pub reduce : ℕ
  pub allreduce : ℕ
  pub released : List ℕ

-- tmpi_comm_verify, and what its callers do with NULL
unfoldable pub verified {ℓ} : {A : Type ℓ} → Option Comm → (Comm → Result A) → Result A
verified none k = fails err_comm
verified (some c) k = k c

unfoldable pub world_comm : Option (ℕ → Option Comm) → (myid : ℕ) → Result (Option Comm)
world_comm none myid = invalid_access
world_comm (some t) myid = returns (t myid)

unfoldable pub comm_verify : World → CommHandle → (myid : ℕ) → Result (Option Comm)
comm_verify w comm_null myid = invalid_access
comm_verify w comm_world myid = world_comm w.comms myid
comm_verify w (comm_at c) myid = returns (if c.cookie == comm_cookie then some c else none)

unfoldable pub when_verified {ℓ} :
    {A : Type ℓ} → Result (Option Comm) → (Comm → Result A) → Result A
when_verified invalid_access k = invalid_access
when_verified (fails e) k = fails e
when_verified (returns c) k = verified c k

-- MPI_Comm_size and MPI_Comm_rank
unfoldable pub comm_size : World → CommHandle → (myid : ℕ) → Result ℕ
comm_size w h myid = when_verified (comm_verify w h myid) (λ c. returns c.np)

unfoldable pub comm_rank : World → CommHandle → (myid : ℕ) → Result ℤ
comm_rank w h myid = when_verified (comm_verify w h myid) (λ c. returns c.local_rank)

-- what MPI_Comm_compare answers; it also has MPI_CONGRUENT
pub data CommComparison : Type 0 where
  same congruent alike different : CommComparison

abbrev pub group_handle : Option Group → Handle
group_handle none = group_null
group_handle (some g) = group_at g

-- the switch over `group_result`
abbrev pub by_group : (c₁ c₂ : Comm) → Comparison → CommComparison
by_group c₁ c₂ ident =
    if c₁.pt2pt_context == c₂.pt2pt_context && c₁.coll_context == c₂.coll_context
    then same
    else congruent
by_group c₁ c₂ similar = alike
by_group c₁ c₂ unequal = different

-- `group_result` keeps what it held when MPI_Group_compare fails: `junk`, none of the three if there
-- is none
unfoldable pub group_result :
    (junk : Option Comparison) → Result Comparison → Result (Option Comparison)
group_result junk invalid_access = invalid_access
group_result junk (fails e) = returns junk
group_result junk (returns c) = returns (some c)

unfoldable pub answer : (c₁ c₂ : Comm) → Result (Option Comparison) → Result (Option CommComparison)
answer c₁ c₂ invalid_access = invalid_access
answer c₁ c₂ (fails e) = fails e
answer c₁ c₂ (returns none) = returns none
answer c₁ c₂ (returns (some r)) = returns (some (by_group c₁ c₂ r))

-- MPI_Comm_compare: what it writes to *result, if anything
unfoldable pub comm_compare :
    World
    → (junk : Option Comparison) (h₁ h₂ : CommHandle) (myid : ℕ) → Result (Option CommComparison)
comm_compare w junk h₁ h₂ myid = when_verified (comm_verify w h₁ myid) (λ c₁.
    when_verified (comm_verify w h₂ myid) (λ c₂.
      answer c₁ c₂
        (group_result junk (group_compare (group_handle c₁.group) (group_handle c₂.group)))))

-- tmpi_pt2pt_context_by_comm and tmpi_coll_context_by_comm
unfoldable pub pt2pt_context_by_comm : Comm → ℕ
pt2pt_context_by_comm c = c.pt2pt_context

unfoldable pub coll_context_by_comm : Comm → ℕ
coll_context_by_comm c = c.pt2pt_context

-- tmpi_comm_by_context
unfoldable pub comm_by_context : (context : ℕ) → CommHandle
comm_by_context context =
    if context == world_pt2pt_context || context == world_coll_context
    then comm_world
    else comm_null

-- an entry of a table that may be NULL
unfoldable pub table_entry : Option (List ℤ) → ℤ → Option ℤ
table_entry none i = none
table_entry (some t) i = entry t i

abbrev pub or_invalid : Option ℤ → Result ℤ
or_invalid none = invalid_access
or_invalid (some r) = returns r

-- tmpi_comm_global_id
unfoldable pub comm_global_id : Option Comm → (comm_lrank : ℤ) → Result ℤ
comm_global_id none i = returns (negsuc 0)
comm_global_id (some c) i = or_invalid (table_entry c.lrank2grank i)
