-- ===== src/Intra/Types.antt =====
-- The handles of src/runtime/src/mpi/include/tmpi_struct.h and the state that intra_sr.c works on.
-- `cookie` and `comm` are left out: no function of intra_sr.c but the constructors reads them.
use Prim.Native.Nat.{bit_and, bit_or}
use tmpi.Base.{ℕ, Bool, not, List, ◌==◌, if◌then◌else◌, ℤ, Option, ◌≡◌, arith}
use tmpi.Util.{CTypes}

-- the results of mpi_def.h that these functions return
pub data Code : Type 0 where
  success err_buffer err_intern err_request err_comm err_cancel err_nrdy : Code

-- `enum {STANDARD=1, READY=2, SYNC=4, BUFFERED=8}`
pub data Mode : Type 0 where
  standard ready sync buffered : Mode

-- handle_type of what stands in a send queue: a local send, or the announcement of a remote one
pub data SendType : Type 0 where
  send persistent_send immediate_send remote_msg_send remote_msgdat_send : SendType

pub data RecvType : Type 0 where
  recv persistent_recv immediate_recv : RecvType

-- The states that a handle takes; their bits are those of the enum.
pub data Stat : Type 0 where
  create pend_strt pend_wait pend_rels pend_data pend_dwat pend_nrdy : Stat
  matched cancelled free : Stat

abbrev pub bits : Stat → ℕ
bits create = 0x1
bits pend_strt = 0x2
bits pend_wait = 0x6
bits pend_rels = 0xa
bits pend_data = 0x12
bits pend_dwat = 0x16
bits pend_nrdy = 0x22
bits matched = 0x40
bits cancelled = 0x80
bits free = 0x100

-- `stat & mask`, as a truth value
abbrev pub has_bit : Stat → ℕ → Bool
has_bit s mask = not (bit_and (bits s) mask == 0)

abbrev pub same_stat : Stat → Stat → Bool
same_stat s t = bits s == bits t

abbrev pub pend_mask : ℕ
pend_mask = 0x2

-- TMPI_PEND_STRT|TMPI_MATCH
abbrev pub intra_mask : ℕ
intra_mask = bit_or 0x2 0x40

-- TMPI_PEND_STRT|TMPI_MATCH|TMPI_PEND_DATA
abbrev pub recv_mask : ℕ
recv_mask = bit_or intra_mask 0x12

-- TMPI_PEND_STRT|TMPI_MATCH|TMPI_PEND_NRDY|TMPI_PEND_DATA
abbrev pub inter_mask : ℕ
inter_mask = bit_or recv_mask 0x22

-- tmpi_SHandle, and tmpi_RMSHandle, which shares its layout up to `send_mode`
pub record SHandle : Type 0 where
  pub handle_type : SendType
  pub stat : Stat
  pub context : ℕ
  pub tag : ℤ
  pub src : ℤ
  pub dest : ℤ
  pub count : ℕ
  pub datatype : ℕ
  pub curdata : ℕ
  pub buflen : ℕ
  pub send_mode : Mode
  pub user_buf : ℕ
  pub sys_buf : ℕ
  pub errval : Code
  pub is_remote : Bool
  pub locked : Bool
  pub remote_send_handle : ℕ

pub record RHandle : Type 0 where
  pub handle_type : RecvType
  pub stat : Stat
  pub context : ℕ
  pub tag : ℤ
  pub src : ℤ
  pub dest : ℤ
  pub data_buf : ℕ
  pub buflen : ℕ
  pub errval : Code
  pub perm_source : ℤ
  pub perm_tag : ℤ
  pub perm_len : ℕ

-- what is handed to netq_send: the announcement of a send (MSG_SEND or MSGDAT_SEND by its
-- handle_type), the answers of a receiver, and the data of a long message, each with its payload
pub data Msg : Type 0 where
  announce : (from to : ℤ) → SHandle → (payload : List ℕ) → Msg
  dat_send :
      (from to : ℤ) (remote_send_handle local_recv_handle buflen : ℕ) → (payload : List ℕ) → Msg
  msg_recv : (from to : ℤ) (local_send_handle remote_recv_handle buflen : ℕ) → Msg
  dat_recv : (from to : ℤ) (local_send_handle buflen : ℕ) → (errval : Code) → Msg
  msgdat_recv : (from to : ℤ) (local_send_handle buflen : ℕ) → (errval : Code) → Msg
  not_ready : (from to : ℤ) (local_send_handle buflen : ℕ) → (errval : Code) → Msg

-- The process: its channels, the handles and the bytes at their addresses, what was handed to the
-- network and to mb_free, the bytes that netd_recvdat will deliver from each machine, and the
-- number of tmpi_MSG that were taken from tmpi_inter_msg for good. Address 0 is NULL.
pub record Node : Type 0 where
  pub channel_size : ℕ
  pub sq : ℕ → List ℕ
  pub rq : ℕ → List ℕ
  pub sq_allocate : ℕ → List ℕ
  pub rq_allocate : ℕ → List ℕ
  pub shs : ℕ → SHandle
  pub rhs : ℕ → RHandle
  pub mem : ℕ → ℕ
  pub sent : List Msg
  pub mb_freed : List (ℕ × ℕ)
  pub incoming : ℕ → List ℕ
  pub msgs_kept : ℕ

-- netq's translation of a global rank to (machine, local rank), the machine of this process, and
-- the platform
pub record Env : Type 0 where
  pub trans_global_rank : ℤ → Option (ℕ × ℕ)
  pub local_mac : ℕ
  pub ctypes : CTypes

-- What a call is given: whether tmpi_inter_new_msg has a message, the items of a new chunk of handles
-- (none if malloc fails), the result of mb_alloc, and what stands in *request before it.
pub record Supply : Type 0 where
  pub got_msg : Bool
  pub chunk : List ℕ
  pub mb : ℕ
  pub old_request : ℕ

abbrev pub update {ℓ} : {A : Type ℓ} → (ℕ → A) → ℕ → A → ℕ → A
update f p v a = if a == p then v else f a

pub update_self {ℓ} : {A : Type ℓ} (f : ℕ → A) (p : ℕ) (v : A) → update f p v p ≡ v
update_self f p v = ground arith

-- What a completion call leaves behind: its result, the status that it wrote (none if it wrote
-- none or the caller passed NULL), and what stands in *psh or *prh.
pub record Status : Type 0 where
  pub status_len : ℕ
  pub mpi_source : ℤ
  pub mpi_tag : ℤ
  pub mpi_error : Code

pub record Reply : Type 0 where
  pub code : Code
  pub status : Option Status
  pub handle : ℕ
