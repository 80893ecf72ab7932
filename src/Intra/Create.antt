-- ===== src/Intra/Create.antt =====
-- The constructors of handles: tmpi_intra_init_sh and tmpi_intra_init_rh. The channel is that of the
-- calling process, by which Q_newElem takes the handle. `context` is what tmpi_comm_verify makes of
-- the communicator (its pt2pt_context, or none).
use tmpi.Base.{
  ℕ, ◌+◌, ◌-◌, ◌*◌, ◌%◌, ◌^◌, Bool, true, false, not, ◌&&◌, Option, none, some, List, ltb, ◌==◌,
  if◌then◌else◌, ℤ, pos, negsuc,
}
use tmpi.Util.{usize}
use tmpi.Intra.Types.{
  Code, Mode, SendType, RecvType, SHandle, RHandle, Node, Env, Supply, update, success, err_buffer,
  err_intern, err_comm, standard, ready, sync, buffered, send, persistent_send, immediate_send,
  recv, persistent_recv, immediate_recv, create,
}
use tmpi.Intra.Channel.{channel_of, set_sh, set_rh, alloc_elem, is_persistent_recv}

-- `int len=tmpi_Usize(datatype)*count`, on 32 bits: none if it is negative
abbrev pub as_int : ℕ → Option ℕ
as_int u = if ltb u (2 ^ 31) then some u else none

unfoldable pub int_product : ℕ → ℤ → Option ℕ
int_product n (pos c) = as_int ((n * c) % 2 ^ 32)
int_product n (negsuc c) = as_int ((2 ^ 32 - (n * (c + 1)) % 2 ^ 32) % 2 ^ 32)

-- an int as its 32 bits
abbrev pub word : ℤ → ℕ
word (pos c) = c % 2 ^ 32
word (negsuc c) = (2 ^ 32 - (c + 1) % 2 ^ 32) % 2 ^ 32

-- netq_isLocalNode
unfoldable pub is_local_node : Env → ℤ → Bool
is_local_node env grank = elim (env.trans_global_rank grank) [
  | none ↦ false
  | some (mac, local_id) ↦ mac == env.local_mac
]

-- the arguments that describe a message
pub record Args : Type 0 where
  pub context : Option ℕ
  pub buf : ℕ
  pub from : ℤ
  pub to : ℤ
  pub tag : ℤ
  pub datatype : ℕ
  pub count : ℤ

-- isPersistent and isImmediate
pub data Life : Type 0 where
  blocking immediate persistent : Life

abbrev pub send_type : Life → SendType
send_type blocking = send
send_type immediate = immediate_send
send_type persistent = persistent_send

abbrev pub recv_type : Life → RecvType
recv_type blocking = recv
recv_type immediate = immediate_recv
recv_type persistent = persistent_recv

-- `mode&(STANDARD|BUFFERED)`
abbrev pub wants_buffer : Mode → Bool
wants_buffer standard = true
wants_buffer buffered = true
wants_buffer ready = false
wants_buffer sync = false

abbrev pub is_buffered : Mode → Bool
is_buffered buffered = true
is_buffered standard = false
is_buffered ready = false
is_buffered sync = false

-- `(mode==BUFFERED)&&(sh->sys_buf==NULL)&&(len>0)`
abbrev pub no_room : Mode → (sys_buf len : ℕ) → Bool
no_room mode sys_buf len = is_buffered mode && sys_buf == 0 && ltb 0 len

-- the new send handle, in the place of `old`
unfoldable pub new_sh : Env → SHandle → Args → (context len mb : ℕ) → Mode → Life → SHandle
new_sh env old a context len mb mode life =
    let sys_buf = if wants_buffer mode && ltb 0 len then mb else 0 in
    record old {
      handle_type = send_type life;
      stat = create;
      context = context;
      tag = a.tag;
      src = a.from;
      dest = a.to;
      curdata = a.buf;
      user_buf = a.buf;
      sys_buf = sys_buf;
      buflen = len;
      count = word a.count;
      datatype = a.datatype;
      send_mode = mode;
      is_remote = not (is_local_node env a.to);
      locked = false;
      errval = if no_room mode sys_buf len then err_buffer else success;
    }

-- the new receive handle, in the place of `old`
unfoldable pub new_rh : RHandle → Args → (context len : ℕ) → Life → RHandle
new_rh old a context len life =
    let keeps = is_persistent_recv (recv_type life) in
    record old {
      handle_type = recv_type life;
      stat = create;
      context = context;
      tag = a.tag;
      src = a.from;
      dest = a.to;
      data_buf = a.buf;
      buflen = len;
      perm_source = if keeps then a.from else old.perm_source;
      perm_tag = if keeps then a.tag else old.perm_tag;
      perm_len = if keeps then len else old.perm_len;
      errval = success;
    }

-- the result of a constructor: the state, the return code, and what stands in *psh or *prh
pub record Made : Type 0 where
  pub state : Node
  pub code : Code
  pub handle : ℕ

abbrev pub made : Node → Code → ℕ → Made
made w c p = record { state = w; code = c; handle = p }

-- tmpi_intra_init_sh with the item that Q_newElem gave, and the cache that it left
unfoldable pub fill_sh :
    Env → Supply → Node → Args → Mode → Life → (ch context len : ℕ) → ℕ × List ℕ → Made
fill_sh env s w a mode life ch context len (p, cache) =
    let h = new_sh env (w.shs p) a context len s.mb mode life in
    if p == 0
    then made w err_intern 0
    else made (set_sh (record w { sq_allocate = update w.sq_allocate ch cache }) p h) h.errval p

-- tmpi_intra_init_sh (its `psh` is never NULL)
unfoldable pub init_sh : Env → Supply → Node → Args → Mode → Life → Made
init_sh env s w a mode life = elim (channel_of env w.channel_size a.from) [
  | none ↦ made w err_intern 0
  | some ch ↦ elim (int_product (usize env.ctypes a.datatype) a.count) [
    | none ↦ made w err_intern 0
    | some len ↦ elim a.context [
      | none ↦ made w err_comm 0
      | some context ↦
          fill_sh env s w a mode life ch context len (alloc_elem (w.sq_allocate ch) s.chunk)
    ]
  ]
]

-- tmpi_intra_init_rh with the item that Q_newElem gave, and the cache that it left
unfoldable pub fill_rh : Node → Args → Life → (ch context len : ℕ) → ℕ × List ℕ → Made
fill_rh w a life ch context len (p, cache) =
    if p == 0
    then made w err_intern 0
    else made
        (set_rh (record w { rq_allocate = update w.rq_allocate ch cache }) p
          (new_rh (w.rhs p) a context len life))
        success p

-- tmpi_intra_init_rh
unfoldable pub init_rh : Env → Supply → Node → Args → Life → Made
init_rh env s w a life = elim (channel_of env w.channel_size a.to) [
  | none ↦ made w err_intern 0
  | some ch ↦ elim (int_product (usize env.ctypes a.datatype) a.count) [
    | none ↦ made w err_intern 0
    | some len ↦ elim a.context [
      | none ↦ made w err_comm 0
      | some context ↦ fill_rh w a life ch context len (alloc_elem (w.rq_allocate ch) s.chunk)
    ]
  ]
]
