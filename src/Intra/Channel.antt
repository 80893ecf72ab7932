-- ===== src/Intra/Channel.antt =====
-- Channels, the tests by which the two queues are searched, and the release of handles.
use tmpi.Base.{
  ℕ, ◌+◌, ◌-◌, ◌*◌, ◌%◌, ◌^◌, Bool, true, false, not, ◌&&◌, ◌||◌, Option, none, some, List, [], ◌∷◌,
  ◌==◌, if◌then◌else◌, leb, ltb, ℤ, negsuc, eqb, suc, zero,
}
use tmpi.Queue.{enqueue, probe, remove}
use tmpi.Util.{usize}
use tmpi.Intra.Types.{
  SHandle, RHandle, Node, Env, update, has_bit, pend_mask, send, persistent_send, immediate_send,
  remote_msg_send, remote_msgdat_send, SendType, Code, success, free, Reply, Status,
  persistent_recv, RecvType, recv, immediate_recv,
}

abbrev pub any_source : ℤ
any_source = negsuc 1

abbrev pub any_tag : ℤ
any_tag = negsuc 0

-- tmpi_grank_to_lrank, with `none` for -1
unfoldable pub grank_to_lrank : Env → ℤ → Option ℕ
grank_to_lrank env grank = elim (env.trans_global_rank grank) [
  | none ↦ none
  | some (mac, local_id) ↦ if mac == env.local_mac then some local_id else none
]

-- tmpi_intra_get_channel: a channel is named by its index in tmpi_channel
unfoldable pub get_channel : (channel_size : ℕ) → Option ℕ → Option ℕ
get_channel channel_size none = none
get_channel channel_size (some i) = if ltb i channel_size then some i else none

-- The channel of a global rank.
unfoldable pub channel_of : Env → (channel_size : ℕ) → ℤ → Option ℕ
channel_of env channel_size grank = get_channel channel_size (grank_to_lrank env grank)

-- sq_cmp: the wildcards stand in the receive that searches
unfoldable pub sq_cmp : SHandle → (context : ℕ) (tag src : ℤ) → ℕ
sq_cmp h context tag src =
    if (not (eqb h.src src) && not (eqb src any_source))
      || (not (eqb h.tag tag) && not (eqb tag any_tag))
      || not (h.context == context)
    then 1
    else if not (has_bit h.stat pend_mask)
    then 1
    else 0

-- rq_cmp: the wildcards stand in the receive that is found
unfoldable pub rq_cmp : RHandle → (context : ℕ) (tag src : ℤ) → ℕ
rq_cmp h context tag src =
    if (not (eqb h.src src) && not (eqb h.src any_source))
      || (not (eqb h.tag tag) && not (eqb h.tag any_tag))
      || not (h.context == context)
    then 1
    else if not (has_bit h.stat pend_mask)
    then 1
    else 0

-- tmpi_sq_find and tmpi_rq_find before they unlink what they found
unfoldable pub sq_probe : Node → ℕ → (context : ℕ) (tag src : ℤ) → Option ℕ
sq_probe w ch context tag src = probe (λ p. sq_cmp (w.shs p) context tag src == 0) (w.sq ch)

unfoldable pub rq_probe : Node → ℕ → (context : ℕ) (tag src : ℤ) → Option ℕ
rq_probe w ch context tag src = probe (λ p. rq_cmp (w.rhs p) context tag src == 0) (w.rq ch)

abbrev pub sq_unlink : Node → ℕ → ℕ → Node
sq_unlink w ch p = record w { sq = update w.sq ch (remove p (w.sq ch)) }

abbrev pub rq_unlink : Node → ℕ → ℕ → Node
rq_unlink w ch p = record w { rq = update w.rq ch (remove p (w.rq ch)) }

-- tmpi_sq_enq and tmpi_rq_enq
abbrev pub sq_enq : Node → ℕ → ℕ → Node
sq_enq w ch p = record w { sq = update w.sq ch (enqueue (w.sq ch) p) }

abbrev pub rq_enq : Node → ℕ → ℕ → Node
rq_enq w ch p = record w { rq = update w.rq ch (enqueue (w.rq ch) p) }

abbrev pub set_sh : Node → ℕ → SHandle → Node
set_sh w p h = record w { shs = update w.shs p h }

abbrev pub set_rh : Node → ℕ → RHandle → Node
set_rh w p h = record w { rhs = update w.rhs p h }

-- Q_newElem as the channels use it: the first item of the cache, or of a new chunk whose other
-- items then are the cache; `chunk` is empty if malloc fails. Q_newElem also clears the link `next` of
-- the item; here a queue is a list, and if it still holds the item this does not show.
unfoldable pub alloc_elem : (cache chunk : List ℕ) → ℕ × List ℕ
alloc_elem (p ∷ cache) chunk = (p, cache)
alloc_elem [] (p ∷ rest) = (p, rest)
alloc_elem [] [] = (0, [])

-- `if (buf) { local_id = ...; if (local_id >= 0) mb_free(local_id, buf); }`
unfoldable pub release_buffer : Env → ℤ → ℕ → List (ℕ × ℕ) → List (ℕ × ℕ)
release_buffer env grank buf mb_freed =
    if buf == 0 then mb_freed else elim (grank_to_lrank env grank) [
      | none ↦ mb_freed
      | some local_id ↦ (local_id, buf) ∷ mb_freed
    ]

-- tmpi_intra_free_sh, whose handle goes back to the cache of the channel's send queue
unfoldable pub free_sh : Env → Node → (ch p : ℕ) → Node
free_sh env w ch p = record w {
  mb_freed = release_buffer env (w.shs p).src (w.shs p).sys_buf w.mb_freed;
  sq_allocate = update w.sq_allocate ch (p ∷ w.sq_allocate ch);
}

-- tmpi_intra_free_rmsh
unfoldable pub free_rmsh : Env → Node → (ch p : ℕ) → Node
free_rmsh env w ch p = record w {
  mb_freed = release_buffer env (w.shs p).dest (w.shs p).curdata w.mb_freed;
  sq_allocate = update w.sq_allocate ch (p ∷ w.sq_allocate ch);
}

-- tmpi_intra_free_rh
unfoldable pub free_rh : Node → (ch p : ℕ) → Node
free_rh w ch p = record w { rq_allocate = update w.rq_allocate ch (p ∷ w.rq_allocate ch) }

abbrev pub is_persistent_send : SendType → Bool
is_persistent_send persistent_send = true
is_persistent_send send = false
is_persistent_send immediate_send = false
is_persistent_send remote_msg_send = false
is_persistent_send remote_msgdat_send = false

abbrev pub is_persistent_recv : RecvType → Bool
is_persistent_recv persistent_recv = true
is_persistent_recv recv = false
is_persistent_recv immediate_recv = false

abbrev pub is_success : Code → Bool
is_success success = true
is_success _ = false

-- The block in which every completion of a send ends: the handle is FREE and goes back to its
-- channel, or is set up again if it is persistent. The second part is what stands in *psh.
unfoldable pub finish_sh : Env → Node → ℕ → Node × ℕ
finish_sh env w p =
    let h = w.shs p in
    if is_persistent_send h.handle_type
    then (
      set_sh w p (record h {
        stat = free;
        errval = success;
        curdata = h.user_buf;
        buflen = (usize env.ctypes h.datatype * h.count) % 2 ^ 32;
        locked = false;
      }),
      p,
    )
    else let w' = set_sh w p (record h { stat = free; errval = success; locked = false }) in
      (elim (channel_of env w.channel_size h.src) [ none ↦ w' | some ch ↦ free_sh env w' ch p ], 0)

-- The same for a receive, which takes up its first source, tag and length again.
unfoldable pub finish_rh : Env → Node → ℕ → Node × ℕ
finish_rh env w p =
    let h = w.rhs p in
    if is_persistent_recv h.handle_type
    then (
      set_rh w p (record h {
        stat = free;
        errval = success;
        tag = h.perm_tag;
        src = h.perm_source;
        buflen = h.perm_len;
      }),
      p,
    )
    else let w' = set_rh w p (record h { stat = free; errval = success }) in
      (elim (channel_of env w.channel_size h.dest) [ none ↦ w' | some ch ↦ free_rh w' ch p ], 0)

-- memcpy(dst, src, n) of buffers that do not overlap
unfoldable pub memcpy : (ℕ → ℕ) → (dst src n : ℕ) → ℕ → ℕ
memcpy mem dst src n a = if leb dst a && ltb a (dst + n) then mem (src + (a - dst)) else mem a

-- the `n` bytes from `p` on
unfoldable pub bytes : (ℕ → ℕ) → ℕ → ℕ → List ℕ
bytes mem p zero = []
bytes mem p (suc n) = mem p ∷ bytes mem (p + 1) n

-- The four fields of a status, as every completion writes them; `errval` is kept by the handle.
abbrev pub sh_status : SHandle → Code → Status
sh_status h e = record { status_len = h.buflen; mpi_source = h.src; mpi_tag = h.tag; mpi_error = e }

abbrev pub rh_status : RHandle → Status
rh_status h = record {
  status_len = h.buflen;
  mpi_source = h.src;
  mpi_tag = h.tag;
  mpi_error = h.errval;
}

-- `if (status) ...`
abbrev pub when_asked : Bool → Status → Option Status
when_asked asked s = if asked then some s else none

abbrev pub reply : Code → Option Status → ℕ → Reply
reply c s p = record { code = c; status = s; handle = p }
