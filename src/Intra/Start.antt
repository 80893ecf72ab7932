-- ===== src/Intra/Start.antt =====
-- tmpi_intra_start_sh, tmpi_inter_start_sh and tmpi_intra_start_rh. Each works on the queues under
-- the lock of its channel, and is one step here. `got_msg` says whether tmpi_inter_new_msg found
-- a free message. What a step signals wakes a thread that is blocked in `Complete`.
use tmpi.Base.{
  ℕ, ◌*◌, Bool, true, false, not, ◌&&◌, ◌||◌, Option, none, some, [], ◌∷◌, ◌++◌, ◌==◌,
  if◌then◌else◌, ltb, min,
}
use tmpi.Intra.Types.{
  SHandle, RHandle, Node, Env, Stat, update, same_stat, create, pend_strt, pend_wait, pend_rels,
  pend_data, matched, free, SendType, send, persistent_send, immediate_send, remote_msg_send,
  remote_msgdat_send, Code, success, err_intern, err_request, Msg, announce, msgdat_recv, msg_recv,
}
use tmpi.Intra.Channel.{
  channel_of, sq_probe, rq_probe, sq_unlink, rq_unlink, sq_enq, rq_enq, set_sh, set_rh, free_rmsh,
  is_persistent_send, is_success, finish_sh, memcpy, bytes,
}

-- TMPI_MAX_SHORT_MSG of intra_sr.h
abbrev pub max_short_msg : ℕ
max_short_msg = 3000 * 0x400

-- `(sh->stat!=TMPI_CREATE) && ((sh->stat!=TMPI_FREE)||(sh->handle_type!=MPI_PERSISTENT_SEND))`
unfoldable pub not_startable_sh : SHandle → Bool
not_startable_sh h =
    not (same_stat h.stat create)
    && (not (same_stat h.stat free) || not (is_persistent_send h.handle_type))

-- The test of tmpi_intra_start_rh compares with MPI_PERSISTENT_SEND too, which no receive handle
-- has, so its last part always holds.
unfoldable pub not_startable_rh : RHandle → Bool
not_startable_rh h = not (same_stat h.stat create) && (not (same_stat h.stat free) || true)

-- tmpi_inter_start_sh: a short message carries its data, a long one is announced
unfoldable pub inter_start_sh : Bool → Node → ℕ → Node × Code
inter_start_sh got_msg w p =
    let h = w.shs p in
    if not_startable_sh h
    then (w, err_intern)
    else if not got_msg
    then (w, err_intern)
    else let h' = record h { stat = pend_strt } in
      let rms =
        λ (t : SendType). record h' { handle_type = t; remote_send_handle = p; curdata = 0 } in
      let msg : Msg =
        if ltb h.buflen max_short_msg
        then announce h.src h.dest (rms remote_msgdat_send) (bytes w.mem h.curdata h.buflen)
        else announce h.src h.dest (rms remote_msg_send) [] in
      (record (set_sh w p h') { sent = w.sent ++ msg ∷ [] }, success)

-- A receive that is found in the queue, by a sender, goes to MATCH from either pending state.
abbrev pub matched_rh : Stat → Stat
matched_rh s = if same_stat s pend_wait || same_stat s pend_strt then matched else s

-- The sender `p` found the receive `r`.
unfoldable pub match_send : Node → (ch p r : ℕ) → Node
match_send w ch p r =
    let h = w.shs p in
    let k = w.rhs r in
    let n = min h.buflen k.buflen in
    record (rq_unlink w ch r) {
      shs = update w.shs p (record h { stat = matched; buflen = n; errval = success });
      rhs =
          update w.rhs r
            (record k { src = h.src; tag = h.tag; buflen = n; stat = matched_rh k.stat });
      mem = if n == 0 then w.mem else memcpy w.mem k.data_buf h.curdata n;
    }

-- The sender's part under the lock of the channel.
unfoldable pub send_at : Node → (ch p : ℕ) → Node
send_at w ch p =
    let h = w.shs p in
    elim (rq_probe w ch h.context h.tag h.src) [
      | none ↦ sq_enq (set_sh w p (record h { stat = pend_strt })) ch p
      | some r ↦ match_send w ch p r
    ]

unfoldable pub intra_start_sh : Env → Node → ℕ → Node × Code
intra_start_sh env w p =
    if not_startable_sh (w.shs p)
    then (w, err_intern)
    else elim (channel_of env w.channel_size (w.shs p).dest) [
      | none ↦ (w, err_intern)
      | some ch ↦ (send_at w ch p, success)
    ]

-- tmpi_intra_start_sh, with what *psh holds
unfoldable pub start_sh : Env → Bool → Node → ℕ → Node × Code
start_sh env got_msg w p =
    if p == 0
    then (w, err_request)
    else if not (is_success (w.shs p).errval)
    then (w, err_intern)
    else if (w.shs p).is_remote
    then inter_start_sh got_msg w p
    else intra_start_sh env w p

-- The receiver `p` found the local send `s`, whose states have a case each.
unfoldable pub settle_sh : Env → Node → ℕ → Stat → Node
settle_sh env w s st =
    if same_stat st pend_wait || same_stat st pend_strt
    then set_sh w s (record (w.shs s) { stat = matched })
    else if same_stat st pend_rels
    then (finish_sh env w s).0
    else w

-- The envelope and the data go over; the receive is matched and the send leaves the queue.
unfoldable pub exchange : Node → (ch p s : ℕ) → Node
exchange w ch p s =
    let h = w.shs s in
    let k = w.rhs p in
    let n = min h.buflen k.buflen in
    record (sq_unlink w ch s) {
      shs = update w.shs s (record h { buflen = n });
      rhs = update w.rhs p (record k { src = h.src; tag = h.tag; buflen = n; stat = matched });
      mem = if n == 0 then w.mem else memcpy w.mem k.data_buf h.curdata n;
    }

unfoldable pub match_local : Env → Node → (ch p s : ℕ) → Node
match_local env w ch p s = settle_sh env (exchange w ch p s) s (w.shs s).stat

-- `rmsh->handle_type==MPI_REMOTE_MSGDAT_SEND`: the data came with the announcement
abbrev pub has_data : SendType → Bool
has_data remote_msgdat_send = true
has_data remote_msg_send = false
has_data send = false
has_data persistent_send = false
has_data immediate_send = false

-- The answer to a remote send: done, or ready for the data.
unfoldable pub response : SHandle → RHandle → (p n : ℕ) → Msg
response h k p n =
    if has_data h.handle_type
    then msgdat_recv k.dest h.src h.remote_send_handle n success
    else msg_recv k.dest h.src h.remote_send_handle p n

-- The receiver `p` found the announcement `s` of a remote send, which is freed.
unfoldable pub match_remote : Env → Bool → Node → (ch p s : ℕ) → Node
match_remote env got_msg w ch p s =
    let h = w.shs s in
    let k = w.rhs p in
    let n = min h.buflen k.buflen in
    let w' = record (sq_unlink w ch s) {
      shs = update w.shs s (record h { stat = free });
      rhs = update w.rhs p (record k {
        src = h.src;
        tag = h.tag;
        buflen = n;
        stat = if has_data h.handle_type then matched else pend_data;
      });
      mem =
          if has_data h.handle_type && not (n == 0)
          then memcpy w.mem k.data_buf h.curdata n
          else w.mem;
      sent = if got_msg then w.sent ++ response h k p n ∷ [] else w.sent;
    } in
    free_rmsh env w' ch s

abbrev pub is_local_send : SendType → Bool
is_local_send send = true
is_local_send persistent_send = true
is_local_send immediate_send = true
is_local_send remote_msg_send = false
is_local_send remote_msgdat_send = false

-- The receiver `p` found `s` in the send queue.
unfoldable pub match_found : Env → Bool → Node → (ch p s : ℕ) → Option (Node × Code)
match_found env got_msg w ch p s =
    if is_local_send (w.shs s).handle_type
    then if (w.shs s).locked then none else some (match_local env w ch p s, success)
    else some (match_remote env got_msg w ch p s, success)

-- The receiver's part under the lock of the channel.
unfoldable pub recv_at : Env → Bool → Node → (ch p : ℕ) → Option (Node × Code)
recv_at env got_msg w ch p =
    let k = w.rhs p in
    elim (sq_probe w ch k.context k.tag k.src) [
      | none ↦ some (rq_enq (set_rh w p (record k { stat = pend_strt })) ch p, success)
      | some s ↦ match_found env got_msg w ch p s
    ]

-- tmpi_intra_start_rh, with what *prh holds. `none`: the call waits for the lock of the send that
-- it found, which an earlier call left held.
unfoldable pub start_rh : Env → Bool → Node → ℕ → Option (Node × Code)
start_rh env got_msg w p =
    if p == 0
    then some (w, err_request)
    else if not (is_success (w.rhs p).errval)
    then some (w, err_intern)
    else if not_startable_rh (w.rhs p)
    then some (w, err_intern)
    else elim (channel_of env w.channel_size (w.rhs p).dest) [
      | none ↦ some (w, err_intern)
      | some ch ↦ recv_at env got_msg w ch p
    ]
