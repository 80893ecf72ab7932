-- ===== src/Inter/Receives.antt =====
-- The handlers of messages to a receiver: tmpi_rms_handle, tmpi_rmds_handle and tmpi_rds_handle.
-- `got_msg` says whether tmpi_inter_new_msg found a free message, `chunk` is what malloc would give
-- for new handles, and `mb` is the result of mb_alloc. The back-filled `comm` is left out, as in
-- the handles.
use tmpi.Base.{ℕ, min, Bool, true, false, not, ◌||◌, none, some, List, ◌==◌, if◌then◌else◌, ℤ}
use tmpi.Intra.Types.{
  Code, Stat, same_stat, SHandle, RHandle, Node, Env, update, success, err_cancel, remote_msg_send,
  pend_strt, pend_wait, pend_data, pend_dwat, matched, cancelled, msg_recv, dat_recv, msgdat_recv,
  not_ready,
}
use tmpi.Intra.Channel.{
  channel_of, rq_probe, rq_unlink, sq_enq, set_sh, set_rh, finish_rh, alloc_elem,
}
use tmpi.Intra.Start.{matched_rh}
use tmpi.Intra.Complete.{is_ready}
use tmpi.Inter.Wire.{
  Handled, recvdata, dump_data, take_payload, then_do, netq_send, keep_msg, handled, faults,
}

-- the announced receive, in its queue until now; a wait for it goes on for the data
abbrev pub data_stat : Stat → Stat
data_stat s =
    if same_stat s pend_strt then pend_data else if same_stat s pend_wait then pend_dwat else s

-- the envelope and the length that a found receive takes over
abbrev pub take_envelope : RHandle → SHandle → RHandle
take_envelope k h = record k { tag = h.tag; src = h.src; buflen = min k.buflen h.buflen }

-- tmpi_rms_handle, receive found
unfoldable pub rms_found : Node → (ch r : ℕ) → SHandle → Node
rms_found w ch r h =
    let k = take_envelope (w.rhs r) h in
    netq_send (set_rh (rq_unlink w ch r) r (record k { stat = data_stat k.stat }))
      (msg_recv h.dest h.src h.remote_send_handle r k.buflen)

-- the handle of a remote send joins the send queue
unfoldable pub enq_rmsh : Node → (ch p : ℕ) → (cache : List ℕ) → SHandle → Node
enq_rmsh w ch p cache h =
    sq_enq (set_sh (record w { sq_allocate = update w.sq_allocate ch cache }) p h) ch p

-- tmpi_rms_handle, no receive found
unfoldable pub rms_queued : Node → (chunk : List ℕ) → (ch : ℕ) → SHandle → Handled
rms_queued w chunk ch h =
    if is_ready h.send_mode
    then handled true (netq_send w (not_ready h.dest h.src h.remote_send_handle h.buflen success))
    else let (p, cache) = alloc_elem (w.sq_allocate ch) chunk in
      if p == 0
      then faults
      else handled true (enq_rmsh w ch p cache (record h { stat = pend_strt; curdata = 0 }))

-- tmpi_rms_handle, once it has a channel and a message
unfoldable pub rms_at : Node → (chunk : List ℕ) → (ch : ℕ) → SHandle → Handled
rms_at w chunk ch h = elim (rq_probe w ch h.context h.tag h.src) [
  | some r ↦ handled true (rms_found w ch r h)
  | none ↦ rms_queued w chunk ch h
]

-- tmpi_rms_handle
unfoldable pub rms_handle : Env → (got_msg : Bool) → (chunk : List ℕ) → Node → SHandle → Handled
rms_handle env got_msg chunk w h = elim (channel_of env w.channel_size h.dest) [
  | none ↦ handled false w
  | some ch ↦ if got_msg then rms_at w chunk ch h else handled false w
]

-- tmpi_rmds_handle, receive found, once the payload is read
unfoldable pub rmds_done : Node → (r : ℕ) → SHandle → Node
rmds_done w r h =
    let k = w.rhs r in
    netq_send (set_rh w r (record k { stat = matched_rh k.stat }))
      (msgdat_recv h.dest h.src h.remote_send_handle k.buflen success)

-- tmpi_rmds_handle, receive found
unfoldable pub rmds_found : Env → Node → (ch r : ℕ) → SHandle → Handled
rmds_found env w ch r h =
    let k = take_envelope (w.rhs r) h in
    then_do (take_payload env (set_rh (rq_unlink w ch r) r k) h.src k.data_buf k.buflen h.buflen)
      (λ w'. handled true (rmds_done w' r h))

-- tmpi_rmds_handle, no receive found: without a buffer the data is thrown away, and the handle
-- becomes that of a long message
unfoldable pub rmds_stored : Env → Node → (mb ch p : ℕ) → (cache : List ℕ) → SHandle → Handled
rmds_stored env w mb ch p cache h =
    if mb == 0
    then then_do (dump_data env w h.src h.buflen) (λ w'. handled true (
        enq_rmsh w' ch p cache
          (record h { stat = pend_strt; curdata = 0; handle_type = remote_msg_send })))
    else then_do (recvdata env w h.src mb h.buflen)
        (λ w'. handled true (enq_rmsh w' ch p cache (record h { stat = pend_strt; curdata = mb })))

unfoldable pub rmds_queued : Env → Node → (chunk : List ℕ) → (mb ch : ℕ) → SHandle → Handled
rmds_queued env w chunk mb ch h =
    if is_ready h.send_mode
    then then_do (dump_data env w h.src h.buflen) (λ w'.
      handled true (netq_send w' (not_ready h.dest h.src h.remote_send_handle h.buflen success)))
    else let (p, cache) = alloc_elem (w.sq_allocate ch) chunk in
      if p == 0 then faults else rmds_stored env w mb ch p cache h

unfoldable pub rmds_at : Env → Node → (chunk : List ℕ) → (mb ch : ℕ) → SHandle → Handled
rmds_at env w chunk mb ch h = elim (rq_probe w ch h.context h.tag h.src) [
  | some r ↦ rmds_found env w ch r h
  | none ↦ rmds_queued env w chunk mb ch h
]

-- tmpi_rmds_handle
unfoldable pub rmds_handle :
    Env → (got_msg : Bool) → (chunk : List ℕ) → (mb : ℕ) → Node → SHandle → Handled
rmds_handle env got_msg chunk mb w h = elim (channel_of env w.channel_size h.dest) [
  | none ↦ handled false w
  | some ch ↦ if got_msg then rmds_at env w chunk mb ch h else handled false w
]

-- the answer of tmpi_rds_handle, which reads the length from the handle as it then is
unfoldable pub rds_answer : Node → (src dest : ℤ) → (sh r : ℕ) → Code → Handled
rds_answer w src dest sh r e = handled true (netq_send w (dat_recv dest src sh (w.rhs r).buflen e))

-- tmpi_rds_handle for a receive that waits for the data
unfoldable pub rds_data : Env → Node → (sh r len : ℕ) → Handled
rds_data env w sh r len =
    let k = w.rhs r in
    then_do (take_payload env w k.src k.data_buf k.buflen len) (λ w'.
      rds_answer (set_rh w' r (record (w'.rhs r) { stat = matched })) k.src k.dest sh r success)

-- tmpi_rds_handle for a receive that was cancelled
unfoldable pub rds_cancelled : Env → Node → (sh r len : ℕ) → Handled
rds_cancelled env w sh r len =
    let k = w.rhs r in
    then_do (dump_data env w k.src len)
      (λ w'. rds_answer (finish_rh env w' r).0 k.src k.dest sh r err_cancel)

-- tmpi_rds_handle over the state of the receive
unfoldable pub rds_at : Env → Node → (sh r len : ℕ) → Stat → Handled
rds_at env w sh r len st =
    if same_stat st pend_data || same_stat st pend_dwat
    then rds_data env w sh r len
    else if same_stat st cancelled
    then rds_cancelled env w sh r len
    else rds_answer w (w.rhs r).src (w.rhs r).dest sh r success

-- tmpi_rds_handle
unfoldable pub rds_handle : Env → (got_msg : Bool) → Node → (sh r len : ℕ) → Handled
rds_handle env got_msg w sh r len =
    if not got_msg
    then handled false w
    else if r == 0
    then handled false (keep_msg w)
    else let k = w.rhs r in
      rds_at env (set_rh (keep_msg w) r (record k { buflen = min k.buflen len })) sh r len k.stat
