-- ===== src/Intra/Complete.antt =====
-- The calls that complete a request: tmpi_intra_wait_sh, tmpi_inter_wait_sh and
-- tmpi_intra_wait_rh. A call that waits on a condition variable is cut there: what runs up to the
-- wait, and what runs when the thread is woken.
use tmpi.Base.{ℕ, Bool, true, false, not, ◌&&◌, Option, none, some, ◌==◌, if◌then◌else◌}
use tmpi.Intra.Types.{
  Code, Mode, has_bit, same_stat, intra_mask, recv_mask, inter_mask, SHandle, Node, Env, Reply,
  success, err_buffer, err_intern, err_request, err_nrdy, standard, ready, sync, buffered,
  pend_strt, pend_wait, pend_rels, pend_dwat, pend_nrdy, matched,
}
use tmpi.Intra.Channel.{
  set_sh, set_rh, is_persistent_send, finish_sh, finish_rh, memcpy, sh_status, rh_status,
  when_asked, reply,
}

-- A call returns, or sleeps on its handle's condition variable with the lock released, or waits
-- for a lock that an earlier call left held.
pub data Outcome : Type 0 where
  returns : Node → Reply → Outcome
  sleeps : Node → Outcome
  stuck : Outcome

-- the reply of a call that completes the send `p`, with code `c` in it and `e` in the status
unfoldable pub complete_sh : Env → Node → ℕ → Bool → (c e : Code) → Outcome
complete_sh env w p asked c e =
    let (w', p') = finish_sh env w p in
    returns w' (reply c (when_asked asked (sh_status (w.shs p) e)) p')

unfoldable pub complete_rh : Env → Node → ℕ → Bool → Outcome
complete_rh env w p asked =
    let (w', p') = finish_rh env w p in
    returns w' (reply success (when_asked asked (rh_status (w.rhs p))) p')

-- `if (sh->curdata==sh->user_buf) ...`: the data moves to the system buffer, if there is one. A
-- test also wants some data there.
unfoldable pub buffer_data : Node → ℕ → (can : Bool) → Node × Code
buffer_data w p can =
    let h = w.shs p in
    if not (h.curdata == h.user_buf)
    then (w, success)
    else if can
    then (
      record (set_sh w p (record h { curdata = h.sys_buf })) {
        mem = memcpy w.mem h.sys_buf h.user_buf h.buflen;
      },
      success,
    )
    else (w, err_request)

abbrev pub mark_buffer : Code → Code → Code
mark_buffer err_request e = err_buffer
mark_buffer _ e = e

-- _INTRA_BUFFER, _INTER_BUFFER, _TEST_BUFFER: the sender leaves, and its handle stays PEND_RELS
unfoldable pub leave_buffered : Node → ℕ → Bool → (can : Bool) → Outcome
leave_buffered w p asked can =
    let h = w.shs p in
    let (w', c) = buffer_data w p can in
    returns (set_sh w' p (record (w'.shs p) { stat = pend_rels; locked = false })) (
      reply c (when_asked asked (sh_status h (mark_buffer c h.errval)))
        (if is_persistent_send h.handle_type then p else 0))

-- `sh->sys_buf != NULL`
abbrev pub has_sys : SHandle → Bool
has_sys h = not (h.sys_buf == 0)

-- _INTRA_SYNC up to the wait
unfoldable pub sleep_sh : Node → ℕ → Outcome
sleep_sh w p = sleeps (set_sh w p (record (w.shs p) { stat = pend_wait; locked = false }))

-- the switch of tmpi_intra_wait_sh over the mode of a send that is not matched
unfoldable pub wait_pending : Env → Node → ℕ → Bool → Mode → Outcome
wait_pending env w p asked sync = sleep_sh w p
wait_pending env w p asked buffered = leave_buffered w p asked (has_sys (w.shs p))
wait_pending env w p asked ready = complete_sh env w p asked err_nrdy err_nrdy
wait_pending env w p asked standard =
    if has_sys (w.shs p) then leave_buffered w p asked (has_sys (w.shs p)) else sleep_sh w p

abbrev pub error : Node → Code → ℕ → Outcome
error w c p = returns w (reply c none p)

-- tmpi_intra_wait_sh of a send to this node
unfoldable pub intra_wait_sh : Env → Node → ℕ → Bool → Outcome
intra_wait_sh env w p asked =
    let h = w.shs p in
    if not (has_bit h.stat intra_mask)
    then error w err_intern p
    else if h.locked
    then stuck
    else if same_stat h.stat matched
    then complete_sh env w p asked success h.errval
    else wait_pending env w p asked h.send_mode

-- what runs in _INTRA_SYNC after the wait
unfoldable pub wake_wait_sh : Env → Node → ℕ → Bool → Outcome
wake_wait_sh env w p asked =
    let h = w.shs p in
    if same_stat h.stat pend_wait then sleeps w else complete_sh env w p asked success h.errval

-- tmpi_intra_wait_rh
unfoldable pub wait_rh : Env → Node → ℕ → Bool → Outcome
wait_rh env w p asked =
    let k = w.rhs p in
    if p == 0
    then error w err_request p
    else if not (has_bit k.stat recv_mask)
    then error w err_intern p
    else if same_stat k.stat matched
    then complete_rh env w p asked
    else sleeps (
        set_rh w p
          (record k { stat = if same_stat k.stat pend_strt then pend_wait else pend_dwat }))

-- what runs in tmpi_intra_wait_rh after the wait
unfoldable pub wake_wait_rh : Env → Node → ℕ → Bool → Outcome
wake_wait_rh env w p asked =
    if not (same_stat (w.rhs p).stat matched) then sleeps w else complete_rh env w p asked

-- the wait at the end of tmpi_inter_wait_sh's _INTER_SYNC
unfoldable pub inter_sleep_sh : Node → ℕ → Outcome
inter_sleep_sh w p =
    let h = w.shs p in
    sleeps (
      set_sh w p (record h {
        stat = if same_stat h.stat pend_strt then pend_wait else pend_dwat;
        locked = false;
      }))

-- the switch of tmpi_inter_wait_sh
unfoldable pub inter_wait_pending : Node → ℕ → Bool → Mode → Outcome
inter_wait_pending w p asked sync = inter_sleep_sh w p
inter_wait_pending w p asked ready = inter_sleep_sh w p
inter_wait_pending w p asked buffered = leave_buffered w p asked (has_sys (w.shs p))
inter_wait_pending w p asked standard =
    if has_sys (w.shs p) then leave_buffered w p asked (has_sys (w.shs p)) else inter_sleep_sh w p

-- tmpi_inter_wait_sh once a ready send has an answer
unfoldable pub inter_wait_answered : Env → Node → ℕ → Bool → Outcome
inter_wait_answered env w p asked =
    let h = w.shs p in
    if same_stat h.stat matched
    then complete_sh env w p asked success h.errval
    else if same_stat h.stat pend_nrdy
    then complete_sh env w p asked err_nrdy err_nrdy
    else inter_wait_pending w p asked h.send_mode

abbrev pub is_ready : Mode → Bool
is_ready ready = true
is_ready standard = false
is_ready sync = false
is_ready buffered = false

-- tmpi_inter_wait_sh. A ready send first waits, in its state PEND_STRT, until it has an answer.
unfoldable pub inter_wait_sh : Env → Node → ℕ → Bool → Outcome
inter_wait_sh env w p asked =
    let h = w.shs p in
    if not (has_bit h.stat inter_mask)
    then error w err_intern p
    else if h.locked
    then stuck
    else if same_stat h.stat pend_strt && is_ready h.send_mode
    then sleeps w
    else inter_wait_answered env w p asked

-- what runs after the wait of a ready send
unfoldable pub wake_ready_sh : Env → Node → ℕ → Bool → Outcome
wake_ready_sh env w p asked =
    if same_stat (w.shs p).stat pend_strt then sleeps w else inter_wait_answered env w p asked

-- what runs in _INTER_SYNC after the wait
unfoldable pub wake_inter_wait_sh : Env → Node → ℕ → Bool → Outcome
wake_inter_wait_sh env w p asked =
    let h = w.shs p in
    if not (same_stat h.stat matched) then sleeps w else complete_sh env w p asked success h.errval

-- tmpi_intra_wait_sh
unfoldable pub wait_sh : Env → Node → ℕ → Bool → Outcome
wait_sh env w p asked =
    if p == 0
    then error w err_request p
    else if (w.shs p).is_remote
    then inter_wait_sh env w p asked
    else intra_wait_sh env w p asked

-- The state that a call leaves (the one before it, if it is stuck), and its reply, if it returns.
abbrev pub state_of : Node → Outcome → Node
state_of w (returns w' r) = w'
state_of w (sleeps w') = w'
state_of w stuck = w

abbrev pub reply_of : Outcome → Option Reply
reply_of (returns w r) = some r
reply_of (sleeps w) = none
reply_of stuck = none
