-- ===== src/Inter/Sends.antt =====
-- The handlers of messages to a sender: tmpi_rmr_handle, tmpi_rdr_handle, tmpi_rmdr_handle and
-- tmpi_rndy_handle.
use tmpi.Base.{ℕ, min, Bool, true, false, not, ◌||◌, ◌==◌, if◌then◌else◌}
use tmpi.Intra.Types.{
  Code, Stat, same_stat, Node, Env, pend_strt, pend_wait, pend_rels, pend_data, pend_dwat,
  pend_nrdy, matched, cancelled, dat_send,
}
use tmpi.Intra.Channel.{set_sh, finish_sh, bytes}
use tmpi.Inter.Wire.{Handled, netq_send, keep_msg, handled, waits}

-- the state of a long send once its data is on the way
abbrev pub sent_stat : Stat → Stat
sent_stat s =
    if same_stat s pend_strt then pend_data else if same_stat s pend_wait then pend_dwat else s

-- The data goes out, no more than the receiver wants.
unfoldable pub send_data : Node → (sh r len : ℕ) → Node
send_data w sh r len =
    let h = w.shs sh in
    let n = min h.buflen len in
    set_sh (netq_send (keep_msg w) (dat_send h.src h.dest sh r n (bytes w.mem h.curdata n))) sh
      (record h { stat = sent_stat h.stat })

-- tmpi_rmr_handle: the receiver is ready
unfoldable pub rmr_handle : (got_msg : Bool) → Node → (sh r len : ℕ) → Handled
rmr_handle got_msg w sh r len =
    if not got_msg
    then handled false w
    else if sh == 0
    then handled false (keep_msg w)
    else if (w.shs sh).locked
    then waits
    else handled true (send_data w sh r len)

-- `(sh->stat!=TMPI_CANCEL) && (sh->stat!=TMPI_PEND_RELS)` negated: the sender has left
abbrev pub is_left : Stat → Bool
is_left s = same_stat s cancelled || same_stat s pend_rels

-- The handlers of an answer begin alike: they want a handle, and its lock; then they leave `w'`.
abbrev pub answered : Node → (sh : ℕ) → (w' : Node) → Handled
answered w sh w' =
    if sh == 0 then handled false w else if (w.shs sh).locked then waits else handled true w'

-- what tmpi_rdr_handle and tmpi_rmdr_handle take over from the answer
abbrev pub take_answer : Node → (sh len : ℕ) → Code → Node
take_answer w sh len e = set_sh w sh (record (w.shs sh) { buflen = len; errval = e })

-- tmpi_rdr_handle over the state of the send
unfoldable pub rdr_at : Env → Node → (sh : ℕ) → Stat → Node
rdr_at env w sh st =
    if same_stat st pend_data || same_stat st pend_dwat
    then set_sh w sh (record (w.shs sh) { stat = matched })
    else if is_left st
    then (finish_sh env w sh).0
    else w

-- tmpi_rdr_handle: the data of a long send has arrived
unfoldable pub rdr_handle : Env → Node → (sh len : ℕ) → Code → Handled
rdr_handle env w sh len e = answered w sh (rdr_at env (take_answer w sh len e) sh (w.shs sh).stat)

-- tmpi_rmdr_handle over the state of the send
unfoldable pub rmdr_at : Env → Node → (sh : ℕ) → Stat → Node
rmdr_at env w sh st =
    if same_stat st pend_strt || same_stat st pend_wait
    then set_sh w sh (record (w.shs sh) { stat = matched })
    else if is_left st
    then (finish_sh env w sh).0
    else w

-- tmpi_rmdr_handle: a short send has arrived
unfoldable pub rmdr_handle : Env → Node → (sh len : ℕ) → Code → Handled
rmdr_handle env w sh len e = answered w sh (rmdr_at env (take_answer w sh len e) sh (w.shs sh).stat)

-- tmpi_rndy_handle: no receive was ready
unfoldable pub rndy_handle : Node → (sh : ℕ) → Code → Handled
rndy_handle w sh e =
    let h = w.shs sh in
    answered w sh (
      set_sh w sh
        (record h { errval = e; stat = if same_stat h.stat pend_strt then pend_nrdy else h.stat }))
