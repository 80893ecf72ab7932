-- ===== src/Inter/Delivery/Short.antt =====
-- A short message from one process to another: the announcement with the data, and the receipt.
use tmpi.Base.{
  ℕ, ◌≤◌, ◌≡◌, refl, ap, ◌∙◌, subst, true, false, not, some, List, [], ◌∷◌, ◌++◌, arith, ltb, ◌==◌,
  length, take, length-take,
}
use tmpi.Intra.Types.{
  Code, SHandle, RHandle, Node, Env, update_self, success, remote_msgdat_send, create, pend_strt,
  matched, announce, msgdat_recv,
}
use tmpi.Intra.Channel.{rq_unlink, set_sh, set_rh, is_success, bytes}
use tmpi.Intra.Start.{max_short_msg, not_startable_sh, inter_start_sh, matched_rh, start_sh}
use tmpi.Inter.Wire.{put, then_do, handled}
use tmpi.Inter.Reads.{reread}
use tmpi.Inter.Stream.{IsRead, take_payload_lem}
use tmpi.Inter.Receives.{take_envelope, rmds_done, rmds_found, rmds_at, rmds_handle}
use tmpi.Inter.Sends.{take_answer, rmdr_at, rmdr_handle}
use tmpi.Inter.Delivery.Bytes.{bytes-put}
use tmpi.Inter.Delivery.Steps.{IsPosted, answered_lem}

-- A new handle of a send to another node, whose announcement carries the data.
pub record IsShortSend (a : Node) (p : ℕ) : Type 0 where
  pub there : (p == 0) ≡ false
  pub created : (a.shs p).stat ≡ create
  pub fine : (a.shs p).errval ≡ success
  pub far : (a.shs p).is_remote ≡ true
  pub unheld : (a.shs p).locked ≡ false
  pub short : ltb (a.shs p).buflen max_short_msg ≡ true

-- the announcement of a short send
abbrev pub short_rmsh : SHandle → ℕ → SHandle
short_rmsh h p = record h {
  stat = pend_strt;
  handle_type = remote_msgdat_send;
  remote_send_handle = p;
  curdata = 0;
}

pub start_sh-short :
    (env : Env) (a : Node) (p : ℕ)
    → IsShortSend a p
    → let h = a.shs p in
      (a' : Node) × (start_sh env true a p ≡ (a', success))
      × (a'.shs p ≡ record h { stat = pend_strt })
      × (a'.sent
          ≡ a.sent ++ announce h.src h.dest (short_rmsh h p) (bytes a.mem h.curdata h.buflen) ∷ [])
      × (a'.msgs_kept ≡ a.msgs_kept)
unfolding start_sh inter_start_sh not_startable_sh
start_sh-short env a p v =
    let h = a.shs p in
    let h' : SHandle = record h { stat = pend_strt } in
    let startable : not_startable_sh h ≡ false = ground (arith, v.created) in
    let good : not (is_success h.errval) ≡ false = ap (λ e. not (is_success e)) v.fine in
    (
      record (set_sh a p h') {
        sent =
            a.sent ++ announce h.src h.dest (short_rmsh h p) (bytes a.mem h.curdata h.buflen) ∷ [];
      },
      rw (v.there, good, v.far, startable, v.short),
      update_self a.shs p h',
      refl,
      refl,
    )

-- Once the payload is read, the receive is matched.
rmds_done_lem :
    (w : Node) (r : ℕ) (h : SHandle) (k : RHandle)
    → w.rhs r ≡ k
    → k.stat ≡ pend_strt
    → let w' = rmds_done w r h in
      (w'.rhs r ≡ record k { stat = matched })
      × (w'.sent ≡ w.sent ++ msgdat_recv h.dest h.src h.remote_send_handle k.buflen success ∷ [])
unfolding rmds_done
rmds_done_lem w r h k e due = (
  update_self w.rhs r _
      ∙ ap (λ (x : RHandle). record x { stat = matched_rh x.stat }) e
      ∙ ap (λ st. let x : RHandle = record k { stat = matched_rh st } in x) due,
  ap
      (λ (x : RHandle).
        w.sent ++ msgdat_recv h.dest h.src h.remote_send_handle x.buflen success ∷ [])
      e,
)

-- A posted receive takes envelope and data of a short send, and the payload is read whole.
pub rmds_handle-posted :
    (env : Env) (chunk : List ℕ) (mb : ℕ) (w : Node) (h : SHandle) (ch r mac local_id : ℕ)
    → IsPosted env w ch r h
    → env.trans_global_rank h.src ≡ some (mac, local_id)
    → h.buflen ≤ length (w.incoming mac)
    → let k = take_envelope (w.rhs r) h in
      (w' : Node) × (rmds_handle env true chunk mb w h ≡ handled true w')
      × (w'.rhs r ≡ record k { stat = matched })
      × (bytes w'.mem k.data_buf k.buflen ≡ take k.buflen (w.incoming mac))
      × IsRead w.incoming w'.incoming mac h.buflen
      × (w'.sent ≡ w.sent ++ msgdat_recv h.dest h.src h.remote_send_handle k.buflen success ∷ [])
      × (w'.msgs_kept ≡ w.msgs_kept)
unfolding rmds_handle rmds_at rmds_found rmds_done
rmds_handle-posted env chunk mb w h ch r mac local_id v known come =
    let k = take_envelope (w.rhs r) h in
    let w1 = set_rh (rq_unlink w ch r) r k in
    let (inc, e, read) =
      take_payload_lem env h.src mac local_id known w1 k.data_buf k.buflen h.buflen (omega arith)
        come in
    let xs = take k.buflen (w.incoming mac) in
    let w2 = reread w1 (put w.mem k.data_buf xs) inc in
    let size = length-take k.buflen (w.incoming mac) (omega arith) in
    let (now, out) = rmds_done_lem w2 r h k (update_self w.rhs r k) v.state in
    (
      rmds_done w2 r h,
      rw (v.channel, rmds_handle, v.found, rmds_at, e, then_do),
      now,
      subst (λ n. bytes w2.mem k.data_buf n ≡ xs) size (bytes-put w.mem k.data_buf xs),
      read,
      out,
      refl,
    )

-- A sender of a short message is done when the receiver has it.
pub rmdr_handle-due :
    (env : Env) (w : Node) (sh len : ℕ) (e : Code)
    → (sh == 0) ≡ false
    → (w.shs sh).locked ≡ false
    → (w.shs sh).stat ≡ pend_strt
    → (w' : Node) × (rmdr_handle env w sh len e ≡ handled true w')
      × (w'.shs sh ≡ record (w.shs sh) { buflen = len; errval = e; stat = matched })
      × (w'.sent ≡ w.sent)
      × (w'.msgs_kept ≡ w.msgs_kept)
unfolding rmdr_handle rmdr_at
rmdr_handle-due env w sh len e there unheld due =
    let w1 = take_answer w sh len e in
    (
      set_sh w1 sh (record (w1.shs sh) { stat = matched }),
      answered_lem w (rmdr_at env w1 sh (w.shs sh).stat) sh there unheld
          ∙ ap (λ st. handled true (rmdr_at env w1 sh st)) due,
      update_self w1.shs sh (record (w1.shs sh) { stat = matched })
          ∙ ap (λ (x : SHandle). record x { stat = matched })
              (update_self w.shs sh (record (w.shs sh) { buflen = len; errval = e })),
      refl,
      refl,
    )
