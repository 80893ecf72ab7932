-- ===== src/Inter/Delivery/Steps.antt =====
-- The handlers on the way of a message whose receive was posted, one by one.
use tmpi.Base.{
  ℕ, ◌+◌, ◌≤◌, min, ◌≡◌, refl, ap, ◌∙◌, subst, true, false, some, List, [], ◌∷◌, ◌++◌, arith, ◌==◌,
  length, take, length-take,
}
use tmpi.Intra.Types.{
  Code, SHandle, RHandle, Node, Env, update_self, success, pend_strt, pend_data, matched, dat_send,
  msg_recv, dat_recv,
}
use tmpi.Intra.Channel.{channel_of, rq_probe, set_sh, set_rh, bytes}
use tmpi.Inter.Wire.{put, then_do, netq_send, keep_msg, handled}
use tmpi.Inter.Reads.{reread}
use tmpi.Inter.Stream.{IsRead, take_payload_lem}
use tmpi.Inter.Receives.{
  data_stat, take_envelope, rms_found, rms_at, rms_handle, rds_answer, rds_data, rds_at, rds_handle,
}
use tmpi.Inter.Sends.{sent_stat, send_data, rmr_handle, answered, take_answer, rdr_at, rdr_handle}
use tmpi.Inter.Delivery.Bytes.{bytes-put}

-- A receive is at the head of those that the announcement `h` fits, and waits.
pub record IsPosted (env : Env) (w : Node) (ch r : ℕ) (h : SHandle) : Type 0 where
  pub channel : channel_of env w.channel_size h.dest ≡ some ch
  pub found : rq_probe w ch h.context h.tag h.src ≡ some r
  pub state : (w.rhs r).stat ≡ pend_strt
  pub there : (r == 0) ≡ false

-- A posted receive takes the envelope of a long send, and the sender is asked for the data.
pub rms_handle-posted :
    (env : Env) (chunk : List ℕ) (w : Node) (h : SHandle) (ch r : ℕ)
    → IsPosted env w ch r h
    → let k = take_envelope (w.rhs r) h in
      (w' : Node) × (rms_handle env true chunk w h ≡ handled true w')
      × (w'.rhs r ≡ record k { stat = pend_data })
      × (w'.sent ≡ w.sent ++ msg_recv h.dest h.src h.remote_send_handle r k.buflen ∷ [])
      × (w'.mem ≡ w.mem)
      × (w'.incoming ≡ w.incoming)
      × (w'.msgs_kept ≡ w.msgs_kept)
unfolding rms_handle rms_at rms_found
rms_handle-posted env chunk w h ch r v =
    let k = take_envelope (w.rhs r) h in
    (
      rms_found w ch r h,
      rw (v.channel, rms_handle, v.found, rms_at),
      update_self w.rhs r _ ∙ ap (λ st. record k { stat = data_stat st }) v.state,
      refl,
      refl,
      refl,
      refl,
    )

-- A sender that is asked for the data sends it from where it stands.
pub rmr_handle-asked :
    (w : Node) (sh r len : ℕ)
    → (sh == 0) ≡ false
    → (w.shs sh).locked ≡ false
    → let h = w.shs sh in
      let n = min h.buflen len in
      (w' : Node) × (rmr_handle true w sh r len ≡ handled true w')
      × (w'.shs sh ≡ record h { stat = sent_stat h.stat })
      × (w'.sent ≡ w.sent ++ dat_send h.src h.dest sh r n (bytes w.mem h.curdata n) ∷ [])
      × (w'.mem ≡ w.mem)
      × (w'.msgs_kept ≡ w.msgs_kept + 1)
unfolding rmr_handle send_data
rmr_handle-asked w sh r len there unheld =
    (send_data w sh r len, rw (there, unheld), update_self w.shs sh _, refl, refl, refl)

rds_data_lem :
    (env : Env) (w : Node) (sh r len mac local_id : ℕ)
    → env.trans_global_rank (w.rhs r).src ≡ some (mac, local_id)
    → len ≤ length (w.incoming mac)
    → (w.rhs r).buflen ≤ len
    → let k = w.rhs r in
      (w' : Node) × (rds_data env w sh r len ≡ handled true w')
      × (w'.rhs r ≡ record k { stat = matched })
      × (bytes w'.mem k.data_buf k.buflen ≡ take k.buflen (w.incoming mac))
      × IsRead w.incoming w'.incoming mac len
      × (w'.sent ≡ w.sent ++ dat_recv k.dest k.src sh k.buflen success ∷ [])
      × (w'.msgs_kept ≡ w.msgs_kept)
unfolding rds_data rds_answer
rds_data_lem env w sh r len mac local_id known come fits =
    let k = w.rhs r in
    let (inc, e, read) =
      take_payload_lem env k.src mac local_id known w k.data_buf k.buflen len fits come in
    let xs = take k.buflen (w.incoming mac) in
    let mem = put w.mem k.data_buf xs in
    let w' = set_rh (reread w mem inc) r (record k { stat = matched }) in
    let same = update_self w.rhs r (record k { stat = matched }) in
    let size = length-take k.buflen (w.incoming mac) (omega arith) in
    (
      netq_send w' (dat_recv k.dest k.src sh (w'.rhs r).buflen success),
      rw (e, then_do),
      same,
      subst (λ n. bytes mem k.data_buf n ≡ xs) size (bytes-put w.mem k.data_buf xs),
      read,
      ap (λ (k' : RHandle). w.sent ++ dat_recv k.dest k.src sh k'.buflen success ∷ []) same,
      refl,
    )

-- A receive that waits for the data gets it, no more than fits, and the payload is read whole.
pub rds_handle-data :
    (env : Env) (w : Node) (sh r len mac local_id : ℕ) (xs : List ℕ)
    → (r == 0) ≡ false
    → (w.rhs r).stat ≡ pend_data
    → env.trans_global_rank (w.rhs r).src ≡ some (mac, local_id)
    → w.incoming mac ≡ xs
    → len ≡ length xs
    → let k = w.rhs r in
      let n = min k.buflen len in
      (w' : Node) × (rds_handle env true w sh r len ≡ handled true w')
      × (w'.rhs r ≡ record k { buflen = n; stat = matched })
      × (bytes w'.mem k.data_buf n ≡ take n xs)
      × IsRead w.incoming w'.incoming mac len
      × (w'.sent ≡ w.sent ++ dat_recv k.dest k.src sh n success ∷ [])
      × (w'.msgs_kept ≡ w.msgs_kept + 1)
unfolding rds_handle rds_at rds_data rds_answer
rds_handle-data env w sh r len mac local_id xs there due known coming whole =
    let k = w.rhs r in
    let k1 : RHandle = record k { buflen = min k.buflen len } in
    let w1 = set_rh (keep_msg w) r k1 in
    let same = update_self w.rhs r k1 in
    let (w', e, now, got, read, out, kept) =
      rds_data_lem env w1 sh r len mac local_id (rw same known) (omega (arith, ap length coming))
        (rw same (omega arith)) in
    (
      w',
      rw there (ap (rds_at env w1 sh r len) due ∙ e),
      now ∙ ap (λ (x : RHandle). record x { stat = matched }) same,
      subst (λ (x : RHandle). bytes w'.mem x.data_buf x.buflen ≡ take x.buflen xs) same
          (got ∙ ap (take (w1.rhs r).buflen) coming),
      read,
      out ∙ ap (λ (x : RHandle). w.sent ++ dat_recv x.dest x.src sh x.buflen success ∷ []) same,
      kept,
    )

pub answered_lem :
    (w w' : Node) (sh : ℕ)
    → (sh == 0) ≡ false
    → (w.shs sh).locked ≡ false
    → answered w sh w' ≡ handled true w'
answered_lem w w' sh there unheld = ground arith

-- A sender whose data is on the way is done when the receiver has it.
pub rdr_handle-due :
    (env : Env) (w : Node) (sh len : ℕ) (e : Code)
    → (sh == 0) ≡ false
    → (w.shs sh).locked ≡ false
    → (w.shs sh).stat ≡ pend_data
    → (w' : Node) × (rdr_handle env w sh len e ≡ handled true w')
      × (w'.shs sh ≡ record (w.shs sh) { buflen = len; errval = e; stat = matched })
      × (w'.sent ≡ w.sent)
      × (w'.msgs_kept ≡ w.msgs_kept)
unfolding rdr_handle rdr_at
rdr_handle-due env w sh len e there unheld due =
    let w1 = take_answer w sh len e in
    let w' = set_sh w1 sh (record (w1.shs sh) { stat = matched }) in
    (
      w',
      answered_lem w (rdr_at env w1 sh (w.shs sh).stat) sh there unheld
          ∙ ap (λ st. handled true (rdr_at env w1 sh st)) due,
      update_self w1.shs sh (record (w1.shs sh) { stat = matched })
          ∙ ap (λ (x : SHandle). record x { stat = matched })
              (update_self w.shs sh (record (w.shs sh) { buflen = len; errval = e })),
      refl,
      refl,
    )
