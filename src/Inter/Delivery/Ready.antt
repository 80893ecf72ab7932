-- ===== src/Inter/Delivery/Ready.antt =====
-- A ready send to another node that finds no receive.
use tmpi.Base.{
  ℕ, ◌≡◌, refl, ap, ◌∙◌, Bool, true, false, none, some, List, [], ◌∷◌, ◌++◌, ◌==◌, if◌then◌else◌,
}
use tmpi.Intra.Types.{
  same_stat, SHandle, Msg, Node, Env, Supply, update_self, success, err_nrdy, pend_strt, pend_nrdy,
  free, not_ready,
}
use tmpi.Intra.Channel.{
  channel_of, rq_probe, set_sh, is_persistent_send, finish_sh, when_asked, reply,
}
use tmpi.Intra.Complete.{complete_sh, inter_wait_answered, is_ready, wake_ready_sh, returns}
use tmpi.Inter.Wire.{netq_send, handled}
use tmpi.Inter.Receives.{rms_queued, rms_at, rms_handle}
use tmpi.Inter.Sends.{rndy_handle}
use tmpi.Inter.Dispatch.{dispatch}
use tmpi.Inter.Delivery.Steps.{answered_lem}
use tmpi.Intra.Delivery.Buffered.{finish_sh-frame, finish_sh-handle}

-- the answer to it, and what stays as it was
rms_handle-early :
    (env : Env) (chunk : List ℕ) (w : Node) (h : SHandle) (ch : ℕ)
    → channel_of env w.channel_size h.dest ≡ some ch
    → rq_probe w ch h.context h.tag h.src ≡ none
    → is_ready h.send_mode ≡ true
    → rms_handle env true chunk w h
      ≡ handled true (netq_send w (not_ready h.dest h.src h.remote_send_handle h.buflen success))
unfolding rms_handle rms_at rms_queued
rms_handle-early env chunk w h ch there e early = rw (there, rms_handle, e, rms_at, early)

rndy_handle-pending :
    (env : Env) (w : Node) (p : ℕ) (asked : Bool)
    → (p == 0) ≡ false
    → (w.shs p).locked ≡ false
    → (w.shs p).stat ≡ pend_strt
    → (w' : Node) × (rndy_handle w p success ≡ handled true w')
      × (wake_ready_sh env w' p asked ≡ complete_sh env w' p asked err_nrdy err_nrdy)
      × (w'.shs p ≡ record (w.shs p) { errval = success; stat = pend_nrdy })
unfolding rndy_handle wake_ready_sh inter_wait_answered
rndy_handle-pending env w p asked there unheld due =
    let h = w.shs p in
    let h' : SHandle = record h {
      errval = success;
      stat = if same_stat h.stat pend_strt then pend_nrdy else h.stat;
    } in
    let w' = set_sh w p h' in
    let now : (w'.shs p).stat ≡ pend_nrdy =
      ap SHandle.stat (update_self w.shs p h')
      ∙ ap (λ st. if same_stat st pend_strt then pend_nrdy else st) due in
    let marked =
      update_self w.shs p h'
      ∙ ap
          (λ st.
            let x : SHandle = record h {
              errval = success;
              stat = if same_stat st pend_strt then pend_nrdy else st;
            } in
            x)
          due in
    (w', answered_lem w w' p there unheld, rw now refl, marked)

-- how a refused send ends
refused :
    (env : Env) (w : Node) (p : ℕ) (asked : Bool)
    → let h = w.shs p in
      (w' : Node) × (complete_sh env w p asked err_nrdy err_nrdy
        ≡ returns w' (
            reply err_nrdy
              (when_asked asked (record {
                status_len = h.buflen;
                mpi_source = h.src;
                mpi_tag = h.tag;
                mpi_error = err_nrdy;
              }))
              (if is_persistent_send h.handle_type then p else 0)))
      × ((w'.shs p).stat ≡ free)
unfolding complete_sh
refused env w p asked =
    ((finish_sh env w p).0, rw (finish_sh-handle env w p) refl, (finish_sh-frame env w p).0)

-- A ready-mode announcement that finds no receive, of a send that still waits for its answer and is
-- not locked, is not queued: the receiver's handles and queues stay as they are, and the sender is
-- told; once it has handled that, its wait goes on and returns
-- MPI_ERR_NRDY. A status that was asked for has the send's length, source and tag, and MPI_ERR_NRDY
-- as its error; the handle is free, and stays in the request only if the send is persistent.
pub ready_send_refused :
    (ea eb : Env) (s : Supply) (a b : Node) (h : SHandle) (ch : ℕ) (asked : Bool)
    → channel_of eb b.channel_size h.dest ≡ some ch
    → rq_probe b ch h.context h.tag h.src ≡ none
    → is_ready h.send_mode ≡ true
    → (h.remote_send_handle == 0) ≡ false
    → (a.shs h.remote_send_handle).locked ≡ false
    → (a.shs h.remote_send_handle).stat ≡ pend_strt
    → let p = h.remote_send_handle in
      let answer : Msg = not_ready h.dest h.src p h.buflen success in
      (rms_handle eb true s.chunk b h ≡ handled true (record b { sent = b.sent ++ answer ∷ [] }))
      × (a' : Node) × (dispatch ea s a answer ≡ handled true a')
      × (a'' : Node) × (wake_ready_sh ea a' p asked
          ≡ returns a'' (
              reply err_nrdy
                (when_asked asked (record {
                  status_len = (a.shs p).buflen;
                  mpi_source = (a.shs p).src;
                  mpi_tag = (a.shs p).tag;
                  mpi_error = err_nrdy;
                }))
                (if is_persistent_send (a.shs p).handle_type then p else 0)))
      × ((a''.shs p).stat ≡ free)
unfolding dispatch
ready_send_refused ea eb s a b h ch asked there e early named unheld due =
    let p = h.remote_send_handle in
    let (a', told, woken, marked) = rndy_handle-pending ea a p asked named unheld due in
    let (a'', ends, gone) = refused ea a' p asked in
    let same =
      ap
        (λ (x : SHandle). returns a'' (
          reply err_nrdy
            (when_asked asked (record {
              status_len = x.buflen;
              mpi_source = x.src;
              mpi_tag = x.tag;
              mpi_error = err_nrdy;
            }))
            (if is_persistent_send x.handle_type then p else 0)))
        marked in
    (rms_handle-early eb s.chunk b h ch there e early, a', told, a'', woken ∙ ends ∙ same, gone)
