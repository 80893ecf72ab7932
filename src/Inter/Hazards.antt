-- ===== src/Inter/Hazards.antt =====
-- Where the handlers of inter_sr.c break the protocol, and what they keep for good.
use tmpi.Base.{
  ℕ, min, ◌≡◌, refl, ap, ◌∙◌, true, false, List, [], ◌∷◌, ◌++◌, arith, ◌==◌, if◌then◌else◌,
}
use tmpi.Intra.Types.{
  has_bit, recv_mask, SHandle, RHandle, Msg, Node, Env, update_self, success, pend_data, free,
  announce, dat_send, msg_recv, dat_recv, msgdat_recv, not_ready, Supply,
}
use tmpi.Intra.Channel.{set_rh, finish_rh}
use tmpi.Intra.Complete.{state_of}
use tmpi.Intra.Cancel.{finished, cancel_rh}
use tmpi.Intra.Hazards.{cancel_rh-finishes}
use tmpi.Intra.Delivery.Rendezvous.{finish_rh-frame}
use tmpi.Inter.Wire.{netq_send, keep_msg, handled}
use tmpi.Inter.Receives.{rmds_handle, rds_answer, rds_at, rds_handle}

-- what holds of the state that a handler leaves, whatever it returns
module _ (env : Env) (w : Node) (sh r len : ℕ) where
  -- the state and the answer of tmpi_rds_handle for a receive that no data is due for
  rds_handle-free :
      (r == 0) ≡ false
      → (w.rhs r).stat ≡ free
      → (w' : Node) × (rds_handle env true w sh r len ≡ handled true w')
        × (w'.mem ≡ w.mem)
        × (w'.incoming ≡ w.incoming)
        × (w'.sent
            ≡ w.sent
              ++ dat_recv (w.rhs r).dest (w.rhs r).src sh (min (w.rhs r).buflen len) success ∷ [])
  unfolding rds_handle rds_at rds_answer
  rds_handle-free there gone =
      let k1 : RHandle = record (w.rhs r) { buflen = min (w.rhs r).buflen len } in
      let w1 = set_rh (keep_msg w) r k1 in
      let same = update_self w.rhs r k1 in
      (
        netq_send w1 (dat_recv (w1.rhs r).dest (w1.rhs r).src sh (w1.rhs r).buflen success),
        rw there (ap (rds_at env w1 sh r len) gone),
        refl,
        refl,
        ap (λ (k : RHandle). w.sent ++ dat_recv k.dest k.src sh k.buflen success ∷ []) same,
      )

-- The state after a call that returns.
cancel_rh_state :
    (env : Env) (w : Node) (r : ℕ)
    → (r == 0) ≡ false
    → has_bit (w.rhs r).stat recv_mask ≡ true
    → state_of w (cancel_rh env w r) ≡ (finish_rh env w r).0
unfolding finished
cancel_rh_state env w r there e = ap (state_of w) (cancel_rh-finishes env w r there e)

-- When the data of a long send comes in for a receive that was cancelled while it waited for the
-- data, tmpi_rds_handle returns 0 and tells the sender that the data was received, but writes
-- nothing and leaves the data on the connection, where the next message is expected.
pub cancelled_recv_loses_data :
    (env : Env) (w : Node) (sh r len : ℕ)
    → (r == 0) ≡ false
    → (w.rhs r).stat ≡ pend_data
    → let w1 = state_of w (cancel_rh env w r) in
      let k = w1.rhs r in
      (w' : Node) × (rds_handle env true w1 sh r len ≡ handled true w')
      × (w'.mem ≡ w.mem)
      × (w'.incoming ≡ w.incoming)
      × (w'.sent ≡ w.sent ++ dat_recv k.dest k.src sh (min k.buflen len) success ∷ [])
cancelled_recv_loses_data env w sh r len there due =
    let open' : has_bit (w.rhs r).stat recv_mask ≡ true = ap (λ st. has_bit st recv_mask) due in
    let w1 = (finish_rh env w r).0 in
    let (stat, mem, sq, rq, come, out, kept) = finish_rh-frame env w r in
    let (w', e, mem', come', out') = rds_handle-free env w1 sh r len there stat in
    rw (cancel_rh_state env w r there open') (
      w',
      e,
      mem' ∙ mem,
      come' ∙ come,
      out'
          ∙ ap
              (λ ms.
                ms
                ++ dat_recv (w1.rhs r).dest (w1.rhs r).src sh (min (w1.rhs r).buflen len) success
                  ∷ [])
              out,
    )

-- A short announcement for which no tmpi_MSG is free is refused, and its payload stays on the
-- connection, whatever has been posted.
pub rmds_handle-no_msg :
    (env : Env) (chunk : List ℕ) (mb : ℕ) (w : Node) (h : SHandle)
    → rmds_handle env false chunk mb w h ≡ handled false w
unfolding rmds_handle
rmds_handle-no_msg env chunk mb w h = ground arith

-- the messages that a handler takes and does not give back
abbrev pub kept_by : Supply → Msg → ℕ
kept_by s (dat_send from to sh r n xs) = if s.got_msg then 1 else 0
kept_by s (msg_recv from to sh r n) = if s.got_msg then 1 else 0
kept_by s (announce from to h xs) = 0
kept_by s (dat_recv from to sh n e) = 0
kept_by s (msgdat_recv from to sh n e) = 0
kept_by s (not_ready from to sh n e) = 0
