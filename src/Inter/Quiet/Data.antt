-- ===== src/Inter/Quiet/Data.antt =====
-- tmpi_rmds_handle and tmpi_rds_handle, which read a payload, and the invariant of the matching.
use tmpi.Base.{
  ℕ, ◌≡◌, refl, inl, inr, Bool, false, ◌||◌, Option, some, List, ◌==◌, Bool-cases, Option-cases,
}
use tmpi.Queue.{◌∈◌}
use tmpi.Intra.Types.{Stat, same_stat, SHandle, Node, Env, pend_data, pend_dwat, cancelled}
use tmpi.Intra.Channel.{channel_of, rq_probe, rq_unlink, set_rh, alloc_elem}
use tmpi.Intra.Complete.{is_ready}
use tmpi.Inter.Wire.{Handled, then_do}
use tmpi.Inter.Receives.{
  take_envelope, rmds_done, rmds_found, rmds_stored, rmds_queued, rmds_at, rds_answer, rds_data,
  rds_cancelled, rds_at, rds_handle,
}
use tmpi.Inter.Reads.{reread, OnlyReads, recvdata_only, dump_data_only, take_payload_only}
use tmpi.Intra.Quiet.{fits, Quiet}
use tmpi.Intra.Quiet.Steps.{Idle, set-Idle_rh, Idle-unlinked_rh, unlink_rh}
use tmpi.Intra.Quiet.Sends.{rq_probe-none, rq_probe-mem}
use tmpi.Intra.Quiet.Waits.{finish_rh-Quiet}
use tmpi.Inter.Quiet.{Keeps, Fresh, enq_rmsh-Quiet}

-- A handler that reads first keeps the invariant if what it does then keeps it.
then_do-Quiet :
    (env : Env) (w : Node) (o : Option Node) (f : Node → Handled)
    → OnlyReads w o
    → ((mem : ℕ → ℕ) (incoming : ℕ → List ℕ) → Keeps (Quiet env) (f (reread w mem incoming)))
    → Keeps (Quiet env) (then_do o f)
then_do-Quiet env w o f (inl short) keep = rw short tt
then_do-Quiet env w o f (inr (mem, incoming, e)) keep = rw e (keep mem incoming)

module _ (env : Env) (w : Node) (ch : ℕ) (h : SHandle) (q : Quiet env w) where
  rmds_found-Quiet : (r : ℕ) → r ∈ w.rq ch → Keeps (Quiet env) (rmds_found env w ch r h)
  unfolding rmds_found rmds_done
  rmds_found-Quiet r m =
      let k = take_envelope (w.rhs r) h in
      let w' = set_rh (rq_unlink w ch r) r k in
      let out = Idle-unlinked_rh q ch r m in
      let q' = set-Idle_rh (unlink_rh q ch r) r k out in
      then_do-Quiet env w' _ _ (take_payload_only env w' h.src k.data_buf k.buflen h.buflen)
        (λ mem incoming. set-Idle_rh q' r _ out)

  module _ (mb p : ℕ) (cache : List ℕ) (out : Idle p w.sq)
      (there : channel_of env w.channel_size h.dest ≡ some ch)
      (alone : (r : ℕ) → r ∈ w.rq ch → fits h (w.rhs r) ≡ false) where
    rmds_stored-Quiet : Keeps (Quiet env) (rmds_stored env w mb ch p cache h)
    unfolding rmds_stored
    rmds_stored-Quiet = elim (Bool-cases (mb == 0)) [
      | inl full ↦ rw full (
          then_do-Quiet env w _ _ (dump_data_only env w h.src h.buflen) (λ mem incoming.
            enq_rmsh-Quiet env (reread w mem incoming) ch p cache _ q out refl there alone))
      | inr room ↦ rw room (
          then_do-Quiet env w _ _ (recvdata_only env w h.src mb h.buflen) (λ mem incoming.
            enq_rmsh-Quiet env (reread w mem incoming) ch p cache _ q out refl there alone))
    ]

  rmds_queued-Quiet :
      (chunk : List ℕ) (mb : ℕ)
      → Fresh w chunk
      → channel_of env w.channel_size h.dest ≡ some ch
      → ((r : ℕ) → r ∈ w.rq ch → fits h (w.rhs r) ≡ false)
      → Keeps (Quiet env) (rmds_queued env w chunk mb ch h)
  unfolding rmds_queued
  rmds_queued-Quiet chunk mb fresh there alone = elim (Bool-cases (is_ready h.send_mode)) [
    | inl early ↦
        rw early (then_do-Quiet env w _ _ (dump_data_only env w h.src h.buflen) (λ mem incoming. q))
    | inr waiting ↦ elim (Bool-cases ((alloc_elem (w.sq_allocate ch) chunk).0 == 0)) [
      | inl full ↦ rw (waiting, full) tt
      | inr room ↦ rw (waiting, room) (rmds_stored-Quiet mb _ _ (fresh ch) there alone)
    ]
  ]

  pub rmds_at-Quiet :
      (chunk : List ℕ) (mb : ℕ)
      → Fresh w chunk
      → channel_of env w.channel_size h.dest ≡ some ch
      → Keeps (Quiet env) (rmds_at env w chunk mb ch h)
  unfolding rmds_at
  rmds_at-Quiet chunk mb fresh there = elim (Option-cases (rq_probe w ch h.context h.tag h.src)) [
    | inl e ↦
        rw (rmds_at, e)
          (rmds_queued-Quiet chunk mb fresh there (λ r m. rq_probe-none env w ch r h q e m))
    | inr (r, e) ↦ rw (rmds_at, e) (rmds_found-Quiet r (rq_probe-mem w ch r h e))
  ]

module _ (env : Env) (sh r len : ℕ) where
  rds_data-Quiet :
      (w : Node) → Quiet env w → Idle r w.rq → Keeps (Quiet env) (rds_data env w sh r len)
  unfolding rds_data rds_answer
  rds_data-Quiet w q out =
      let k = w.rhs r in
      then_do-Quiet env w _ _ (take_payload_only env w k.src k.data_buf k.buflen len)
        (λ mem incoming. set-Idle_rh q r _ out)

  rds_cancelled-Quiet :
      (w : Node) → Quiet env w → Idle r w.rq → Keeps (Quiet env) (rds_cancelled env w sh r len)
  unfolding rds_cancelled rds_answer
  rds_cancelled-Quiet w q out =
      then_do-Quiet env w _ _ (dump_data_only env w (w.rhs r).src len)
        (λ mem incoming. finish_rh-Quiet env (reread w mem incoming) r q out)

  rds_at-Quiet :
      (w : Node) (st : Stat)
      → Quiet env w
      → Idle r w.rq
      → Keeps (Quiet env) (rds_at env w sh r len st)
  unfolding rds_at rds_answer
  rds_at-Quiet w st q out = elim (Bool-cases (same_stat st pend_data || same_stat st pend_dwat)) [
    | inl data_due ↦ rw data_due (rds_data-Quiet w q out)
    | inr neither ↦ elim (Bool-cases (same_stat st cancelled)) [
      | inl gone ↦ rw (neither, gone) (rds_cancelled-Quiet w q out)
      | inr other ↦ rw (neither, other) q
    ]
  ]

  pub rds_handle-Quiet :
      (got_msg : Bool) (w : Node)
      → Quiet env w
      → Idle r w.rq
      → Keeps (Quiet env) (rds_handle env got_msg w sh r len)
  unfolding rds_handle
  rds_handle-Quiet got_msg w q out = elim (Bool-cases got_msg) [
    | inr full ↦ rw full q
    | inl got ↦ elim (Bool-cases (r == 0)) [
      | inl null ↦ rw (got, null) q
      | inr there ↦ rw (got, there) (rds_at-Quiet _ _ (set-Idle_rh q r _ out) out)
    ]
  ]
