-- ===== src/Intra/Quiet/Sends.antt =====
-- tmpi_intra_start_sh and the invariant of the matching.
use tmpi.Base.{ℕ, ◌≡◌, Bool, false, none, some, ◌==◌, arith, Bool-cases, Option-cases, inl, inr}
use tmpi.Queue.{◌∈◌}
use tmpi.Queue.Search.{probe-none, probe-some}
use tmpi.Intra.Types.{SHandle, Node, Env, has_bit, pend_mask, update_self, pend_strt}
use tmpi.Intra.Channel.{channel_of, rq_probe, is_success}
use tmpi.Intra.Start.{
  not_startable_sh, inter_start_sh, intra_start_sh, match_send, send_at, start_sh,
}
use tmpi.Intra.Quiet.{Quiet, fits, rq_cmp-fits}
use tmpi.Intra.Quiet.Steps.{
  Idle-of_stat_sh, set-Idle_sh, set-Idle_rh, Idle-unlinked_rh, unlink_rh, join_sh, Idle,
}

-- A handle that may be started is not pending.
pub startable_sh_idle :
    (h : SHandle) → not_startable_sh h ≡ false → has_bit h.stat pend_mask ≡ false
unfolding not_startable_sh
startable_sh_idle h e = ground arith

-- No queued receive fits a send for which the search finds none.
pub rq_probe-none :
    (env : Env) (w : Node) (ch r : ℕ) (h : SHandle)
    → Quiet env w
    → rq_probe w ch h.context h.tag h.src ≡ none
    → r ∈ w.rq ch
    → fits h (w.rhs r) ≡ false
unfolding rq_probe
rq_probe-none env w ch r h q e m =
    ground (arith, probe-none _ r (w.rq ch) e m, rq_cmp-fits h (w.rhs r), q.pending_r ch r m)

-- What the search finds stands in the queue.
pub rq_probe-mem :
    (w : Node) (ch r : ℕ) (h : SHandle) → rq_probe w ch h.context h.tag h.src ≡ some r → r ∈ w.rq ch
unfolding rq_probe
rq_probe-mem w ch r h e = (probe-some _ r (w.rq ch) e).1

match_send-Quiet :
    (env : Env) (w : Node) (ch p r : ℕ)
    → Quiet env w
    → Idle p w.sq
    → r ∈ w.rq ch
    → Quiet env (match_send w ch p r)
unfolding match_send
match_send-Quiet env w ch p r q out m =
    set-Idle_sh (set-Idle_rh (unlink_rh q ch r) r _ (Idle-unlinked_rh q ch r m)) p _ out

send_at-Quiet :
    (env : Env) (w : Node) (ch p : ℕ)
    → Quiet env w
    → Idle p w.sq
    → channel_of env w.channel_size (w.shs p).dest ≡ some ch
    → Quiet env (send_at w ch p)
unfolding send_at
send_at-Quiet env w ch p q out there =
    let h = w.shs p in
    let h' : SHandle = record h { stat = pend_strt } in
    let same = update_self w.shs p h' in
    elim (Option-cases (rq_probe w ch h.context h.tag h.src)) [
      | inl e ↦
          rw (send_at, e)
            (join_sh (set-Idle_sh q p h' out) ch p out (rw same) (rw same there)
              (λ r m. rw same (rq_probe-none env w ch r h q e m)))
      | inr (r, e) ↦ rw (send_at, e) (match_send-Quiet env w ch p r q out (rq_probe-mem w ch r h e))
    ]

intra_start_sh-Quiet :
    (env : Env) (w : Node) (p : ℕ) → Quiet env w → Quiet env (intra_start_sh env w p).0
unfolding intra_start_sh
intra_start_sh-Quiet env w p q = elim (Bool-cases (not_startable_sh (w.shs p))) [
  | inl bad ↦ rw bad q
  | inr good ↦ elim (Option-cases (channel_of env w.channel_size (w.shs p).dest)) [
    | inl gone ↦ rw (good, gone) q
    | inr (ch, there) ↦
        rw (good, there)
          (send_at-Quiet env w ch p q (Idle-of_stat_sh q p (startable_sh_idle (w.shs p) good))
            there)
  ]
]

inter_start_sh-Quiet :
    (env : Env) (got_msg : Bool) (w : Node) (p : ℕ)
    → Quiet env w
    → Quiet env (inter_start_sh got_msg w p).0
unfolding inter_start_sh
inter_start_sh-Quiet env got_msg w p q = elim (Bool-cases (not_startable_sh (w.shs p))) [
  | inl bad ↦ rw bad q
  | inr good ↦ elim (Bool-cases got_msg) [
    | inl got ↦
        rw (good, got) (set-Idle_sh q p _ (Idle-of_stat_sh q p (startable_sh_idle (w.shs p) good)))
    | inr full ↦ rw (good, full) q
  ]
]

-- If the queues are quiet, they are after tmpi_intra_start_sh as well, whatever it finds and
-- returns.
pub start_sh-Quiet :
    (env : Env) (got_msg : Bool) (w : Node) (p : ℕ)
    → Quiet env w
    → Quiet env (start_sh env got_msg w p).0
unfolding start_sh
start_sh-Quiet env got_msg w p q = elim (Bool-cases (p == 0)) [
  | inl null ↦ rw null q
  | inr there ↦ elim (Bool-cases (is_success (w.shs p).errval)) [
    | inr failed ↦ rw (there, failed) q
    | inl fine ↦ elim (Bool-cases (w.shs p).is_remote) [
      | inl far ↦ rw (there, fine, far) (inter_start_sh-Quiet env got_msg w p q)
      | inr near ↦ rw (there, fine, near) (intra_start_sh-Quiet env w p q)
    ]
  ]
]
