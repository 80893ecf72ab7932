-- ===== src/Inter/Quiet/Waits.antt =====
-- The waits for a send to another node, whose handle is in no queue, and the invariant of the
-- matching.
use tmpi.Base.{ℕ, inl, inr, Bool, not, ◌&&◌, ◌==◌, Bool-cases}
use tmpi.Intra.Types.{
  Code, Mode, has_bit, same_stat, inter_mask, Node, Env, standard, ready, sync, buffered, pend_strt,
  pend_nrdy, matched,
}
use tmpi.Intra.Complete.{
  complete_sh, buffer_data, leave_buffered, has_sys, inter_sleep_sh, inter_wait_pending,
  inter_wait_answered, is_ready, inter_wait_sh, wake_ready_sh, wake_inter_wait_sh,
}
use tmpi.Intra.Quiet.{Quiet}
use tmpi.Intra.Quiet.Steps.{Idle, set-Idle_sh}
use tmpi.Intra.Quiet.Receives.{finish_sh-Quiet}
use tmpi.Intra.Quiet.Waits.{Leaves}

module _ (env : Env) (w : Node) (p : ℕ) (asked : Bool) (q : Quiet env w) (out : Idle p w.sq) where
  complete_sh-Idle : (c e : Code) → Leaves (Quiet env) (complete_sh env w p asked c e)
  unfolding complete_sh
  complete_sh-Idle c e = finish_sh-Quiet env w p q out

  leave_buffered-Idle : (can : Bool) → Leaves (Quiet env) (leave_buffered w p asked can)
  unfolding leave_buffered buffer_data
  leave_buffered-Idle can = elim (Bool-cases (not ((w.shs p).curdata == (w.shs p).user_buf))) [
    | inl moved ↦ rw moved (set-Idle_sh q p _ out)
    | inr there ↦ elim (Bool-cases can) [
      | inl room ↦ rw (there, room) (set-Idle_sh (set-Idle_sh q p _ out) p _ out)
      | inr full ↦ rw (there, full) (set-Idle_sh q p _ out)
    ]
  ]

  inter_sleep_sh-Quiet : Leaves (Quiet env) (inter_sleep_sh w p)
  unfolding inter_sleep_sh
  inter_sleep_sh-Quiet = set-Idle_sh q p _ out

  inter_wait_pending-Quiet : (m : Mode) → Leaves (Quiet env) (inter_wait_pending w p asked m)
  unfolding inter_wait_pending
  inter_wait_pending-Quiet sync = inter_sleep_sh-Quiet
  inter_wait_pending-Quiet ready = inter_sleep_sh-Quiet
  inter_wait_pending-Quiet buffered = leave_buffered-Idle _
  inter_wait_pending-Quiet standard = elim (Bool-cases (has_sys (w.shs p))) [
    | inl room ↦ rw room (leave_buffered-Idle _)
    | inr full ↦ rw full inter_sleep_sh-Quiet
  ]

  inter_wait_answered-Quiet : Leaves (Quiet env) (inter_wait_answered env w p asked)
  unfolding inter_wait_answered
  inter_wait_answered-Quiet = elim (Bool-cases (same_stat (w.shs p).stat matched)) [
    | inl done ↦ rw done (complete_sh-Idle _ _)
    | inr open' ↦ elim (Bool-cases (same_stat (w.shs p).stat pend_nrdy)) [
      | inl refused ↦ rw (open', refused) (complete_sh-Idle _ _)
      | inr other ↦ rw (open', other) (inter_wait_pending-Quiet _)
    ]
  ]

  pub inter_wait_sh-Quiet : Leaves (Quiet env) (inter_wait_sh env w p asked)
  unfolding inter_wait_sh
  inter_wait_sh-Quiet = elim (Bool-cases (not (has_bit (w.shs p).stat inter_mask))) [
    | inl bad ↦ rw bad q
    | inr good ↦ elim (Bool-cases (w.shs p).locked) [
      | inl held ↦ rw (good, held) tt
      | inr unheld ↦
          elim (Bool-cases (same_stat (w.shs p).stat pend_strt && is_ready (w.shs p).send_mode)) [
            | inl early ↦ rw (good, unheld, early) q
            | inr late ↦ rw (good, unheld, late) inter_wait_answered-Quiet
          ]
    ]
  ]

  pub wake_ready_sh-Quiet : Leaves (Quiet env) (wake_ready_sh env w p asked)
  unfolding wake_ready_sh
  wake_ready_sh-Quiet = elim (Bool-cases (same_stat (w.shs p).stat pend_strt)) [
    | inl early ↦ rw early q
    | inr late ↦ rw late inter_wait_answered-Quiet
  ]

  pub wake_inter_wait_sh-Quiet : Leaves (Quiet env) (wake_inter_wait_sh env w p asked)
  unfolding wake_inter_wait_sh
  wake_inter_wait_sh-Quiet = elim (Bool-cases (same_stat (w.shs p).stat matched)) [
    | inl done ↦ rw done (complete_sh-Idle _ _)
    | inr open' ↦ rw open' q
  ]
