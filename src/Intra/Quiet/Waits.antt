-- ===== src/Intra/Quiet/Waits.antt =====
-- The waits and the invariant of the matching.
use tmpi.Base.{
  ℕ, ◌≡◌, refl, inl, inr, Bool, true, false, not, arith, ◌==◌, Bool-cases, Option-cases,
}
use tmpi.Intra.Types.{
  Code, Mode, Stat, has_bit, same_stat, pend_mask, intra_mask, recv_mask, SHandle, Node, Env,
  update_self, standard, ready, sync, buffered, matched,
}
use tmpi.Intra.Channel.{channel_of, free_rh, is_persistent_recv, finish_rh}
use tmpi.Intra.Complete.{
  Outcome, complete_sh, complete_rh, buffer_data, leave_buffered, has_sys, sleep_sh, wait_pending,
  intra_wait_sh, wait_rh, wake_wait_rh, is_ready, returns, sleeps, stuck,
}
use tmpi.Intra.Quiet.{Quiet}
use tmpi.Intra.Quiet.Steps.{
  Idle, Idle-of_stat_sh, Idle-of_stat_rh, set-Idle_rh, set_still_sh, set_still_rh,
}
use tmpi.Intra.Quiet.Receives.{finish_sh-Quiet}

-- what holds of the state that a call leaves, if it does not get stuck
abbrev pub Leaves : (Node → Type 0) → Outcome → Type 0
Leaves P (returns w r) = P w
Leaves P (sleeps w) = P w
Leaves P stuck = Unit {0}

pub finish_rh-Quiet :
    (env : Env) (w : Node) (r : ℕ) → Quiet env w → Idle r w.rq → Quiet env (finish_rh env w r).0
unfolding finish_rh free_rh
finish_rh-Quiet env w r q out = elim (Bool-cases (is_persistent_recv (w.rhs r).handle_type)) [
  | inl kept ↦ rw kept (set-Idle_rh q r _ out)
  | inr gone ↦ elim (Option-cases (channel_of env w.channel_size (w.rhs r).dest)) [
    | inl nowhere ↦ rw (gone, nowhere) (set-Idle_rh q r _ out)
    | inr (ch, there) ↦ rw (gone, there) (set-Idle_rh q r _ out)
  ]
]

pub complete_sh-Quiet :
    (env : Env) (w : Node) (p : ℕ) (asked : Bool) (c e : Code)
    → Quiet env w
    → has_bit (w.shs p).stat pend_mask ≡ false
    → Leaves (Quiet env) (complete_sh env w p asked c e)
unfolding complete_sh
complete_sh-Quiet env w p asked c e q done = finish_sh-Quiet env w p q (Idle-of_stat_sh q p done)

pub complete_rh-Quiet :
    (env : Env) (w : Node) (p : ℕ) (asked : Bool)
    → Quiet env w
    → has_bit (w.rhs p).stat pend_mask ≡ false
    → Leaves (Quiet env) (complete_rh env w p asked)
unfolding complete_rh
complete_rh-Quiet env w p asked q done = finish_rh-Quiet env w p q (Idle-of_stat_rh q p done)

sleep_sh-Quiet : (env : Env) (w : Node) (p : ℕ) → Quiet env w → Leaves (Quiet env) (sleep_sh w p)
unfolding sleep_sh
sleep_sh-Quiet env w p q = set_still_sh q p _ refl refl refl refl refl

-- The copy to the system buffer changes no field that the matching reads.
leave_buffered-Quiet :
    (env : Env) (w : Node) (p : ℕ) (asked can : Bool)
    → Quiet env w
    → has_bit (w.shs p).stat pend_mask ≡ true
    → Leaves (Quiet env) (leave_buffered w p asked can)
unfolding leave_buffered buffer_data
leave_buffered-Quiet env w p asked can q pend =
    let h = w.shs p in
    let h' : SHandle = record h { curdata = h.sys_buf } in
    let same = update_self w.shs p h' in
    elim (Bool-cases (not (h.curdata == h.user_buf))) [
      | inl moved ↦ rw moved (set_still_sh q p _ refl refl refl refl refl)
      | inr there ↦ elim (Bool-cases can) [
        | inl room ↦
            rw (there, room)
              (set_still_sh (set_still_sh q p h' pend refl refl refl refl) p _ refl refl refl refl
                refl)
        | inr full ↦ rw (there, full) (set_still_sh q p _ refl refl refl refl refl)
      ]
    ]

-- A send that may be waited for and is not matched is pending.
pub pending_of_intra_mask :
    (s : Stat)
    → has_bit s intra_mask ≡ true
    → same_stat s matched ≡ false
    → has_bit s pend_mask ≡ true
pending_of_intra_mask s a b = ground arith

pub pending_of_recv_mask :
    (s : Stat)
    → has_bit s recv_mask ≡ true
    → same_stat s matched ≡ false
    → has_bit s pend_mask ≡ true
pending_of_recv_mask s a b = ground arith

pub done_of_matched : (s : Stat) → same_stat s matched ≡ true → has_bit s pend_mask ≡ false
done_of_matched s a = ground arith

wait_pending-Quiet :
    (env : Env) (w : Node) (p : ℕ) (asked : Bool) (m : Mode)
    → Quiet env w
    → has_bit (w.shs p).stat pend_mask ≡ true
    → is_ready m ≡ false
    → Leaves (Quiet env) (wait_pending env w p asked m)
unfolding wait_pending
wait_pending-Quiet env w p asked sync q pend e = sleep_sh-Quiet env w p q
wait_pending-Quiet env w p asked buffered q pend e = leave_buffered-Quiet env w p asked _ q pend
wait_pending-Quiet env w p asked ready q pend e = absurd (ground arith)
wait_pending-Quiet env w p asked standard q pend e = elim (Bool-cases (has_sys (w.shs p))) [
  | inl room ↦ rw room (leave_buffered-Quiet env w p asked _ q pend)
  | inr full ↦ rw full (sleep_sh-Quiet env w p q)
]

-- If the queues are quiet, they are after the wait for a send to this node that is not ready-mode,
-- whether the call fails, completes it, leaves it buffered or goes to sleep.
pub intra_wait_sh-Quiet :
    (env : Env) (w : Node) (p : ℕ) (asked : Bool)
    → Quiet env w
    → is_ready (w.shs p).send_mode ≡ false
    → Leaves (Quiet env) (intra_wait_sh env w p asked)
unfolding intra_wait_sh
intra_wait_sh-Quiet env w p asked q e = elim (Bool-cases (has_bit (w.shs p).stat intra_mask)) [
  | inr bad ↦ rw bad q
  | inl good ↦ elim (Bool-cases (w.shs p).locked) [
    | inl held ↦ rw (good, held) tt
    | inr fine ↦ elim (Bool-cases (same_stat (w.shs p).stat matched)) [
      | inl done ↦
          rw (good, fine, done)
            (complete_sh-Quiet env w p asked _ _ q (done_of_matched (w.shs p).stat done))
      | inr wait ↦
          rw (good, fine, wait)
            (wait_pending-Quiet env w p asked _ q (pending_of_intra_mask (w.shs p).stat good wait)
              e)
    ]
  ]
]

-- If the queues are quiet, they are after the wait for a receive, whether the call fails,
-- completes it or goes to sleep.
pub wait_rh-Quiet :
    (env : Env) (w : Node) (p : ℕ) (asked : Bool)
    → Quiet env w
    → Leaves (Quiet env) (wait_rh env w p asked)
unfolding wait_rh
wait_rh-Quiet env w p asked q = elim (Bool-cases (p == 0)) [
  | inl null ↦ rw null q
  | inr there ↦ elim (Bool-cases (has_bit (w.rhs p).stat recv_mask)) [
    | inr bad ↦ rw (there, bad) q
    | inl good ↦ elim (Bool-cases (same_stat (w.rhs p).stat matched)) [
      | inl done ↦
          rw (there, good, done)
            (complete_rh-Quiet env w p asked q (done_of_matched (w.rhs p).stat done))
      | inr wait ↦ rw (there, good, wait) (set_still_rh q p _ (ground arith) refl refl refl refl)
    ]
  ]
]

-- If the queues are quiet, they are after a sleeping receiver is woken, whether it goes on or
-- sleeps again.
pub wake_wait_rh-Quiet :
    (env : Env) (w : Node) (p : ℕ) (asked : Bool)
    → Quiet env w
    → Leaves (Quiet env) (wake_wait_rh env w p asked)
unfolding wake_wait_rh
wake_wait_rh-Quiet env w p asked q = elim (Bool-cases (same_stat (w.rhs p).stat matched)) [
  | inl done ↦ rw done (complete_rh-Quiet env w p asked q (done_of_matched (w.rhs p).stat done))
  | inr wait ↦ rw wait q
]
