-- ===== src/Intra/Hazards.antt =====
-- Where intra_sr.c does not do what it means to: each theorem states, for all the states that show
-- it, what the code does there.
use tmpi.Base.{
  inr, inl, ℕ, ◌≡◌, refl, sym, ap, ◌∙◌, subst, inl, inr, Bool, true, false, not, ◌||◌, none, some,
  arith, ◌==◌, if◌then◌else◌, Bool-cases, ==_refl,
}
use tmpi.Queue.{◌∈◌}
use tmpi.Intra.Types.{
  Mode, Stat, has_bit, same_stat, intra_mask, recv_mask, inter_mask, SHandle, Node, Env, success,
  err_intern, err_nrdy, standard, ready, sync, buffered, pend_strt, pend_data, pend_nrdy, matched,
  free,
}
use tmpi.Intra.Channel.{
  channel_of, free_sh, is_persistent_send, is_persistent_recv, is_success, finish_sh, finish_rh,
  rh_status, when_asked, reply,
}
use tmpi.Intra.Start.{not_startable_rh, is_local_send, match_found, start_rh}
use tmpi.Intra.Complete.{
  complete_sh, has_sys, wait_pending, intra_wait_sh, wake_wait_rh, state_of, reply_of, stuck,
}
use tmpi.Intra.Cancel.{
  finished, intra_cancel_sh, cancel_sh, cancel_rh, tested, test_unfinished, test_pending, test_sh,
}
use tmpi.Intra.Delivery.Buffered.{finish_sh-frame}
use tmpi.Intra.Delivery.Rendezvous.{wake_wait_rh-matched}

-- a mode whose test waits for the receiver: with no system buffer, all but BUFFERED
abbrev pub tests_sync : Mode → Bool → Bool
tests_sync sync room = true
tests_sync ready room = true
tests_sync buffered room = false
tests_sync standard room = not room

-- a send that is under way, and has to wait for its receiver
pub record IsUnderway (h : SHandle) : Type 0 where
  pub state : (same_stat h.stat pend_strt || same_stat h.stat pend_data) ≡ true
  pub unlocked : h.locked ≡ false
  pub waits : tests_sync h.send_mode (has_sys h) ≡ true

test_pending-unfinished :
    (w : Node) (s : ℕ) (asked : Bool) (m : Mode)
    → tests_sync m (has_sys (w.shs s)) ≡ true
    → test_pending w s asked m ≡ test_unfinished w s
unfolding test_pending
test_pending-unfinished w s asked sync e = refl
test_pending-unfinished w s asked ready e = refl
test_pending-unfinished w s asked buffered e = absurd (ground arith)
test_pending-unfinished w s asked standard e = ground arith

under_way :
    (st : Stat)
    → (same_stat st pend_strt || same_stat st pend_data) ≡ true
    → (has_bit st inter_mask ≡ true)
      × (same_stat st matched ≡ false)
      × (same_stat st pend_nrdy ≡ false)
under_way st e = ground arith

test_sh-unfinished :
    (env : Env) (w : Node) (s : ℕ) (asked : Bool)
    → (s == 0) ≡ false
    → IsUnderway (w.shs s)
    → test_sh env w s asked ≡ test_unfinished w s
unfolding test_sh
test_sh-unfinished env w s asked there v =
    let st = under_way (w.shs s).stat v.state in
    rw (there, st.0)
      (rw v.unlocked
        (rw (st.1, st.2) (test_pending-unfinished w s asked (w.shs s).send_mode v.waits)))

-- A test of a send that is under way and has to wait for its receiver says that it is not done,
-- and keeps the handle's lock. Then the next test of the handle does not return, nor, for a local
-- send, the receiver that finds it.
pub test_sh_keeps_lock :
    (env : Env) (got_msg : Bool) (w : Node) (s p ch : ℕ) (asked : Bool)
    → (s == 0) ≡ false
    → IsUnderway (w.shs s)
    → is_local_send (w.shs s).handle_type ≡ true
    → let t = test_sh env w s asked in
      let w' = state_of w t.outcome in
      (t.flag ≡ some false)
      × (test_sh env w' s asked ≡ tested none stuck)
      × (match_found env got_msg w' ch p s ≡ none)
unfolding test_unfinished test_sh match_found
test_sh_keeps_lock env got_msg w s p ch asked there v near =
    let st = under_way (w.shs s).stat v.state in
    rw (test_sh-unfinished env w s asked there v)
      (refl, rw (there, ==_refl s) (rw st.0 refl), rw (==_refl s) (rw near refl))

-- A receive handle in the state FREE is never started.
start_rh-free :
    (env : Env) (got_msg : Bool) (w : Node) (p : ℕ)
    → (p == 0) ≡ false
    → (w.rhs p).stat ≡ free
    → start_rh env got_msg w p ≡ some (w, err_intern)
unfolding start_rh not_startable_rh
start_rh-free env got_msg w p there e = elim (Bool-cases (is_success (w.rhs p).errval)) [
  | inl fine ↦ rw (there, fine) (rw e refl)
  | inr failed ↦ rw (there, failed) refl
]

-- The wait for a matched persistent receive returns success and leaves its handle with the caller,
-- but starting that handle again fails with MPI_ERR_INTERN, and changes nothing.
pub start_rh-wake_wait_rh :
    (env : Env) (got_msg : Bool) (w : Node) (p : ℕ) (asked : Bool)
    → (p == 0) ≡ false
    → (w.rhs p).stat ≡ matched
    → is_persistent_recv (w.rhs p).handle_type ≡ true
    → let o = wake_wait_rh env w p asked in
      let w' = state_of w o in
      (reply_of o ≡ some (reply success (when_asked asked (rh_status (w.rhs p))) p))
      × (start_rh env got_msg w' p ≡ some (w', err_intern))
start_rh-wake_wait_rh env got_msg w p asked there done kept =
    let woken = wake_wait_rh-matched env w p asked done in
    (
      woken.0
          ∙ ap
              (λ t.
                some (reply success (when_asked asked (rh_status (w.rhs p))) (if t then p else 0)))
              kept,
      start_rh-free env got_msg (state_of w (wake_wait_rh env w p asked)) p there woken.1,
    )

-- Cancelling a receive that may be cancelled never takes it to the state CANCEL: whatever its
-- state, also PEND_DATA, it is finished as if it were complete.
pub cancel_rh-finishes :
    (env : Env) (w : Node) (p : ℕ)
    → (p == 0) ≡ false
    → has_bit (w.rhs p).stat recv_mask ≡ true
    → cancel_rh env w p ≡ finished (finish_rh env w p)
unfolding cancel_rh
cancel_rh-finishes env w p there e = rw (there, e) (rw (covered (w.rhs p).stat e) refl)
  where
    covered : (st : Stat) → has_bit st recv_mask ≡ true → has_bit st intra_mask ≡ true
    covered st h = ground arith

finish_sh-frees :
    (env : Env) (w : Node) (s c : ℕ)
    → is_persistent_send (w.shs s).handle_type ≡ false
    → channel_of env w.channel_size (w.shs s).src ≡ some c
    → s ∈ (finish_sh env w s).0.sq_allocate c
unfolding finish_sh free_sh
finish_sh-frees env w s c once there = rw (once, there) (rw (==_refl c) (rw (==_refl s) refl))

-- Waiting for a ready-mode send that stands in a queue, is not persistent and whose lock is free,
-- finishes it there: the handle is free and in the cache of its sender's channel, and still in
-- that queue.
pub wait_ready_dangles :
    (env : Env) (w : Node) (s ch c : ℕ) (asked : Bool)
    → (w.shs s).send_mode ≡ ready
    → (w.shs s).stat ≡ pend_strt
    → (w.shs s).locked ≡ false
    → is_persistent_send (w.shs s).handle_type ≡ false
    → channel_of env w.channel_size (w.shs s).src ≡ some c
    → s ∈ w.sq ch
    → let w' = state_of w (intra_wait_sh env w s asked) in
      ((w'.shs s).stat ≡ free) × (s ∈ w'.sq_allocate c) × (s ∈ w'.sq ch)
unfolding intra_wait_sh wait_pending complete_sh
wait_ready_dangles env w s ch c asked mode queued unlocked once there m =
    let f = finish_sh-frame env w s in
    let done : intra_wait_sh env w s asked ≡ complete_sh env w s asked err_nrdy err_nrdy =
      rw queued (rw unlocked (rw (mode, wait_pending) refl)) in
    rw done (f.0, finish_sh-frees env w s c once there, subst (λ q. s ∈ q ch) (sym f.3) m)

-- Cancelling a send to this node that stands in a queue, is not persistent and whose lock is free,
-- finishes it there: the handle is free and in the cache of its sender's channel, and still in
-- that queue.
pub cancel_sh_dangles :
    (env : Env) (garbage : ℕ) (w : Node) (s ch c : ℕ)
    → (s == 0) ≡ false
    → (w.shs s).is_remote ≡ false
    → (w.shs s).stat ≡ pend_strt
    → (w.shs s).locked ≡ false
    → is_persistent_send (w.shs s).handle_type ≡ false
    → channel_of env w.channel_size (w.shs s).src ≡ some c
    → s ∈ w.sq ch
    → let w' = state_of w (cancel_sh env garbage w s) in
      ((w'.shs s).stat ≡ free) × (s ∈ w'.sq_allocate c) × (s ∈ w'.sq ch)
unfolding cancel_sh intra_cancel_sh finished
cancel_sh_dangles env garbage w s ch c here near queued unlocked once there m =
    let f = finish_sh-frame env w s in
    let done : cancel_sh env garbage w s ≡ finished (finish_sh env w s) =
      rw (here, near) (rw queued (rw unlocked refl)) in
    rw done (f.0, finish_sh-frees env w s c once there, subst (λ q. s ∈ q ch) (sym f.3) m)
