-- ===== src/Intra/Delivery/Sync.antt =====
-- Synchronous sends.
use tmpi.Base.{ℕ, ◌≡◌, refl, Bool, true, false, arith, ==_refl}
use tmpi.Intra.Types.{Stat, has_bit, same_stat, pend_mask, intra_mask, Node, Env, sync, matched}
use tmpi.Intra.Complete.{sleep_sh, wait_pending, intra_wait_sh, wake_wait_sh, state_of, sleeps}

waitable :
    (st : Stat)
    → has_bit st pend_mask ≡ true
    → (has_bit st intra_mask ≡ true) × (same_stat st matched ≡ false)
waitable st e = ground arith

wait-sleep_sh :
    (env : Env) (w : Node) (s : ℕ) (asked : Bool)
    → (w.shs s).send_mode ≡ sync
    → has_bit (w.shs s).stat pend_mask ≡ true
    → (w.shs s).locked ≡ false
    → intra_wait_sh env w s asked ≡ sleep_sh w s
unfolding intra_wait_sh wait_pending
wait-sleep_sh env w s asked mode pend unlocked =
    let st = waitable (w.shs s).stat pend in
    rw st.0 (rw unlocked (rw st.1 (rw (mode, wait_pending) refl)))

-- Waiting for a synchronous send that is pending, and whose lock is free, sleeps and leaves the
-- send queues as they are; woken while the send is still pending, it sleeps on.
pub sync_send_waits :
    (env : Env) (w : Node) (s : ℕ) (asked : Bool)
    → (w.shs s).send_mode ≡ sync
    → has_bit (w.shs s).stat pend_mask ≡ true
    → (w.shs s).locked ≡ false
    → let w₁ = state_of w (intra_wait_sh env w s asked) in
      (intra_wait_sh env w s asked ≡ sleeps w₁)
      × (w₁.sq ≡ w.sq)
      × (wake_wait_sh env w₁ s asked ≡ sleeps w₁)
unfolding sleep_sh wake_wait_sh
sync_send_waits env w s asked mode pend unlocked =
    rw (wait-sleep_sh env w s asked mode pend unlocked) (refl, refl, rw (==_refl s) refl)
