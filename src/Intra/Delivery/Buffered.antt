-- ===== src/Intra/Delivery/Buffered.antt =====
-- Buffered sends, whose sender leaves before the data is taken.
use tmpi.Base.{
  ℕ, min, ◌≡◌, refl, ap, ◌∙◌, subst, inl, inr, Bool, true, false, some, arith, ◌==◌, if◌then◌else◌,
  Bool-cases, Option-cases, ==_refl,
}
use tmpi.Intra.Types.{
  Stat, SHandle, RHandle, Node, Env, update, success, buffered, pend_strt, pend_rels, matched, free,
}
use tmpi.Intra.Channel.{
  channel_of, free_sh, is_persistent_send, finish_sh, memcpy, bytes, sh_status, when_asked, reply,
}
use tmpi.Intra.Start.{settle_sh, exchange, match_local}
use tmpi.Intra.Complete.{
  buffer_data, leave_buffered, has_sys, wait_pending, intra_wait_sh, state_of, reply_of, returns,
}
use tmpi.Intra.Delivery.Bytes.{bytes-prefix, bytes-memcpy}
use tmpi.Intra.Delivery.Order.{Delivered, copied_payload, copied_frame}

-- a send that waits in a queue with a system buffer of its own, its data still with the user
pub record IsBuffering (h : SHandle) : Type 0 where
  pub mode : h.send_mode ≡ buffered
  pub queued : h.stat ≡ pend_strt
  pub unlocked : h.locked ≡ false
  pub at_user : (h.curdata == h.user_buf) ≡ true
  pub room : has_sys h ≡ true

-- the handle as the wait leaves it
abbrev pub left_buffered : SHandle → SHandle
left_buffered h = record h { curdata = h.sys_buf; stat = pend_rels; locked = false }

wait-leave_buffered :
    (env : Env) (w : Node) (s : ℕ) (asked : Bool)
    → IsBuffering (w.shs s)
    → intra_wait_sh env w s asked ≡ leave_buffered w s asked true
unfolding intra_wait_sh wait_pending
wait-leave_buffered env w s asked v =
    rw v.queued (rw v.unlocked (rw (v.mode, wait_pending) (rw v.room refl)))

-- the state after the copy and the change of the handle
abbrev pub buffered_state : Node → ℕ → Node
buffered_state w s =
    let h = w.shs s in
    record w {
      shs =
          update (update w.shs s (record h { curdata = h.sys_buf })) s
            (record (update w.shs s (record h { curdata = h.sys_buf }) s) {
              stat = pend_rels;
              locked = false;
            });
      mem = memcpy w.mem h.sys_buf h.user_buf h.buflen;
    }

leave_buffered-at_user :
    (w : Node) (s : ℕ) (asked : Bool)
    → IsBuffering (w.shs s)
    → let h = w.shs s in
      leave_buffered w s asked true
      ≡ returns (buffered_state w s) (
          reply success
            (when_asked asked (sh_status h h.errval))
            (if is_persistent_send h.handle_type then s else 0))
unfolding leave_buffered buffer_data
leave_buffered-at_user w s asked v = rw v.at_user refl

-- Waiting for a queued buffered send whose data is in the user's buffer, and that has a system
-- buffer, returns success at once, with its status if it is asked for. The handle is released
-- (PEND_RELS), the queues and the receives are as they were, and the system buffer holds the data.
pub wait_buffered :
    (env : Env) (w : Node) (s : ℕ) (asked : Bool)
    → IsBuffering (w.shs s)
    → let h = w.shs s in
      let w' = state_of w (intra_wait_sh env w s asked) in
      (reply_of (intra_wait_sh env w s asked)
        ≡ some (
            reply success
              (when_asked asked (sh_status h h.errval))
              (if is_persistent_send h.handle_type then s else 0)))
      × (w'.shs s ≡ left_buffered h)
      × (w'.sq ≡ w.sq)
      × (w'.rq ≡ w.rq)
      × (w'.rhs ≡ w.rhs)
      × (bytes w'.mem h.sys_buf h.buflen ≡ bytes w.mem h.user_buf h.buflen)
wait_buffered env w s asked v =
    let h = w.shs s in
    rw (wait-leave_buffered env w s asked v, leave_buffered-at_user w s asked v)
      (
        refl,
        rw (==_refl s) refl,
        refl,
        refl,
        refl,
        bytes-memcpy w.mem h.sys_buf h.user_buf h.buflen,
      )

-- Finishing a send changes nothing but its handle and the caches of free memory.
pub finish_sh-frame :
    (env : Env) (w : Node) (s : ℕ)
    → let w' = (finish_sh env w s).0 in
      ((w'.shs s).stat ≡ free)
      × (w'.mem ≡ w.mem)
      × (w'.rhs ≡ w.rhs)
      × (w'.sq ≡ w.sq)
      × (w'.rq ≡ w.rq)
unfolding finish_sh free_sh
finish_sh-frame env w s = elim (Bool-cases (is_persistent_send (w.shs s).handle_type)) [
  | inl kept ↦ rw kept (rw (==_refl s) refl, refl, refl, refl, refl)
  | inr gone ↦ elim (Option-cases (channel_of env w.channel_size (w.shs s).src)) [
    | inl nowhere ↦ rw (gone, nowhere) (rw (==_refl s) refl, refl, refl, refl, refl)
    | inr (ch, there) ↦ rw (gone, there) (rw (==_refl s) refl, refl, refl, refl, refl)
  ]
]

-- The exchange gives the receive the envelope and the data.
pub exchange-Delivered :
    (w : Node) (ch p s : ℕ)
    → Delivered w.mem (exchange w ch p s).mem (w.shs s) (w.rhs p) ((exchange w ch p s).rhs p)
unfolding exchange
exchange-Delivered w ch p s =
    let h = w.shs s in
    let k = w.rhs p in
    let self = ==_refl p in
    record {
      source = rw self refl;
      label = rw self refl;
      len = rw self refl;
      done = rw self refl;
      payload = copied_payload w.mem k.data_buf h.curdata (min h.buflen k.buflen);
      frame = copied_frame w.mem k.data_buf h.curdata (min h.buflen k.buflen);
    }

settle_sh-rels :
    (env : Env) (w : Node) (s : ℕ) {st : Stat}
    → st ≡ pend_rels
    → settle_sh env w s st ≡ (finish_sh env w s).0
unfolding settle_sh
settle_sh-rels env w s e = rw e refl

-- A receive that finds a released send takes its data and finishes the handle.
pub match_local-rels :
    (env : Env) (w : Node) (ch p s : ℕ)
    → (w.shs s).stat ≡ pend_rels
    → let w' = match_local env w ch p s in
      ((w'.shs s).stat ≡ free) × Delivered w.mem w'.mem (w.shs s) (w.rhs p) (w'.rhs p)
unfolding match_local
match_local-rels env w ch p s e =
    let x = exchange w ch p s in
    let f = finish_sh-frame env x s in
    rw (settle_sh-rels env x s e) (f.0, rw (f.1, f.2) (exchange-Delivered w ch p s))

-- The sender waits for a queued buffered send that has a system buffer, and goes on; then memory
-- may change anywhere but in that system buffer. A receive that finds the handle gets the bytes
-- that the user's buffer held at the time of the wait, cut to the shorter length, and is matched,
-- and the send's handle is free.
pub buffered_send_keeps_data :
    (env : Env) (w : Node) (s p ch : ℕ) (asked : Bool) (mem' : ℕ → ℕ)
    → IsBuffering (w.shs s)
    → bytes mem' (w.shs s).sys_buf (w.shs s).buflen
      ≡ bytes (state_of w (intra_wait_sh env w s asked)).mem (w.shs s).sys_buf (w.shs s).buflen
    → let h = w.shs s in
      let n = min h.buflen (w.rhs p).buflen in
      let w₁ = record (state_of w (intra_wait_sh env w s asked)) { mem = mem' } in
      let w₂ = match_local env w₁ ch p s in
      ((w₂.shs s).stat ≡ free)
      × ((w₂.rhs p).stat ≡ matched)
      × ((w₂.rhs p).buflen ≡ n)
      × (bytes w₂.mem (w.rhs p).data_buf n ≡ bytes w.mem h.user_buf n)
buffered_send_keeps_data env w s p ch asked mem' v same =
    let h = w.shs s in
    let left = wait_buffered env w s asked v in
    let w₁ : Node = record (state_of w (intra_wait_sh env w s asked)) { mem = mem' } in
    let w₂ = match_local env w₁ ch p s in
    let taken = match_local-rels env w₁ ch p s (ap (λ (x : SHandle). x.stat) left.1) in
    let got : Delivered mem' w₂.mem (left_buffered h) (w.rhs p) (w₂.rhs p) =
      subst (λ k. Delivered mem' w₂.mem (left_buffered h) k (w₂.rhs p))
        (ap (λ (f : ℕ → RHandle). f p) left.4)
        (subst (λ x. Delivered mem' w₂.mem x (w₁.rhs p) (w₂.rhs p)) left.1 taken.1) in
    (
      taken.0,
      got.done,
      got.len,
      got.payload
          ∙ bytes-prefix mem' w.mem h.sys_buf h.user_buf _ h.buflen (omega arith) (same ∙ left.5),
    )

pub finish_sh-handle :
    (env : Env) (w : Node) (p : ℕ)
    → (finish_sh env w p).1 ≡ (if is_persistent_send (w.shs p).handle_type then p else 0)
unfolding finish_sh
finish_sh-handle env w p = ground arith
