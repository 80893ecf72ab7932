-- ===== src/Inter/Quiet.antt =====
-- The handlers of inter_sr.c and the invariant of the matching.
pub mod Data
pub mod Messages
pub mod Waits
use tmpi.Base.{ℕ, ◌≡◌, refl, inl, inr, true, false, some, List, ◌==◌, Bool-cases, Option-cases}
use tmpi.Queue.{◌∈◌}
use tmpi.Intra.Types.{
  has_bit, pend_mask, SHandle, Msg, Node, Env, update_self, announce, dat_send, msg_recv, dat_recv,
  msgdat_recv, not_ready,
}
use tmpi.Intra.Channel.{channel_of, rq_probe, alloc_elem}
use tmpi.Intra.Complete.{is_ready}
use tmpi.Inter.Wire.{Handled, handled, waits, faults}
use tmpi.Inter.Receives.{rms_found, enq_rmsh, rms_queued, rms_at}
use tmpi.Intra.Quiet.{fits, Quiet}
use tmpi.Intra.Quiet.Steps.{Idle, set-Idle_sh, set-Idle_rh, Idle-unlinked_rh, unlink_rh, join_sh}
use tmpi.Intra.Quiet.Sends.{rq_probe-none, rq_probe-mem}

-- what holds of the state that a handler leaves
abbrev pub Keeps : (Node → Type 0) → Handled → Type 0
Keeps P (handled good w) = P w
Keeps P waits = Unit {0}
Keeps P faults = Unit {0}

-- The handles that a message names are in no queue.
abbrev pub Named : Node → Msg → Type 0
Named w (announce from to h xs) = Unit {0}
Named w (dat_send from to sh r n xs) = Idle r w.rq
Named w (msg_recv from to sh r n) = Idle sh w.sq
Named w (dat_recv from to sh n e) = Idle sh w.sq
Named w (msgdat_recv from to sh n e) = Idle sh w.sq
Named w (not_ready from to sh n e) = Idle sh w.sq

-- What Q_newElem returns is in no queue.
abbrev pub Fresh : Node → List ℕ → Type 0
Fresh w chunk = (ch : ℕ) → Idle (alloc_elem (w.sq_allocate ch) chunk).0 w.sq

pub enq_rmsh-Quiet :
    (env : Env) (w : Node) (ch p : ℕ) (cache : List ℕ) (h : SHandle)
    → Quiet env w
    → Idle p w.sq
    → has_bit h.stat pend_mask ≡ true
    → channel_of env w.channel_size h.dest ≡ some ch
    → ((r : ℕ) → r ∈ w.rq ch → fits h (w.rhs r) ≡ false)
    → Quiet env (enq_rmsh w ch p cache h)
unfolding enq_rmsh
enq_rmsh-Quiet env w ch p cache h q out pend there alone =
    let same = update_self w.shs p h in
    join_sh (set-Idle_sh q p h out) ch p out (rw same pend) (rw same there)
      (λ r m. rw same (alone r m))

module _ (env : Env) (w : Node) (ch : ℕ) (h : SHandle) (q : Quiet env w) where
  rms_found-Quiet : (r : ℕ) → r ∈ w.rq ch → Quiet env (rms_found w ch r h)
  unfolding rms_found
  rms_found-Quiet r m = set-Idle_rh (unlink_rh q ch r) r _ (Idle-unlinked_rh q ch r m)

  rms_queued-Quiet :
      (chunk : List ℕ)
      → Fresh w chunk
      → channel_of env w.channel_size h.dest ≡ some ch
      → ((r : ℕ) → r ∈ w.rq ch → fits h (w.rhs r) ≡ false)
      → Keeps (Quiet env) (rms_queued w chunk ch h)
  unfolding rms_queued
  rms_queued-Quiet chunk fresh there alone = elim (Bool-cases (is_ready h.send_mode)) [
    | inl early ↦ rw early q
    | inr waiting ↦ elim (Bool-cases ((alloc_elem (w.sq_allocate ch) chunk).0 == 0)) [
      | inl full ↦ rw (waiting, full) tt
      | inr room ↦ rw (waiting, room) (enq_rmsh-Quiet env w ch _ _ _ q (fresh ch) refl there alone)
    ]
  ]

  pub rms_at-Quiet :
      (chunk : List ℕ)
      → Fresh w chunk
      → channel_of env w.channel_size h.dest ≡ some ch
      → Keeps (Quiet env) (rms_at w chunk ch h)
  unfolding rms_at
  rms_at-Quiet chunk fresh there = elim (Option-cases (rq_probe w ch h.context h.tag h.src)) [
    | inl e ↦
        rw (rms_at, e)
          (rms_queued-Quiet chunk fresh there (λ r m. rq_probe-none env w ch r h q e m))
    | inr (r, e) ↦ rw (rms_at, e) (rms_found-Quiet r (rq_probe-mem w ch r h e))
  ]
