-- ===== src/Intra/Quiet.antt =====
-- The invariant of the matching in intra_sr.c: no send and receive that fit wait in the two queues
-- of one channel, every queued handle is pending, and each stands in one queue, once.
pub mod Steps
pub mod Sends
pub mod Receives
pub mod Waits
use tmpi.Base.{ℕ, ◌≡◌, Bool, true, false, ◌&&◌, ◌||◌, some, List, arith, ◌==◌, ℤ, eqb, eqb_comm}
use tmpi.Queue.{◌∈◌, Distinct}
use tmpi.Intra.Types.{has_bit, pend_mask, SHandle, RHandle, Node, Env}
use tmpi.Intra.Channel.{any_source, any_tag, channel_of, sq_cmp, rq_cmp}

abbrev pub fits_parts : (h_context k_context : ℕ) (h_tag k_tag h_src k_src : ℤ) → Bool
fits_parts h_context k_context h_tag k_tag h_src k_src =
    h_context == k_context
    && (eqb h_src k_src || eqb k_src any_source)
    && (eqb h_tag k_tag || eqb k_tag any_tag)

-- MPI's rule: same context, and source and tag agree or are wildcards of the receive
abbrev pub fits : SHandle → RHandle → Bool
fits h k = fits_parts h.context k.context h.tag k.tag h.src k.src

pub record IsQuiet (env : Env) (size : ℕ) (sq rq : ℕ → List ℕ) (shs : ℕ → SHandle)
    (rhs : ℕ → RHandle) : Type 0 where
  pub pending_s : (ch s : ℕ) → s ∈ sq ch → has_bit (shs s).stat pend_mask ≡ true
  pub pending_r : (ch r : ℕ) → r ∈ rq ch → has_bit (rhs r).stat pend_mask ≡ true
  pub distinct_s : (ch : ℕ) → Distinct (sq ch)
  pub distinct_r : (ch : ℕ) → Distinct (rq ch)
  pub at_dest_s : (ch s : ℕ) → s ∈ sq ch → channel_of env size (shs s).dest ≡ some ch
  pub at_dest_r : (ch r : ℕ) → r ∈ rq ch → channel_of env size (rhs r).dest ≡ some ch
  pub no_pair : (ch s r : ℕ) → s ∈ sq ch → r ∈ rq ch → fits (shs s) (rhs r) ≡ false

abbrev pub Quiet : Env → Node → Type 0
Quiet env w = IsQuiet env w.channel_size w.sq w.rq w.shs w.rhs

-- Either queue's test is the rule of matching, and wants a pending handle.
pub sq_cmp-fits :
    (h : SHandle) (k : RHandle)
    → (sq_cmp h k.context k.tag k.src == 0) ≡ (fits h k && has_bit h.stat pend_mask)
unfolding sq_cmp
sq_cmp-fits h k = ground arith

pub rq_cmp-fits :
    (h : SHandle) (k : RHandle)
    → (rq_cmp k h.context h.tag h.src == 0) ≡ (fits h k && has_bit k.stat pend_mask)
unfolding rq_cmp
rq_cmp-fits h k = ground (arith, eqb_comm k.src h.src, eqb_comm k.tag h.tag)
