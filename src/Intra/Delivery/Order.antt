-- ===== src/Intra/Delivery/Order.antt =====
-- Which entry of a queue a match takes, and what it does to it.
use tmpi.Base.{
  ℕ, ◌+◌, ◌≤◌, ◌<◌, min, ◌≡◌, refl, ◌⊎◌, inl, inr, Bool, true, false, ◌||◌, some, List, ◌∷◌, ◌++◌,
  arith, ◌==◌, if◌then◌else◌, ==_iff, Bool-cases, ==_refl,
}
use tmpi.Queue.{has, ◌∈◌, ◌∉◌, remove}
use tmpi.Queue.Search.{probe_of_first, remove-append}
use tmpi.Intra.Types.{
  Stat, has_bit, same_stat, pend_mask, SHandle, RHandle, Node, Env, update_self, success, pend_strt,
  pend_wait, matched,
}
use tmpi.Intra.Channel.{sq_probe, rq_probe, memcpy, bytes}
use tmpi.Intra.Start.{
  match_send, send_at, settle_sh, exchange, match_local, is_local_send, match_found, recv_at,
}
use tmpi.Intra.Quiet.{fits, sq_cmp-fits, rq_cmp-fits}
use tmpi.Intra.Delivery.Bytes.{bytes-eq, bytes-memcpy, memcpy_outside}

-- The receive `k`, as it is after the match in `k'`, has the envelope and the data of the send `h`,
-- cut to the shorter of the two lengths, and no other byte has changed.
pub record Delivered (mem mem' : ℕ → ℕ) (h : SHandle) (k k' : RHandle) : Type 0 where
  pub source : k'.src ≡ h.src
  pub label : k'.tag ≡ h.tag
  pub len : k'.buflen ≡ min h.buflen k.buflen
  pub done : k'.stat ≡ matched
  pub payload :
      bytes mem' k.data_buf (min h.buflen k.buflen) ≡ bytes mem h.curdata (min h.buflen k.buflen)
  pub frame : (a : ℕ) → (a < k.data_buf) ⊎ (k.data_buf + min h.buflen k.buflen ≤ a) → mem' a ≡ mem a

-- The copy of a match, which leaves out an empty memcpy.
abbrev pub copied : (ℕ → ℕ) → (dst src n : ℕ) → ℕ → ℕ
copied mem dst src n = if n == 0 then mem else memcpy mem dst src n

pub copied_payload :
    (mem : ℕ → ℕ) (dst src n : ℕ) → bytes (copied mem dst src n) dst n ≡ bytes mem src n
copied_payload mem dst src n = elim (Bool-cases (n == 0)) [
  | inl none_there ↦ rw none_there (empty n ((==_iff n 0).0 none_there))
  | inr some_there ↦ rw some_there (bytes-memcpy mem dst src n)
]
  where
    empty : (k : ℕ) → k ≡ 0 → bytes mem dst k ≡ bytes mem src k
    empty k e = bytes-eq mem mem dst src k (λ i h. absurd (omega arith))

pub copied_frame :
    (mem : ℕ → ℕ) (dst src n a : ℕ) → (a < dst) ⊎ (dst + n ≤ a) → copied mem dst src n a ≡ mem a
copied_frame mem dst src n a h = elim (Bool-cases (n == 0)) [
  | inl none_there ↦ rw none_there refl
  | inr some_there ↦ rw some_there (memcpy_outside mem dst src n a h)
]

abbrev pub waiting : Stat → Bool
waiting s = same_stat s pend_wait || same_stat s pend_strt

-- The search of a sender ends at the first receive that fits.
pub rq_probe-first :
    (w : Node) (ch r : ℕ) (h : SHandle) (xs ys : List ℕ)
    → w.rq ch ≡ xs ++ r ∷ ys
    → ((b : ℕ) → b ∈ xs → fits h (w.rhs b) ≡ false)
    → fits h (w.rhs r) ≡ true
    → has_bit (w.rhs r).stat pend_mask ≡ true
    → rq_probe w ch h.context h.tag h.src ≡ some r
unfolding rq_probe
rq_probe-first w ch r h xs ys e before fit pend = rw e (
    probe_of_first _ r xs ys (λ b m. rw (rq_cmp-fits h (w.rhs b), before b m) refl)
      (rw (rq_cmp-fits h (w.rhs r), fit, pend) refl))

-- The search of a receiver ends at the first send that fits.
pub sq_probe-first :
    (w : Node) (ch s : ℕ) (k : RHandle) (xs ys : List ℕ)
    → w.sq ch ≡ xs ++ s ∷ ys
    → ((b : ℕ) → b ∈ xs → fits (w.shs b) k ≡ false)
    → fits (w.shs s) k ≡ true
    → has_bit (w.shs s).stat pend_mask ≡ true
    → sq_probe w ch k.context k.tag k.src ≡ some s
unfolding sq_probe
sq_probe-first w ch s k xs ys e before fit pend = rw e (
    probe_of_first _ s xs ys (λ b m. rw (sq_cmp-fits (w.shs b) k, before b m) refl)
      (rw (sq_cmp-fits (w.shs s) k, fit, pend) refl))

pub pending_of_waiting : (s : Stat) → waiting s ≡ true → has_bit s pend_mask ≡ true
pending_of_waiting s e = ground arith

-- An entry that fits is not among those before it, none of which fits.
pub not-mem_of_fits :
    (test : ℕ → Bool) (r : ℕ) (xs : List ℕ)
    → ((b : ℕ) → b ∈ xs → test b ≡ false)
    → test r ≡ true
    → r ∉ xs
not-mem_of_fits test r xs before fit = elim (Bool-cases (has r xs)) [
  | inl m ↦ cc (before r m)
  | inr out ↦ out
]

-- The match of a sender delivers its data, if the receive is still waited for.
pub match_send-Delivered :
    (w : Node) (ch p r : ℕ)
    → waiting (w.rhs r).stat ≡ true
    → let w' = match_send w ch p r in Delivered w.mem w'.mem (w.shs p) (w.rhs r) (w'.rhs r)
unfolding match_send
match_send-Delivered w ch p r wait =
    let h = w.shs p in
    let k = w.rhs r in
    let self = update_self w.rhs r in
    record {
      source = rw self refl;
      label = rw self refl;
      len = rw self refl;
      done = rw self (rw wait refl);
      payload = copied_payload w.mem k.data_buf h.curdata (min h.buflen k.buflen);
      frame = copied_frame w.mem k.data_buf h.curdata (min h.buflen k.buflen);
    }

-- A send is delivered to the first queued receive that fits it, if that is still waited for,
-- whatever stands behind it: the receive gets the envelope and the data, and no other byte
-- changes. That receive leaves the queue, the others keep their order, and both handles are
-- matched.
pub send_at-first :
    (w : Node) (ch p r : ℕ) (xs ys : List ℕ)
    → w.rq ch ≡ xs ++ r ∷ ys
    → ((b : ℕ) → b ∈ xs → fits (w.shs p) (w.rhs b) ≡ false)
    → fits (w.shs p) (w.rhs r) ≡ true
    → waiting (w.rhs r).stat ≡ true
    → let w' = send_at w ch p in
      (w'.rq ch ≡ xs ++ ys)
      × (w'.sq ≡ w.sq)
      × ((w'.shs p).stat ≡ matched)
      × Delivered w.mem w'.mem (w.shs p) (w.rhs r) (w'.rhs r)
unfolding send_at match_send
send_at-first w ch p r xs ys e before fit wait =
    let h = w.shs p in
    let k = w.rhs r in
    let found = rq_probe-first w ch r h xs ys e before fit (pending_of_waiting k.stat wait) in
    rw (send_at, found)
      (
        rw (update_self w.rq ch (remove r (w.rq ch)), e)
            (remove-append r xs ys (not-mem_of_fits (λ b. fits h (w.rhs b)) r xs before fit)),
        refl,
        rw (update_self w.shs p) refl,
        match_send-Delivered w ch p r wait,
      )

-- A receive takes the first queued send that fits it, if that is a local one whose sender still
-- waits for it and whose lock is free: it gets the envelope and the data, and no other byte
-- changes. That send leaves the queue, the others keep their order, and both handles are matched.
pub recv_at-first :
    (env : Env) (got_msg : Bool) (w : Node) (ch p s : ℕ) (xs ys : List ℕ)
    → w.sq ch ≡ xs ++ s ∷ ys
    → ((b : ℕ) → b ∈ xs → fits (w.shs b) (w.rhs p) ≡ false)
    → fits (w.shs s) (w.rhs p) ≡ true
    → waiting (w.shs s).stat ≡ true
    → is_local_send (w.shs s).handle_type ≡ true
    → (w.shs s).locked ≡ false
    → (w' : Node) × (recv_at env got_msg w ch p ≡ some (w', success))
      × (w'.sq ch ≡ xs ++ ys)
      × (w'.rq ≡ w.rq)
      × ((w'.shs s).stat ≡ matched)
      × Delivered w.mem w'.mem (w.shs s) (w.rhs p) (w'.rhs p)
unfolding recv_at match_found match_local exchange settle_sh
recv_at-first env got_msg w ch p s xs ys e before fit wait near unlocked =
    let h = w.shs s in
    let k = w.rhs p in
    let found = sq_probe-first w ch s k xs ys e before fit (pending_of_waiting h.stat wait) in
    let self = update_self w.rhs p in
    (
      match_local env w ch p s,
      rw (recv_at, found) (rw (near, unlocked) refl),
      rw wait (
          rw (update_self w.sq ch (remove s (w.sq ch)), e)
            (remove-append s xs ys (not-mem_of_fits (λ b. fits (w.shs b) k) s xs before fit))),
      rw wait refl,
      rw wait (rw (==_refl s) refl),
      record {
        source = rw wait (rw self refl);
        label = rw wait (rw self refl);
        len = rw wait (rw self refl);
        done = rw wait (rw self refl);
        payload = rw wait (copied_payload w.mem k.data_buf h.curdata (min h.buflen k.buflen));
        frame = rw wait (copied_frame w.mem k.data_buf h.curdata (min h.buflen k.buflen));
      },
    )
