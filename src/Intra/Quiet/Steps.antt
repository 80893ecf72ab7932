-- ===== src/Intra/Quiet/Steps.antt =====
-- The changes from which the operations of intra_sr.c are put together, and the invariant of the
-- matching.
use tmpi.Base.{
  ℕ, ◌≡◌, refl, ◌∙◌, subst, inl, inr, Bool, true, false, some, List, arith, ◌==◌, if◌then◌else◌,
  ==_iff, Bool-cases,
}
use tmpi.Queue.{has, ◌∈◌, ◌∉◌, enqueue, remove}
use tmpi.Queue.Members.{
  has-enqueue, Distinct-enqueue, mem_of_remove, not-mem-remove, Distinct-remove, remove_gone,
}
use tmpi.Intra.Types.{has_bit, pend_mask, SHandle, RHandle, Env, update}
use tmpi.Intra.Channel.{channel_of}
use tmpi.Intra.Quiet.{fits_parts, fits, IsQuiet}

-- in no queue
abbrev pub Idle : ℕ → (ℕ → List ℕ) → Type 0
Idle p queues = (ch : ℕ) → p ∉ queues ch

module _ {env : Env} {size : ℕ} {sq rq : ℕ → List ℕ} {shs : ℕ → SHandle} {rhs : ℕ → RHandle}
    (q : IsQuiet env size sq rq shs rhs) where
  pub Idle-of_stat_sh : (p : ℕ) → has_bit (shs p).stat pend_mask ≡ false → Idle p sq
  Idle-of_stat_sh p e ch = elim (Bool-cases (has p (sq ch))) [
    | inl m ↦ cc (q.pending_s ch p m)
    | inr out ↦ out
  ]

  pub Idle-of_stat_rh : (p : ℕ) → has_bit (rhs p).stat pend_mask ≡ false → Idle p rq
  Idle-of_stat_rh p e ch = elim (Bool-cases (has p (rq ch))) [
    | inl m ↦ cc (q.pending_r ch p m)
    | inr out ↦ out
  ]

  -- A handle that is in no queue may change in any way.
  pub set-Idle_sh : (p : ℕ) (h : SHandle) → Idle p sq → IsQuiet env size sq rq (update shs p h) rhs
  set-Idle_sh p h out = record {
    pending_s = λ ch s m. ground (arith, q.pending_s ch s, out ch);
    pending_r = q.pending_r;
    distinct_s = q.distinct_s;
    distinct_r = q.distinct_r;
    at_dest_s = λ ch s m. ground (arith, q.at_dest_s ch s, out ch);
    at_dest_r = q.at_dest_r;
    no_pair = λ ch s r m n. ground (arith, q.no_pair ch s r, out ch);
  }

  pub set-Idle_rh : (p : ℕ) (k : RHandle) → Idle p rq → IsQuiet env size sq rq shs (update rhs p k)
  set-Idle_rh p k out = record {
    pending_s = q.pending_s;
    pending_r = λ ch r m. ground (arith, q.pending_r ch r, out ch);
    distinct_s = q.distinct_s;
    distinct_r = q.distinct_r;
    at_dest_s = q.at_dest_s;
    at_dest_r = λ ch r m. ground (arith, q.at_dest_r ch r, out ch);
    no_pair = λ ch s r m n. ground (arith, q.no_pair ch s r, out ch);
  }

  -- A handle that is taken out of its queue is in no queue.
  pub Idle-unlinked_sh : (c p : ℕ) → p ∈ sq c → Idle p (update sq c (remove p (sq c)))
  Idle-unlinked_sh c p m ch = elim (Bool-cases (has p (sq ch))) [
    | inl n ↦
        ground (arith, remove_gone p (sq c), q.distinct_s c, q.at_dest_s c p m, q.at_dest_s ch p n)
    | inr out ↦ ground (arith, not-mem-remove p p (sq c))
  ]

  pub Idle-unlinked_rh : (c p : ℕ) → p ∈ rq c → Idle p (update rq c (remove p (rq c)))
  Idle-unlinked_rh c p m ch = elim (Bool-cases (has p (rq ch))) [
    | inl n ↦
        ground (arith, remove_gone p (rq c), q.distinct_r c, q.at_dest_r c p m, q.at_dest_r ch p n)
    | inr out ↦ ground (arith, not-mem-remove p p (rq c))
  ]

  mem_of_unlinked_sh : (c p ch s : ℕ) → s ∈ update sq c (remove p (sq c)) ch → s ∈ sq ch
  mem_of_unlinked_sh c p ch s m = ground (arith, mem_of_remove s p (sq ch))

  mem_of_unlinked_rh : (c p ch s : ℕ) → s ∈ update rq c (remove p (rq c)) ch → s ∈ rq ch
  mem_of_unlinked_rh c p ch s m = ground (arith, mem_of_remove s p (rq ch))

  pub unlink_sh : (c p : ℕ) → IsQuiet env size (update sq c (remove p (sq c))) rq shs rhs
  unlink_sh c p = record {
    pending_s = λ ch s m. q.pending_s ch s (mem_of_unlinked_sh c p ch s m);
    pending_r = q.pending_r;
    distinct_s = λ ch. ground (arith, q.distinct_s ch, Distinct-remove p (sq ch));
    distinct_r = q.distinct_r;
    at_dest_s = λ ch s m. q.at_dest_s ch s (mem_of_unlinked_sh c p ch s m);
    at_dest_r = q.at_dest_r;
    no_pair = λ ch s r m n. q.no_pair ch s r (mem_of_unlinked_sh c p ch s m) n;
  }

  pub unlink_rh : (c p : ℕ) → IsQuiet env size sq (update rq c (remove p (rq c))) shs rhs
  unlink_rh c p = record {
    pending_s = q.pending_s;
    pending_r = λ ch s m. q.pending_r ch s (mem_of_unlinked_rh c p ch s m);
    distinct_s = q.distinct_s;
    distinct_r = λ ch. ground (arith, q.distinct_r ch, Distinct-remove p (rq ch));
    at_dest_s = q.at_dest_s;
    at_dest_r = λ ch s m. q.at_dest_r ch s (mem_of_unlinked_rh c p ch s m);
    no_pair = λ ch s r m n. q.no_pair ch s r m (mem_of_unlinked_rh c p ch r n);
  }

  -- A pending handle may join the queue of its destination if nothing in the other queue fits it.
  pub join_sh :
      (c p : ℕ)
      → Idle p sq
      → has_bit (shs p).stat pend_mask ≡ true
      → channel_of env size (shs p).dest ≡ some c
      → ((r : ℕ) → r ∈ rq c → fits (shs p) (rhs r) ≡ false)
      → IsQuiet env size (update sq c (enqueue (sq c) p)) rq shs rhs
  join_sh c p out pend dest alone = record {
    pending_s = λ ch s m. ground (arith, q.pending_s ch s, has-enqueue s p (sq c));
    pending_r = q.pending_r;
    distinct_s = λ ch. ground (arith, q.distinct_s ch, Distinct-enqueue p (sq ch), out ch);
    distinct_r = q.distinct_r;
    at_dest_s = λ ch s m. ground (arith, q.at_dest_s ch s, has-enqueue s p (sq c));
    at_dest_r = q.at_dest_r;
    no_pair = λ ch s r m n. ground (arith, q.no_pair ch s r, has-enqueue s p (sq c), alone r);
  }

  pub join_rh :
      (c p : ℕ)
      → Idle p rq
      → has_bit (rhs p).stat pend_mask ≡ true
      → channel_of env size (rhs p).dest ≡ some c
      → ((s : ℕ) → s ∈ sq c → fits (shs s) (rhs p) ≡ false)
      → IsQuiet env size sq (update rq c (enqueue (rq c) p)) shs rhs
  join_rh c p out pend dest alone = record {
    pending_s = q.pending_s;
    pending_r = λ ch r m. ground (arith, q.pending_r ch r, has-enqueue r p (rq c));
    distinct_s = q.distinct_s;
    distinct_r = λ ch. ground (arith, q.distinct_r ch, Distinct-enqueue p (rq ch), out ch);
    at_dest_s = q.at_dest_s;
    at_dest_r = λ ch r m. ground (arith, q.at_dest_r ch r, has-enqueue r p (rq c));
    no_pair = λ ch s r m n. ground (arith, q.no_pair ch s r, has-enqueue r p (rq c), alone s);
  }

  -- A queued handle may change in what the matching does not read, while it stays pending.
  pub set_still_sh :
      (p : ℕ) (h : SHandle)
      → has_bit h.stat pend_mask ≡ true
      → h.context ≡ (shs p).context
      → h.tag ≡ (shs p).tag
      → h.src ≡ (shs p).src
      → h.dest ≡ (shs p).dest
      → IsQuiet env size sq rq (update shs p h) rhs
  set_still_sh p h pend c t e d = record {
    pending_s = λ ch s m. ground (arith, q.pending_s ch s);
    pending_r = q.pending_r;
    distinct_s = q.distinct_s;
    distinct_r = q.distinct_r;
    at_dest_s = λ ch s m. ground (arith, q.at_dest_s ch s);
    at_dest_r = q.at_dest_r;
    no_pair = λ ch s r m n. alone (s == p) s r ((==_iff s p).0) (q.no_pair ch s r m n);
  }
    where
      alone :
          (b : Bool) (s r : ℕ)
          → (b ≡ true → s ≡ p)
          → fits (shs s) (rhs r) ≡ false
          → fits (if b then h else shs s) (rhs r) ≡ false
      alone true s r hit f =
          (λ i. fits_parts (c i) (rhs r).context (t i) (rhs r).tag (e i) (rhs r).src)
          ∙ subst (λ x. fits (shs x) (rhs r) ≡ false) (hit refl) f
      alone false s r hit f = f

  pub set_still_rh :
      (p : ℕ) (k : RHandle)
      → has_bit k.stat pend_mask ≡ true
      → k.context ≡ (rhs p).context
      → k.tag ≡ (rhs p).tag
      → k.src ≡ (rhs p).src
      → k.dest ≡ (rhs p).dest
      → IsQuiet env size sq rq shs (update rhs p k)
  set_still_rh p k pend c t e d = record {
    pending_s = q.pending_s;
    pending_r = λ ch r m. ground (arith, q.pending_r ch r);
    distinct_s = q.distinct_s;
    distinct_r = q.distinct_r;
    at_dest_s = q.at_dest_s;
    at_dest_r = λ ch r m. ground (arith, q.at_dest_r ch r);
    no_pair = λ ch s r m n. alone (r == p) s r ((==_iff r p).0) (q.no_pair ch s r m n);
  }
    where
      alone :
          (b : Bool) (s r : ℕ)
          → (b ≡ true → r ≡ p)
          → fits (shs s) (rhs r) ≡ false
          → fits (shs s) (if b then k else rhs r) ≡ false
      alone true s r hit f =
          (λ i. fits_parts (shs s).context (c i) (shs s).tag (t i) (shs s).src (e i))
          ∙ subst (λ x. fits (shs s) (rhs x) ≡ false) (hit refl) f
      alone false s r hit f = f
