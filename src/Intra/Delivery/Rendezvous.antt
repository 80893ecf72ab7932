-- ===== src/Intra/Delivery/Rendezvous.antt =====
-- A thread that sleeps in the wait for a receive, and the send that wakes it.
use tmpi.Base.{
  ℕ, min, ◌≡◌, refl, sym, ap, ◌∙◌, subst, inl, inr, Bool, true, false, none, some, List, ◌∷◌, ◌++◌,
  arith, ◌==◌, if◌then◌else◌, ==_iff, Bool-cases, Option-cases, ==_refl,
}
use tmpi.Queue.{◌∈◌}
use tmpi.Intra.Types.{
  Stat, has_bit, pend_mask, SHandle, RHandle, Node, Env, update, update_self, success, pend_strt,
  pend_wait, matched, free,
}
use tmpi.Intra.Channel.{
  channel_of, set_rh, free_rh, is_persistent_recv, finish_rh, bytes, rh_status, when_asked, reply,
}
use tmpi.Intra.Start.{match_send, send_at}
use tmpi.Intra.Complete.{Outcome, complete_rh, wait_rh, wake_wait_rh, state_of, reply_of, sleeps}
use tmpi.Intra.Quiet.{fits}
use tmpi.Intra.Delivery.Order.{copied_payload, waiting, rq_probe-first}

-- A receive that is waited for in the queue.
pub record IsQueuedRecv (w : Node) (ch r : ℕ) (h : SHandle) (xs ys : List ℕ) : Type 0 where
  pub queue : w.rq ch ≡ xs ++ r ∷ ys
  pub before : (b : ℕ) → b ∈ xs → fits h (w.rhs b) ≡ false
  pub fit : fits h (w.rhs r) ≡ true
  pub state : (w.rhs r).stat ≡ pend_strt
  pub there : (r == 0) ≡ false

wait_rh-sleeps :
    (env : Env) (w : Node) (r : ℕ) (asked : Bool)
    → (w.rhs r).stat ≡ pend_strt
    → (r == 0) ≡ false
    → wait_rh env w r asked ≡ sleeps (set_rh w r (record (w.rhs r) { stat = pend_wait }))
unfolding wait_rh
wait_rh-sleeps env w r asked e there = rw there (rw e refl)

pub finish_rh-frame :
    (env : Env) (w : Node) (r : ℕ)
    → let w' = (finish_rh env w r).0 in
      ((w'.rhs r).stat ≡ free)
      × (w'.mem ≡ w.mem)
      × (w'.sq ≡ w.sq)
      × (w'.rq ≡ w.rq)
      × (w'.incoming ≡ w.incoming)
      × (w'.sent ≡ w.sent)
      × (w'.msgs_kept ≡ w.msgs_kept)
unfolding finish_rh free_rh
finish_rh-frame env w r = elim (Bool-cases (is_persistent_recv (w.rhs r).handle_type)) [
  | inl kept ↦ rw kept (rw (==_refl r) refl, refl, refl, refl, refl, refl, refl)
  | inr gone ↦ elim (Option-cases (channel_of env w.channel_size (w.rhs r).dest)) [
    | inl nowhere ↦ rw (gone, nowhere) (rw (==_refl r) refl, refl, refl, refl, refl, refl, refl)
    | inr (ch, there) ↦ rw (gone, there) (rw (==_refl r) refl, refl, refl, refl, refl, refl, refl)
  ]
]

pub finish_rh-handle :
    (env : Env) (w : Node) (r : ℕ)
    → (finish_rh env w r).1 ≡ (if is_persistent_recv (w.rhs r).handle_type then r else 0)
unfolding finish_rh
finish_rh-handle env w r = ground arith

-- A matched receive is completed with its status, and keeps its data.
pub wake_wait_rh-matched :
    (env : Env) (w : Node) (r : ℕ) (asked : Bool)
    → (w.rhs r).stat ≡ matched
    → let o = wake_wait_rh env w r asked in
      (reply_of o
        ≡ some (
            reply success
              (when_asked asked (rh_status (w.rhs r)))
              (if is_persistent_recv (w.rhs r).handle_type then r else 0)))
      × (((state_of w o).rhs r).stat ≡ free)
      × ((state_of w o).mem ≡ w.mem)
unfolding wake_wait_rh complete_rh
wake_wait_rh-matched env w r asked e =
    let f = finish_rh-frame env w r in
    let woken : wake_wait_rh env w r asked ≡ complete_rh env w r asked = rw e refl in
    rw woken (
      ap (λ x. some (reply success (when_asked asked (rh_status (w.rhs r))) x))
          (finish_rh-handle env w r),
      f.0,
      f.1,
    )

-- A change of state leaves alone what a receive fits.
fits-set_stat :
    (h : SHandle) (rhs : ℕ → RHandle) (r b : ℕ) (st : Stat)
    → fits h (update rhs r (record (rhs r) { stat = st }) b) ≡ fits h (rhs b)
fits-set_stat h rhs r b st = go (b == r) ((==_iff b r).0)
  where
    go :
        (t : Bool)
        → (t ≡ true → b ≡ r)
        → fits h (if t then record (rhs r) { stat = st } else rhs b) ≡ fits h (rhs b)
    go true same = ap (λ x. fits h (rhs x)) (sym (same refl))
    go false same = refl

matched_recv : (w : Node) (p r : ℕ) → RHandle
matched_recv w p r = record (w.rhs r) {
  src = (w.shs p).src;
  tag = (w.shs p).tag;
  buflen = min (w.shs p).buflen (w.rhs r).buflen;
  stat = matched;
}

match_send-recv :
    (w : Node) (ch p r : ℕ)
    → waiting (w.rhs r).stat ≡ true
    → (match_send w ch p r).rhs r ≡ matched_recv w p r
unfolding match_send matched_recv
match_send-recv w ch p r e = rw (==_refl r) (rw e refl)

-- What the receiver of `h` finds when it wakes, if its handle was `k`.
Woken : (mem : ℕ → ℕ) (h : SHandle) (k : RHandle) (r : ℕ) (asked : Bool) → Node → Outcome → Type 0
Woken mem h k r asked w o =
    let n = min h.buflen k.buflen in
    (reply_of o
      ≡ some (
          reply success
            (when_asked asked (record {
              status_len = n;
              mpi_source = h.src;
              mpi_tag = h.tag;
              mpi_error = k.errval;
            }))
            (if is_persistent_recv k.handle_type then r else 0)))
    × (bytes (state_of w o).mem k.data_buf n ≡ bytes mem h.curdata n)

wake_after_match :
    (env : Env) (w : Node) (ch p r : ℕ) (asked : Bool)
    → waiting (w.rhs r).stat ≡ true
    → Woken w.mem
        (w.shs p)
        (w.rhs r)
        r
        asked
        (match_send w ch p r)
        (wake_wait_rh env (match_send w ch p r) r asked)
unfolding Woken match_send matched_recv
wake_after_match env w ch p r asked e =
    let h = w.shs p in
    let k = w.rhs r in
    let n = min h.buflen k.buflen in
    let w₂ = match_send w ch p r in
    let self = match_send-recv w ch p r e in
    let woken = wake_wait_rh-matched env w₂ r asked (ap (λ (x : RHandle). x.stat) self) in
    (
      woken.0
          ∙ ap
              (λ (x : RHandle). some (
                reply success (when_asked asked (rh_status x))
                  (if is_persistent_recv x.handle_type then r else 0)))
              self,
      ap (λ m. bytes m k.data_buf n) woken.2 ∙ copied_payload w.mem k.data_buf h.curdata n,
    )

send_at-match :
    (w : Node) (ch p r : ℕ) (xs ys : List ℕ)
    → w.rq ch ≡ xs ++ r ∷ ys
    → ((b : ℕ) → b ∈ xs → fits (w.shs p) (w.rhs b) ≡ false)
    → fits (w.shs p) (w.rhs r) ≡ true
    → has_bit (w.rhs r).stat pend_mask ≡ true
    → send_at w ch p ≡ match_send w ch p r
unfolding send_at
send_at-match w ch p r xs ys e before fit pend =
    rw (send_at, rq_probe-first w ch r (w.shs p) xs ys e before fit pend) refl

-- A receive that is pending in its queue, and the first there that a send fits: its receiver, who
-- waits for it, goes to sleep. If that send is then started, and the receiver woken, the wait
-- returns success with the source, the tag and the length of the message, cut to the shorter of
-- the two lengths, and the bytes are in the receiver's buffer.
pub rendezvous :
    (env : Env) (w : Node) (ch p r : ℕ) (xs ys : List ℕ) (asked : Bool)
    → IsQueuedRecv w ch r (w.shs p) xs ys
    → let h = w.shs p in
      let k = w.rhs r in
      let n = min h.buflen k.buflen in
      let w₁ = state_of w (wait_rh env w r asked) in
      let w₂ = send_at w₁ ch p in
      let o = wake_wait_rh env w₂ r asked in
      (reply_of (wait_rh env w r asked) ≡ none)
      × (reply_of o
          ≡ some (
              reply success
                (when_asked asked (record {
                  status_len = n;
                  mpi_source = h.src;
                  mpi_tag = h.tag;
                  mpi_error = k.errval;
                }))
                (if is_persistent_recv k.handle_type then r else 0)))
      × (bytes (state_of w₂ o).mem k.data_buf n ≡ bytes w.mem h.curdata n)
unfolding Woken
rendezvous env w ch p r xs ys asked v =
    let h = w.shs p in
    let k' : RHandle = record (w.rhs r) { stat = pend_wait } in
    let w₁ : Node = set_rh w r k' in
    let own : w₁.rhs r ≡ k' = update_self w.rhs r k' in
    let same = λ (b : ℕ). fits-set_stat h w.rhs r b pend_wait in
    let met =
      send_at-match w₁ ch p r xs ys v.queue (λ b m. same b ∙ v.before b m) (same r ∙ v.fit)
        (ap (λ (x : RHandle). has_bit x.stat pend_mask) own) in
    let woken =
      subst
        (λ x.
          Woken w.mem h x r asked (match_send w₁ ch p r)
            (wake_wait_rh env (match_send w₁ ch p r) r asked))
        own (wake_after_match env w₁ ch p r asked (ap (λ (x : RHandle). waiting x.stat) own)) in
    rw (wait_rh-sleeps env w r asked v.state v.there) (rw met (refl, woken.0, woken.1))
