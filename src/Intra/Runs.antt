-- ===== src/Intra/Runs.antt =====
-- The steps of all threads, one after the other in any order: what they keep of the matching.
use tmpi.Base.{ℕ, ◌≡◌, subst, inl, inr, Bool, true, false, ◌||◌, some, arith, ◌==◌, Bool-cases}
use tmpi.Intra.Types.{
  Code, has_bit, same_stat, recv_mask, SHandle, RHandle, Msg, Node, Env, pend_wait, matched, Supply,
}
use tmpi.Intra.Channel.{set_sh, set_rh}
use tmpi.Intra.Start.{start_sh, start_rh}
use tmpi.Intra.Complete.{
  Outcome, intra_wait_sh, wake_wait_sh, wait_rh, wake_wait_rh, is_ready, inter_wait_sh,
  wake_ready_sh, wake_inter_wait_sh, state_of, returns, sleeps, stuck,
}
use tmpi.Intra.Cancel.{test_rh}
use tmpi.Intra.Quiet.{Quiet}
use tmpi.Intra.Quiet.Steps.{Idle, set-Idle_sh, set-Idle_rh}
use tmpi.Intra.Quiet.Sends.{start_sh-Quiet}
use tmpi.Intra.Quiet.Receives.{start_rh-Quiet}
use tmpi.Intra.Quiet.Waits.{
  Leaves, complete_sh-Quiet, complete_rh-Quiet, done_of_matched, intra_wait_sh-Quiet, wait_rh-Quiet,
  wake_wait_rh-Quiet,
}
use tmpi.Inter.Wire.{handled}
use tmpi.Inter.Dispatch.{msg_handle}
use tmpi.Inter.Quiet.{Keeps, Named, Fresh}
use tmpi.Inter.Quiet.Messages.{msg_handle-Quiet}
use tmpi.Inter.Quiet.Waits.{inter_wait_sh-Quiet, wake_ready_sh-Quiet, wake_inter_wait_sh-Quiet}

-- One critical section of some thread. A thread only writes to the memory of its own buffers, which
-- the matching does not read, and fills in only handles that stand in no queue. A send to another
-- node is in no queue, and neither is a handle that a message names. Waits for ready-mode sends to
-- this node, tests of sends and cancels are left out (Hazards).
pub data Step (env : Env) : Node → Node → Type 0 where
  starts_send : (got_msg : Bool) (w : Node) (p : ℕ) → Step env w (start_sh env got_msg w p).0
  starts_recv :
      (got_msg : Bool) (w w' : Node) (p : ℕ) (c : Code)
      → start_rh env got_msg w p ≡ some (w', c)
      → Step env w w'
  waits_send :
      (w : Node) (p : ℕ) (asked : Bool)
      → is_ready (w.shs p).send_mode ≡ false
      → Step env w (state_of w (intra_wait_sh env w p asked))
  wakes_send :
      (w : Node) (p : ℕ) (asked : Bool)
      → (same_stat (w.shs p).stat pend_wait || same_stat (w.shs p).stat matched) ≡ true
      → Step env w (state_of w (wake_wait_sh env w p asked))
  waits_recv : (w : Node) (p : ℕ) (asked : Bool) → Step env w (state_of w (wait_rh env w p asked))
  wakes_recv :
      (w : Node) (p : ℕ) (asked : Bool) → Step env w (state_of w (wake_wait_rh env w p asked))
  tests_recv :
      (w : Node) (p : ℕ) (asked : Bool) → Step env w (state_of w (test_rh env w p asked).outcome)
  fills_send : (w : Node) (p : ℕ) (h : SHandle) → Idle p w.sq → Step env w (set_sh w p h)
  fills_recv : (w : Node) (p : ℕ) (k : RHandle) → Idle p w.rq → Step env w (set_rh w p k)
  waits_far :
      (w : Node) (p : ℕ) (asked : Bool)
      → Idle p w.sq
      → Step env w (state_of w (inter_wait_sh env w p asked))
  wakes_ready :
      (w : Node) (p : ℕ) (asked : Bool)
      → Idle p w.sq
      → Step env w (state_of w (wake_ready_sh env w p asked))
  wakes_far :
      (w : Node) (p : ℕ) (asked : Bool)
      → Idle p w.sq
      → Step env w (state_of w (wake_inter_wait_sh env w p asked))
  takes_message :
      (s : Supply) (debug whole good : Bool) (w w' : Node) (m : Msg)
      → Named w m
      → Fresh w s.chunk
      → msg_handle env s debug whole w m ≡ handled good w'
      → Step env w w'
  writes : (w : Node) (mem : ℕ → ℕ) → Step env w (record w { mem = mem })

pub data Run (env : Env) : Node → Node → Type 0 where
  rests : (w : Node) → Run env w w
  goes_on : (w w' w'' : Node) → Run env w w' → Step env w' w'' → Run env w w''

state_of-Quiet :
    (env : Env) (w : Node) (o : Outcome)
    → Quiet env w
    → Leaves (Quiet env) o
    → Quiet env (state_of w o)
state_of-Quiet env w (returns w' r) q l = l
state_of-Quiet env w (sleeps w') q l = l
state_of-Quiet env w stuck q l = q

wake_wait_sh-Quiet :
    (env : Env) (w : Node) (p : ℕ) (asked : Bool)
    → Quiet env w
    → (same_stat (w.shs p).stat pend_wait || same_stat (w.shs p).stat matched) ≡ true
    → Leaves (Quiet env) (wake_wait_sh env w p asked)
unfolding wake_wait_sh
wake_wait_sh-Quiet env w p asked q e = elim (Bool-cases (same_stat (w.shs p).stat pend_wait)) [
  | inl wait ↦ rw wait q
  | inr done ↦
      rw done
        (complete_sh-Quiet env w p asked _ _ q (done_of_matched (w.shs p).stat (ground arith)))
]

test_rh-Quiet :
    (env : Env) (w : Node) (p : ℕ) (asked : Bool)
    → Quiet env w
    → Leaves (Quiet env) (test_rh env w p asked).outcome
unfolding test_rh
test_rh-Quiet env w p asked q = elim (Bool-cases (p == 0)) [
  | inl null ↦ rw null q
  | inr there ↦ elim (Bool-cases (has_bit (w.rhs p).stat recv_mask)) [
    | inr bad ↦ rw (there, bad) q
    | inl good ↦ elim (Bool-cases (same_stat (w.rhs p).stat matched)) [
      | inl done ↦
          rw (there, good, done)
            (complete_rh-Quiet env w p asked q (done_of_matched (w.rhs p).stat done))
      | inr wait ↦ rw (there, good, wait) q
    ]
  ]
]

-- Every step keeps the queues quiet.
pub Step-Quiet : (env : Env) {w w' : Node} → Step env w w' → Quiet env w → Quiet env w'
Step-Quiet env (starts_send got_msg w p) q = start_sh-Quiet env got_msg w p q
Step-Quiet env (starts_recv got_msg w w' p c e) q = start_rh-Quiet env got_msg w p q e
Step-Quiet env (waits_send w p asked e) q =
    state_of-Quiet env w _ q (intra_wait_sh-Quiet env w p asked q e)
Step-Quiet env (wakes_send w p asked e) q =
    state_of-Quiet env w _ q (wake_wait_sh-Quiet env w p asked q e)
Step-Quiet env (waits_recv w p asked) q = state_of-Quiet env w _ q (wait_rh-Quiet env w p asked q)
Step-Quiet env (wakes_recv w p asked) q =
    state_of-Quiet env w _ q (wake_wait_rh-Quiet env w p asked q)
Step-Quiet env (tests_recv w p asked) q = state_of-Quiet env w _ q (test_rh-Quiet env w p asked q)
Step-Quiet env (fills_send w p h out) q = set-Idle_sh q p h out
Step-Quiet env (fills_recv w p k out) q = set-Idle_rh q p k out
Step-Quiet env (waits_far w p asked out) q =
    state_of-Quiet env w _ q (inter_wait_sh-Quiet env w p asked q out)
Step-Quiet env (wakes_ready w p asked out) q =
    state_of-Quiet env w _ q (wake_ready_sh-Quiet env w p asked q out)
Step-Quiet env (wakes_far w p asked out) q =
    state_of-Quiet env w _ q (wake_inter_wait_sh-Quiet env w p asked q out)
Step-Quiet env (takes_message s debug whole good w w' m named fresh e) q =
    subst (Keeps (Quiet env)) e (msg_handle-Quiet env s debug whole w m q named fresh)
Step-Quiet env (writes w mem) q = q

-- From a state whose queues are quiet, however the steps of `Step` follow one another, the queues
-- are quiet: no send and receive of a channel that fit both wait, every queued handle is pending,
-- and it stands in the queue of its receiver's channel, once, and in no other.
pub Run-Quiet : (env : Env) {w w' : Node} → Run env w w' → Quiet env w → Quiet env w'
Run-Quiet env (rests w) q = q
Run-Quiet env (goes_on w w' w'' run step) q = Step-Quiet env step (Run-Quiet env run q)
