-- ===== src/Intra/Quiet/Receives.antt =====
-- tmpi_intra_start_rh and the invariant of the matching.
use tmpi.Base.{
  ℕ, ◌≡◌, Bool, false, Option, none, some, ◌==◌, arith, Bool-cases, Option-cases, inl, inr, subst,
  ◌||◌,
}
use tmpi.Queue.{◌∈◌}
use tmpi.Queue.Search.{probe-none, probe-some}
use tmpi.Intra.Types.{
  RHandle, Node, Env, Code, Stat, has_bit, pend_mask, update_self, pend_strt, pend_wait, pend_rels,
  same_stat,
}
use tmpi.Intra.Channel.{
  channel_of, sq_probe, is_success, finish_sh, free_sh, free_rmsh, is_persistent_send,
}
use tmpi.Intra.Start.{
  not_startable_rh, settle_sh, exchange, match_local, match_remote, match_found, recv_at, start_rh,
  is_local_send,
}
use tmpi.Intra.Quiet.{Quiet, fits, sq_cmp-fits}
use tmpi.Intra.Quiet.Steps.{
  Idle-of_stat_rh, set-Idle_sh, set-Idle_rh, Idle-unlinked_sh, unlink_sh, join_rh, Idle,
}

pub startable_rh_idle :
    (k : RHandle) → not_startable_rh k ≡ false → has_bit k.stat pend_mask ≡ false
unfolding not_startable_rh
startable_rh_idle k e = ground arith

pub sq_probe-none :
    (env : Env) (w : Node) (ch s : ℕ) (k : RHandle)
    → Quiet env w
    → sq_probe w ch k.context k.tag k.src ≡ none
    → s ∈ w.sq ch
    → fits (w.shs s) k ≡ false
unfolding sq_probe
sq_probe-none env w ch s k q e m =
    ground (arith, probe-none _ s (w.sq ch) e m, sq_cmp-fits (w.shs s) k, q.pending_s ch s m)

pub sq_probe-mem :
    (w : Node) (ch s : ℕ) (k : RHandle) → sq_probe w ch k.context k.tag k.src ≡ some s → s ∈ w.sq ch
unfolding sq_probe
sq_probe-mem w ch s k e = (probe-some _ s (w.sq ch) e).1

-- A send in no queue may be finished.
pub finish_sh-Quiet :
    (env : Env) (w : Node) (s : ℕ) → Quiet env w → Idle s w.sq → Quiet env (finish_sh env w s).0
unfolding finish_sh free_sh
finish_sh-Quiet env w s q out = elim (Bool-cases (is_persistent_send (w.shs s).handle_type)) [
  | inl kept ↦ rw kept (set-Idle_sh q s _ out)
  | inr gone ↦ elim (Option-cases (channel_of env w.channel_size (w.shs s).src)) [
    | inl nowhere ↦ rw (gone, nowhere) (set-Idle_sh q s _ out)
    | inr (ch, there) ↦ rw (gone, there) (set-Idle_sh q s _ out)
  ]
]

settle_sh-Quiet :
    (env : Env) (w : Node) (s : ℕ) (st : Stat)
    → Quiet env w
    → Idle s w.sq
    → Quiet env (settle_sh env w s st)
unfolding settle_sh
settle_sh-Quiet env w s st q out =
    elim (Bool-cases (same_stat st pend_wait || same_stat st pend_strt)) [
      | inl waits ↦ rw waits (set-Idle_sh q s _ out)
      | inr left ↦ elim (Bool-cases (same_stat st pend_rels)) [
        | inl rels ↦ rw (left, rels) (finish_sh-Quiet env w s q out)
        | inr other ↦ rw (left, other) q
      ]
    ]

match_local-Quiet :
    (env : Env) (w : Node) (ch p s : ℕ)
    → Quiet env w
    → Idle p w.rq
    → s ∈ w.sq ch
    → Quiet env (match_local env w ch p s)
unfolding match_local exchange
match_local-Quiet env w ch p s q out m =
    let gone = Idle-unlinked_sh q ch s m in
    settle_sh-Quiet env _ s (w.shs s).stat
      (set-Idle_sh (set-Idle_rh (unlink_sh q ch s) p _ out) s _ gone) gone

match_remote-Quiet :
    (env : Env) (got_msg : Bool) (w : Node) (ch p s : ℕ)
    → Quiet env w
    → Idle p w.rq
    → s ∈ w.sq ch
    → Quiet env (match_remote env got_msg w ch p s)
unfolding match_remote free_rmsh
match_remote-Quiet env got_msg w ch p s q out m =
    set-Idle_sh (set-Idle_rh (unlink_sh q ch s) p _ out) s _ (Idle-unlinked_sh q ch s m)

-- what holds of the state that a call leaves, if it does not get stuck
abbrev pub After : (Node → Type 0) → Option (Node × Code) → Type 0
After P none = Unit {0}
After P (some (w, c)) = P w

match_found-Quiet :
    (env : Env) (got_msg : Bool) (w : Node) (ch p s : ℕ)
    → Quiet env w
    → Idle p w.rq
    → s ∈ w.sq ch
    → After (Quiet env) (match_found env got_msg w ch p s)
unfolding match_found
match_found-Quiet env got_msg w ch p s q out m =
    elim (Bool-cases (is_local_send (w.shs s).handle_type)) [
      | inl near ↦ elim (Bool-cases (w.shs s).locked) [
        | inl held ↦ rw (near, held) tt
        | inr fine ↦ rw (near, fine) (match_local-Quiet env w ch p s q out m)
      ]
      | inr far ↦ rw far (match_remote-Quiet env got_msg w ch p s q out m)
    ]

recv_at-Quiet :
    (env : Env) (got_msg : Bool) (w : Node) (ch p : ℕ)
    → Quiet env w
    → Idle p w.rq
    → channel_of env w.channel_size (w.rhs p).dest ≡ some ch
    → After (Quiet env) (recv_at env got_msg w ch p)
unfolding recv_at
recv_at-Quiet env got_msg w ch p q out there =
    let k = w.rhs p in
    let k' : RHandle = record k { stat = pend_strt } in
    let same = update_self w.rhs p k' in
    elim (Option-cases (sq_probe w ch k.context k.tag k.src)) [
      | inl e ↦
          rw (recv_at, e)
            (join_rh (set-Idle_rh q p k' out) ch p out (rw same) (rw same there)
              (λ s m. rw same (sq_probe-none env w ch s k q e m)))
      | inr (s, e) ↦
          rw (recv_at, e) (match_found-Quiet env got_msg w ch p s q out (sq_probe-mem w ch s k e))
    ]

started_rh-Quiet :
    (env : Env) (got_msg : Bool) (w : Node) (p : ℕ)
    → Quiet env w
    → After (Quiet env) (start_rh env got_msg w p)
unfolding start_rh
started_rh-Quiet env got_msg w p q = elim (Bool-cases (p == 0)) [
  | inl null ↦ rw null q
  | inr there ↦ elim (Bool-cases (is_success (w.rhs p).errval)) [
    | inr failed ↦ rw (there, failed) q
    | inl fine ↦ elim (Bool-cases (not_startable_rh (w.rhs p))) [
      | inl bad ↦ rw (there, fine, bad) q
      | inr good ↦ elim (Option-cases (channel_of env w.channel_size (w.rhs p).dest)) [
        | inl gone ↦ rw (there, fine, good, gone) q
        | inr (ch, at) ↦
            rw (there, fine, good, at)
              (recv_at-Quiet env got_msg w ch p q
                (Idle-of_stat_rh q p (startable_rh_idle (w.rhs p) good)) at)
      ]
    ]
  ]
]

-- If the queues are quiet, they are after tmpi_intra_start_rh as well, whatever it finds and
-- returns, unless it waits for a lock that was left held.
pub start_rh-Quiet :
    (env : Env) (got_msg : Bool) (w : Node) (p : ℕ) {w' : Node} {c : Code}
    → Quiet env w
    → start_rh env got_msg w p ≡ some (w', c)
    → Quiet env w'
start_rh-Quiet env got_msg w p q e =
    subst (After (Quiet env)) e (started_rh-Quiet env got_msg w p q)
