-- ===== src/Inter/Quiet/Messages.antt =====
-- tmpi_inter_msg_handle, whatever message comes in, and the invariant of the matching.
use tmpi.Base.{
  ℕ, inl, inr, Bool, true, false, not, ◌&&◌, ◌||◌, List, ◌==◌, if◌then◌else◌, Bool-cases,
  Option-cases,
}
use tmpi.Intra.Types.{
  SendType, Stat, same_stat, SHandle, Msg, Node, Env, send, persistent_send, immediate_send,
  remote_msg_send, remote_msgdat_send, pend_strt, pend_wait, pend_data, pend_dwat, announce,
  dat_send, msg_recv, dat_recv, msgdat_recv, not_ready, Supply,
}
use tmpi.Intra.Channel.{channel_of}
use tmpi.Inter.Wire.{handled, waits}
use tmpi.Inter.Receives.{rms_handle, rmds_handle}
use tmpi.Inter.Sends.{
  send_data, rmr_handle, is_left, rdr_at, rdr_handle, rmdr_at, rmdr_handle, rndy_handle,
}
use tmpi.Inter.Dispatch.{checks, announced, dispatch, msg_handle}
use tmpi.Intra.Quiet.{Quiet}
use tmpi.Intra.Quiet.Steps.{Idle, set-Idle_sh}
use tmpi.Intra.Quiet.Receives.{finish_sh-Quiet}
use tmpi.Inter.Quiet.{Keeps, Named, Fresh, rms_at-Quiet}
use tmpi.Inter.Quiet.Data.{rmds_at-Quiet, rds_handle-Quiet}

module _ (env : Env) (w : Node) (q : Quiet env w) where
  rms_handle-Quiet :
      (got_msg : Bool) (chunk : List ℕ) (h : SHandle)
      → Fresh w chunk
      → Keeps (Quiet env) (rms_handle env got_msg chunk w h)
  unfolding rms_handle
  rms_handle-Quiet got_msg chunk h fresh =
      elim (Option-cases (channel_of env w.channel_size h.dest)) [
        | inl nowhere ↦ rw (nowhere, rms_handle) q
        | inr (ch, there) ↦ elim (Bool-cases got_msg) [
          | inl got ↦ rw (there, rms_handle, got) (rms_at-Quiet env w ch h q chunk fresh there)
          | inr full ↦ rw (there, rms_handle, full) q
        ]
      ]

  rmds_handle-Quiet :
      (got_msg : Bool) (chunk : List ℕ) (mb : ℕ) (h : SHandle)
      → Fresh w chunk
      → Keeps (Quiet env) (rmds_handle env got_msg chunk mb w h)
  unfolding rmds_handle
  rmds_handle-Quiet got_msg chunk mb h fresh =
      elim (Option-cases (channel_of env w.channel_size h.dest)) [
        | inl nowhere ↦ rw (nowhere, rmds_handle) q
        | inr (ch, there) ↦ elim (Bool-cases got_msg) [
          | inl got ↦ rw (there, rmds_handle, got) (rmds_at-Quiet env w ch h q chunk mb fresh there)
          | inr full ↦ rw (there, rmds_handle, full) q
        ]
      ]

  rmr_handle-Quiet :
      (got_msg : Bool) (sh r len : ℕ)
      → Idle sh w.sq
      → Keeps (Quiet env) (rmr_handle got_msg w sh r len)
  unfolding rmr_handle send_data
  rmr_handle-Quiet got_msg sh r len out = elim (Bool-cases got_msg) [
    | inr full ↦ rw full q
    | inl got ↦ elim (Bool-cases (sh == 0)) [
      | inl null ↦ rw (got, null) q
      | inr there ↦ elim (Bool-cases (w.shs sh).locked) [
        | inl held ↦ rw (got, there, held) tt
        | inr unheld ↦ rw (got, there, unheld) (set-Idle_sh q sh _ out)
      ]
    ]
  ]

module _ (env : Env) (sh : ℕ) where
  rdr_at-Quiet :
      (w : Node) (st : Stat) → Quiet env w → Idle sh w.sq → Quiet env (rdr_at env w sh st)
  unfolding rdr_at
  rdr_at-Quiet w st q out = elim (Bool-cases (same_stat st pend_data || same_stat st pend_dwat)) [
    | inl due ↦ rw due (set-Idle_sh q sh _ out)
    | inr neither ↦ elim (Bool-cases (is_left st)) [
      | inl gone ↦ rw (neither, gone) (finish_sh-Quiet env w sh q out)
      | inr other ↦ rw (neither, other) q
    ]
  ]

  rmdr_at-Quiet :
      (w : Node) (st : Stat) → Quiet env w → Idle sh w.sq → Quiet env (rmdr_at env w sh st)
  unfolding rmdr_at
  rmdr_at-Quiet w st q out = elim (Bool-cases (same_stat st pend_strt || same_stat st pend_wait)) [
    | inl due ↦ rw due (set-Idle_sh q sh _ out)
    | inr neither ↦ elim (Bool-cases (is_left st)) [
      | inl gone ↦ rw (neither, gone) (finish_sh-Quiet env w sh q out)
      | inr other ↦ rw (neither, other) q
    ]
  ]

module _ (env : Env) (w : Node) (q : Quiet env w) (sh : ℕ) (out : Idle sh w.sq) where
  -- The three handlers of an answer begin with the same two tests.
  answer-Quiet :
      (w' : Node)
      → Quiet env w'
      → Keeps (Quiet env) (
          if sh == 0 then handled false w else if (w.shs sh).locked then waits else handled true w')
  answer-Quiet w' q' = elim (Bool-cases (sh == 0)) [
    | inl null ↦ rw null q
    | inr there ↦ elim (Bool-cases (w.shs sh).locked) [
      | inl held ↦ rw (there, held) tt
      | inr unheld ↦ rw (there, unheld) q'
    ]
  ]

announced-Quiet :
    (env : Env) (s : Supply) (w : Node) (h : SHandle) (t : SendType)
    → Quiet env w
    → Fresh w s.chunk
    → Keeps (Quiet env) (announced env s w h t)
unfolding announced
announced-Quiet env s w h remote_msg_send q fresh =
    rms_handle-Quiet env w q s.got_msg s.chunk h fresh
announced-Quiet env s w h remote_msgdat_send q fresh =
    rmds_handle-Quiet env w q s.got_msg s.chunk s.mb h fresh
announced-Quiet env s w h send q fresh = q
announced-Quiet env s w h persistent_send q fresh = q
announced-Quiet env s w h immediate_send q fresh = q

dispatch-Quiet :
    (env : Env) (s : Supply) (w : Node) (m : Msg)
    → Quiet env w
    → Named w m
    → Fresh w s.chunk
    → Keeps (Quiet env) (dispatch env s w m)
unfolding dispatch rdr_handle rmdr_handle rndy_handle
dispatch-Quiet env s w (announce from to h xs) q out fresh =
    announced-Quiet env s w h h.handle_type q fresh
dispatch-Quiet env s w (dat_send from to sh r n xs) q out fresh =
    rds_handle-Quiet env sh r n s.got_msg w q out
dispatch-Quiet env s w (msg_recv from to sh r n) q out fresh =
    rmr_handle-Quiet env w q s.got_msg sh r n out
dispatch-Quiet env s w (dat_recv from to sh n e) q out fresh =
    answer-Quiet env w q sh out _ (rdr_at-Quiet env sh _ _ (set-Idle_sh q sh _ out) out)
dispatch-Quiet env s w (msgdat_recv from to sh n e) q out fresh =
    answer-Quiet env w q sh out _ (rmdr_at-Quiet env sh _ _ (set-Idle_sh q sh _ out) out)
dispatch-Quiet env s w (not_ready from to sh n e) q out fresh =
    answer-Quiet env w q sh out _ (set-Idle_sh q sh _ out)

-- If the queues are quiet, they are after tmpi_inter_msg_handle, whatever message comes in and
-- whatever it returns, provided that the handles which the message names stand in no queue, and that
-- what Q_newElem returns does not either.
pub msg_handle-Quiet :
    (env : Env) (s : Supply) (debug whole : Bool) (w : Node) (m : Msg)
    → Quiet env w
    → Named w m
    → Fresh w s.chunk
    → Keeps (Quiet env) (msg_handle env s debug whole w m)
unfolding msg_handle
msg_handle-Quiet env s debug whole w m q named fresh =
    elim (Bool-cases (debug && not (checks whole m))) [
      | inl wrong ↦ rw wrong q
      | inr right ↦ rw right (dispatch-Quiet env s w m q named fresh)
    ]
