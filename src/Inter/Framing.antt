-- ===== src/Inter/Framing.antt =====
-- Where a message ends on the connection: what its handler leaves there.
use tmpi.Base.{
  ℕ, ◌≤◌, ◌≡◌, inl, inr, Bool, true, false, some, List, arith, ◌==◌, Bool-cases, Option-cases,
  length,
}
use tmpi.Intra.Types.{SHandle, Node, Env}
use tmpi.Intra.Channel.{channel_of, rq_probe, rq_unlink, set_rh, alloc_elem}
use tmpi.Intra.Complete.{is_ready}
use tmpi.Inter.Wire.{Handled, then_do, handled, waits, faults}
use tmpi.Inter.Stream.{IsRead, IsRead-update, recvdata_lem, dump_data_lem, take_payload_lem}
use tmpi.Inter.Receives.{
  take_envelope, enq_rmsh, rmds_done, rmds_found, rmds_stored, rmds_queued, rmds_at, rmds_handle,
}

-- what holds of the state that a handler leaves when it returns 0
abbrev pub WhenGood : (Node → Type 0) → Handled → Type 0
WhenGood P (handled true w) = P w
WhenGood P (handled false w) = Unit {0}
WhenGood P waits = Unit {0}
WhenGood P faults = Unit {0}

module _ (env : Env) (w : Node) (h : SHandle) (mac local_id : ℕ)
    (known : env.trans_global_rank h.src ≡ some (mac, local_id))
    (come : h.buflen ≤ length (w.incoming mac)) where
  -- the payload of the announcement has been read, and no more
  abbrev Read : Node → Type 0
  Read w' = IsRead w.incoming w'.incoming mac h.buflen

  rmds_found-reads : (ch r : ℕ) → WhenGood Read (rmds_found env w ch r h)
  unfolding rmds_found rmds_done
  rmds_found-reads ch r =
      let k = take_envelope (w.rhs r) h in
      let (inc, e, read) =
        take_payload_lem env h.src mac local_id known (set_rh (rq_unlink w ch r) r k) k.data_buf
          k.buflen h.buflen (omega arith) come in
      rw (e, then_do) read

  rmds_stored-reads :
      (mb ch p : ℕ) (cache : List ℕ) → WhenGood Read (rmds_stored env w mb ch p cache h)
  unfolding rmds_stored enq_rmsh
  rmds_stored-reads mb ch p cache = elim (Bool-cases (mb == 0)) [
    | inl full ↦
        let (inc, e, read) = dump_data_lem env h.src mac local_id known w h.buflen come in
        rw (full, e, then_do) read
    | inr room ↦
        rw (room, recvdata_lem env h.src mac local_id known w mb h.buflen come, then_do)
          (IsRead-update w.incoming mac h.buflen)
  ]

  rmds_queued-reads : (chunk : List ℕ) (mb ch : ℕ) → WhenGood Read (rmds_queued env w chunk mb ch h)
  unfolding rmds_queued
  rmds_queued-reads chunk mb ch = elim (Bool-cases (is_ready h.send_mode)) [
    | inl early ↦
        let (inc, e, read) = dump_data_lem env h.src mac local_id known w h.buflen come in
        rw (early, e, then_do) read
    | inr waiting ↦ elim (Bool-cases ((alloc_elem (w.sq_allocate ch) chunk).0 == 0)) [
      | inl full ↦ rw (waiting, full) tt
      | inr room ↦ rw (waiting, room) (rmds_stored-reads mb ch _ _)
    ]
  ]

  -- When all of the payload of a short send has come and tmpi_rmds_handle returns 0, it has read the
  -- payload, all of it and no more, from the sender's connection and nothing from another: whether
  -- a receive was there, the data was stored, no buffer was left, or a ready send came too early.
  pub rmds_handle-reads :
      (got_msg : Bool) (chunk : List ℕ) (mb : ℕ)
      → WhenGood Read (rmds_handle env got_msg chunk mb w h)
  unfolding rmds_handle rmds_at
  rmds_handle-reads got_msg chunk mb = elim (Option-cases (channel_of env w.channel_size h.dest)) [
    | inl nowhere ↦ rw (nowhere, rmds_handle) tt
    | inr (ch, there) ↦ elim (Bool-cases got_msg) [
      | inr full ↦ rw (there, rmds_handle, full) tt
      | inl got ↦ elim (Option-cases (rq_probe w ch h.context h.tag h.src)) [
        | inl e ↦ rw (there, rmds_handle, got, e, rmds_at) (rmds_queued-reads chunk mb ch)
        | inr (r, e) ↦ rw (there, rmds_handle, got, e, rmds_at) (rmds_found-reads ch r)
      ]
    ]
  ]
