-- ===== src/Intra/Tests/Matching.antt =====
-- Examples of the start of sends and receives.
use tmpi.Base.{◌≡◌, refl, true, false, none, some, [], ◌∷◌, arith, pos}
use tmpi.Queue.{probe}
use tmpi.Intra.Types.{
  Mode, Node, success, err_intern, standard, sync, buffered, persistent_recv, create, matched,
}
use tmpi.Intra.Channel.{
  grank_to_lrank, get_channel, channel_of, sq_cmp, rq_cmp, sq_probe, rq_probe, memcpy, bytes,
  rh_status, reply,
}
use tmpi.Intra.Start.{
  not_startable_rh, match_send, send_at, start_sh, match_local, match_found, recv_at, start_rh,
}
use tmpi.Intra.Complete.{wait_rh, wake_wait_rh, state_of, reply_of}
use tmpi.Intra.Quiet.{Quiet}
use tmpi.Intra.Delivery.Order.{Delivered, send_at-first, recv_at-first}
use tmpi.Intra.Delivery.Rendezvous.{rendezvous}
use tmpi.Intra.Hazards.{start_rh-wake_wait_rh}
use tmpi.Intra.Runs.{Run, Run-Quiet, starts_send, waits_recv, wakes_recv, rests, goes_on}
use tmpi.Intra.Tests.{env, out_handle, in_handle, node, posted, offered, posted-Quiet}

started :
    (m : Mode)
    → start_rh env false (offered m) 9 ≡ some (match_local env (offered m) 1 9 4, success)
unfolding start_rh not_startable_rh channel_of get_channel grank_to_lrank recv_at sq_probe sq_cmp
    probe match_found
started m = refl

-- 3 of the 4 bytes at 100 arrive at 300
data_sent : let w' = send_at (posted buffered) 1 4 in bytes w'.mem 300 4 ≡ 100 ∷ 101 ∷ 102 ∷ 47 ∷ []
unfolding send_at match_send rq_probe rq_cmp probe bytes memcpy
data_sent = refl

send_at-first_example :
    let w = posted standard in
    let w' = send_at w 1 4 in
    (w'.rq 1 ≡ [])
    × (w'.sq ≡ w.sq)
    × ((w'.shs 4).stat ≡ matched)
    × Delivered w.mem w'.mem (w.shs 4) (w.rhs 9) (w'.rhs 9)
send_at-first_example =
    send_at-first (posted standard) 1 4 9 [] [] refl (λ b m. absurd (ground arith)) refl refl

recv_at-first_example :
    let w = offered standard in
    (w' : Node) × (recv_at env false w 1 9 ≡ some (w', success))
    × (w'.sq 1 ≡ [])
    × (w'.rq ≡ w.rq)
    × ((w'.shs 4).stat ≡ matched)
    × Delivered w.mem w'.mem (w.shs 4) (w.rhs 9) (w'.rhs 9)
recv_at-first_example =
    recv_at-first env false (offered standard) 1 9 4 [] [] refl (λ b m. absurd (ground arith)) refl
      refl refl refl

rendezvous_example :
    let w = posted sync in
    let w₁ = state_of w (wait_rh env w 9 true) in
    let w₂ = send_at w₁ 1 4 in
    let o = wake_wait_rh env w₂ 9 true in
    (reply_of (wait_rh env w 9 true) ≡ none)
    × (reply_of o
        ≡ some (
            reply success
              (some (record {
                status_len = 3;
                mpi_source = pos 0;
                mpi_tag = pos 7;
                mpi_error = success;
              }))
              0))
    × (bytes (state_of w₂ o).mem 300 3 ≡ bytes w.mem 100 3)
rendezvous_example = rendezvous env (posted sync) 1 4 9 [] [] true (record {
  queue = refl;
  before = λ b m. absurd (ground arith);
  fit = refl;
  state = refl;
  there = refl;
})

-- a persistent receive that is matched
abbrev arrived : Node
arrived =
    node [] [] (out_handle standard create)
      (record (in_handle matched) { handle_type = persistent_recv })

start_rh-wake_wait_rh_example :
    let o = wake_wait_rh env arrived 9 true in
    let w' = state_of arrived o in
    (reply_of o ≡ some (reply success (some (rh_status (arrived.rhs 9))) 9))
    × (start_rh env false w' 9 ≡ some (w', err_intern))
start_rh-wake_wait_rh_example = start_rh-wake_wait_rh env false arrived 9 true refl refl refl

-- the receiver waits, the send is started, and the receiver wakes
abbrev asleep : Node
asleep = state_of (posted standard) (wait_rh env (posted standard) 9 true)

abbrev sent : Node
sent = (start_sh env false asleep 4).0

abbrev met : Run env (posted standard) (state_of sent (wake_wait_rh env sent 9 true))
met =
    goes_on (posted standard) sent (state_of sent (wake_wait_rh env sent 9 true))
      (goes_on (posted standard) asleep sent
        (goes_on (posted standard) (posted standard) asleep (rests (posted standard))
          (waits_recv (posted standard) 9 true))
        (starts_send false asleep 4))
      (wakes_recv sent 9 true)

Run-Quiet_example : Quiet env (state_of sent (wake_wait_rh env sent 9 true))
Run-Quiet_example = Run-Quiet env met (posted-Quiet standard)
