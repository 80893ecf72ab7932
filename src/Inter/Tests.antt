-- ===== src/Inter/Tests.antt =====
-- Two machines with one process each: rank 0 sends to rank 1.
use tmpi.Base.{
  ℕ, min, ◌≡◌, refl, true, Option, none, some, List, [], ◌∷◌, ◌++◌, arith, ℤ, pos, negsuc,
}
use tmpi.Queue.{probe}
use tmpi.Intra.Types.{
  Mode, SHandle, Node, Env, update, success, err_nrdy, standard, ready, sync, remote_msg_send,
  create, pend_strt, pend_data, free, dat_recv, not_ready,
}
use tmpi.Intra.Channel.{grank_to_lrank, get_channel, channel_of, rq_cmp, rq_probe, reply}
use tmpi.Intra.Complete.{wake_ready_sh, state_of, returns}
use tmpi.Intra.Cancel.{cancel_rh}
use tmpi.Inter.Wire.{handled}
use tmpi.Inter.Stream.{IsRead}
use tmpi.Inter.Receives.{rms_handle, rmds_handle, rds_handle}
use tmpi.Inter.Dispatch.{dispatch}
use tmpi.Inter.Delivery.Steps.{IsPosted}
use tmpi.Inter.Delivery.Long.{long_send, HasCrossed, supply}
use tmpi.Inter.Delivery.Fetch.{long_send_lem}
use tmpi.Inter.Delivery.Exchange.{short_send, short_send_lem}
use tmpi.Inter.Delivery.Ready.{ready_send_refused}
use tmpi.Inter.Framing.{WhenGood, rmds_handle-reads}
use tmpi.Inter.Hazards.{cancelled_recv_loses_data}
use tmpi.Intra.Tests.{env, out_handle, in_handle, node}

abbrev rank_of : ℤ → Option (ℕ × ℕ)
rank_of (pos i) = some (i, 0)
rank_of (negsuc i) = none

abbrev env_of : ℕ → Env
env_of mac = record env { trans_global_rank = rank_of; local_mac = mac }

-- from rank 0 to rank 1, `n` bytes at 100
abbrev far_handle : Mode → (n : ℕ) → SHandle
far_handle m n = record (out_handle m create) { is_remote = true; buflen = n }

-- the sender, with the handle at 4
abbrev sender : Mode → (n : ℕ) → Node
sender m n = record (node [] [] (far_handle m n) (in_handle create)) { channel_size = 1 }

-- the receiver, whose channel 0 has `recvs`
abbrev receiver : (recvs : List ℕ) → Node
receiver recvs = record (node [] [] (far_handle standard 4) (in_handle pend_strt)) {
  channel_size = 1;
  rq = update (λ ch. []) 0 recvs;
}

receive_at_9 : (m : Mode) (n : ℕ) → IsPosted (env_of 1) (receiver (9 ∷ [])) 0 9 (far_handle m n)
unfolding channel_of get_channel grank_to_lrank rq_probe rq_cmp probe
receive_at_9 m n = record { channel = refl; found = refl; state = refl; there = refl }

long_send_lem_example :
    (a' b' : Node) × (long_send
        (env_of 0)
        (env_of 1)
        (supply [] 0)
        0
        1
        (sender sync 4000000)
        (receiver (9 ∷ []))
        4
      ≡ some (a', b'))
    × HasCrossed 1 0 (sender sync 4000000) (receiver (9 ∷ [])) a' b' 4 9
long_send_lem_example =
    long_send_lem (env_of 0) (env_of 1) [] 0 0 1 0 (sender sync 4000000) (receiver (9 ∷ [])) 4 0 9
      (record { there = refl; created = refl; fine = refl; far = refl; unheld = refl; long = refl })
      (receive_at_9 sync 4000000) refl refl refl refl

short_send_lem_example :
    (a' b' : Node) × (short_send
        (env_of 0)
        (env_of 1)
        (supply [] 0)
        0
        1
        (sender standard 4)
        (receiver (9 ∷ []))
        4
      ≡ some (a', b'))
    × HasCrossed 0 0 (sender standard 4) (receiver (9 ∷ [])) a' b' 4 9
short_send_lem_example =
    short_send_lem (env_of 0) (env_of 1) [] 0 0 1 0 (sender standard 4) (receiver (9 ∷ [])) 4 0 9
      (record {
        there = refl;
        created = refl;
        fine = refl;
        far = refl;
        unheld = refl;
        short = refl;
      })
      (receive_at_9 standard 4) refl refl refl refl

-- four bytes have come from machine 0, and the first of the next message
abbrev behind : Node
behind = record (receiver []) { incoming = update (λ mac. []) 0 (1 ∷ 2 ∷ 3 ∷ 4 ∷ 9 ∷ []) }

rmds_handle-reads_example :
    WhenGood
      (λ w'. IsRead behind.incoming w'.incoming 0 4)
      (rmds_handle (env_of 1) true (7 ∷ 8 ∷ []) 600 behind (far_handle standard 4))
rmds_handle-reads_example =
    rmds_handle-reads (env_of 1) behind (far_handle standard 4) 0 0 refl (omega arith) true
      (7 ∷ 8 ∷ []) 600

abbrev due : Node
due = record behind { rhs = λ p. in_handle pend_data }

cancelled_recv_loses_data_example :
    let w1 = state_of due (cancel_rh (env_of 1) due 9) in
    let k = w1.rhs 9 in
    (w' : Node) × (rds_handle (env_of 1) true w1 4 9 4 ≡ handled true w')
    × (w'.mem ≡ due.mem)
    × (w'.incoming ≡ due.incoming)
    × (w'.sent ≡ due.sent ++ dat_recv k.dest k.src 4 (min k.buflen 4) success ∷ [])
cancelled_recv_loses_data_example = cancelled_recv_loses_data (env_of 1) due 4 9 4 refl refl

-- a ready send under way, at 4
abbrev early : Node
early = record (sender ready 4) { shs = λ p. record (far_handle ready 4) { stat = pend_strt } }

abbrev early_handle : SHandle
early_handle = record (far_handle ready 4) { remote_send_handle = 4; handle_type = remote_msg_send }

nowhere : rq_probe (receiver []) 0 5 (pos 7) (pos 0) ≡ none
unfolding rq_probe probe
nowhere = refl

channel_0 : channel_of (env_of 1) 1 (pos 1) ≡ some 0
unfolding channel_of get_channel grank_to_lrank
channel_0 = refl

ready_send_refused_example :
    (rms_handle (env_of 1) true [] (receiver []) early_handle
      ≡ handled true
          (record (receiver []) { sent = [] ++ not_ready (pos 1) (pos 0) 4 4 success ∷ [] }))
    × (a' : Node) × (dispatch (env_of 0) (supply [] 0) early (not_ready (pos 1) (pos 0) 4 4 success)
        ≡ handled true a')
    × (a'' : Node) × (wake_ready_sh (env_of 0) a' 4 true
        ≡ returns a'' (
            reply err_nrdy
              (some (record {
                status_len = 4;
                mpi_source = pos 0;
                mpi_tag = pos 7;
                mpi_error = err_nrdy;
              }))
              0))
    × ((a''.shs 4).stat ≡ free)
ready_send_refused_example =
    ready_send_refused (env_of 0) (env_of 1) (supply [] 0) early (receiver []) early_handle 0 true
      channel_0 nowhere refl refl refl refl
