-- ===== src/Api/Tests.antt =====
-- Calls of two processes of one machine: rank 0 sends 4 bytes at 100 to rank 1.
use tmpi.Base.{
  ℕ, ◌+◌, ◌*◌, ◌^◌, ◌≡◌, refl, true, false, Option, none, some, List, [], ◌∷◌, arith, pos,
}
use tmpi.Util.{usize}
use tmpi.Queue.{enqueue, probe}
use tmpi.Intra.Types.{
  Mode, Node, Supply, update, success, err_nrdy, standard, ready, sync, matched, free,
}
use tmpi.Intra.Channel.{
  grank_to_lrank, get_channel, channel_of, rq_cmp, rq_probe, set_rh, alloc_elem, finish_rh, reply,
}
use tmpi.Intra.Create.{
  int_product, is_local_node, Args, new_rh, made, init_sh, fill_rh, init_rh, immediate,
}
use tmpi.Intra.Complete.{complete_rh, returns}
use tmpi.Intra.Tests.{env, posted, offered}
use tmpi.Api.Request.{Request, wait, test, null_request, recv_request}
use tmpi.Api.Send.{blocking_send, tmpi_rsend}
use tmpi.Api.Recv.{tmpi_recv_init}
use tmpi.Api.Many.{Round, no_round, test_each, testsome}
use tmpi.Api.Indices.{Chosen, testsome_indices}
use tmpi.Api.Meets.{CanSend, Arrived, blocking_send_meets}
use tmpi.Api.Hazards.{CanRecv, HasMatched, tmpi_recv_init_lem, tmpi_rsend_unmatched}
use tmpi.Api.Lengths.{init_sh-wraps}
use tmpi.Intra.Cancel.{test_rh}

abbrev message : Args
message = record {
  context = some 5;
  buf = 100;
  from = pos 0;
  to = pos 1;
  tag = pos 7;
  datatype = 3;
  count = pos 4;
}

-- handles 20 and 21 would be a new chunk, and 400 a new buffer
abbrev gives : Supply
gives = record { got_msg = true; chunk = 20 ∷ 21 ∷ []; mb = 400; old_request = 0 }

send_possible : (m : Mode) → CanSend env gives (posted m) message m 0 1 5 4 20 (21 ∷ [])
unfolding channel_of get_channel grank_to_lrank int_product usize alloc_elem is_local_node
send_possible m = record {
  caller = refl;
  size = refl;
  comm = refl;
  fresh = refl;
  there = refl;
  room = ground arith;
  near = refl;
  dest = refl;
}

receive_there : rq_probe (posted standard) 1 5 (pos 7) (pos 0) ≡ some 9
unfolding rq_probe rq_cmp probe
receive_there = refl

blocking_send_meets_example :
    (w' : Node) × (blocking_send env gives true (some (pos 0)) (posted standard) message standard
      ≡ returns w' (reply success none 0))
    × Arrived (posted standard).mem w'.mem message 4 ((posted standard).rhs 9) (w'.rhs 9)
    × ((w'.shs 20).stat ≡ free)
blocking_send_meets_example =
    blocking_send_meets env gives true (posted standard) message standard 0 1 5 4 20 9 (21 ∷ [])
      (send_possible standard) receive_there refl

receive_missing : rq_probe (offered ready) 1 5 (pos 7) (pos 0) ≡ none
unfolding rq_probe probe
receive_missing = refl

rsend_possible : CanSend env gives (offered ready) message ready 0 1 5 4 20 (21 ∷ [])
unfolding channel_of get_channel grank_to_lrank int_product usize alloc_elem is_local_node
rsend_possible = record {
  caller = refl;
  size = refl;
  comm = refl;
  fresh = refl;
  there = refl;
  room = refl;
  near = refl;
  dest = refl;
}

tmpi_rsend_unmatched_example :
    (w' : Node) × (tmpi_rsend env gives true (some (pos 0)) (offered ready) message
      ≡ returns w' (reply err_nrdy none 0))
    × (w'.sq 1 ≡ enqueue (4 ∷ []) 20)
    × ((w'.shs 20).stat ≡ free)
    × ((chunk : List ℕ) → (alloc_elem (w'.sq_allocate 0) chunk).0 ≡ 20)
tmpi_rsend_unmatched_example =
    tmpi_rsend_unmatched env gives true (offered ready) message 0 1 5 4 20 (21 ∷ []) rsend_possible
      receive_missing

-- the state after it, and one in which the receive has been matched
abbrev set_up : Node
set_up =
    set_rh (record (offered sync) { rq_allocate = update (λ ch. []) 1 (21 ∷ []) }) 20
      (new_rh ((offered sync).rhs 20) message 5 4 immediate)

abbrev met : Node
met = set_rh set_up 20 (record (set_up.rhs 20) { stat = matched })

recv_made :
    tmpi_recv_init env gives true (some (pos 1)) (offered sync) message
    ≡ returns set_up (reply success none 20)
unfolding tmpi_recv_init init_rh fill_rh channel_of get_channel grank_to_lrank int_product usize
    alloc_elem
recv_made = refl

met-HasMatched : HasMatched set_up met 20
unfolding new_rh
met-HasMatched = record { kind = refl; receiver = refl; channels = refl; done = refl }

recv_possible : CanRecv env gives (offered sync) message 1 5 4 20 (21 ∷ [])
unfolding channel_of get_channel grank_to_lrank int_product usize alloc_elem
recv_possible = record { caller = refl; size = refl; comm = refl; fresh = refl; there = refl }

tmpi_recv_init_lem_example :
    (w3 : Node) × (wait env met (recv_request 20) false ≡ returns w3 (reply success none 0))
    × ((w3.rhs 20).stat ≡ free)
    × (w3.rq_allocate 1 ≡ 20 ∷ met.rq_allocate 1)
tmpi_recv_init_lem_example =
    tmpi_recv_init_lem env gives true (offered sync) message 1 5 4 20 (21 ∷ []) set_up met false
      recv_possible recv_made met-HasMatched

-- 2^30 + 1 items of four bytes
abbrev long_message : Args
long_message = record message { datatype = 6; count = pos 0x40000001 }

long_possible : CanSend env gives (offered ready) long_message ready 0 1 5 4 20 (21 ∷ [])
unfolding channel_of get_channel grank_to_lrank int_product usize alloc_elem is_local_node
long_possible = record {
  caller = refl;
  size = refl;
  comm = refl;
  fresh = refl;
  there = refl;
  room = refl;
  near = refl;
  dest = refl;
}

four : usize env.ctypes 6 ≡ 4
unfolding usize
four = refl

init_sh-wraps_example :
    (w' : Node) × (init_sh env gives (offered ready) long_message ready immediate
      ≡ made w' success 20)
    × ((w'.shs 20).curdata ≡ 100)
    × ((w'.shs 20).buflen + 2 ^ 32 ≡ usize env.ctypes 6 * 0x40000001)
init_sh-wraps_example =
    init_sh-wraps env gives (offered ready) long_message ready immediate 0 1 5 4 20 0x40000001
      (21 ∷ []) long_possible refl (omega (arith, four)) (omega (arith, four))

-- a receive that is done, behind a null request
abbrev requests : List Request
requests = null_request ∷ recv_request 20 ∷ []

abbrev round_of : Option (List ℕ × Round) → Round
round_of none = no_round met success
round_of (some (is, r)) = r

abbrev tested_round : Round
tested_round = round_of (testsome env met requests)

second_done : testsome env met requests ≡ some (1 ∷ [], tested_round)
unfolding testsome test_each test test_rh complete_rh finish_rh new_rh
second_done = refl

testsome_indices_example : Chosen env 0 met requests (1 ∷ []) tested_round.state
testsome_indices_example = testsome_indices env met requests (1 ∷ []) tested_round second_done
