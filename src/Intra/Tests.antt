-- ===== src/Intra/Tests.antt =====
-- Two processes on one machine with one message between them: the state that the examples run on.
pub mod Setups
pub mod Matching
pub mod Completion
use tmpi.Base.{ℕ, ◌%◌, ◌≡◌, refl, false, Option, none, some, List, [], ◌∷◌, arith, ℤ, pos, negsuc}
use tmpi.Intra.Types.{
  Mode, Stat, SHandle, RHandle, Node, Env, update, success, send, recv, create, pend_strt,
}
use tmpi.Intra.Channel.{any_tag, grank_to_lrank, get_channel, channel_of}
use tmpi.Intra.Quiet.{Quiet}

-- rank i is process i of machine 0
abbrev pub local_rank : ℤ → Option (ℕ × ℕ)
local_rank (pos i) = some (0, i)
local_rank (negsuc i) = none

abbrev pub env : Env
env = record {
  trans_global_rank = local_rank;
  local_mac = 0;
  ctypes = record {
    char_size = 1;
    short_size = 2;
    int_size = 4;
    long_size = 8;
    float_size = 4;
    double_size = 8;
    long_double_size = 16;
  };
}

-- from rank 0 to rank 1, 4 bytes at 100, with a system buffer at 200
abbrev pub out_handle : Mode → Stat → SHandle
out_handle m st = record {
  handle_type = send;
  stat = st;
  context = 5;
  tag = pos 7;
  src = pos 0;
  dest = pos 1;
  count = 4;
  datatype = 3;
  curdata = 100;
  buflen = 4;
  send_mode = m;
  user_buf = 100;
  sys_buf = 200;
  errval = success;
  is_remote = false;
  locked = false;
  remote_send_handle = 0;
}

-- rank 1 takes any tag from rank 0, at most 3 bytes, to 300
abbrev pub in_handle : Stat → RHandle
in_handle st = record {
  handle_type = recv;
  stat = st;
  context = 5;
  tag = any_tag;
  src = pos 0;
  dest = pos 1;
  data_buf = 300;
  buflen = 3;
  errval = success;
  perm_source = pos 0;
  perm_tag = any_tag;
  perm_len = 3;
}

-- Every send handle is `out_handle`, every receive handle `in_handle`; what differs is in the two
-- queues of channel 1.
abbrev pub node : (sends recvs : List ℕ) → SHandle → RHandle → Node
node sends recvs h k = record {
  channel_size = 2;
  sq = update (λ ch. []) 1 sends;
  rq = update (λ ch. []) 1 recvs;
  sq_allocate = λ ch. [];
  rq_allocate = λ ch. [];
  shs = λ p. h;
  rhs = λ p. k;
  mem = λ a. a % 256;
  sent = [];
  mb_freed = [];
  incoming = λ mac. [];
  msgs_kept = 0;
}

-- one receive, at 9, is queued
abbrev pub posted : Mode → Node
posted m = node [] (9 ∷ []) (out_handle m create) (in_handle pend_strt)

-- one send, at 4, is queued
abbrev pub offered : Mode → Node
offered m = node (4 ∷ []) [] (out_handle m pend_strt) (in_handle create)

channel_of_1 : channel_of env 2 (pos 1) ≡ some 1
unfolding channel_of get_channel grank_to_lrank
channel_of_1 = refl

pub posted-Quiet : (m : Mode) → Quiet env (posted m)
posted-Quiet m = record {
  pending_s = λ ch s h. ground arith;
  pending_r = λ ch r h. refl;
  distinct_s = λ ch. ground arith;
  distinct_r = λ ch. ground arith;
  at_dest_s = λ ch s h. ground (arith, channel_of_1);
  at_dest_r = λ ch r h. ground (arith, channel_of_1);
  no_pair = λ ch s r hs hr. ground arith;
}

pub offered-Quiet : (m : Mode) → Quiet env (offered m)
offered-Quiet m = record {
  pending_s = λ ch s h. refl;
  pending_r = λ ch r h. ground arith;
  distinct_s = λ ch. ground arith;
  distinct_r = λ ch. ground arith;
  at_dest_s = λ ch s h. ground (arith, channel_of_1);
  at_dest_r = λ ch r h. ground (arith, channel_of_1);
  no_pair = λ ch s r hs hr. ground arith;
}
