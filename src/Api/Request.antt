-- ===== src/Api/Request.antt =====
-- Requests, and the calls that take one. Where a call has to wait, `sleeps` ends what it does up to
-- there; the wake_ functions of Intra.Complete are what it does then.
use tmpi.Base.{ℕ, Bool, false, not, Option, none, some, ◌==◌, if◌then◌else◌}
use tmpi.Intra.Types.{Code, has_bit, Node, Env, Reply, success, err_request}
use tmpi.Intra.Channel.{channel_of, free_sh, free_rh, reply}
use tmpi.Intra.Start.{start_sh, start_rh}
use tmpi.Intra.Complete.{Outcome, wait_rh, wait_sh, returns, sleeps, stuck}
use tmpi.Intra.Cancel.{cancel_sh, cancel_rh, Tested, tested, test_sh, test_rh}

-- An MPI_Request: MPI_REQUEST_NULL, or a handle, by whose type isSendRequest tells the two kinds.
pub data Request : Type 0 where
  null_request : Request
  send_request : ℕ → Request
  recv_request : ℕ → Request

-- `stat&(TMPI_FREE|TMPI_CREATE)`
abbrev pub unused_mask : ℕ
unused_mask = 0x101

-- tmpi_intra_free_sh for the channel of the sender, if it has one; *psh is NULL then
unfoldable pub drop_sh : Env → Node → ℕ → Outcome
drop_sh env w p = elim (channel_of env w.channel_size (w.shs p).src) [
  | none ↦ returns w (reply success none 0)
  | some ch ↦ returns (free_sh env w ch p) (reply success none 0)
]

unfoldable pub drop_rh : Env → Node → ℕ → Outcome
drop_rh env w p = elim (channel_of env w.channel_size (w.rhs p).dest) [
  | none ↦ returns w (reply success none 0)
  | some ch ↦ returns (free_rh w ch p) (reply success none 0)
]

-- what follows a call that has returned
abbrev pub after : Outcome → (Node → Reply → Outcome) → Outcome
after (returns w r) f = f w r
after (sleeps w) f = sleeps w
after stuck f = stuck

-- `flag`, of which `junk` is the value if the test did not write it
abbrev pub flag_or : (junk : Bool) → Option Bool → Bool
flag_or junk none = junk
flag_or junk (some b) = b

-- what tmpi_Request_free_sh does with the result of the test
unfoldable pub free_tested_sh : Env → (flag : Bool) → Node → ℕ → Outcome
free_tested_sh env flag w p =
    if not flag
    then returns w (reply err_request none p)
    else if p == 0
    then returns w (reply success none 0)
    else drop_sh env w p

unfoldable pub free_tested_rh : Env → (flag : Bool) → Node → ℕ → Outcome
free_tested_rh env flag w p =
    if not flag
    then returns w (reply err_request none p)
    else if p == 0
    then returns w (reply success none 0)
    else drop_rh env w p

-- tmpi_Request_free_sh
unfoldable pub request_free_sh : Env → (junk : Bool) → Node → ℕ → Outcome
request_free_sh env junk w p =
    if p == 0
    then returns w (reply success none 0)
    else if (w.shs p).locked
    then stuck
    else if has_bit (w.shs p).stat unused_mask
    then drop_sh env w p
    else let t = test_sh env w p false in
      after t.outcome (λ w' r. free_tested_sh env (flag_or junk t.flag) w' r.handle)

-- tmpi_Request_free_rh
unfoldable pub request_free_rh : Env → (junk : Bool) → Node → ℕ → Outcome
request_free_rh env junk w p =
    if p == 0
    then returns w (reply success none 0)
    else if has_bit (w.rhs p).stat unused_mask
    then drop_rh env w p
    else let t = test_rh env w p false in
      after t.outcome (λ w' r. free_tested_rh env (flag_or junk t.flag) w' r.handle)

-- tmpi_Request_free
unfoldable pub request_free : Env → (junk : Bool) → Node → Request → Outcome
request_free env junk w null_request = returns w (reply success none 0)
request_free env junk w (send_request p) = request_free_sh env junk w p
request_free env junk w (recv_request p) = request_free_rh env junk w p

-- a start as an outcome; it leaves *req as it is
abbrev pub started_rh : Option (Node × Code) → ℕ → Outcome
started_rh none p = stuck
started_rh (some (w, c)) p = returns w (reply c none p)

-- tmpi_Start
unfoldable pub start : Env → (got_msg : Bool) → Node → Request → Outcome
start env got_msg w null_request = returns w (reply success none 0)
start env got_msg w (send_request p) =
    let (w', c) = start_sh env got_msg w p in returns w' (reply c none p)
start env got_msg w (recv_request p) = started_rh (start_rh env got_msg w p) p

-- tmpi_Wait, up to its sleep
unfoldable pub wait : Env → Node → Request → (asked : Bool) → Outcome
wait env w null_request asked = returns w (reply success none 0)
wait env w (send_request p) asked = wait_sh env w p asked
wait env w (recv_request p) asked = wait_rh env w p asked

-- tmpi_Cancel; `garbage` is the address of tmpi_garbage_data
unfoldable pub cancel : Env → (garbage : ℕ) → Node → Request → Outcome
cancel env garbage w null_request = returns w (reply success none 0)
cancel env garbage w (send_request p) = cancel_sh env garbage w p
cancel env garbage w (recv_request p) = cancel_rh env w p

-- tmpi_Test
unfoldable pub test : Env → Node → Request → (asked : Bool) → Tested
test env w null_request asked = tested none (returns w (reply success none 0))
test env w (send_request p) asked = test_sh env w p asked
test env w (recv_request p) asked = test_rh env w p asked

-- the request after a call: the handle that it was about may be gone
abbrev pub left_request : Request → (handle : ℕ) → Request
left_request null_request h = null_request
left_request (send_request p) h = if h == 0 then null_request else send_request h
left_request (recv_request p) h = if h == 0 then null_request else recv_request h
