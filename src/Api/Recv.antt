-- ===== src/Api/Recv.antt =====
-- tmpi_Recv, tmpi_Irecv and tmpi_Recv_init, and the two calls that send and receive.
use tmpi.Base.{ℕ, Bool, false, Option, none, if◌then◌else◌, ℤ}
use tmpi.Intra.Types.{Code, Node, Env, Supply, success}
use tmpi.Intra.Channel.{is_success, reply}
use tmpi.Intra.Create.{is_local_node, Args, Made, init_rh, blocking, immediate}
use tmpi.Intra.Start.{start_rh}
use tmpi.Intra.Complete.{Outcome, wait_rh, returns}
use tmpi.Api.Request.{
  Request, after, request_free_rh, started_rh, wait, left_request, send_request, recv_request,
}
use tmpi.Api.Send.{give_up, with_rank, tmpi_isend, tmpi_bsend, tmpi_rsend}

abbrev pub when_made_rh : Env → (junk : Bool) → Made → (Node → ℕ → Outcome) → Outcome
when_made_rh env junk m f =
    if is_success m.code
    then f m.state m.handle
    else give_up m.code (request_free_rh env junk m.state m.handle)

abbrev pub when_started_rh : Env → (junk got_msg : Bool) → (Node → ℕ → Outcome) → Node → ℕ → Outcome
when_started_rh env junk got_msg f w p =
    after (started_rh (start_rh env got_msg w p) p)
      (λ w' r. if is_success r.code then f w' p else give_up r.code (request_free_rh env junk w' p))

module _ (env : Env) (s : Supply) (junk : Bool) (me : Option ℤ) (w : Node) (a : Args) where
  unfoldable pub tmpi_recv : (asked : Bool) → Outcome
  tmpi_recv asked = with_rank s.old_request me w (λ rank.
      when_made_rh env junk (init_rh env s w (record a { to = rank }) blocking)
        (when_started_rh env junk s.got_msg (λ w' p. wait_rh env w' p asked)))

  unfoldable pub tmpi_irecv : Outcome
  tmpi_irecv = with_rank s.old_request me w (λ rank.
      when_made_rh env junk (init_rh env s w (record a { to = rank }) immediate)
        (when_started_rh env junk s.got_msg (λ w' p. returns w' (reply success none p))))

  -- tmpi_Recv_init asks for an immediate receive, as tmpi_Irecv does.
  unfoldable pub tmpi_recv_init : Outcome
  tmpi_recv_init = with_rank s.old_request me w (λ rank.
      when_made_rh env junk (init_rh env s w (record a { to = rank }) immediate)
        (λ w' p. returns w' (reply success none p)))

-- the first failure of the two halves
abbrev pub first_failure : Code → Code → Code
first_failure c1 c2 = if is_success c1 then c2 else c1

-- the end of tmpi_Sendrecv and tmpi_Sendrecv_replace: the wait for the receive
unfoldable pub wait_received : Env → (asked : Bool) → Code → Node → Request → Outcome
wait_received env asked c1 w q =
    after (wait env w q asked) (λ w' r. returns w' (reply (first_failure c1 r.code) r.status 0))

-- tmpi_Sendrecv, which looks at neither result before it waits. `a` is about the send, `b` about
-- the receive. Without a rank neither call sets its request, and the source waits for what its two
-- variables held; here that is `old_request` for both.
unfoldable pub tmpi_sendrecv :
    Env → Supply → (junk : Bool) → Option ℤ → Node → (a b : Args) → (asked : Bool) → Outcome
tmpi_sendrecv env s junk me w a b asked = after (tmpi_isend env s junk me w a) (λ w1 r1.
    after (tmpi_irecv env s junk me w1 b) (λ w2 r2.
      after (wait env w2 (left_request (send_request 0) r1.handle) false)
        (λ w3 r3. wait_received env asked r3.code w3 (left_request (recv_request 0) r2.handle))))

-- the send of tmpi_Sendrecv_replace: ready-mode inside the node, and buffered if that fails
unfoldable pub replace_send : Env → Supply → (junk : Bool) → Option ℤ → Node → Args → Outcome
replace_send env s junk me w a =
    let again = λ (w' : Node). tmpi_bsend env s junk me w' a in
    if is_local_node env a.to
    then after (tmpi_rsend env s junk me w a)
        (λ w' r. if is_success r.code then returns w' r else again w')
    else again w

-- tmpi_Sendrecv_replace
unfoldable pub tmpi_sendrecv_replace :
    Env → Supply → (junk : Bool) → Option ℤ → Node → (a b : Args) → (asked : Bool) → Outcome
tmpi_sendrecv_replace env s junk me w a b asked = after (replace_send env s junk me w a) (λ w1 r1.
    after (tmpi_irecv env s junk me w1 b)
      (λ w2 r2. wait_received env asked r1.code w2 (left_request (recv_request 0) r2.handle)))
