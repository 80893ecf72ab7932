-- ===== src/Api/Hazards.antt =====
-- Where mpi_sr.c does not do what it means to.
use tmpi.Base.{
  ℕ, ◌≡◌, refl, sym, ap, ◌∙◌, Bool, false, not, none, some, List, ◌∷◌, ◌==◌, if◌then◌else◌,
}
use tmpi.Util.{usize}
use tmpi.Queue.{enqueue}
use tmpi.Intra.Types.{
  Code, SHandle, RHandle, Node, Env, Supply, update, update_self, success, err_nrdy, ready,
  pend_strt, matched, free,
}
use tmpi.Intra.Channel.{
  channel_of, rq_probe, sq_enq, set_sh, set_rh, alloc_elem, free_sh, free_rh, is_persistent_send,
  is_persistent_recv, finish_sh, finish_rh, rh_status, when_asked, reply,
}
use tmpi.Intra.Create.{
  int_product, Args, new_sh, new_rh, made, fill_rh, init_rh, blocking, immediate,
}
use tmpi.Intra.Start.{send_at, start_sh}
use tmpi.Intra.Complete.{
  complete_sh, complete_rh, wait_pending, intra_wait_sh, wait_rh, wait_sh, returns,
}
use tmpi.Intra.Delivery.Buffered.{finish_sh-frame}
use tmpi.Api.Send.{blocking_send, tmpi_rsend}
use tmpi.Api.Recv.{tmpi_recv_init}
use tmpi.Api.Meets.{
  CanSend, made_state, complete_sh-blocking, init_sh_lem, start_sh_near, rq_probe_new,
}
use tmpi.Api.Request.{wait, recv_request}
use tmpi.Intra.Delivery.Rendezvous.{finish_rh-frame, finish_rh-handle}

-- What tmpi_intra_init_rh needs to make the handle `p`.
pub record CanRecv (env : Env) (s : Supply) (w : Node) (a : Args) (own context len p : ℕ)
    (cache : List ℕ) : Type 0 where
  pub caller : channel_of env w.channel_size a.to ≡ some own
  pub size : int_product (usize env.ctypes a.datatype) a.count ≡ some len
  pub comm : a.context ≡ some context
  pub fresh : alloc_elem (w.rq_allocate own) s.chunk ≡ (p, cache)
  pub there : (p == 0) ≡ false

-- A later state, in which the receive that stood at `p` has been matched; its kind and its receiver
-- have not changed, nor has the number of channels.
pub record HasMatched (w w' : Node) (p : ℕ) : Type 0 where
  pub kind : (w'.rhs p).handle_type ≡ (w.rhs p).handle_type
  pub receiver : (w'.rhs p).dest ≡ (w.rhs p).dest
  pub channels : w'.channel_size ≡ w.channel_size
  pub done : (w'.rhs p).stat ≡ matched

-- a wait for a matched receive that is not persistent
wait-matched :
    (env : Env) (w : Node) (p own : ℕ) (asked : Bool)
    → (p == 0) ≡ false
    → (w.rhs p).stat ≡ matched
    → is_persistent_recv (w.rhs p).handle_type ≡ false
    → channel_of env w.channel_size (w.rhs p).dest ≡ some own
    → (w' : Node) × (wait env w (recv_request p) asked
        ≡ returns w' (reply success (when_asked asked (rh_status (w.rhs p))) 0))
      × ((w'.rhs p).stat ≡ free)
      × (w'.rq_allocate own ≡ p ∷ w.rq_allocate own)
unfolding wait wait_rh complete_rh finish_rh free_rh
wait-matched env w p own asked there done once home =
    let gone : (finish_rh env w p).1 ≡ 0 =
      finish_rh-handle env w p ∙ ap (λ b. if b then p else 0) once in
    (
      (finish_rh env w p).0,
      rw (there, done) (rw gone refl),
      (finish_rh-frame env w p).0,
      rw (once, home) (update_self w.rq_allocate own (p ∷ w.rq_allocate own)),
    )

-- A receive that tmpi_Recv_init has made with success is not there for another start, as a persistent
-- one is: in any later state in which it is matched, and its kind and its receiver are as they were
-- made, a wait for it returns with success and the receive's status, leaves MPI_REQUEST_NULL of the
-- request, and puts the handle, which is free, in front of the cache of the receiver's channel.
pub tmpi_recv_init_lem :
    (env : Env) (s : Supply) (junk : Bool) (w : Node) (a : Args) (own context len p : ℕ)
    (cache : List ℕ) (w1 w2 : Node) (asked : Bool)
    → CanRecv env s w a own context len p cache
    → tmpi_recv_init env s junk (some a.to) w a ≡ returns w1 (reply success none p)
    → HasMatched w1 w2 p
    → (w3 : Node) × (wait env w2 (recv_request p) asked
        ≡ returns w3 (reply success (when_asked asked (rh_status (w2.rhs p))) 0))
      × ((w3.rhs p).stat ≡ free)
      × (w3.rq_allocate own ≡ p ∷ w2.rq_allocate own)
unfolding tmpi_recv_init init_rh fill_rh new_rh
tmpi_recv_init_lem env s junk w a own context len p cache w1 w2 asked v made_w1 m =
    let k = new_rh (w.rhs p) a context len immediate in
    let w' = set_rh (record w { rq_allocate = update w.rq_allocate own cache }) p k in
    let made_it : init_rh env s w a immediate ≡ made w' success p =
      rw (v.caller, init_rh, v.size, v.comm)
        (ap (fill_rh w a immediate own context len) v.fresh ∙ rw v.there) in
    let result : returns w' (reply success none p) ≡ returns w1 (reply success none p) =
      sym (rw made_it refl) ∙ made_w1 in
    let same : w' ≡ w1 = cc in
    let made_k = ap (λ (x : Node). x.rhs p) (sym same) ∙ update_self w.rhs p k in
    let once = ap is_persistent_recv (m.kind ∙ ap RHandle.handle_type made_k) in
    let home =
      ap (λ (n : ℕ). channel_of env n (w2.rhs p).dest)
        (m.channels ∙ ap Node.channel_size (sym same))
      ∙ ap (channel_of env w.channel_size) (m.receiver ∙ ap RHandle.dest made_k)
      ∙ v.caller in
    let (w3, ends, gone, cached) = wait-matched env w2 p own asked v.there m.done once home in
    (w3, ends, gone, cached)

finish_sh_cache :
    (env : Env) (w : Node) (p own : ℕ)
    → is_persistent_send (w.shs p).handle_type ≡ false
    → channel_of env w.channel_size (w.shs p).src ≡ some own
    → (finish_sh env w p).0.sq_allocate own ≡ p ∷ w.sq_allocate own
unfolding finish_sh free_sh
finish_sh_cache env w p own once there =
    rw (once, there) (update_self w.sq_allocate own (p ∷ w.sq_allocate own))

module _ (env : Env) (s : Supply) (w : Node) (a : Args) (own ch context len p : ℕ) (cache : List ℕ)
    (v : CanSend env s w a ready own ch context len p cache) where
  abbrev new_handle : SHandle
  new_handle = new_sh env (w.shs p) a context len s.mb ready blocking

  abbrev state : Node
  state = made_state env s w a ready blocking own context len p cache

  -- the state in which the unmatched send is queued
  abbrev queued : Node
  queued = sq_enq (set_sh state p (record (state.shs p) { stat = pend_strt })) ch p

  queued_sh : queued.shs p ≡ record new_handle { stat = pend_strt }
  unfolding new_sh
  queued_sh =
      update_self state.shs p (record (state.shs p) { stat = pend_strt })
      ∙ ap (λ (x : SHandle). record x { stat = pend_strt }) (update_self w.shs p new_handle)

  send_at_unmatched :
      (w1 : Node)
      → rq_probe w1 ch (w1.shs p).context (w1.shs p).tag (w1.shs p).src ≡ none
      → send_at w1 ch p ≡ sq_enq (set_sh w1 p (record (w1.shs p) { stat = pend_strt })) ch p
  unfolding send_at
  send_at_unmatched w1 e = rw (e, send_at)

  start_unmatched :
      rq_probe w ch context a.tag a.from ≡ none → start_sh env s.got_msg state p ≡ (queued, success)
  start_unmatched missed =
      start_sh_near env s w a ready blocking own ch context len p cache v
      ∙ ap (λ (x : Node). let y : Node × Code = (x, success) in y)
          (send_at_unmatched state
            (rq_probe_new env s w a ready blocking own ch context len p cache v ∙ missed))

  wait_unmatched : wait_sh env queued p false ≡ complete_sh env queued p false err_nrdy err_nrdy
  unfolding wait_sh intra_wait_sh wait_pending new_sh
  wait_unmatched =
      let near : (queued.shs p).is_remote ≡ false =
        ap SHandle.is_remote queued_sh ∙ ap not v.near in
      let unheld = ap SHandle.locked queued_sh in
      let pend = ap SHandle.stat queued_sh in
      let mode = ap SHandle.send_mode queued_sh in
      rw (v.there, near, intra_wait_sh, unheld, pend, mode, wait_pending)

module _ (env : Env) (s : Supply) (junk : Bool) (w : Node) (a : Args) (own ch context len p : ℕ)
    (cache : List ℕ) where
  -- tmpi_Rsend inside the node, whose handle can be made, and which finds no receive, returns
  -- MPI_ERR_NRDY, but its handle stands at the end of the receiver's send queue although it is free,
  -- and is the next one that Q_newElem gives from the channel of the caller.
  pub tmpi_rsend_unmatched :
      CanSend env s w a ready own ch context len p cache
      → rq_probe w ch context a.tag a.from ≡ none
      → (w' : Node) × (tmpi_rsend env s junk (some a.from) w a ≡ returns w' (reply err_nrdy none 0))
        × (w'.sq ch ≡ enqueue (w.sq ch) p)
        × ((w'.shs p).stat ≡ free)
        × ((chunk : List ℕ) → (alloc_elem (w'.sq_allocate own) chunk).0 ≡ p)
  unfolding tmpi_rsend blocking_send new_sh alloc_elem
  tmpi_rsend_unmatched v missed =
      let w2 = queued env s w a own ch context len p cache v in
      let h = queued_sh env s w a own ch context len p cache v in
      let (gone, mem, rhs, sq, rq) = finish_sh-frame env w2 p in
      let made_it = init_sh_lem env s w a ready blocking own ch context len p cache v in
      let begun = start_unmatched env s w a own ch context len p cache v missed in
      let once = ap (λ (x : SHandle). is_persistent_send x.handle_type) h in
      let ended =
        wait_unmatched env s w a own ch context len p cache v
        ∙ complete_sh-blocking env w2 p err_nrdy err_nrdy once in
      let home = ap (λ (x : SHandle). channel_of env w.channel_size x.src) h ∙ v.caller in
      (
        (finish_sh env w2 p).0,
        rw (made_it, begun) ended,
        ap (λ (f : ℕ → List ℕ). f ch) sq ∙ update_self w.sq ch (enqueue (w.sq ch) p),
        gone,
        λ chunk.
            ap (λ (c : List ℕ). (alloc_elem c chunk).0) (finish_sh_cache env w2 p own once home),
      )
