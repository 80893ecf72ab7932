-- ===== src/Api/Meets.antt =====
-- A blocking send to a receive that waits inside the node, as one call.
use tmpi.Base.{
  ℕ, ◌+◌, ◌≤◌, ◌<◌, min, ◌≡◌, refl, sym, ap, ◌∙◌, subst, ◌⊎◌, Bool, true, false, not, ◌&&◌, none,
  some, List, ltb, ◌==◌, if◌then◌else◌,
}
use tmpi.Util.{usize}
use tmpi.Intra.Types.{
  Code, Mode, SHandle, RHandle, Node, Env, Supply, update, update_self, success, matched, free,
}
use tmpi.Intra.Channel.{
  channel_of, rq_probe, set_sh, alloc_elem, is_persistent_send, is_success, finish_sh, bytes, reply,
}
use tmpi.Intra.Create.{
  int_product, is_local_node, Args, Life, wants_buffer, no_room, new_sh, made, fill_sh, init_sh,
  blocking,
}
use tmpi.Intra.Start.{not_startable_sh, match_send, send_at, intra_start_sh, start_sh}
use tmpi.Intra.Complete.{complete_sh, intra_wait_sh, wait_sh, returns}
use tmpi.Intra.Delivery.Order.{Delivered, waiting, match_send-Delivered}
use tmpi.Intra.Delivery.Buffered.{finish_sh-frame, finish_sh-handle}
use tmpi.Api.Request.{wait}
use tmpi.Api.Send.{blocking_send}

-- What tmpi_intra_init_sh needs to make a handle: the caller's channel, a length that an int holds, a
-- communicator, a handle `p`, room for the data where the mode wants it; and a receiver in
-- this node.
pub record CanSend (env : Env) (s : Supply) (w : Node) (a : Args) (mode : Mode)
    (own ch context len p : ℕ) (cache : List ℕ) : Type 0 where
  pub caller : channel_of env w.channel_size a.from ≡ some own
  pub size : int_product (usize env.ctypes a.datatype) a.count ≡ some len
  pub comm : a.context ≡ some context
  pub fresh : alloc_elem (w.sq_allocate own) s.chunk ≡ (p, cache)
  pub there : (p == 0) ≡ false
  pub room : no_room mode (if wants_buffer mode && ltb 0 len then s.mb else 0) len ≡ false
  pub near : is_local_node env a.to ≡ true
  pub dest : channel_of env w.channel_size a.to ≡ some ch

-- the state in which the new handle is made
abbrev pub made_state :
    Env → Supply → Node → Args → Mode → Life → (own context len p : ℕ) → (cache : List ℕ) → Node
made_state env s w a mode life own context len p cache =
    set_sh (record w { sq_allocate = update w.sq_allocate own cache }) p
      (new_sh env (w.shs p) a context len s.mb mode life)

-- The wait for a send inside the node that is matched does not wait.
wait_sh-matched :
    (env : Env) (w : Node) (p : ℕ) (asked : Bool)
    → (p == 0) ≡ false
    → (w.shs p).is_remote ≡ false
    → (w.shs p).locked ≡ false
    → (w.shs p).stat ≡ matched
    → wait_sh env w p asked ≡ complete_sh env w p asked success (w.shs p).errval
unfolding wait_sh intra_wait_sh
wait_sh-matched env w p asked there near unheld done = rw (there, near, intra_wait_sh, unheld, done)

-- A send that is not persistent leaves no handle behind.
pub complete_sh-blocking :
    (env : Env) (w : Node) (p : ℕ) (c e : Code)
    → is_persistent_send (w.shs p).handle_type ≡ false
    → complete_sh env w p false c e ≡ returns (finish_sh env w p).0 (reply c none 0)
unfolding complete_sh
complete_sh-blocking env w p c e once =
    ap (λ q. returns (finish_sh env w p).0 (reply c none q)) (finish_sh-handle env w p ∙ rw once)

module _ (env : Env) (s : Supply) (w : Node) (a : Args) (mode : Mode) (life : Life)
    (own ch context len p : ℕ) (cache : List ℕ)
    (v : CanSend env s w a mode own ch context len p cache) where
  pub init_sh_lem :
      init_sh env s w a mode life
      ≡ made (made_state env s w a mode life own context len p cache) success p
  unfolding init_sh fill_sh new_sh
  init_sh_lem =
      rw (v.caller, init_sh, v.size, v.comm)
        (ap (fill_sh env s w a mode life own context len) v.fresh ∙ rw (v.there, v.room))

  abbrev new_handle : SHandle
  new_handle = new_sh env (w.shs p) a context len s.mb mode life

  abbrev state : Node
  state = made_state env s w a mode life own context len p cache

  -- The new send goes to its channel.
  pub start_sh_near : start_sh env s.got_msg state p ≡ (send_at state ch p, success)
  unfolding start_sh intra_start_sh not_startable_sh new_sh
  start_sh_near =
      let e = update_self w.shs p new_handle in
      let sound : is_success new_handle.errval ≡ true = rw v.room refl in
      let fine = ap (λ (x : SHandle). is_success x.errval) e ∙ sound in
      let near = ap SHandle.is_remote e ∙ ap not v.near in
      let startable = ap not_startable_sh e in
      let dest = ap (λ (x : SHandle). channel_of env w.channel_size x.dest) e ∙ v.dest in
      rw (v.there, fine, near, startable, dest, intra_start_sh)

  -- What it searches for is what its arguments say.
  pub rq_probe_new :
      rq_probe state ch (state.shs p).context (state.shs p).tag (state.shs p).src
      ≡ rq_probe w ch context a.tag a.from
  unfolding rq_probe new_sh
  rq_probe_new =
      ap (λ (x : SHandle). rq_probe state ch x.context x.tag x.src) (update_self w.shs p new_handle)

  start_sh_meets :
      (r : ℕ)
      → rq_probe w ch context a.tag a.from ≡ some r
      → start_sh env s.got_msg state p ≡ (match_send state ch p r, success)
  unfolding send_at
  start_sh_meets r found = start_sh_near ∙ rw (rq_probe_new ∙ found, send_at)

  -- its handle after the match
  matched_sh :
      (r : ℕ)
      → (match_send state ch p r).shs p
        ≡ record new_handle { stat = matched; buflen = min len (w.rhs r).buflen; errval = success }
  unfolding match_send new_sh
  matched_sh r =
      update_self state.shs p _
      ∙ ap
          (λ (x : SHandle).
            let y : SHandle = record x {
              stat = matched;
              buflen = min x.buflen (w.rhs r).buflen;
              errval = success;
            } in
            y)
          (update_self w.shs p new_handle)

-- What a receive `k` has become, `k'`, with the message that the caller of a send described: its
-- envelope, and as many of the `len` bytes at the caller's buffer as it has room for. No byte of
-- memory outside of its own buffer has changed.
pub record Arrived (mem mem' : ℕ → ℕ) (a : Args) (len : ℕ) (k k' : RHandle) : Type 0 where
  pub source : k'.src ≡ a.from
  pub label : k'.tag ≡ a.tag
  pub len_is : k'.buflen ≡ min len k.buflen
  pub done : k'.stat ≡ matched
  pub payload : bytes mem' k.data_buf (min len k.buflen) ≡ bytes mem a.buf (min len k.buflen)
  pub frame : (x : ℕ) → (x < k.data_buf) ⊎ (k.data_buf + min len k.buflen ≤ x) → mem' x ≡ mem x

-- a delivered send of the caller's data is one that has arrived
Delivered-Arrived :
    (mem mem' : ℕ → ℕ) (h : SHandle) (a : Args) (len : ℕ) (k k' : RHandle)
    → h.src ≡ a.from
    → h.tag ≡ a.tag
    → h.buflen ≡ len
    → h.curdata ≡ a.buf
    → Delivered mem mem' h k k'
    → Arrived mem mem' a len k k'
Delivered-Arrived mem mem' h a len k k' from tag size buffer d = record {
  source = d.source ∙ from;
  label = d.label ∙ tag;
  len_is = d.len ∙ ap (λ (n : ℕ). min n k.buflen) size;
  done = d.done;
  payload =
      subst (λ (n : ℕ). bytes mem' k.data_buf (min n k.buflen) ≡ bytes mem a.buf (min n k.buflen))
        size
        (subst
          (λ (b : ℕ).
            bytes mem' k.data_buf (min h.buflen k.buflen) ≡ bytes mem b (min h.buflen k.buflen))
          buffer d.payload);
  frame =
      subst
        (λ (n : ℕ). (x : ℕ) → (x < k.data_buf) ⊎ (k.data_buf + min n k.buflen ≤ x) → mem' x ≡ mem x)
        size d.frame;
}

module _ (env : Env) (s : Supply) (junk : Bool) (w : Node) (a : Args) (mode : Mode)
    (own ch context len p r : ℕ) (cache : List ℕ) where
  -- A blocking send in any mode, whose handle and buffer can be made, and for which a receive waits
  -- inside the node, returns at once and successfully: the receive is matched, has the caller's rank
  -- and tag and as many bytes of the caller's buffer as it has room for, no other byte of memory has
  -- changed, and the handle is free.
  pub blocking_send_meets :
      CanSend env s w a mode own ch context len p cache
      → rq_probe w ch context a.tag a.from ≡ some r
      → waiting (w.rhs r).stat ≡ true
      → (w' : Node) × (blocking_send env s junk (some a.from) w a mode
          ≡ returns w' (reply success none 0))
        × Arrived w.mem w'.mem a len (w.rhs r) (w'.rhs r)
        × ((w'.shs p).stat ≡ free)
  unfolding blocking_send new_sh
  blocking_send_meets v found wait =
      let h0 = new_sh env (w.shs p) a context len s.mb mode blocking in
      let w1 = made_state env s w a mode blocking own context len p cache in
      let w2 = match_send w1 ch p r in
      let h = matched_sh env s w a mode blocking own ch context len p cache v r in
      let w3 = (finish_sh env w2 p).0 in
      let (gone, mem, rhs, sq, rq) = finish_sh-frame env w2 p in
      let made_it = init_sh_lem env s w a mode blocking own ch context len p cache v in
      let begun = start_sh_meets env s w a mode blocking own ch context len p cache v r found in
      let near : (w2.shs p).is_remote ≡ false = ap SHandle.is_remote h ∙ ap not v.near in
      let ended =
        wait_sh-matched env w2 p false v.there near (ap SHandle.locked h) (ap SHandle.stat h)
        ∙ complete_sh-blocking env w2 p success _
            (ap (λ (x : SHandle). is_persistent_send x.handle_type) h) in
      let put = match_send-Delivered w1 ch p r wait in
      (
        w3,
        rw (made_it, begun) ended,
        Delivered-Arrived w.mem w3.mem h0 a len (w.rhs r) (w3.rhs r) refl refl refl refl (
            subst (λ (m : ℕ → ℕ). Delivered w.mem m h0 (w.rhs r) (w3.rhs r)) (sym mem)
              (subst (λ (f : ℕ → RHandle). Delivered w.mem w2.mem h0 (w.rhs r) (f r)) (sym rhs)
                (subst (λ (x : SHandle). Delivered w.mem w2.mem x (w.rhs r) (w2.rhs r))
                  (update_self w.shs p _) put))),
        gone,
      )
