-- ===== src/Inter/Delivery/Long.antt =====
-- A long message from one process to another: announcement, request, data and receipt.
use tmpi.Base.{
  ℕ, ◌+◌, min, ◌≡◌, refl, ap, true, false, not, Option, some, List, [], ◌∷◌, ◌++◌, arith, ltb, ◌==◌,
  ◌>>=◌,
}
use tmpi.Intra.Types.{
  SHandle, Node, Env, update_self, success, remote_msg_send, create, pend_strt, pend_data, matched,
  announce, dat_send, Supply,
}
use tmpi.Intra.Channel.{set_sh, is_success, bytes}
use tmpi.Intra.Start.{max_short_msg, not_startable_sh, inter_start_sh, start_sh}
use tmpi.Inter.Network.{deliver}

-- A new handle of a send to another node, of too many bytes for its announcement to carry them.
pub record IsLongSend (a : Node) (p : ℕ) : Type 0 where
  pub there : (p == 0) ≡ false
  pub created : (a.shs p).stat ≡ create
  pub fine : (a.shs p).errval ≡ success
  pub far : (a.shs p).is_remote ≡ true
  pub unheld : (a.shs p).locked ≡ false
  pub long : ltb (a.shs p).buflen max_short_msg ≡ false

-- the announcement of a long send
abbrev pub long_rmsh : SHandle → ℕ → SHandle
long_rmsh h p = record h {
  stat = pend_strt;
  handle_type = remote_msg_send;
  remote_send_handle = p;
  curdata = 0;
}

pub start_sh-long :
    (env : Env) (a : Node) (p : ℕ)
    → IsLongSend a p
    → let h = a.shs p in
      (a' : Node) × (start_sh env true a p ≡ (a', success))
      × (a'.shs p ≡ record h { stat = pend_strt })
      × (a'.sent ≡ a.sent ++ announce h.src h.dest (long_rmsh h p) [] ∷ [])
      × (a'.mem ≡ a.mem)
      × (a'.msgs_kept ≡ a.msgs_kept)
unfolding start_sh inter_start_sh not_startable_sh
start_sh-long env a p v =
    let h = a.shs p in
    let h' : SHandle = record h { stat = pend_strt } in
    let startable : not_startable_sh h ≡ false = ground (arith, v.created) in
    let good : not (is_success h.errval) ≡ false = ap (λ e. not (is_success e)) v.fine in
    (
      record (set_sh a p h') { sent = a.sent ++ announce h.src h.dest (long_rmsh h p) [] ∷ [] },
      rw (v.there, good, v.far, startable, v.long),
      update_self a.shs p h',
      refl,
      refl,
      refl,
    )

-- The announcement of a long send and the answer to it cross.
unfoldable pub ask :
    Env → Env → Supply → (mac_a mac_b : ℕ) → (a b : Node) → ℕ → Option (Node × Node)
ask ea eb s mac_a mac_b a b p =
    deliver eb s mac_a (start_sh ea true a p).0 b >>= (λ x. deliver ea s mac_b x.1 x.0)

-- The data crosses, and the receipt.
unfoldable pub fetch : Env → Env → Supply → (mac_a mac_b : ℕ) → (b a : Node) → Option (Node × Node)
fetch ea eb s mac_a mac_b b a =
    deliver eb s mac_a a b >>= (λ x. deliver ea s mac_b x.1 x.0) >>= (λ x. some (x.1, x.0))

-- The four messages of a long send cross, each handled before the next one is.
unfoldable pub long_send :
    Env → Env → Supply → (mac_a mac_b : ℕ) → (a b : Node) → ℕ → Option (Node × Node)
long_send ea eb s mac_a mac_b a b p =
    ask ea eb s mac_a mac_b a b p >>= (λ x. fetch ea eb s mac_a mac_b x.0 x.1)

-- Sender and receiver have agreed, and the data is on the way.
pub record IsAsked (mac_a : ℕ) (a b a' b' : Node) (p r : ℕ) : Type 0 where
  pub sender : a'.shs p ≡ record (a.shs p) { stat = pend_data }
  pub receiver : b'.rhs r ≡ record (b.rhs r) {
    tag = (a.shs p).tag;
    src = (a.shs p).src;
    buflen = min (b.rhs r).buflen (a.shs p).buflen;
    stat = pend_data;
  }
  pub under_way :
      let n = min (b.rhs r).buflen (a.shs p).buflen in
      let h = a.shs p in a'.sent ≡ dat_send h.src h.dest p r n (bytes a.mem h.curdata n) ∷ []
  pub none_answered : b'.sent ≡ []
  pub none_left : b'.incoming mac_a ≡ []
  pub sender_kept : a'.msgs_kept ≡ a.msgs_kept + 1
  pub receiver_kept : b'.msgs_kept ≡ b.msgs_kept

-- What a long send comes to: the sender is done with the length that arrived, the receive too, it
-- holds the bytes of the send and its envelope, nothing is left on the way, and either side has
-- kept `kept` tmpi_MSG for good.
pub record HasCrossed (kept mac_a : ℕ) (a b a' b' : Node) (p r : ℕ) : Type 0 where
  pub sender : a'.shs p ≡ record (a.shs p) {
    stat = matched;
    buflen = min (b.rhs r).buflen (a.shs p).buflen;
    errval = success;
  }
  pub receiver : b'.rhs r ≡ record (b.rhs r) {
    tag = (a.shs p).tag;
    src = (a.shs p).src;
    buflen = min (b.rhs r).buflen (a.shs p).buflen;
    stat = matched;
  }
  pub arrived_bytes :
      let n = min (b.rhs r).buflen (a.shs p).buflen in
      bytes b'.mem (b.rhs r).data_buf n ≡ bytes a.mem (a.shs p).curdata n
  pub none_sent : a'.sent ≡ []
  pub none_answered : b'.sent ≡ []
  pub none_left : b'.incoming mac_a ≡ []
  pub sender_kept : a'.msgs_kept ≡ a.msgs_kept + kept
  pub receiver_kept : b'.msgs_kept ≡ b.msgs_kept + kept

-- what the library gives to the handlers: it has a message for each
abbrev pub supply : (chunk : List ℕ) → (mb : ℕ) → Supply
supply chunk mb = record { got_msg = true; chunk = chunk; mb = mb; old_request = 0 }
