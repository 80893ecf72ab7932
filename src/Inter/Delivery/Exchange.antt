-- ===== src/Inter/Delivery/Exchange.antt =====
-- A short send as a whole.
use tmpi.Base.{
  ℕ, min, ◌≡◌, refl, sym, ap, ◌∙◌, true, Option, some, List, [], ◌∷◌, ◌++◌, arith, ◌>>=◌, length,
  take, drop, drop-length,
}
use tmpi.Intra.Types.{
  Code, SHandle, Msg, Node, Env, update_self, success, matched, announce, msgdat_recv, Supply,
}
use tmpi.Intra.Channel.{rq_probe, bytes}
use tmpi.Intra.Start.{start_sh}
use tmpi.Inter.Dispatch.{payload_of, announced, dispatch}
use tmpi.Inter.Network.{arrive, deliver, deliver_lem}
use tmpi.Inter.Delivery.Bytes.{length-bytes, take-bytes}
use tmpi.Inter.Delivery.Steps.{IsPosted}
use tmpi.Inter.Delivery.Long.{HasCrossed, supply}
use tmpi.Inter.Delivery.Short.{
  IsShortSend, short_rmsh, start_sh-short, rmds_handle-posted, rmdr_handle-due,
}

-- The announcement of a short send crosses with its data, and the receipt.
unfoldable pub short_send :
    Env → Env → Supply → (mac_a mac_b : ℕ) → (a b : Node) → ℕ → Option (Node × Node)
short_send ea eb s mac_a mac_b a b p =
    deliver eb s mac_a (start_sh ea true a p).0 b
    >>= (λ x. deliver ea s mac_b x.1 x.0)
    >>= (λ x. some (x.1, x.0))

module _ (ea eb : Env) (chunk : List ℕ) (mb mac_a mac_b local_a : ℕ) where
  -- A short send of a new handle, whose receive has been posted, while nothing else is on the way
  -- between the two processes: both messages are handled, the sender and the receive are done with
  -- the length that arrived, the receive has the sender's bytes and envelope, nothing is left on
  -- the way, and every tmpi_MSG is given back.
  pub short_send_lem :
      (a b : Node) (p ch r : ℕ)
      → IsShortSend a p
      → IsPosted eb b ch r (a.shs p)
      → eb.trans_global_rank (a.shs p).src ≡ some (mac_a, local_a)
      → a.sent ≡ []
      → b.sent ≡ []
      → b.incoming mac_a ≡ []
      → (a' b' : Node) × (short_send ea eb (supply chunk mb) mac_a mac_b a b p ≡ some (a', b'))
        × HasCrossed 0 mac_a a b a' b' p r
  unfolding short_send dispatch payload_of announced rq_probe
  short_send_lem a b p ch r v u known quiet_a quiet_b still =
      let h = a.shs p in
      let n = min (b.rhs r).buflen h.buflen in
      let xs = bytes a.mem h.curdata h.buflen in
      let (a1, started, h1, out1, kept1) = start_sh-short ea a p v in
      let b0 = arrive b mac_a xs in
      let coming : b0.incoming mac_a ≡ xs =
        update_self b.incoming mac_a (b.incoming mac_a ++ xs) ∙ ap (λ ys. ys ++ xs) still in
      let posted : IsPosted eb b0 ch r (short_rmsh h p) = record {
        channel = u.channel;
        found = u.found;
        state = u.state;
        there = u.there;
      } in
      let whole = length-bytes a.mem h.curdata h.buflen in
      let (b1, got1, k1, bytes1, read, out2, bkept) =
        rmds_handle-posted eb chunk mb b0 (short_rmsh h p) ch r mac_a local_a posted known
          (omega (arith, ap length coming)) in
      let a1' : Node = record a1 { sent = [] } in
      let (a2, got2, h2, out3, kept2) =
        rmdr_handle-due ea (arrive a1' mac_b []) p n success v.there
          (ap SHandle.locked h1 ∙ v.unheld) (ap SHandle.stat h1) in
      let first : Msg = announce h.src h.dest (short_rmsh h p) xs in
      let second : Msg = msgdat_recv h.dest h.src p n success in
      let d1 : deliver eb (supply chunk mb) mac_a (start_sh ea true a p).0 b ≡ some (a1', b1) =
        ap (λ (x : Node × Code). deliver eb (supply chunk mb) mac_a x.0 b) started
        ∙ deliver_lem eb (supply chunk mb) mac_a a1 b b1 first [] true
            (out1 ∙ ap (λ ms. ms ++ first ∷ []) quiet_a) got1 in
      let d2 : deliver ea (supply chunk mb) mac_b b1 a1' ≡ some (record b1 { sent = [] }, a2) =
        deliver_lem ea (supply chunk mb) mac_b b1 a1' a2 second [] true
          (out2 ∙ ap (λ ms. ms ++ second ∷ []) quiet_b) got2 in
      (
        a2,
        record b1 { sent = [] },
        rw (d1, ◌>>=◌, d2),
        record {
          sender =
              h2
              ∙ ap (λ (x : SHandle). record x { buflen = n; errval = success; stat = matched }) h1;
          receiver = k1;
          arrived_bytes =
              bytes1 ∙ ap (take n) coming ∙ take-bytes a.mem h.curdata n _ (omega arith);
          none_sent = out3;
          none_answered = refl;
          none_left =
              read.there
              ∙ ap (drop h.buflen) coming
              ∙ ap (λ j. drop j xs) (sym whole)
              ∙ drop-length xs;
          sender_kept = kept2 ∙ kept1 ∙ omega arith;
          receiver_kept = bkept ∙ omega arith;
        },
      )
