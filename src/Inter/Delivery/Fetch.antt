-- ===== src/Inter/Delivery/Fetch.antt =====
-- The second half of a long send: its data and the receipt; and the whole.
use tmpi.Base.{
  ℕ, ◌+◌, min, ◌≡◌, refl, sym, ap, ap₂, ◌∙◌, true, false, some, List, [], ◌∷◌, ◌++◌, arith, ◌==◌,
  ◌>>=◌, take, drop, drop-length,
}
use tmpi.Intra.Types.{
  SHandle, RHandle, Msg, Node, Env, update_self, success, matched, dat_send, dat_recv,
}
use tmpi.Intra.Channel.{bytes}
use tmpi.Inter.Dispatch.{payload_of, dispatch}
use tmpi.Inter.Network.{arrive, deliver, deliver_lem}
use tmpi.Inter.Delivery.Bytes.{length-bytes, take-bytes}
use tmpi.Inter.Delivery.Steps.{IsPosted, rds_handle-data, rdr_handle-due}
use tmpi.Inter.Delivery.Long.{IsLongSend, fetch, long_send, IsAsked, HasCrossed, supply}
use tmpi.Inter.Delivery.Ask.{ask_lem}

module _ (ea eb : Env) (chunk : List ℕ) (mb mac_a mac_b local_a : ℕ) where
  fetch_lem :
      (a b a' b' : Node) (p r : ℕ)
      → (p == 0) ≡ false
      → (a.shs p).locked ≡ false
      → (r == 0) ≡ false
      → eb.trans_global_rank (a.shs p).src ≡ some (mac_a, local_a)
      → IsAsked mac_a a b a' b' p r
      → (a'' b'' : Node) × (fetch ea eb (supply chunk mb) mac_a mac_b b' a' ≡ some (a'', b''))
        × HasCrossed 1 mac_a a b a'' b'' p r
  unfolding fetch dispatch payload_of
  fetch_lem a b a2 b1 p r there_p unheld there_r known v =
      let h = a.shs p in
      let n = min (b.rhs r).buflen h.buflen in
      let xs = bytes a.mem h.curdata n in
      let b1' = arrive b1 mac_a xs in
      let coming : b1'.incoming mac_a ≡ xs =
        update_self b1.incoming mac_a (b1.incoming mac_a ++ xs) ∙ ap (λ ys. ys ++ xs) v.none_left in
      let (b2, got4, k2, bytes2, read, out4, bkept) =
        rds_handle-data eb b1' p r n mac_a local_a xs there_r (ap RHandle.stat v.receiver)
          (ap (λ (x : RHandle). eb.trans_global_rank x.src) v.receiver ∙ known) coming
          (sym (length-bytes a.mem h.curdata n)) in
      let len = min (b1.rhs r).buflen n in
      let same_len : len ≡ n =
        let e : min n n ≡ n = omega arith in ap (λ (x : RHandle). min x.buflen n) v.receiver ∙ e in
      let a2' : Node = record a2 { sent = [] } in
      let (a3, got5, h3, out5, kept) =
        rdr_handle-due ea (arrive a2' mac_b []) p len success there_p
          (ap SHandle.locked v.sender ∙ unheld) (ap SHandle.stat v.sender) in
      let receipt : Msg = dat_recv (b1.rhs r).dest (b1.rhs r).src p len success in
      let d3 : deliver eb (supply chunk mb) mac_a a2 b1 ≡ some (a2', b2) =
        deliver_lem eb (supply chunk mb) mac_a a2 b1 b2 (dat_send h.src h.dest p r n xs) [] true
          v.under_way got4 in
      let d4 : deliver ea (supply chunk mb) mac_b b2 a2' ≡ some (record b2 { sent = [] }, a3) =
        deliver_lem ea (supply chunk mb) mac_b b2 a2' a3 receipt [] true
          (out4 ∙ ap (λ ms. ms ++ receipt ∷ []) v.none_answered) got5 in
      (
        a3,
        record b2 { sent = [] },
        rw (d3, ◌>>=◌, d4),
        record {
          sender =
              h3
              ∙ ap₂
                  (λ (x : SHandle) j.
                    let y : SHandle = record x { buflen = j; errval = success; stat = matched } in
                    y)
                  v.sender same_len;
          receiver =
              k2
              ∙ ap (λ (x : RHandle). record x { buflen = min x.buflen n; stat = matched })
                  v.receiver
              ∙ ap
                  (λ j.
                    let x : RHandle = record (b.rhs r) {
                      tag = h.tag;
                      src = h.src;
                      buflen = j;
                      stat = matched;
                    } in
                    x)
                  (omega arith);
          arrived_bytes =
              sym (ap₂ (λ d j. bytes b2.mem d j) (ap RHandle.data_buf v.receiver) same_len)
              ∙ bytes2
              ∙ ap (λ j. take j xs) same_len
              ∙ take-bytes a.mem h.curdata n n (omega arith);
          none_sent = out5;
          none_answered = refl;
          none_left =
              read.there
              ∙ ap (drop n) coming
              ∙ ap (λ j. drop j xs) (sym (length-bytes a.mem h.curdata n))
              ∙ drop-length xs;
          sender_kept = kept ∙ v.sender_kept;
          receiver_kept = bkept ∙ ap (λ j. j + 1) v.receiver_kept;
        },
      )

  -- A long send of a new handle, whose receive has been posted, while nothing else is on the way
  -- between the two processes: all four messages are handled, the sender and the receive are done
  -- with the length that arrived, the receive has the sender's bytes and envelope, nothing is left
  -- on the way, and either process has taken one tmpi_MSG that it never gives back.
  pub long_send_lem :
      (a b : Node) (p ch r : ℕ)
      → IsLongSend a p
      → IsPosted eb b ch r (a.shs p)
      → eb.trans_global_rank (a.shs p).src ≡ some (mac_a, local_a)
      → a.sent ≡ []
      → b.sent ≡ []
      → b.incoming mac_a ≡ []
      → (a' b' : Node) × (long_send ea eb (supply chunk mb) mac_a mac_b a b p ≡ some (a', b'))
        × HasCrossed 1 mac_a a b a' b' p r
  unfolding long_send
  long_send_lem a b p ch r v u known quiet_a quiet_b still =
      let (a', b', asked, w) =
        ask_lem ea eb chunk mb mac_a mac_b a b p ch r v u quiet_a quiet_b still in
      let (a'', b'', fetched, x) = fetch_lem a b a' b' p r v.there v.unheld u.there known w in
      (a'', b'', rw (asked, ◌>>=◌, fetched), x)
