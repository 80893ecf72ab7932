-- ===== src/Inter/Delivery/Ask.antt =====
-- The first half of a long send: its announcement and the receiver's answer.
use tmpi.Base.{ℕ, ◌+◌, min, ◌≡◌, refl, ap, ap₂, ◌∙◌, true, some, List, [], ◌∷◌, ◌++◌, arith, ◌>>=◌}
use tmpi.Intra.Types.{Code, SHandle, Msg, Node, Env, update_self, announce, dat_send, msg_recv}
use tmpi.Intra.Channel.{rq_probe, bytes}
use tmpi.Intra.Start.{start_sh}
use tmpi.Inter.Sends.{sent_stat}
use tmpi.Inter.Dispatch.{payload_of, announced, dispatch}
use tmpi.Inter.Network.{arrive, deliver, deliver_lem}
use tmpi.Inter.Delivery.Steps.{IsPosted, rms_handle-posted, rmr_handle-asked}
use tmpi.Inter.Delivery.Long.{IsLongSend, long_rmsh, start_sh-long, ask, IsAsked, supply}

module _ (ea eb : Env) (chunk : List ℕ) (mb mac_a mac_b : ℕ) where
  pub ask_lem :
      (a b : Node) (p ch r : ℕ)
      → IsLongSend a p
      → IsPosted eb b ch r (a.shs p)
      → a.sent ≡ []
      → b.sent ≡ []
      → b.incoming mac_a ≡ []
      → (a' b' : Node) × (ask ea eb (supply chunk mb) mac_a mac_b a b p ≡ some (b', a'))
        × IsAsked mac_a a b a' b' p r
  unfolding ask dispatch payload_of announced rq_probe
  ask_lem a b p ch r v u quiet_a quiet_b still =
      let h = a.shs p in
      let n = min (b.rhs r).buflen h.buflen in
      let (a1, started, h1, out1, mem1, kept1) = start_sh-long ea a p v in
      let b0 = arrive b mac_a [] in
      let posted : IsPosted eb b0 ch r (long_rmsh h p) = record {
        channel = u.channel;
        found = u.found;
        state = u.state;
        there = u.there;
      } in
      let (b1, got1, k1, out2, bmem1, come1, bkept1) =
        rms_handle-posted eb chunk b0 (long_rmsh h p) ch r posted in
      let a1' : Node = record a1 { sent = [] } in
      let (a2, got2, h2, out3, mem2, kept2) =
        rmr_handle-asked (arrive a1' mac_b []) p r n v.there (ap SHandle.locked h1 ∙ v.unheld) in
      let first : Msg = announce h.src h.dest (long_rmsh h p) [] in
      let second : Msg = msg_recv h.dest h.src p r n in
      let d1 : deliver eb (supply chunk mb) mac_a (start_sh ea true a p).0 b ≡ some (a1', b1) =
        ap (λ (x : Node × Code). deliver eb (supply chunk mb) mac_a x.0 b) started
        ∙ deliver_lem eb (supply chunk mb) mac_a a1 b b1 first [] true
            (out1 ∙ ap (λ ms. ms ++ first ∷ []) quiet_a) got1 in
      let d2 : deliver ea (supply chunk mb) mac_b b1 a1' ≡ some (record b1 { sent = [] }, a2) =
        deliver_lem ea (supply chunk mb) mac_b b1 a1' a2 second [] true
          (out2 ∙ ap (λ ms. ms ++ second ∷ []) quiet_b) got2 in
      (
        a2,
        record b1 { sent = [] },
        rw (d1, ◌>>=◌, d2),
        record {
          sender = h2 ∙ ap (λ (x : SHandle). record x { stat = sent_stat x.stat }) h1;
          receiver = k1;
          under_way =
              out3
              ∙ ap₂
                  (λ (x : SHandle) (m : ℕ → ℕ).
                    dat_send x.src x.dest p r (min x.buflen n) (bytes m x.curdata (min x.buflen n))
                    ∷ [])
                  h1 mem1
              ∙ ap (λ j. dat_send h.src h.dest p r j (bytes a.mem h.curdata j) ∷ []) (omega arith);
          none_answered = refl;
          none_left =
              ap (λ (f : ℕ → List ℕ). f mac_a) come1
              ∙ update_self b.incoming mac_a (b.incoming mac_a ++ [])
              ∙ ap (λ ys. ys ++ []) still;
          sender_kept = kept2 ∙ ap (λ j. j + 1) kept1;
          receiver_kept = bkept1;
        },
      )
