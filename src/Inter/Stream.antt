-- ===== src/Inter/Stream.antt =====
-- What a handler takes off the connection to the sender, once all of the payload has come.
use tmpi.Base.{
  ℕ, zero, suc, ◌+◌, ◌-◌, ◌≤◌, min, ◌≡◌, refl, ap, ◌∙◌, subst, inl, inr, false, some, List, arith,
  ltb, ◌==◌, Bool-cases, length, take, drop, drop-drop, length-drop, ℤ,
}
use tmpi.Intra.Types.{Node, Env, update, update_self}
use tmpi.Inter.Wire.{pull, put, recvdata, dump_size, dump_loop, dump_data, take_payload}
use tmpi.Inter.Reads.{reread}

-- The first `n` bytes of the connection to `mac` are read, and no other connection is touched.
pub record IsRead (old new : ℕ → List ℕ) (mac n : ℕ) : Type 0 where
  pub there : new mac ≡ drop n (old mac)
  pub elsewhere : (m : ℕ) → (m == mac) ≡ false → new m ≡ old m

IsRead-none : (old : ℕ → List ℕ) (mac : ℕ) → IsRead old old mac 0
IsRead-none old mac = record { there = refl; elsewhere = λ m e. refl }

pub IsRead-update :
    (old : ℕ → List ℕ) (mac n : ℕ) → IsRead old (update old mac (drop n (old mac))) mac n
IsRead-update old mac n = record { there = update_self old mac _; elsewhere = λ m e. rw e }

IsRead-trans :
    {a b c : ℕ → List ℕ} {mac m n k : ℕ}
    → IsRead a b mac m
    → IsRead b c mac n
    → m + n ≡ k
    → IsRead a c mac k
IsRead-trans {a} {mac = mac} {m} {n} p q e = record {
  there = q.there ∙ ap (drop n) p.there ∙ drop-drop n m (a mac) ∙ ap (λ k. drop k (a mac)) e;
  elsewhere = λ x h. q.elsewhere x h ∙ p.elsewhere x h;
}

module _ (env : Env) (from : ℤ) (mac local_id : ℕ)
    (known : env.trans_global_rank from ≡ some (mac, local_id)) where
  pull_lem :
      (w : Node) (n : ℕ)
      → n ≤ length (w.incoming mac)
      → pull w mac n
        ≡ some (
          take n (w.incoming mac),
          record w { incoming = update w.incoming mac (drop n (w.incoming mac)) },
        )
  unfolding pull
  pull_lem w n h = ground arith

  pub recvdata_lem :
      (w : Node) (dst n : ℕ)
      → n ≤ length (w.incoming mac)
      → recvdata env w from dst n
        ≡ some (
            reread w
              (put w.mem dst (take n (w.incoming mac)))
              (update w.incoming mac (drop n (w.incoming mac))))
  unfolding recvdata
  recvdata_lem w dst n h = rw (known, recvdata, pull_lem w n h)

  -- Each round takes a byte at least, so fuel for as many rounds as there are bytes is enough.
  dump_loop_lem :
      (fuel : ℕ) (w : Node) (n : ℕ)
      → n ≤ fuel
      → n ≤ length (w.incoming mac)
      → (inc : ℕ → List ℕ) × (dump_loop env w from fuel n ≡ some (record w { incoming = inc }))
        × IsRead w.incoming inc mac n
  unfolding dump_loop
  dump_loop_lem zero w n f h =
      (w.incoming, refl, subst (IsRead w.incoming w.incoming mac) (omega arith) (IsRead-none _ _))
  dump_loop_lem (suc fuel) w n f h = elim (Bool-cases (ltb 0 n)) [
    | inr done ↦ (
      w.incoming,
      rw (done, dump_loop),
      subst (IsRead w.incoming w.incoming mac) (ground arith) (IsRead-none _ _),
    )
    | inl more ↦
        let k = min n dump_size in
        let inc1 = update w.incoming mac (drop k (w.incoming mac)) in
        let left : n - k ≤ length (inc1 mac) =
          rw (update_self w.incoming mac (drop k (w.incoming mac)))
            (omega (arith, length-drop k (w.incoming mac))) in
        let (inc, e, r) =
          dump_loop_lem fuel (record w { incoming = inc1 }) (n - k) (ground arith) left in
        (
          inc,
          rw (more, dump_loop, known, pull_lem w k (ground arith)) e,
          IsRead-trans (IsRead-update w.incoming mac k) r (ground arith),
        )
  ]

  pub dump_data_lem :
      (w : Node) (n : ℕ)
      → n ≤ length (w.incoming mac)
      → (inc : ℕ → List ℕ) × (dump_data env w from n ≡ some (record w { incoming = inc }))
        × IsRead w.incoming inc mac n
  unfolding dump_data
  dump_data_lem w n h = dump_loop_lem n w n (omega arith) h

  -- The payload is read whole, and its first `n` bytes go to `dst`.
  pub take_payload_lem :
      (w : Node) (dst n len : ℕ)
      → n ≤ len
      → len ≤ length (w.incoming mac)
      → (inc : ℕ → List ℕ) × (take_payload env w from dst n len
          ≡ some (reread w (put w.mem dst (take n (w.incoming mac))) inc))
        × IsRead w.incoming inc mac len
  unfolding take_payload
  take_payload_lem w dst n len h k =
      let inc1 = update w.incoming mac (drop n (w.incoming mac)) in
      let got = recvdata_lem w dst n (omega arith) in
      elim (Bool-cases (ltb n len)) [
        | inr whole ↦ (
          inc1,
          rw (got, take_payload, whole),
          subst (IsRead w.incoming inc1 mac) (ground arith) (IsRead-update w.incoming mac n),
        )
        | inl more ↦
            let left : len - n ≤ length (inc1 mac) =
              rw (update_self w.incoming mac (drop n (w.incoming mac)))
                (omega (arith, length-drop n (w.incoming mac))) in
            let (inc, e, r) =
              dump_data_lem (reread w (put w.mem dst (take n (w.incoming mac))) inc1) (len - n)
                left in
            (
              inc,
              rw (got, take_payload, more) e,
              IsRead-trans (IsRead-update w.incoming mac n) r (omega arith),
            )
      ]
