-- ===== src/Inter/Reads.antt =====
-- What netq_recvdata and tmpi_dump_data leave alone, and what they take off a connection.
use tmpi.Base.{
  ℕ, zero, suc, ◌-◌, min, ◌≡◌, refl, ◌⊎◌, inl, inr, Option, none, some, List, arith, ltb,
  Bool-cases, Option-cases, length, take, drop, ℤ,
}
use tmpi.Intra.Types.{Node, Env, update}
use tmpi.Inter.Wire.{pull, put, recvdata, dump_size, dump_loop, dump_data, take_payload}

-- a state that differs in the memory and in what is still to come
abbrev pub reread : Node → (mem : ℕ → ℕ) → (incoming : ℕ → List ℕ) → Node
reread w mem incoming = record w { mem = mem; incoming = incoming }

-- Either the bytes have not come, or the call changes nothing but the memory and the connections.
abbrev pub OnlyReads : Node → Option Node → Type 0
OnlyReads w o =
    (o ≡ none) ⊎ ((mem : ℕ → ℕ) × (incoming : ℕ → List ℕ) × (o ≡ some (reread w mem incoming)))

pub recvdata_only :
    (env : Env) (w : Node) (from : ℤ) (dst n : ℕ) → OnlyReads w (recvdata env w from dst n)
unfolding recvdata pull
recvdata_only env w from dst n = elim (Option-cases (env.trans_global_rank from)) [
  | inl nowhere ↦ inr (w.mem, w.incoming, rw (nowhere, recvdata))
  | inr (to, there) ↦ elim (Bool-cases (ltb (length (w.incoming to.0)) n)) [
    | inl short ↦ inl (ground (arith, there, short))
    | inr enough ↦ inr (
      put w.mem dst (take n (w.incoming to.0)),
      update w.incoming to.0 (drop n (w.incoming to.0)),
      rw (there, recvdata, enough),
    )
  ]
]

dump_loop_only :
    (env : Env) (from : ℤ) (fuel : ℕ) (w : Node) (n : ℕ) → OnlyReads w (dump_loop env w from fuel n)
unfolding dump_loop pull
dump_loop_only env from zero w n = inr (w.mem, w.incoming, refl)
dump_loop_only env from (suc fuel) w n = elim (Bool-cases (ltb 0 n)) [
  | inr done ↦ inr (w.mem, w.incoming, rw (done, dump_loop))
  | inl more ↦ elim (Option-cases (env.trans_global_rank from)) [
    | inl nowhere ↦ inr (w.mem, w.incoming, rw (more, dump_loop, nowhere))
    | inr (to, there) ↦ elim (Bool-cases (ltb (length (w.incoming to.0)) (min n dump_size))) [
      | inl short ↦ inl (rw (more, dump_loop, there, short))
      | inr enough ↦
          rw (more, dump_loop, there, enough)
            (dump_loop_only env from fuel
              (record w {
                incoming = update w.incoming to.0 (drop (min n dump_size) (w.incoming to.0));
              })
              (n - min n dump_size))
    ]
  ]
]

pub dump_data_only :
    (env : Env) (w : Node) (from : ℤ) (n : ℕ) → OnlyReads w (dump_data env w from n)
unfolding dump_data
dump_data_only env w from n = dump_loop_only env from n w n

pub take_payload_only :
    (env : Env) (w : Node) (from : ℤ) (dst n len : ℕ)
    → OnlyReads w (take_payload env w from dst n len)
unfolding take_payload
take_payload_only env w from dst n len = elim (recvdata_only env w from dst n) [
  | inl short ↦ inl (rw (short, take_payload))
  | inr (mem, incoming, e) ↦ elim (Bool-cases (ltb n len)) [
    | inr whole ↦ inr (mem, incoming, rw (e, take_payload, whole))
    | inl more ↦
        rw (e, take_payload, more) (dump_data_only env (reread w mem incoming) from (len - n))
  ]
]
