-- ===== src/Inter/Wire.antt =====
-- What a message handler reads: netq_recvdata of netq.c, which takes the payload off the connection
-- to the sender's machine, and tmpi_dump_data, which throws payload away.
use tmpi.Base.{
  ℕ, zero, suc, ◌+◌, ◌-◌, min, Bool, true, false, Option, none, some, List, [], ◌∷◌, ◌++◌, ltb,
  if◌then◌else◌, length, take, drop, ℤ,
}
use tmpi.Intra.Types.{Msg, Node, Env, update}

-- A handler returns 0 or -1, or waits (for the lock of a handle that an earlier call left held, or
-- for bytes that have not come), or copies to NULL.
pub data Handled : Type 0 where
  handled : (good : Bool) → Node → Handled
  waits : Handled
  faults : Handled

-- the next `n` bytes from machine `mac`, if they have come
unfoldable pub pull : Node → (mac n : ℕ) → Option (List ℕ × Node)
pull w mac n =
    let s = w.incoming mac in
    if ltb (length s) n
    then none
    else some (take n s, record w { incoming = update w.incoming mac (drop n s) })

-- the bytes from `dst` on become `xs`
abbrev pub put : (ℕ → ℕ) → (dst : ℕ) → List ℕ → ℕ → ℕ
put mem dst [] = mem
put mem dst (x ∷ xs) = put (update mem dst x) (dst + 1) xs

-- netq_recvdata, whose result no handler looks at. It does nothing for a rank that it does not
-- know. `none`: the bytes have not come.
unfoldable pub recvdata : Env → Node → (from : ℤ) → (dst len : ℕ) → Option Node
recvdata env w from dst len = elim (env.trans_global_rank from) [
  | none ↦ some w
  | some (mac, local_id) ↦ elim (pull w mac len) [
    | none ↦ none
    | some (xs, w') ↦ some (record w' { mem = put w'.mem dst xs })
  ]
]

-- the size of `dump` in tmpi_dump_data
abbrev pub dump_size : ℕ
dump_size = 1024

-- the loop of tmpi_dump_data, with one unit of fuel for each round
unfoldable pub dump_loop : Env → Node → (from : ℤ) → (fuel len : ℕ) → Option Node
dump_loop env w from zero len = some w
dump_loop env w from (suc fuel) len = elim (ltb 0 len) [
  | false ↦ some w
  | true ↦ elim (env.trans_global_rank from) [
    | none ↦ some w
    | some (mac, local_id) ↦ elim (pull w mac (min len dump_size)) [
      | none ↦ none
      | some (xs, w') ↦ dump_loop env w' from fuel (len - min len dump_size)
    ]
  ]
]

-- tmpi_dump_data; each round takes at least one byte
unfoldable pub dump_data : Env → Node → (from : ℤ) → (len : ℕ) → Option Node
dump_data env w from len = dump_loop env w from len len

-- `netq_recvdata(from, dst, n); if (n<len) tmpi_dump_data(from, len-n);`
unfoldable pub take_payload : Env → Node → (from : ℤ) → (dst n len : ℕ) → Option Node
take_payload env w from dst n len = elim (recvdata env w from dst n) [
  | none ↦ none
  | some w' ↦ if ltb n len then dump_data env w' from (len - n) else some w'
]

-- the rest of a handler, once its bytes have come
abbrev pub then_do : Option Node → (Node → Handled) → Handled
then_do none f = waits
then_do (some w) f = f w

-- netq_send
abbrev pub netq_send : Node → Msg → Node
netq_send w m = record w { sent = w.sent ++ m ∷ [] }

-- The message that tmpi_rds_handle and tmpi_rmr_handle take is never given back.
abbrev pub keep_msg : Node → Node
keep_msg w = record w { msgs_kept = w.msgs_kept + 1 }
