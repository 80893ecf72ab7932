-- ===== src/Inter/Network.antt =====
-- Two processes with the connections of src/runtime/src/net between them, which are taken to
-- deliver the messages in the order in which they were handed over, each with its payload behind it.
use tmpi.Base.{ℕ, ◌≡◌, ap, Bool, true, false, Option, none, some, List, [], ◌∷◌, ◌++◌}
use tmpi.Intra.Types.{Msg, Node, Env, update, Supply}
use tmpi.Inter.Wire.{Handled, handled, waits, faults}
use tmpi.Inter.Dispatch.{payload_of, dispatch, msg_handle}

-- a payload comes in from machine `mac`
abbrev pub arrive : Node → (mac : ℕ) → List ℕ → Node
arrive w mac xs = record w { incoming = update w.incoming mac (w.incoming mac ++ xs) }

abbrev pub arrived : Node → Handled → Option (Node × Node)
arrived from (handled good to) = some (from, to)
arrived from waits = none
arrived from faults = none

unfoldable pub crossing :
    Env → Supply → (mac : ℕ) → (from to : Node) → List Msg → Option (Node × Node)
crossing env s mac from to [] = none
crossing env s mac from to (m ∷ ms) =
    arrived (record from { sent = ms })
      (msg_handle env s false true (arrive to mac (payload_of m)) m)

-- The first message of `from`, whose machine is `mac`, is handled by `to`, which works in `env`.
unfoldable pub deliver : Env → Supply → (mac : ℕ) → (from to : Node) → Option (Node × Node)
deliver env s mac from to = crossing env s mac from to from.sent

pub deliver_lem :
    (env : Env) (s : Supply) (mac : ℕ) (from to to' : Node) (m : Msg) (ms : List Msg) (good : Bool)
    → from.sent ≡ m ∷ ms
    → dispatch env s (arrive to mac (payload_of m)) m ≡ handled good to'
    → deliver env s mac from to ≡ some (record from { sent = ms }, to')
unfolding deliver crossing msg_handle
deliver_lem env s mac from to to' m ms good e f = rw (e, crossing) (ap (arrived _) f)
