-- ===== src/Api/Many.antt =====
-- The calls on arrays of requests. A status is always asked for, as the source passes one.
use tmpi.Base.{ℕ, ◌+◌, Bool, true, false, ◌&&◌, Option, none, some, List, [], ◌∷◌, if◌then◌else◌}
use tmpi.Intra.Types.{Code, Node, Env, Status, Reply, success}
use tmpi.Intra.Channel.{is_success, reply}
use tmpi.Intra.Complete.{Outcome, returns, sleeps, stuck}
use tmpi.Api.Request.{Request, after, flag_or, start, wait, test, left_request}

-- `if (ret0!=MPI_SUCCESS) ret=ret0;`
abbrev pub worse : Code → Code → Code
worse ret ret0 = if is_success ret0 then ret else ret0

-- tmpi_Startall, from the result `ret` on
unfoldable pub startall : Env → (got_msg : Bool) → Node → (ret : Code) → List Request → Outcome
startall env got_msg w ret [] = returns w (reply ret none 0)
startall env got_msg w ret (q ∷ qs) =
    after (start env got_msg w q) (λ w' r. startall env got_msg w' (worse ret r.code) qs)

-- What a loop of tests comes to: for each request its flag, what is left of it, and its status.
pub record Round : Type 0 where
  pub state : Node
  pub code : Code
  pub flags : List Bool
  pub requests : List Request
  pub statuses : List (Option Status)

abbrev pub no_round : Node → Code → Round
no_round w ret = record { state = w; code = ret; flags = []; requests = []; statuses = [] }

abbrev pub add_test : Bool → Request → Option Status → Option Round → Option Round
add_test flag q st none = none
add_test flag q st (some r) =
    some
      (record r { flags = flag ∷ r.flags; requests = q ∷ r.requests; statuses = st ∷ r.statuses })

-- the loop with its `flag` set to `pre` before each test; `none` if a test blocks
unfoldable pub test_each : Env → (pre : Bool) → Node → (ret : Code) → List Request → Option Round
test_each env pre w ret [] = some (no_round w ret)
test_each env pre w ret (q ∷ qs) =
    let t = test env w q true in
    elim t.outcome [
      | returns w' r ↦
          add_test (flag_or pre t.flag) (left_request q r.handle) r.status
            (test_each env pre w' (worse ret r.code) qs)
      | sleeps w' ↦ none
      | stuck ↦ none
    ]

abbrev pub all_flags : List Bool → Bool
all_flags [] = true
all_flags (b ∷ bs) = b && all_flags bs

-- the positions of the flags that are set, from `i` on
abbrev pub flagged : ℕ → List Bool → List ℕ
flagged i [] = []
flagged i (b ∷ bs) = if b then i ∷ flagged (i + 1) bs else flagged (i + 1) bs

-- tmpi_Testall: *flag, and the round
unfoldable pub testall : Env → Node → List Request → Option (Bool × Round)
testall env w qs = elim (test_each env true w success qs) [
  | none ↦ none
  | some r ↦ some (all_flags r.flags, r)
]

-- tmpi_Testsome: the indices, and the round
unfoldable pub testsome : Env → Node → List Request → Option (List ℕ × Round)
testsome env w qs = elim (test_each env false w success qs) [
  | none ↦ none
  | some r ↦ some (flagged 0 r.flags, r)
]

-- What the loop of tmpi_Testany and tmpi_Waitany finds: the first request that is done, by its
-- place, with what its test returned; or none.
pub record Found : Type 0 where
  pub state : Node
  pub code : Code
  pub found : Option (ℕ × Reply)
  pub requests : List Request

abbrev pub add_request : Request → Option Found → Option Found
add_request q none = none
add_request q (some f) = some (record f { requests = q ∷ f.requests })

unfoldable pub test_until : Env → Node → (ret : Code) → (i : ℕ) → List Request → Option Found
test_until env w ret i [] = some (record { state = w; code = ret; found = none; requests = [] })
test_until env w ret i (q ∷ qs) =
    let t = test env w q true in
    elim t.outcome [
      | returns w' r ↦
          let q' = left_request q r.handle in
          let rest = test_until env w' (worse ret r.code) (i + 1) qs in
          if flag_or false t.flag
          then some (record {
            state = w';
            code = worse ret r.code;
            found = some (i, r);
            requests = q' ∷ qs;
          })
          else add_request q' rest
      | sleeps w' ↦ none
      | stuck ↦ none
    ]

-- what tmpi_Testany returns: the code of the test that succeeded, or of the last that failed
unfoldable pub testany_code : Found → Code
testany_code f = elim f.found [ none ↦ f.code | some (i, r) ↦ r.code ]

-- tmpi_Testany
unfoldable pub testany : Env → Node → List Request → Option (Code × Found)
testany env w qs = elim (test_until env w success 0 qs) [
  | none ↦ none
  | some f ↦ some (testany_code f, f)
]

-- tmpi_Waitall, up to its first sleep
unfoldable pub waitall : Env → Node → (ret : Code) → List Request → Outcome
waitall env w ret [] = returns w (reply ret none 0)
waitall env w ret (q ∷ qs) =
    after (wait env w q true) (λ w' r. waitall env w' (worse ret r.code) qs)

-- tmpi_Waitany of at least one request, up to its sleep: it waits for the first if none is done
unfoldable pub waitany : Env → Node → Request → List Request → Outcome
waitany env w q qs = elim (test_until env w success 0 (q ∷ qs)) [
  | none ↦ stuck
  | some f ↦ elim f.found [
    | some (i, r) ↦ returns f.state (reply f.code r.status r.handle)
    | none ↦ wait env f.state q true
  ]
]

-- What tmpi_Waitsome comes to: the indices with the round; or it sleeps, or blocks.
pub data WaitedSome : Type 0 where
  done : (indices : List ℕ) → Round → WaitedSome
  sleeping : Node → WaitedSome
  blocked : WaitedSome

-- the round and its indices
abbrev pub done_round : Option Round → WaitedSome
done_round none = blocked
done_round (some r) = done (flagged 0 r.flags) r

-- the second loop of tmpi_Waitsome, behind the request for which it waited
unfoldable pub waitsome_others : Env → Node → Code → Request → Reply → List Request → WaitedSome
waitsome_others env w ret q r qs =
    done_round (
      add_test true (left_request q r.handle) r.status
        (test_each env false w (worse ret r.code) qs))

-- the wait of tmpi_Waitsome for its first request
unfoldable pub waitsome_first : Env → Round → Request → List Request → WaitedSome
waitsome_first env r q qs = elim (wait env r.state q true) [
  | returns w' r' ↦ waitsome_others env w' r.code q r' qs
  | sleeps w' ↦ sleeping w'
  | stuck ↦ blocked
]

abbrev pub no_flag : List ℕ → Bool
no_flag [] = true
no_flag (i ∷ is) = false

-- tmpi_Waitsome of at least one request
unfoldable pub waitsome : Env → Node → Request → List Request → WaitedSome
waitsome env w q qs = elim (test_each env false w success (q ∷ qs)) [
  | none ↦ blocked
  | some r ↦
      if no_flag (flagged 0 r.flags) then waitsome_first env r q qs else done (flagged 0 r.flags) r
]
