-- ===== src/Api/Indices.antt =====
-- What tmpi_Testsome puts into its array of indices.
use tmpi.Base.{
  ℕ, ◌+◌, ◌≡◌, refl, sym, ap, ◌∙◌, subst, ◌≢◌, Bool, true, false, Option, none, some, List, [], ◌∷◌,
}
use tmpi.Intra.Types.{Code, Node, Env, Status, Reply, success}
use tmpi.Intra.Complete.{Outcome, returns, sleeps, stuck}
use tmpi.Api.Request.{Request, flag_or, test, left_request}
use tmpi.Api.Many.{worse, Round, no_round, add_test, test_each, flagged, testsome}

-- What a loop of tests should choose of the requests, the first of which has the index `i`: in
-- their order the indices of those whose test, in the state that the tests before it have left,
-- returns and sets its flag; each of the other tests returns too. The last part is the state behind
-- the loop.
pub data Chosen (env : Env) : ℕ → Node → List Request → List ℕ → Node → Type 0 where
  all_tested : {i : ℕ} {w : Node} → Chosen env i w [] [] w
  chosen :
      {i : ℕ} {w w' w'' : Node} {q : Request} {qs : List Request} {is : List ℕ} (r : Reply)
      → (test env w q true).outcome ≡ returns w' r
      → (test env w q true).flag ≡ some true
      → Chosen env (i + 1) w' qs is w''
      → Chosen env i w (q ∷ qs) (i ∷ is) w''
  passed_over :
      {i : ℕ} {w w' w'' : Node} {q : Request} {qs : List Request} {is : List ℕ} (r : Reply)
      → (test env w q true).outcome ≡ returns w' r
      → (test env w q true).flag ≢ some true
      → Chosen env (i + 1) w' qs is w''
      → Chosen env i w (q ∷ qs) is w''

-- a round that a test was added to
add_test-some :
    (flag : Bool) (q : Request) (st : Option Status) (o : Option Round) (r : Round)
    → add_test flag q st o ≡ some r
    → (r' : Round) × (o ≡ some r') × (r.flags ≡ flag ∷ r'.flags) × (r'.state ≡ r.state)
add_test-some flag q st none r e = absurd (none_some e)
  where
    none_some : none ≡ some r → ⊥
    none_some h = cc
add_test-some flag q st (some r') r e =
    let same : record r' {
      flags = flag ∷ r'.flags;
      requests = q ∷ r'.requests;
      statuses = st ∷ r'.statuses;
    }
        ≡ r =
      cc in
    (r', refl, sym (ap Round.flags same), ap Round.state same)

-- the test of the first request, and the choice among the others
choose :
    (env : Env) (i : ℕ) (w w' w'' : Node) (q : Request) (qs : List Request) (bs : List Bool)
    (r : Reply) (f : Option Bool)
    → (test env w q true).outcome ≡ returns w' r
    → (test env w q true).flag ≡ f
    → Chosen env (i + 1) w' qs (flagged (i + 1) bs) w''
    → Chosen env i w (q ∷ qs) (flagged i (flag_or false f ∷ bs)) w''
choose env i w w' w'' q qs bs r none o f rest =
    passed_over r o (λ e. let no : none ≡ some true = sym f ∙ e in cc) rest
choose env i w w' w'' q qs bs r (some false) o f rest =
    passed_over r o (λ e. let no : some false ≡ some true = sym f ∙ e in cc) rest
choose env i w w' w'' q qs bs r (some true) o f rest = chosen r o f rest

test_each-Chosen :
    (env : Env) (i : ℕ) (w : Node) (ret : Code) (qs : List Request) (r : Round)
    → test_each env false w ret qs ≡ some r
    → Chosen env i w qs (flagged i r.flags) r.state
unfolding test_each
test_each-Chosen env i w ret [] r e =
    let same : no_round w ret ≡ r = cc in
    subst (λ (x : Round). Chosen env i w [] (flagged i x.flags) x.state) same all_tested
test_each-Chosen env i w ret (q ∷ qs) r e =
    by_outcome (test env w q true).outcome refl e
      (λ w' c r'. test_each-Chosen env (i + 1) w' c qs r')
  where
    by_outcome :
        (o : Outcome)
        → (test env w q true).outcome ≡ o
        → (elim o [
          | returns w' a ↦
              add_test
                (flag_or false (test env w q true).flag)
                (left_request q a.handle)
                a.status
                (test_each env false w' (worse ret a.code) qs)
          | sleeps w' ↦ none
          | stuck ↦ none
        ])
          ≡ some r
        → ((w' : Node) (c : Code) (r' : Round)
            → test_each env false w' c qs ≡ some r'
            → Chosen env (i + 1) w' qs (flagged (i + 1) r'.flags) r'.state)
        → Chosen env i w (q ∷ qs) (flagged i r.flags) r.state
    by_outcome (returns w' a) o made ih =
        let (r', rest, flags, state) =
          add_test-some (flag_or false (test env w q true).flag) (left_request q a.handle) a.status
            (test_each env false w' (worse ret a.code) qs) r made in
        let it =
          choose env i w w' r'.state q qs r'.flags a (test env w q true).flag o refl
            (ih w' (worse ret a.code) r' rest) in
        subst (λ (v : Node). Chosen env i w (q ∷ qs) (flagged i r.flags) v) state
          (subst (λ (bs : List Bool). Chosen env i w (q ∷ qs) (flagged i bs) r'.state) (sym flags)
            it)
    by_outcome (sleeps w') o made ih = let no : none ≡ some r = made in cc
    by_outcome stuck o made ih = let no : none ≡ some r = made in cc

-- When tmpi_Testsome returns, it has tested each request once, each in the state that the tests before
-- it have left, and the indices that it stores are, in ascending order, exactly those of the requests
-- whose test has set its flag.
pub testsome_indices :
    (env : Env) (w : Node) (qs : List Request) (is : List ℕ) (r : Round)
    → testsome env w qs ≡ some (is, r)
    → Chosen env 0 w qs is r.state
unfolding testsome
testsome_indices env w qs is r e =
    by_round (test_each env false w success qs) (λ r'. test_each-Chosen env 0 w success qs r') e
  where
    by_round :
        (o : Option Round)
        → ((r' : Round) → o ≡ some r' → Chosen env 0 w qs (flagged 0 r'.flags) r'.state)
        → ◌≡◌ {A = Option (List ℕ × Round)}
            (elim o [ none ↦ none | some x ↦ some (flagged 0 x.flags, x) ])
            (some (is, r))
        → Chosen env 0 w qs is r.state
    by_round none h e = let no : ◌≡◌ {A = Option (List ℕ × Round)} none (some (is, r)) = e in cc
    by_round (some x) h e =
        let pair : ◌≡◌ {A = List ℕ × Round} (flagged 0 x.flags, x) (is, r) = cc in
        subst (λ (y : List ℕ × Round). Chosen env 0 w qs (y.0) (y.1.state)) pair (h x refl)
