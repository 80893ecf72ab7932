-- ===== src/Comm/Hazards.antt =====
-- Where the set-up and the end do not do what they mean to.
use tmpi.Comm.{World}
use tmpi.Comm.Setup.{comm_gend, comm_ginit, end_in, comm_end, init_failed, comm_init}
use tmpi.Base.{
  ℕ, ◌≡◌, refl, sym, ap, ◌∙◌, ◌≢◌, inl, inr, Bool, true, false, ◌||◌, none, some, [], ◌∷◌, arith,
  ◌==◌, Bool-cases, ℤ,
}
use tmpi.Group.{Failure, err_intern, invalid_access}

ginit_lacks :
    (w : World) (bar bcast reduce allreduce : ℕ)
    → (bar == 0 || reduce == 0 || allreduce == 0) ≡ true
    → (comm_ginit true true bar bcast reduce allreduce w).1 ≡ some err_intern
unfolding comm_ginit
ginit_lacks w bar bcast reduce allreduce bad = elim (Bool-cases (bar == 0)) [
  | inl none_got ↦ rw none_got refl
  | inr got ↦ rw (got, rw got at bad) refl
]

ginit_works :
    (w : World) (bar bcast reduce allreduce : ℕ)
    → (bar == 0 || reduce == 0 || allreduce == 0) ≡ false
    → comm_ginit true true bar bcast reduce allreduce w ≡ (
      record w {
        comms = some (λ i. none);
        bar = bar;
        bcast = bcast;
        reduce = reduce;
        allreduce = allreduce;
      },
      none,
    )
unfolding comm_ginit
ginit_works w bar bcast reduce allreduce good =
    let got : (bar == 0) ≡ false = ground arith in rw (got, rw got at good) refl

-- what a tmpi_comm_ginit that succeeded has made
ginit_made :
    (w : World) (bar bcast reduce allreduce : ℕ) (w' : World)
    → comm_ginit true true bar bcast reduce allreduce w ≡ (w', none)
    → (record w {
      comms = some (λ i. none);
      bar = bar;
      bcast = bcast;
      reduce = reduce;
      allreduce = allreduce;
    }
        ≡ w')
      × ((bar == 0) ≡ false)
      × ((allreduce == 0) ≡ false)
unfolding comm_ginit
ginit_made w bar bcast reduce allreduce w' made =
    elim (Bool-cases (bar == 0 || reduce == 0 || allreduce == 0)) [
      | inl bad ↦
          let told = ginit_lacks w bar bcast reduce allreduce bad in
          let none_told : (comm_ginit true true bar bcast reduce allreduce w).1 ≡ none =
            ap (λ r. r.1) made in
          cc
      | inr good ↦ (
        ap (λ r. r.0) (sym (ginit_works w bar bcast reduce allreduce good) ∙ made),
        ground arith,
        ground arith,
      )
    ]

-- a tmpi_comm_ginit that fails leaves no table
ginit_failed :
    (w : World) (got_table bar_started : Bool) (bar bcast reduce allreduce : ℕ) (e : Failure)
    → (comm_ginit got_table bar_started bar bcast reduce allreduce w).1 ≡ some e
    → (comm_ginit got_table bar_started bar bcast reduce allreduce w).0.comms ≡ none
unfolding comm_ginit comm_gend
ginit_failed w a b bar bcast reduce allreduce e failed = ground arith

init_without_table :
    (w : World) (myid nproc : ℕ) (grank : ℤ) (got_comm got_ranks got_group : Bool)
    → w.comms ≡ none
    → comm_init w myid nproc grank got_comm got_ranks got_group ≡ invalid_access
unfolding comm_init comm_end end_in init_failed
init_without_table w myid nproc grank a b c has = rw has refl

-- tmpi_comm_gend after a tmpi_comm_ginit that succeeded gives the barrier, the broadcast object and
-- the allreduce object back, but not the reduce object, whose address is kept, unless it is the same
-- object as one of these.
pub gend_leaks_reduce :
    (w : World) (bar bcast reduce allreduce : ℕ) (w' : World)
    → w.released ≡ []
    → bcast ≢ 0
    → comm_ginit true true bar bcast reduce allreduce w ≡ (w', none)
    → ((comm_gend w').released ≡ allreduce ∷ bcast ∷ bar ∷ []) × ((comm_gend w').reduce ≡ reduce)
unfolding comm_ginit comm_gend
gend_leaks_reduce w bar bcast reduce allreduce w' clean given made =
    let kept = ginit_made w bar bcast reduce allreduce w' made in
    let no_null : (bcast == 0) ≡ false = ground arith in
    rw (← kept.0) (rw (kept.1, kept.2, no_null, clean) (refl, refl))

-- A tmpi_comm_init that follows a tmpi_comm_ginit that failed does not return MPI_ERR_INTERN: its
-- clean-up reads the table that is not there.
pub init_after_failed_ginit :
    (w : World) (got_table bar_started : Bool) (bar bcast reduce allreduce : ℕ) (e : Failure)
    (myid nproc : ℕ) (grank : ℤ) (got_comm got_ranks got_group : Bool)
    → (comm_ginit got_table bar_started bar bcast reduce allreduce w).1 ≡ some e
    → comm_init
        (comm_ginit got_table bar_started bar bcast reduce allreduce w).0
        myid
        nproc
        grank
        got_comm
        got_ranks
        got_group
      ≡ invalid_access
init_after_failed_ginit w a b bar bcast reduce allreduce e myid nproc grank c d f failed =
    init_without_table (comm_ginit a b bar bcast reduce allreduce w).0 myid nproc grank c d f
      (ginit_failed w a b bar bcast reduce allreduce e failed)
