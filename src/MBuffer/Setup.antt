-- ===== src/MBuffer/Setup.antt =====
-- mb_init, and the user's buffer: mb_attach_buffer and mb_detach_buffer.
use tmpi.Base.{
  inr, inl, inr, inl, ℕ, zero, suc, ◌-◌, ◌*◌, ◌≤◌, ◌<◌, ◌≡◌, refl, sym, subst, ◌⊎◌, inl, inr, Bool,
  true, false, Option, some, [], ◌∷◌, arith, ltb, ◌==◌, if◌then◌else◌, Bool-cases, ==_refl,
}
use tmpi.MBuffer.{
  Buffers, whole, mb_attach_buffer, mb_detach_buffer, init_loop, mb_end, init_result, mb_init,
}
use tmpi.MBuffer.Blocks.{block, Blocks}
use tmpi.MBuffer.Restore.{IsBuffer}

-- One free block is chained to nothing, whichever buffer it is.
whole-Blocks :
    (h : Buffers) (at bytes sys usr : ℕ)
    → 0 < at
    → 0 < bytes
    → Blocks
        (record (whole h at bytes) { sys_buffer = sys; usr_buffer = usr })
        0
        at
        0
        (block bytes true ∷ [])
whole-Blocks h at bytes sys usr there some_bytes = (
  record {
    before = ground arith;
    behind = ground arith;
    marked = ground arith;
    sized = ground arith;
    there = there;
    nonempty = some_bytes;
  },
  tt,
)

-- The loop ends after at most as many requests as there are megabytes, rounded up, and gets at
-- least one megabyte if it gets any.
init_loop-returns :
    (malloc : ℕ → ℕ) (k fuel bsize : ℕ)
    → bsize ≤ k * 0x100000
    → k < fuel
    → (r : ℕ × ℕ) × (init_loop malloc fuel bsize ≡ some r) × ((r.0 == 0) ≡ false → 0x100000 ≤ r.1)
unfolding init_loop
init_loop-returns malloc k zero bsize h f = absurd (omega arith)
init_loop-returns malloc k (suc n) bsize h f = elim (Bool-cases (bsize == 0)) [
  | inl over ↦ ((0, 0), rw over refl, λ no_room. absurd (ground (arith, no_room)))
  | inr more ↦
      let asked = if ltb bsize 0x100000 then 0x100000 else bsize in
      let enough : 0x100000 ≤ asked = ground arith in
      let some_left : 1 ≤ bsize = ground arith in
      let less : asked - 0x100000 ≤ (k - 1) * 0x100000 = elim (Bool-cases (ltb bsize 0x100000)) [
        | inl low ↦ rw low (omega arith)
        | inr high ↦ rw high (omega (arith, some_left))
      ] in
      elim (Bool-cases (malloc asked == 0)) [
        | inr got ↦ ((malloc asked, asked), rw (more, got) refl, λ some_there. enough)
        | inl refused ↦
            rw (more, refused)
              (init_loop-returns malloc (k - 1) n (asked - 0x100000) less
                (omega (arith, some_left)))
      ]
]

-- What the set-up from `h` may end in.
abbrev pub Started : (lock_made : Bool) → Buffers → Option (Buffers × Bool) → Type 0
Started lock_made h o =
    (h' : Buffers) × (done : Bool) × (o ≡ some (h', done))
    × (done ≡ true
        → (bytes : ℕ) × IsBuffer h' h'.sys_buffer bytes (block bytes true ∷ [])
          × (0x100000 ≤ bytes)
          × (h'.usr_buffer ≡ 0)
          × (lock_made ≡ true))
    × (done ≡ false → (h'.sys_buffer ≡ 0) ⊎ (h' ≡ h))

not_done : {A : Type 0} → false ≡ true → A
not_done e = absurd (ground (arith, e))

init_result-Started :
    (lock_made : Bool) (bsize at bytes : ℕ) (h : Buffers)
    → ((at == 0) ≡ false → 0x100000 ≤ bytes)
    → Started lock_made h (init_result lock_made bsize h (some (at, bytes)))
unfolding init_result mb_end
init_result-Started lock_made bsize at bytes h large = elim (Bool-cases (at == 0)) [
  | inl no_room ↦ elim (Bool-cases (bsize == 0)) [
    | inl asked_none ↦ (h, false, rw (no_room, asked_none) refl, not_done, λ e. inr refl)
    | inr asked ↦
        (record h { sys_buffer = 0 }, false, rw (no_room, asked) refl, not_done, λ e. inl refl)
  ]
  | inr got ↦
      let h' : Buffers = record (whole h at bytes) { sys_buffer = at; usr_buffer = 0 } in
      elim (Bool-cases lock_made) [
        | inl locks ↦ (
          h',
          true,
          rw (got, locks) refl,
          λ e. (
            bytes,
            record {
              blocks =
                  whole-Blocks h at bytes at 0 (ground (arith, got)) (omega (arith, large got));
              coalesced = tt;
              covered = omega arith;
            },
            large got,
            refl,
            locks,
          ),
          λ e. not_done (sym e),
        )
        | inr no_lock ↦ (mb_end h', false, rw (got, no_lock) refl, not_done, λ e. inl refl)
      ]
]

-- With fuel for more rounds than there are megabytes in `bsize`, rounded up, mb_init ends. If it
-- succeeds, the lock has its memory, the system's buffer is one free block of at least a megabyte,
-- and there is no user's buffer. If it fails there is no system's buffer, or nothing has changed.
pub mb_init_lem :
    (malloc : ℕ → ℕ) (lock_made : Bool) (k fuel bsize : ℕ) (h : Buffers)
    → bsize ≤ k * 0x100000
    → k < fuel
    → Started lock_made h (mb_init malloc lock_made fuel bsize h)
unfolding mb_init
mb_init_lem malloc lock_made k fuel bsize h le f =
    let (r, loop, large) = init_loop-returns malloc k fuel bsize le f in
    subst (λ o. Started lock_made h (init_result lock_made bsize h o)) (sym loop)
      (init_result-Started lock_made bsize r.0 r.1 h large)

-- Where there is no user's buffer, one that is attached is one free block. A second one is then
-- refused. Detaching it, unused, gives back its address and its size, and leaves no user's buffer.
pub mb_detach-mb_attach :
    (h : Buffers) (buf bsize other osize : ℕ)
    → h.usr_buffer ≡ 0
    → 0 < buf
    → 0 < bsize
    → let (h₁, attached) = mb_attach_buffer h buf bsize in
      (attached ≡ true)
      × (h₁.usr_buffer ≡ buf)
      × IsBuffer h₁ buf bsize (block bsize true ∷ [])
      × (mb_attach_buffer h₁ other osize ≡ (h₁, false))
      × ((mb_detach_buffer h₁).1 ≡ some (buf, bsize))
      × ((mb_detach_buffer h₁).2 ≡ true)
      × ((mb_detach_buffer h₁).0.usr_buffer ≡ 0)
unfolding mb_attach_buffer mb_detach_buffer
mb_detach-mb_attach h buf bsize other osize no_usr there some_bytes =
    let mine : (buf == 0) ≡ false = ground (arith, there) in
    let vacant : (h.usr_buffer == 0) ≡ true = ground (arith, no_usr) in
    rw vacant (
      refl,
      refl,
      record {
        blocks = whole-Blocks h buf bsize h.sys_buffer buf there some_bytes;
        coalesced = tt;
        covered = omega arith;
      },
      rw mine refl,
      rw mine (rw (==_refl buf) refl),
      rw mine (rw (==_refl buf) refl),
      rw mine (rw (==_refl buf) refl),
    )
