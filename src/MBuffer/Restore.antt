-- ===== src/MBuffer/Restore.antt =====
-- Well-formed buffers under mb_alloc and mb_free.
use tmpi.Base.{
  inr, inl, ℕ, ◌+◌, ◌^◌, ◌≤◌, ◌<◌, ◌≡◌, refl, sym, ap, ◌∙◌, subst, inl, inr, true, false, some,
  List, [], ◌∷◌, ◌++◌, arith, leb, leb→le, Bool-cases, length,
}
use tmpi.MBuffer.{Buffers, buf_header_size, min_fragment, adjusted_size, mb_alloc, mb_free}
use tmpi.MBuffer.Blocks.{Block, block, total, Blocks}
use tmpi.MBuffer.Fit.{unfit, AllUnfit}
use tmpi.MBuffer.Alloc.{cut}
use tmpi.MBuffer.Take.{mb_alloc-hit}
use tmpi.MBuffer.Merge.{ahead, freed, ahead-used, ahead-free, freed-free, freed-used}
use tmpi.MBuffer.Release.{mb_free-Blocks}
use tmpi.MBuffer.Coalesced.{
  Coalesced, taken, spare, cut-taken, cut-Coalesced, freed-Coalesced, freed-cut,
}

-- a buffer of `bytes` bytes from `base` on that is cut into the blocks `bs`, with no two free ones
-- side by side
pub record IsBuffer (h : Buffers) (base bytes : ℕ) (bs : List Block) : Type 0 where
  pub blocks : Blocks h 0 base 0 bs
  pub coalesced : Coalesced bs
  pub covered : total bs ≡ bytes

total-append : (xs ys : List Block) → total (xs ++ ys) ≡ total xs + total ys
total-append [] ys = omega arith
total-append (x ∷ xs) ys = omega (arith, total-append xs ys)

total-cut : (need : ℕ) (b : Block) (ys : List Block) → total (cut need b ++ ys) ≡ b.bytes + total ys
total-cut need b ys = elim (Bool-cases (leb (need + min_fragment) b.bytes)) [
  | inl big ↦ rw big (omega (arith, leb→le (need + min_fragment) b.bytes big))
  | inr small ↦ rw small refl
]

total-ahead : (m : ℕ) (ys : List Block) → total (ahead m ys) ≡ m + total ys
total-ahead m [] = refl
total-ahead m (y ∷ ys) = elim (Bool-cases y.unused) [
  | inl free ↦ ap total (ahead-free m y ys free) ∙ omega arith
  | inr used ↦ ap total (ahead-used m y ys used)
]

total-freed :
    (xs : List Block) (m : ℕ) (ys : List Block) → total (freed xs m ys) ≡ total xs + (m + total ys)
total-freed [] m ys = omega (arith, total-ahead m ys)
total-freed (x ∷ []) m ys = elim (Bool-cases x.unused) [
  | inl free ↦ omega (arith, ap total (freed-free x m ys free), total-ahead (x.bytes + m) ys)
  | inr used ↦ omega (arith, ap total (freed-used x m ys used), total-ahead m ys)
]
total-freed (x ∷ y ∷ xs) m ys = omega (arith, total-freed (y ∷ xs) m ys)

-- A block that is found is free and as large as was asked for.
fit_parts : (need : ℕ) (b : Block) → unfit need b ≡ false → (b.unused ≡ true) × (need ≤ b.bytes)
fit_parts need b e = (ground arith, ground arith)

-- If the system's buffer is well formed and has a block that is free and large enough, none before
-- it being so, and the fuel covers those, mb_alloc of a size below 2^31 takes that block and
-- leaves a well-formed buffer of the same size.
pub mb_alloc-IsBuffer :
    (h : Buffers) (fuel isize base bytes : ℕ) (xs : List Block) (b : Block) (ys : List Block)
    → isize < 2 ^ 31
    → h.sys_buffer ≡ base
    → IsBuffer h base bytes (xs ++ b ∷ ys)
    → AllUnfit (adjusted_size isize) xs
    → unfit (adjusted_size isize) b ≡ false
    → length xs < fuel
    → (h' : Buffers) × (mb_alloc h fuel isize ≡ some (h', base + total xs + buf_header_size))
      × IsBuffer h' base bytes (xs ++ (cut (adjusted_size isize) b ++ ys))
mb_alloc-IsBuffer h fuel isize base bytes xs b ys small sys v before fit f =
    let need = adjusted_size isize in
    let (h', done, mine, in_use, room) =
      mb_alloc-hit h fuel isize base xs b ys small sys v.blocks before fit f in
    (
      h',
      done,
      record {
        blocks = mine;
        coalesced = cut-Coalesced need xs b ys v.coalesced (fit_parts need b fit).0;
        covered =
            total-append xs (cut need b ++ ys)
            ∙ ap (λ n. total xs + n) (total-cut need b ys)
            ∙ sym (total-append xs (b ∷ ys))
            ∙ v.covered;
      },
    )

-- mb_free of any block of a well-formed buffer leaves a well-formed buffer of the same size, in
-- which the block is joined with the free ones beside it.
pub mb_free-IsBuffer :
    (h : Buffers) (base bytes : ℕ) (xs : List Block) (b : Block) (ys : List Block)
    → IsBuffer h base bytes (xs ++ b ∷ ys)
    → IsBuffer (mb_free h (base + total xs + buf_header_size)) base bytes (freed xs b.bytes ys)
mb_free-IsBuffer h base bytes xs b ys v = record {
  blocks = mb_free-Blocks h base xs b ys v.blocks;
  coalesced = freed-Coalesced xs b ys v.coalesced;
  covered = total-freed xs b.bytes ys ∙ sym (total-append xs (b ∷ ys)) ∙ v.covered;
}

-- If the system's buffer is well formed and has a block that is free and large enough, none before
-- it being so, and the fuel covers those, mb_alloc of a size below 2^31 succeeds, and mb_free of
-- what it returns restores the blocks of the buffer as they were.
pub mb_free-mb_alloc :
    (h : Buffers) (fuel isize base bytes : ℕ) (xs : List Block) (b : Block) (ys : List Block)
    → isize < 2 ^ 31
    → h.sys_buffer ≡ base
    → IsBuffer h base bytes (xs ++ b ∷ ys)
    → AllUnfit (adjusted_size isize) xs
    → unfit (adjusted_size isize) b ≡ false
    → length xs < fuel
    → (h' : Buffers) × (p : ℕ) × (mb_alloc h fuel isize ≡ some (h', p))
      × IsBuffer (mb_free h' p) base bytes (xs ++ b ∷ ys)
mb_free-mb_alloc h fuel isize base bytes xs b ys small sys v before fit f =
    let need = adjusted_size isize in
    let (h', done, mine) =
      mb_alloc-IsBuffer h fuel isize base bytes xs b ys small sys v before fit f in
    let parts = fit_parts need b fit in
    let mine' : IsBuffer h' base bytes (xs ++ block (taken need b) false ∷ (spare need b ++ ys)) =
      subst (λ l. IsBuffer h' base bytes (xs ++ (l ++ ys))) (cut-taken need b) mine in
    (
      h',
      base + total xs + buf_header_size,
      done,
      subst (IsBuffer (mb_free h' (base + total xs + buf_header_size)) base bytes)
          (freed-cut need xs b ys parts.1 parts.0 v.coalesced)
          (mb_free-IsBuffer h' base bytes xs (block (taken need b) false) (spare need b ++ ys)
            mine'),
    )
