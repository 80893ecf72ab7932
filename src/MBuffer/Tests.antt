-- ===== src/MBuffer/Tests.antt =====
-- A buffer of 1024 bytes at 4096, and what the calls make of it.
use tmpi.Base.{
  ℕ, ◌≤◌, ◌≡◌, refl, true, false, not, Option, none, some, List, [], ◌∷◌, ◌++◌, arith, ◌==◌,
  if◌then◌else◌,
}
use tmpi.MBuffer.{
  Buffers, adjust_size, adjusted_size, first_fit, split, take_block, search_usr, grant, mb_alloc,
  mb_free, whole, mb_init,
}
use tmpi.MBuffer.Blocks.{block, Blocks}
use tmpi.MBuffer.Fit.{unfit}
use tmpi.MBuffer.Alloc.{cut}
use tmpi.MBuffer.Take.{mb_alloc-hit, mb_alloc-miss}
use tmpi.MBuffer.Restore.{IsBuffer, mb_free-IsBuffer, mb_free-mb_alloc}
use tmpi.MBuffer.Setup.{Started, mb_init_lem}

abbrev blank : Buffers
blank = record {
  pre = λ a. 0;
  next = λ a. 0;
  is_free = λ a. false;
  size = λ a. 0;
  sys_buffer = 0;
  usr_buffer = 0;
}

abbrev fresh : Buffers
fresh = record (whole blank 4096 1024) { sys_buffer = 4096 }

-- one block, free
fresh-IsBuffer : IsBuffer fresh 4096 1024 (block 1024 true ∷ [])
fresh-IsBuffer = record {
  blocks = (
    record {
      before = refl;
      behind = refl;
      marked = refl;
      sized = refl;
      there = omega arith;
      nonempty = omega arith;
    },
    tt,
  );
  coalesced = tt;
  covered = refl;
}

wanted : adjusted_size 100 ≡ 160
unfolding adjusted_size adjust_size
wanted = refl

fits_100 : unfit (adjusted_size 100) (block 1024 true) ≡ false
fits_100 = rw wanted refl

-- the pointer that comes out, and the sizes of the two blocks
abbrev outcome : Option (Buffers × ℕ) → List ℕ
outcome none = []
outcome (some (h, p)) = p ∷ h.size 4096 ∷ h.size 4256 ∷ []

two_blocks : outcome (mb_alloc fresh 9 100) ≡ 4128 ∷ 160 ∷ 864 ∷ []
unfolding mb_alloc grant search_usr first_fit take_block split adjusted_size adjust_size
two_blocks = refl

mb_alloc-hit_example :
    (h' : Buffers) × (mb_alloc fresh 9 100 ≡ some (h', 4128))
    × Blocks h' 0 4096 0 (cut (adjusted_size 100) (block 1024 true) ++ [])
    × (h'.is_free 4096 ≡ false)
    × (132 ≤ h'.size 4096)
mb_alloc-hit_example =
    mb_alloc-hit fresh 9 100 4096 [] (block 1024 true) [] (omega arith) refl fresh-IsBuffer.blocks
      tt fits_100 (omega arith)

too_much : adjusted_size 2000 ≡ 2048
unfolding adjusted_size adjust_size
too_much = refl

mb_alloc-miss_example : mb_alloc fresh 9 2000 ≡ some (fresh, 0)
mb_alloc-miss_example =
    mb_alloc-miss fresh 9 2000 4096 0 (block 1024 true ∷ []) [] refl fresh-IsBuffer.blocks
      (rw too_much refl, tt) (omega arith) refl tt tt (omega arith)

mb_free-mb_alloc_example :
    (h' : Buffers) × (p : ℕ) × (mb_alloc fresh 9 100 ≡ some (h', p))
    × IsBuffer (mb_free h' p) 4096 1024 (block 1024 true ∷ [])
mb_free-mb_alloc_example =
    mb_free-mb_alloc fresh 9 100 4096 1024 [] (block 1024 true) [] (omega arith) refl fresh-IsBuffer
      tt fits_100 (omega arith)

-- three blocks, the second in use between two free ones
abbrev row : Buffers
row = record {
  pre = λ a. if a == 164 then 100 else if a == 228 then 164 else 0;
  next = λ a. if a == 100 then 164 else if a == 164 then 228 else 0;
  is_free = λ a. not (a == 164);
  size = λ a. 64;
  sys_buffer = 100;
  usr_buffer = 0;
}

row-IsBuffer : IsBuffer row 100 192 (block 64 true ∷ block 64 false ∷ block 64 true ∷ [])
row-IsBuffer = record {
  blocks = (
    record {
      before = refl;
      behind = refl;
      marked = refl;
      sized = refl;
      there = omega arith;
      nonempty = omega arith;
    },
    (
      record {
        before = refl;
        behind = refl;
        marked = refl;
        sized = refl;
        there = omega arith;
        nonempty = omega arith;
      },
      (
        record {
          before = refl;
          behind = refl;
          marked = refl;
          sized = refl;
          there = omega arith;
          nonempty = omega arith;
        },
        tt,
      ),
    ),
  );
  coalesced = (refl, (refl, tt));
  covered = refl;
}

mb_free-IsBuffer_example : IsBuffer (mb_free row 196) 100 192 (block 192 true ∷ [])
mb_free-IsBuffer_example =
    mb_free-IsBuffer row 100 192 (block 64 true ∷ []) (block 64 false) (block 64 true ∷ [])
      row-IsBuffer

mb_init_lem_example :
    Started true blank (mb_init (λ n. if n == 0x200000 then 0 else 4096) true 4 0x200000 blank)
mb_init_lem_example =
    mb_init_lem (λ n. if n == 0x200000 then 0 else 4096) true 2 4 0x200000 blank (omega arith)
      (omega arith)
