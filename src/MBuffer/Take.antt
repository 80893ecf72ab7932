-- ===== src/MBuffer/Take.antt =====
-- mb_alloc as a whole: what it returns.
use tmpi.Base.{
  inr, inl, ℕ, ◌+◌, ◌%◌, ◌^◌, ◌≤◌, ◌<◌, ◌≡◌, refl, sym, ap, ◌∙◌, subst, inl, inr, false, some, List,
  ◌∷◌, ◌++◌, arith, leb, ◌==◌, Bool-cases, length,
}
use tmpi.MBuffer.{
  Buffers, adjust_size, buf_header_size, min_fragment, adjusted_size, first_fit, take_block,
  search_usr, grant, mb_alloc,
}
use tmpi.MBuffer.Blocks.{
  Block, total, start, last_of, Blocks, Blocks-frame, Blocks-split, Blocks-join,
}
use tmpi.MBuffer.Fit.{unfit, AllUnfit, first_fit-hit, first_fit-miss}
use tmpi.MBuffer.Alloc.{cut, take_block-before, take_block-Blocks}

-- For a size that an int holds, a block has room for the header and the data, and wastes less than
-- 32 bytes.
pub adjusted_size-bounds :
    (isize : ℕ)
    → isize < 2 ^ 31
    → (isize + buf_header_size ≤ adjusted_size isize)
      × (adjusted_size isize < isize + buf_header_size + 32)
      × (adjusted_size isize % 32 ≡ 0)
unfolding adjusted_size adjust_size
adjusted_size-bounds isize h = (omega arith, omega arith, omega arith)

cut-first :
    (h : Buffers) (need p a : ℕ) (b : Block) (ys : List Block)
    → unfit need b ≡ false
    → Blocks h p a 0 (cut need b ++ ys)
    → (start a 0 (cut need b ++ ys) ≡ a) × (h.is_free a ≡ false) × (need ≤ h.size a)
cut-first h need p a b ys fit = elim (Bool-cases (leb (need + min_fragment) b.bytes)) [
  | inl big ↦ rw big (λ s. (refl, s.0.marked, omega (arith, s.0.sized)))
  | inr small ↦ rw small (λ s. (refl, s.0.marked, ground (arith, s.0.sized)))
]

-- If the system's buffer is a chain of blocks of which one is free and large enough, none before
-- it being so, and the fuel covers those, mb_alloc of a size below 2^31 takes that block. The
-- pointer leaves room for the header in front of it and for `isize` bytes behind it in the block,
-- which is then in use. The block is cut, where the rest is worth a block of its own, and the
-- others stay as they are.
pub mb_alloc-hit :
    (h : Buffers) (fuel isize base : ℕ) (xs : List Block) (b : Block) (ys : List Block)
    → isize < 2 ^ 31
    → h.sys_buffer ≡ base
    → Blocks h 0 base 0 (xs ++ b ∷ ys)
    → AllUnfit (adjusted_size isize) xs
    → unfit (adjusted_size isize) b ≡ false
    → length xs < fuel
    → let at = base + total xs in
      (h' : Buffers) × (mb_alloc h fuel isize ≡ some (h', at + buf_header_size))
      × Blocks h' 0 base 0 (xs ++ (cut (adjusted_size isize) b ++ ys))
      × (h'.is_free at ≡ false)
      × (buf_header_size + isize ≤ h'.size at)
unfolding mb_alloc grant search_usr
mb_alloc-hit h fuel isize base xs b ys small sys s before fit f =
    let need = adjusted_size isize in
    let at = base + total xs in
    let bounds = adjusted_size-bounds isize small in
    let some_need : 0 < need = omega (arith, bounds.0) in
    let parts = Blocks-split h 0 base 0 xs (b ∷ ys) s in
    let there : (at == 0) ≡ false = ground (arith, parts.1.0.there) in
    let hit : first_fit h need fuel h.sys_buffer ≡ some at =
      ap (first_fit h need fuel) sys ∙ first_fit-hit h need 0 base 0 fuel xs b ys s before fit f in
    let h' = take_block h at need in
    let mine : Blocks h' (last_of 0 base xs) at 0 (cut need b ++ ys) =
      take_block-Blocks h need (last_of 0 base xs) at b ys parts.1 some_need in
    let first = cut-first h' need (last_of 0 base xs) at b ys fit mine in
    (
      h',
      ap (λ r. grant h need (search_usr h need fuel r)) hit ∙ rw there (rw there refl),
      Blocks-join h' 0 base 0 xs (cut need b ++ ys)
          (subst (λ n. Blocks h' 0 base n xs) (sym first.0)
            (Blocks-frame h h' 0 base at xs
              (λ x l u.
                take_block-before h need (last_of 0 base xs) at b ys parts.1 x (omega (arith, u)))
              parts.0))
          mine,
      first.1,
      omega (arith, first.2, bounds.0),
    )

-- If no block of the system's buffer is free and large enough, nor one of the user's, where there
-- is one, and the fuel covers either, mb_alloc returns NULL and changes nothing.
pub mb_alloc-miss :
    (h : Buffers) (fuel isize base usr : ℕ) (xs us : List Block)
    → h.sys_buffer ≡ start base 0 xs
    → Blocks h 0 base 0 xs
    → AllUnfit (adjusted_size isize) xs
    → length xs < fuel
    → h.usr_buffer ≡ start usr 0 us
    → Blocks h 0 usr 0 us
    → AllUnfit (adjusted_size isize) us
    → length us < fuel
    → mb_alloc h fuel isize ≡ some (h, 0)
unfolding mb_alloc grant search_usr
mb_alloc-miss h fuel isize base usr xs us sys s sys_full f has_usr u usr_full g =
    let need = adjusted_size isize in
    let one : first_fit h need fuel h.sys_buffer ≡ some 0 =
      ap (first_fit h need fuel) sys ∙ first_fit-miss h need 0 base fuel xs s sys_full f in
    let two : first_fit h need fuel h.usr_buffer ≡ some 0 =
      ap (first_fit h need fuel) has_usr ∙ first_fit-miss h need 0 usr fuel us u usr_full g in
    let both : search_usr h need fuel (some 0) ≡ some 0 = elim (Bool-cases (h.usr_buffer == 0)) [
      | inl gone ↦ rw gone refl
      | inr there ↦ rw there two
    ] in
    ap (λ r. grant h need (search_usr h need fuel r)) one ∙ ap (grant h need) both
