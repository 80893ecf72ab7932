-- ===== src/MBuffer/Fit.antt =====
-- The search of mb_alloc for the first block that fits.
use tmpi.Base.{
  ℕ, zero, suc, ◌+◌, ◌<◌, ◌≡◌, refl, ap, ◌∙◌, Bool, true, false, not, ◌||◌, some, List, [], ◌∷◌,
  ◌++◌, arith, ltb, ◌==◌, length,
}
use tmpi.MBuffer.{Buffers, too_small, first_fit}
use tmpi.MBuffer.Blocks.{Block, total, start, IsHandle, Blocks}

-- a block that the search passes over
abbrev pub unfit : (need : ℕ) → Block → Bool
unfit need b = not b.unused || ltb b.bytes need

abbrev pub AllUnfit : (need : ℕ) → List Block → Type 0
AllUnfit need [] = Unit {0}
AllUnfit need (b ∷ bs) = (unfit need b ≡ true) × AllUnfit need bs

too_small-unfit :
    (h : Buffers) (need p a n : ℕ) (b : Block)
    → IsHandle h p a n b
    → too_small h need a ≡ unfit need b
too_small-unfit h need p a n b s = rw (s.marked, s.sized) refl

pub first_fit-hit :
    (h : Buffers) (need p a n fuel : ℕ) (xs : List Block) (b : Block) (ys : List Block)
    → Blocks h p a n (xs ++ b ∷ ys)
    → AllUnfit need xs
    → unfit need b ≡ false
    → length xs < fuel
    → first_fit h need fuel a ≡ some (a + total xs)
unfolding first_fit
first_fit-hit h need p a n zero xs b ys s before fit f = absurd (omega arith)
first_fit-hit h need p a n (suc k) [] b ys s before fit f =
    let there : (a == 0) ≡ false = ground (arith, s.0.there) in
    rw (there, too_small-unfit h need p a _ b s.0, fit) (ap some (omega arith))
first_fit-hit h need p a n (suc k) (x ∷ xs) b ys s before fit f =
    let there : (a == 0) ≡ false = ground (arith, s.0.there) in
    let at : h.next a ≡ a + x.bytes = s.0.behind ∙ onward (a + x.bytes) n xs b ys in
    rw (there, too_small-unfit h need p a _ x s.0, before.0, at)
      (first_fit-hit h need a (a + x.bytes) n k xs b ys s.1 before.1 fit (omega arith)
        ∙ ap some (omega arith))
  where
    onward :
        (c m : ℕ) (us : List Block) (v : Block) (vs : List Block) → start c m (us ++ v ∷ vs) ≡ c
    onward c m [] v vs = refl
    onward c m (u ∷ us) v vs = refl

pub first_fit-miss :
    (h : Buffers) (need p a fuel : ℕ) (bs : List Block)
    → Blocks h p a 0 bs
    → AllUnfit need bs
    → length bs < fuel
    → first_fit h need fuel (start a 0 bs) ≡ some 0
unfolding first_fit
first_fit-miss h need p a zero bs s none_fits f = absurd (omega arith)
first_fit-miss h need p a (suc k) [] s none_fits f = refl
first_fit-miss h need p a (suc k) (b ∷ bs) s none_fits f =
    let there : (a == 0) ≡ false = ground (arith, s.0.there) in
    rw (there, too_small-unfit h need p a _ b s.0, none_fits.0, s.0.behind)
      (first_fit-miss h need a (a + b.bytes) k bs s.1 none_fits.1 (omega arith))
