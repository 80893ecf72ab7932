-- ===== src/MBuffer/Release.antt =====
-- mb_free on the chain of a whole buffer.
use tmpi.Base.{
  inr, inl, ℕ, ◌+◌, ◌-◌, ◌≡◌, refl, sym, ap, ◌∙◌, subst, inl, inr, List, [], ◌∷◌, ◌++◌, arith,
  Bool-cases,
}
use tmpi.MBuffer.{Buffers, buf_header_size, free_block, mb_free}
use tmpi.MBuffer.Blocks.{Block, total, start, IsHandle, Blocks, Same}
use tmpi.MBuffer.Merge.{ahead, freed, Freed, ahead-used, ahead-free, freed-free, freed-used}
use tmpi.MBuffer.Free.{free_alone, free_behind}

-- Where the blocks that follow a freed one start.
start-ahead : (a m : ℕ) (ys : List Block) → start a 0 (ahead m ys) ≡ a
start-ahead a m [] = refl
start-ahead a m (y ∷ ys) = elim (Bool-cases y.unused) [
  | inl free ↦ ap (start a 0) (ahead-free m y ys free)
  | inr used ↦ ap (start a 0) (ahead-used m y ys used)
]

start-freed : (a m : ℕ) (xs ys : List Block) → start a 0 (freed xs m ys) ≡ a
start-freed a m [] ys = start-ahead a m ys
start-freed a m (x ∷ []) ys = elim (Bool-cases x.unused) [
  | inl free ↦ ap (start a 0) (freed-free x m ys free) ∙ start-ahead a (x.bytes + m) ys
  | inr used ↦ ap (start a 0) (freed-used x m ys used)
]
start-freed a m (x ∷ y ∷ xs) ys = refl

-- A handle in front of what changes is kept.
keep_first :
    (h h' : Buffers) (p a n n' : ℕ) (b : Block)
    → IsHandle h p a n b
    → Same h h' a
    → n ≡ n'
    → IsHandle h' p a n' b
keep_first h h' p a n n' b s same e = record {
  before = same.pre ∙ s.before;
  behind = same.next ∙ s.behind ∙ e;
  marked = same.free ∙ s.marked;
  sized = same.size ∙ s.sized;
  there = s.there;
  nonempty = s.nonempty;
}

put_before :
    (h h' : Buffers) (p a n : ℕ) (b : Block) (bs : List Block)
    → IsHandle h p a n b
    → n ≡ a + b.bytes
    → start (a + b.bytes) 0 bs ≡ a + b.bytes
    → Freed h h' a (a + b.bytes) bs
    → Freed h h' p a (b ∷ bs)
put_before h h' p a n b bs s e first f = (
  (keep_first h h' p a n _ b s (f.1 a (omega (arith, s.nonempty))) (e ∙ sym first), f.0),
  λ x l. f.1 x (omega arith),
)

-- A block that has others in front of it.
free_block-behind :
    (h : Buffers) (p a : ℕ) (c : Block) (xs : List Block) (b : Block) (ys : List Block)
    → Blocks h p a 0 (c ∷ xs ++ b ∷ ys)
    → Freed h (free_block h (a + total (c ∷ xs))) p a (freed (c ∷ xs) b.bytes ys)
free_block-behind h p a c [] b ys s =
    let e : a + c.bytes ≡ a + total (c ∷ []) = omega arith in
    subst (λ k. Freed h (free_block h k) p a (freed (c ∷ []) b.bytes ys)) e
      (elim (Bool-cases c.unused) [
        | inl free ↦
            subst (Freed h (free_block h (a + c.bytes)) p a) (sym (freed-free c b.bytes ys free))
              (free_behind h p a c b ys s free)
        | inr used ↦
            subst (Freed h (free_block h (a + c.bytes)) p a) (sym (freed-used c b.bytes ys used)) (
              put_before h (free_block h (a + c.bytes)) p a _ c (ahead b.bytes ys) s.0 refl
                (start-ahead (a + c.bytes) b.bytes ys)
                (free_alone h a (a + c.bytes) b ys s.1 (ground (arith, s.0.marked, used))))
      ])
free_block-behind h p a c (d ∷ xs) b ys s =
    let e : a + c.bytes + total (d ∷ xs) ≡ a + total (c ∷ d ∷ xs) = omega arith in
    subst (λ k. Freed h (free_block h k) p a (c ∷ freed (d ∷ xs) b.bytes ys)) e
      (put_before h (free_block h (a + c.bytes + total (d ∷ xs))) p a _ c
        (freed (d ∷ xs) b.bytes ys) s.0 refl (start-freed (a + c.bytes) b.bytes (d ∷ xs) ys)
        (free_block-behind h a (a + c.bytes) d xs b ys s.1))

-- mb_free of the block between `xs` and `ys` leaves the chain of the blocks in which it is joined
-- with the free ones beside it, whatever those are.
pub mb_free-Blocks :
    (h : Buffers) (base : ℕ) (xs : List Block) (b : Block) (ys : List Block)
    → Blocks h 0 base 0 (xs ++ b ∷ ys)
    → Blocks (mb_free h (base + total xs + buf_header_size)) 0 base 0 (freed xs b.bytes ys)
unfolding mb_free
mb_free-Blocks h base [] b ys s =
    let e : base ≡ base + total [] + buf_header_size - buf_header_size = omega arith in
    subst (λ k. Blocks (free_block h k) 0 base 0 (ahead b.bytes ys)) e
      (free_alone h 0 base b ys s refl).0
mb_free-Blocks h base (x ∷ xs) b ys s =
    let e : base + total (x ∷ xs) ≡ base + total (x ∷ xs) + buf_header_size - buf_header_size =
      omega arith in
    subst (λ k. Blocks (free_block h k) 0 base 0 (freed (x ∷ xs) b.bytes ys)) e
      (free_block-behind h 0 base x xs b ys s).0
