-- ===== src/MBuffer/Merge.antt =====
-- The writes by which mb_free joins a block with its neighbours.
use tmpi.Base.{
  ℕ, ◌+◌, ◌<◌, ◌≡◌, refl, ap, ◌∙◌, Bool, true, false, not, ◌&&◌, List, [], ◌∷◌, arith, ◌==◌,
  if◌then◌else◌,
}
use tmpi.MBuffer.{Buffers, update, free_before_free, free_before_used, free_block}
use tmpi.MBuffer.Blocks.{Block, start, IsHandle, Blocks, Same, Blocks-frame, Blocks-reframe}

-- the freed block of `m` bytes, joined with the next one if that is free
abbrev pub ahead : (m : ℕ) → List Block → List Block
ahead m [] = record { bytes = m; unused = true } ∷ []
ahead m (y ∷ ys) =
    if y.unused
    then record { bytes = m + y.bytes; unused = true } ∷ ys
    else record { bytes = m; unused = true } ∷ y ∷ ys

-- the blocks once one of `m` bytes between `xs` and `ys` is freed
abbrev pub freed : List Block → (m : ℕ) → List Block → List Block
freed [] m ys = ahead m ys
freed (x ∷ []) m ys = if x.unused then ahead (x.bytes + m) ys else x ∷ ahead m ys
freed (x ∷ y ∷ xs) m ys = x ∷ freed (y ∷ xs) m ys

-- the writes that give block `a` the bytes up to `z`
abbrev pub merge : Buffers → (a m z : ℕ) → Buffers
merge h a m z = record h {
  size = update h.size a m;
  next = update h.next a z;
  pre = if z == 0 then h.pre else update h.pre z a;
}

abbrev pub mark : Buffers → ℕ → Buffers
mark h a = record h { is_free = update h.is_free a true }

-- What a change at `a` or behind it leaves.
abbrev pub Kept : Buffers → Buffers → ℕ → Type 0
Kept h h' a = (x : ℕ) → x < a → Same h h' x

pub merge-Blocks :
    (h : Buffers) (p q a m z : ℕ) (ys : List Block)
    → h.pre a ≡ p
    → h.is_free a ≡ true
    → 0 < a
    → 0 < m
    → z ≡ start (a + m) 0 ys
    → Blocks h q (a + m) 0 ys
    → Blocks (merge h a m z) p a 0 (record { bytes = m; unused = true } ∷ ys)
      × Kept h (merge h a m z) a
merge-Blocks h p q a m z [] at marked there some_bytes e s = (
  (
    record {
      before = rw e at;
      behind = ground arith;
      marked = marked;
      sized = ground arith;
      there = there;
      nonempty = some_bytes;
    },
    tt,
  ),
  λ x l. record { pre = rw e refl; next = ground arith; free = refl; size = ground arith },
)
merge-Blocks h p q a m z (y ∷ ys) at marked there some_bytes e s =
    let inside : (z == 0) ≡ false = ground arith in
    let h' = merge h a m z in
    (
      (
        record {
          before = rw inside (ground arith);
          behind = ground arith;
          marked = marked;
          sized = ground arith;
          there = there;
          nonempty = some_bytes;
        },
        Blocks-reframe h h' q a (a + m) 0 (y ∷ ys)
            (λ x l u. record {
              pre = rw inside (ground arith);
              next = ground arith;
              free = refl;
              size = ground arith;
            })
            (λ b cs k. (rw inside (ground arith), ground arith, refl, ground arith)) s,
      ),
      λ x l. record {
        pre = rw inside (ground arith);
        next = ground arith;
        free = refl;
        size = ground arith;
      },
    )

-- the test of mb_free on a neighbour
abbrev pub open_at : Buffers → ℕ → Bool
open_at h n = not (n == 0) && h.is_free n

module _ (h : Buffers) (a : ℕ) where
  pub free_block-mark :
      open_at h (h.next a) ≡ false → open_at h (h.pre a) ≡ false → free_block h a ≡ mark h a
  unfolding free_block free_before_used
  free_block-mark after before = rw after (rw before refl)

  pub free_block-next :
      open_at h (h.next a) ≡ true
      → open_at h (h.pre a) ≡ false
      → free_block h a ≡ merge (mark h a) a (h.size a + h.size (h.next a)) (h.next (h.next a))
  unfolding free_block free_before_free
  free_block-next after before = rw after (rw before refl)

  pub free_block-pre :
      open_at h (h.next a) ≡ false
      → open_at h (h.pre a) ≡ true
      → free_block h a ≡ merge h (h.pre a) (h.size (h.pre a) + h.size a) (h.next a)
  unfolding free_block free_before_used
  free_block-pre after before = rw after (rw before refl)

  pub free_block-both :
      open_at h (h.next a) ≡ true
      → open_at h (h.pre a) ≡ true
      → free_block h a
        ≡ merge h (h.pre a) (h.size (h.pre a) + (h.size a + h.size (h.next a))) (h.next (h.next a))
  unfolding free_block free_before_free
  free_block-both after before = rw after (rw before refl)

-- what holds of a state that differs from `h` only at `a` and behind it
abbrev pub Freed : Buffers → Buffers → (p a : ℕ) → List Block → Type 0
Freed h h' p a bs = Blocks h' p a 0 bs × Kept h h' a

pub mark-Freed :
    (h : Buffers) (p a : ℕ) (b : Block) (ys : List Block)
    → Blocks h p a 0 (b ∷ ys)
    → Freed h (mark h a) p a (record { bytes = b.bytes; unused = true } ∷ ys)
mark-Freed h p a b ys s = (
  (
    record {
      before = s.0.before;
      behind = s.0.behind;
      marked = ground arith;
      sized = s.0.sized;
      there = s.0.there;
      nonempty = s.0.nonempty;
    },
    Blocks-frame h (mark h a) a (a + b.bytes) 0 ys
        (λ x l u. record {
          pre = refl;
          next = refl;
          free = ground (arith, s.0.nonempty);
          size = refl;
        })
        s.1,
  ),
  λ x l. record { pre = refl; next = refl; free = ground arith; size = refl },
)

-- the test on the next block
pub open_at-next :
    (h : Buffers) (p a : ℕ) (b y : Block) (ys : List Block)
    → Blocks h p a 0 (b ∷ y ∷ ys)
    → open_at h (h.next a) ≡ y.unused
open_at-next h p a b y ys s =
    let inside : (a + b.bytes == 0) ≡ false = ground (arith, s.0.there) in
    rw (s.0.behind) (rw (inside, s.1.0.marked) refl)

pub open_at_here :
    (h : Buffers) (p a n : ℕ) (b : Block)
    → IsHandle h p a n b
    → b.unused ≡ true
    → open_at h a ≡ true
open_at_here h p a n b s free =
    let there : (a == 0) ≡ false = ground (arith, s.there) in rw there (s.marked ∙ free)

pub ahead-used :
    (m : ℕ) (y : Block) (ys : List Block)
    → y.unused ≡ false
    → ahead m (y ∷ ys) ≡ record { bytes = m; unused = true } ∷ y ∷ ys
ahead-used m y ys e =
    ap
      (λ u.
        if u
        then record { bytes = m + y.bytes; unused = true } ∷ ys
        else record { bytes = m; unused = true } ∷ y ∷ ys)
      e

pub ahead-free :
    (m : ℕ) (y : Block) (ys : List Block)
    → y.unused ≡ true
    → ahead m (y ∷ ys) ≡ record { bytes = m + y.bytes; unused = true } ∷ ys
ahead-free m y ys e =
    ap
      (λ u.
        if u
        then record { bytes = m + y.bytes; unused = true } ∷ ys
        else record { bytes = m; unused = true } ∷ y ∷ ys)
      e

pub freed-free :
    (x : Block) (m : ℕ) (ys : List Block)
    → x.unused ≡ true
    → freed (x ∷ []) m ys ≡ ahead (x.bytes + m) ys
freed-free x m ys e = ap (λ u. if u then ahead (x.bytes + m) ys else x ∷ ahead m ys) e

pub freed-used :
    (x : Block) (m : ℕ) (ys : List Block) → x.unused ≡ false → freed (x ∷ []) m ys ≡ x ∷ ahead m ys
freed-used x m ys e = ap (λ u. if u then ahead (x.bytes + m) ys else x ∷ ahead m ys) e

pub Same-trans : {h h' h'' : Buffers} {x : ℕ} → Same h h' x → Same h' h'' x → Same h h'' x
Same-trans s t = record {
  pre = t.pre ∙ s.pre;
  next = t.next ∙ s.next;
  free = t.free ∙ s.free;
  size = t.size ∙ s.size;
}
