-- ===== src/MBuffer/Blocks.antt =====
-- A buffer as the sequence of its blocks, and the chain of handles that stands for it.
use tmpi.Base.{ℕ, ◌+◌, ◌≤◌, ◌<◌, ◌≡◌, refl, sym, ap, ◌∙◌, subst, Bool, List, [], ◌∷◌, ◌++◌, arith}
use tmpi.MBuffer.{Buffers}

pub record Block : Type 0 where
  pub bytes : ℕ
  pub unused : Bool

abbrev pub block : (bytes : ℕ) (unused : Bool) → Block
block bytes unused = record { bytes = bytes; unused = unused }

-- the bytes of all blocks
abbrev pub total : List Block → ℕ
total [] = 0
total (b ∷ bs) = b.bytes + total bs

-- where the next block starts, if `n` follows the last
abbrev pub start : (a n : ℕ) → List Block → ℕ
start a n [] = n
start a n (b ∷ bs) = a

-- the handle of the last block, if `p` is before the first
abbrev pub last_of : (p a : ℕ) → List Block → ℕ
last_of p a [] = p
last_of p a (b ∷ bs) = last_of a (a + b.bytes) bs

-- one block's handle
pub record IsHandle (h : Buffers) (p a n : ℕ) (b : Block) : Type 0 where
  pub before : h.pre a ≡ p
  pub behind : h.next a ≡ n
  pub marked : h.is_free a ≡ b.unused
  pub sized : h.size a ≡ b.bytes
  pub there : 0 < a
  pub nonempty : 0 < b.bytes

-- the blocks `bs` stand one behind the other from address `a` on, after the handle `p`; `n` is what
-- the last one is chained to
abbrev pub Blocks : Buffers → (p a n : ℕ) → List Block → Type 0
Blocks h p a n [] = Unit {0}
Blocks h p a n (b ∷ bs) =
    IsHandle h p a (start (a + b.bytes) n bs) b × Blocks h a (a + b.bytes) n bs

-- two states agree on the handle at an address
pub record Same (h h' : Buffers) (x : ℕ) : Type 0 where
  pub pre : h'.pre x ≡ h.pre x
  pub next : h'.next x ≡ h.next x
  pub free : h'.is_free x ≡ h.is_free x
  pub size : h'.size x ≡ h.size x

pub Blocks-frame :
    (h h' : Buffers) (p a n : ℕ) (bs : List Block)
    → ((x : ℕ) → a ≤ x → x < a + total bs → Same h h' x)
    → Blocks h p a n bs
    → Blocks h' p a n bs
Blocks-frame h h' p a n [] same s = tt
Blocks-frame h h' p a n (b ∷ bs) same s =
    let at = same a (omega arith) (omega (arith, s.0.nonempty)) in
    (
      record {
        before = at.pre ∙ s.0.before;
        behind = at.next ∙ s.0.behind;
        marked = at.free ∙ s.0.marked;
        sized = at.size ∙ s.0.sized;
        there = s.0.there;
        nonempty = s.0.nonempty;
      },
      Blocks-frame h h' a (a + b.bytes) n bs (λ x l u. same x (omega arith) (omega arith)) s.1,
    )

-- The same where the handle of the first block is chained back to another one.
pub Blocks-reframe :
    (h h' : Buffers) (p p' a n : ℕ) (bs : List Block)
    → ((x : ℕ) → a < x → x < a + total bs → Same h h' x)
    → ((b : Block) (cs : List Block)
        → bs ≡ b ∷ cs
        → (h'.pre a ≡ p')
          × (h'.next a ≡ h.next a)
          × (h'.is_free a ≡ h.is_free a)
          × (h'.size a ≡ h.size a))
    → Blocks h p a n bs
    → Blocks h' p' a n bs
Blocks-reframe h h' p p' a n [] same first s = tt
Blocks-reframe h h' p p' a n (b ∷ bs) same first s =
    let at = first b bs refl in
    (
      record {
        before = at.0;
        behind = at.1 ∙ s.0.behind;
        marked = at.2 ∙ s.0.marked;
        sized = at.3 ∙ s.0.sized;
        there = s.0.there;
        nonempty = s.0.nonempty;
      },
      Blocks-frame h h' a (a + b.bytes) n bs
          (λ x l u. same x (omega (arith, s.0.nonempty)) (omega arith)) s.1,
    )

pub start-append :
    (a n : ℕ) (xs ys : List Block) → start a n (xs ++ ys) ≡ start a (start (a + total xs) n ys) xs
start-append a n [] ys = ap (λ x. start x n ys) (omega arith)
start-append a n (x ∷ xs) ys = refl

-- The blocks of two stretches, and back.
pub Blocks-split :
    (h : Buffers) (p a n : ℕ) (xs ys : List Block)
    → Blocks h p a n (xs ++ ys)
    → Blocks h p a (start (a + total xs) n ys) xs × Blocks h (last_of p a xs) (a + total xs) n ys
Blocks-split h p a n [] ys s = (tt, subst (λ x. Blocks h p x n ys) (omega arith) s)
Blocks-split h p a n (x ∷ xs) ys s =
    let rest = Blocks-split h a (a + x.bytes) n xs ys s.1 in
    let assoc : a + x.bytes + total xs ≡ a + (x.bytes + total xs) = omega arith in
    (
      (
        record {
          before = s.0.before;
          behind =
              s.0.behind
              ∙ start-append (a + x.bytes) n xs ys
              ∙ ap (λ y. start (a + x.bytes) (start y n ys) xs) assoc;
          marked = s.0.marked;
          sized = s.0.sized;
          there = s.0.there;
          nonempty = s.0.nonempty;
        },
        subst (λ y. Blocks h a (a + x.bytes) (start y n ys) xs) assoc rest.0,
      ),
      subst (λ y. Blocks h (last_of a (a + x.bytes) xs) y n ys) assoc rest.1,
    )

pub Blocks-join :
    (h : Buffers) (p a n : ℕ) (xs ys : List Block)
    → Blocks h p a (start (a + total xs) n ys) xs
    → Blocks h (last_of p a xs) (a + total xs) n ys
    → Blocks h p a n (xs ++ ys)
Blocks-join h p a n [] ys s t = subst (λ x. Blocks h p x n ys) (omega arith) t
Blocks-join h p a n (x ∷ xs) ys s t =
    let assoc : a + (x.bytes + total xs) ≡ a + x.bytes + total xs = omega arith in
    (
      record {
        before = s.0.before;
        behind =
            s.0.behind
            ∙ ap (λ y. start (a + x.bytes) (start y n ys) xs) assoc
            ∙ sym (start-append (a + x.bytes) n xs ys);
        marked = s.0.marked;
        sized = s.0.sized;
        there = s.0.there;
        nonempty = s.0.nonempty;
      },
      Blocks-join h a (a + x.bytes) n xs ys
          (subst (λ y. Blocks h a (a + x.bytes) (start y n ys) xs) assoc s.1)
          (subst (λ y. Blocks h (last_of a (a + x.bytes) xs) y n ys) assoc t),
    )
