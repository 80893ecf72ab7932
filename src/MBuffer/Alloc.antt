-- ===== src/MBuffer/Alloc.antt =====
-- The block that mb_alloc takes, and its split.
use tmpi.Base.{
  inr, inl, ℕ, ◌+◌, ◌-◌, ◌<◌, ◌≡◌, refl, sym, ap, ◌∙◌, subst, ◌≢◌, inl, inr, true, false, List, [],
  ◌∷◌, ◌++◌, arith, leb, ◌==◌, if◌then◌else◌, leb→le, Bool-cases,
}
use tmpi.MBuffer.{Buffers, update, min_fragment, split, take_block}
use tmpi.MBuffer.Blocks.{Block, Blocks, Same, Blocks-frame, Blocks-reframe}

-- what becomes of the block that is found
abbrev pub cut : (need : ℕ) → Block → List Block
cut need b =
    if leb (need + min_fragment) b.bytes
    then record { bytes = need; unused = false }
      ∷ record { bytes = b.bytes - need; unused = true }
      ∷ []
    else record b { unused = false } ∷ []

-- The handles in front of the block that is taken stay as they are.
pub take_block-before :
    (h : Buffers) (need p a : ℕ) (b : Block) (ys : List Block)
    → Blocks h p a 0 (b ∷ ys)
    → (x : ℕ) → x < a
    → Same h (take_block h a need) x
unfolding take_block split
take_block-before h need p a b [] s x l = record {
  pre = ground (arith, s.0.behind);
  next = ground arith;
  free = ground arith;
  size = ground arith;
}
take_block-before h need p a b (y ∷ ys) s x l = record {
  pre = ground (arith, s.0.behind);
  next = ground arith;
  free = ground arith;
  size = ground arith;
}

abbrev halves : (need bytes : ℕ) → List Block → List Block
halves need bytes ys =
    record { bytes = need; unused = false } ∷ record { bytes = bytes - need; unused = true } ∷ ys

elsewhere : (f : ℕ → ℕ) (i j v w x : ℕ) → x ≢ i → x ≢ j → update (update f i v) j w x ≡ f x
elsewhere f i j v w x out away = ground arith

first_written : (f : ℕ → ℕ) (i j v w : ℕ) → i ≢ j → update (update f i v) j w i ≡ v
first_written f i j v w apart = ground arith

-- split where a block follows
abbrev split_inner : Buffers → (a need : ℕ) → Buffers
split_inner h a need = record h {
  pre = update (update h.pre (a + need) a) (h.next a) (a + need);
  next = update (update h.next (a + need) (h.next a)) a (a + need);
  is_free = update h.is_free (a + need) true;
  size = update (update h.size (a + need) (h.size a - need)) a need;
}

split-inner :
    (h : Buffers) (a need : ℕ) → (h.next a == 0) ≡ false → split h a need ≡ split_inner h a need
unfolding split
split-inner h a need e = rw e refl

split_inner-Same :
    (h : Buffers) (a need x : ℕ)
    → x ≢ a
    → x ≢ a + need
    → x ≢ h.next a
    → Same h (split_inner h a need) x
split_inner-Same h a need x one two three = record {
  pre = elsewhere h.pre (a + need) (h.next a) a (a + need) x two three;
  next = elsewhere h.next (a + need) a (h.next a) (a + need) x two one;
  free = ground arith;
  size = elsewhere h.size (a + need) a (h.size a - need) need x two one;
}

split-Blocks :
    (h : Buffers) (need p a bytes : ℕ) (ys : List Block)
    → Blocks h p a 0 (record { bytes = bytes; unused = false } ∷ ys)
    → 0 < need
    → need < bytes
    → Blocks (split h a need) p a 0 (halves need bytes ys)
unfolding split
split-Blocks h need p a bytes [] s some_need fit = (
  record {
    before = ground (arith, s.0);
    behind = ground arith;
    marked = ground (arith, s.0);
    sized = ground arith;
    there = s.0.there;
    nonempty = some_need;
  },
  (
    record {
      before = ground (arith, s.0);
      behind = ground (arith, s.0);
      marked = ground arith;
      sized = ground (arith, s.0.sized);
      there = omega (arith, s.0.there);
      nonempty = omega arith;
    },
    tt,
  ),
)
split-Blocks h need p a bytes (y ∷ ys) s some_need fit =
    let h' = split_inner h a need in
    let e : a + bytes ≡ a + need + (bytes - need) = omega arith in
    let n : h.next a ≡ a + bytes = s.0.behind in
    subst (λ g. Blocks g p a 0 (halves need bytes (y ∷ ys)))
      (sym (split-inner h a need (ground (arith, n, s.0.there))))
      (
        record {
          before =
              elsewhere h.pre (a + need) (h.next a) a (a + need) a (omega arith) (omega (arith, n))
              ∙ s.0.before;
          behind = ground arith;
          marked = ground (arith, s.0.marked);
          sized = ground arith;
          there = s.0.there;
          nonempty = some_need;
        },
        (
          record {
            before = first_written h.pre (a + need) (h.next a) a (a + need) (omega (arith, n));
            behind = first_written h.next (a + need) a (h.next a) (a + need) (omega arith) ∙ n ∙ e;
            marked = ground arith;
            sized =
                first_written h.size (a + need) a (h.size a - need) need (omega arith)
                ∙ ap (λ x. x - need) s.0.sized;
            there = omega (arith, s.0.there);
            nonempty = omega arith;
          },
          subst (λ c. Blocks h' (a + need) c 0 (y ∷ ys)) e
              (Blocks-reframe h h' a (a + need) (a + bytes) 0 (y ∷ ys)
                (λ x l u.
                  split_inner-Same h a need x (omega arith) (omega arith) (omega (arith, n)))
                (λ b cs q. (
                  ground (arith, n),
                  elsewhere h.next (a + need) a (h.next a) (a + need) (a + bytes) (omega arith)
                      (omega arith),
                  ground arith,
                  elsewhere h.size (a + need) a (h.size a - need) need (a + bytes) (omega arith)
                      (omega arith),
                ))
                s.1),
        ),
      )

pub take_block-Blocks :
    (h : Buffers) (need p a : ℕ) (b : Block) (ys : List Block)
    → Blocks h p a 0 (b ∷ ys)
    → 0 < need
    → Blocks (take_block h a need) p a 0 (cut need b ++ ys)
unfolding take_block
take_block-Blocks h need p a b ys s some_need =
    elim (Bool-cases (leb (need + min_fragment) b.bytes)) [
      | inl big ↦ rw (s.0.sized) (
          rw big (
            split-Blocks (record h { is_free = update h.is_free a false }) need p a b.bytes ys
              (
                record {
                  before = s.0.before;
                  behind = s.0.behind;
                  marked = ground arith;
                  sized = s.0.sized;
                  there = s.0.there;
                  nonempty = s.0.nonempty;
                },
                Blocks-frame h _ a (a + b.bytes) 0 ys
                    (λ x l u. record {
                      pre = refl;
                      next = refl;
                      free = ground (arith, s.0.nonempty);
                      size = refl;
                    })
                    s.1,
              )
              some_need (omega (arith, leb→le (need + min_fragment) b.bytes big))))
      | inr small ↦ rw (s.0.sized) (
          rw small (
            record {
              before = s.0.before;
              behind = s.0.behind;
              marked = ground arith;
              sized = s.0.sized;
              there = s.0.there;
              nonempty = s.0.nonempty;
            },
            Blocks-frame h _ a (a + b.bytes) 0 ys
                (λ x l u. record {
                  pre = refl;
                  next = refl;
                  free = ground (arith, s.0.nonempty);
                  size = refl;
                })
                s.1,
          ))
    ]
