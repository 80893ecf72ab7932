-- ===== src/MBuffer/Free.antt =====
-- mb_free of a block next to a free one, and of one that is not.
use tmpi.Base.{
  inr, inl, ℕ, ◌+◌, ◌≡◌, refl, sym, ap, ap₂, ◌∙◌, subst, inl, inr, true, false, List, [], ◌∷◌,
  arith, Bool-cases,
}
use tmpi.MBuffer.{Buffers, free_block}
use tmpi.MBuffer.Blocks.{Block, start, Blocks}
use tmpi.MBuffer.Merge.{
  ahead, merge, mark, merge-Blocks, open_at, free_block-mark, free_block-next, free_block-pre,
  free_block-both, Freed, mark-Freed, open_at-next, open_at_here, ahead-used, ahead-free,
  Same-trans,
}

-- A freed block behind one in use, or at the start, stays where it is.
pub free_alone :
    (h : Buffers) (p a : ℕ) (b : Block) (ys : List Block)
    → Blocks h p a 0 (b ∷ ys)
    → open_at h p ≡ false
    → Freed h (free_block h a) p a (ahead b.bytes ys)
free_alone h p a b [] s before =
    subst (λ g. Freed h g p a (ahead b.bytes []))
      (sym (free_block-mark h a (rw s.0.behind refl) (rw s.0.before before)))
      (mark-Freed h p a b [] s)
free_alone h p a b (y ∷ ys) s before = elim (Bool-cases y.unused) [
  | inr used ↦ subst (Freed h (free_block h a) p a) (sym (ahead-used b.bytes y ys used)) (
      subst (λ g. Freed h g p a (record { bytes = b.bytes; unused = true } ∷ y ∷ ys))
        (sym (free_block-mark h a (open_at-next h p a b y ys s ∙ used) (rw s.0.before before)))
        (mark-Freed h p a b (y ∷ ys) s))
  | inl free ↦
      let h' = mark h a in
      let n : h.next a ≡ a + b.bytes = s.0.behind in
      let m : h.size a + h.size (h.next a) ≡ b.bytes + y.bytes =
        ap₂ ◌+◌ s.0.sized (ap h.size n ∙ s.1.0.sized) in
      let z : h.next (h.next a) ≡ start (a + (b.bytes + y.bytes)) 0 ys =
        ap h.next n ∙ s.1.0.behind ∙ ap (λ c. start c 0 ys) (omega arith) in
      let marked = mark-Freed h p a b (y ∷ ys) s in
      let merged =
        merge-Blocks h' p (a + b.bytes) a (b.bytes + y.bytes) (h.next (h.next a)) ys s.0.before
          (ground arith) s.0.there (omega (arith, s.0.nonempty)) z
          (subst (λ c. Blocks h' (a + b.bytes) c 0 ys) (omega arith) marked.0.1.1) in
      subst (Freed h (free_block h a) p a) (sym (ahead-free b.bytes y ys free)) (
        subst (λ g. Freed h g p a (record { bytes = b.bytes + y.bytes; unused = true } ∷ ys))
          (sym (
            free_block-next h a (open_at-next h p a b y ys s ∙ free) (rw s.0.before before)
            ∙ ap (λ k. merge h' a k (h.next (h.next a))) m))
          (merged.0, λ x l. Same-trans (marked.1 x l) (merged.1 x l)))
]

-- A freed block behind a free one goes into that one.
pub free_behind :
    (h : Buffers) (p a : ℕ) (c b : Block) (ys : List Block)
    → Blocks h p a 0 (c ∷ b ∷ ys)
    → c.unused ≡ true
    → Freed h (free_block h (a + c.bytes)) p a (ahead (c.bytes + b.bytes) ys)
free_behind h p a c b [] s free =
    let e = a + c.bytes in
    let into : open_at h (h.pre e) ≡ true = rw (s.1.0.before) (open_at_here h p a _ c s.0 free) in
    let m : h.size (h.pre e) + h.size e ≡ c.bytes + b.bytes =
      ap₂ ◌+◌ (ap h.size s.1.0.before ∙ s.0.sized) s.1.0.sized in
    let merged =
      merge-Blocks h p 0 a (c.bytes + b.bytes) (h.next e) [] s.0.before (s.0.marked ∙ free)
        s.0.there (omega (arith, s.0.nonempty)) s.1.0.behind tt in
    subst (λ g. Freed h g p a (ahead (c.bytes + b.bytes) []))
      (sym (
        free_block-pre h e (rw s.1.0.behind refl) into
        ∙ ap₂ (λ t k. merge h t k (h.next e)) s.1.0.before m))
      merged
free_behind h p a c b (y ∷ ys) s free =
    let e = a + c.bytes in
    let into : open_at h (h.pre e) ≡ true = rw (s.1.0.before) (open_at_here h p a _ c s.0 free) in
    elim (Bool-cases y.unused) [
      | inr used ↦
          let m : h.size (h.pre e) + h.size e ≡ c.bytes + b.bytes =
            ap₂ ◌+◌ (ap h.size s.1.0.before ∙ s.0.sized) s.1.0.sized in
          let merged =
            merge-Blocks h p e a (c.bytes + b.bytes) (h.next e) (y ∷ ys) s.0.before
              (s.0.marked ∙ free) s.0.there (omega (arith, s.0.nonempty))
              (s.1.0.behind ∙ omega arith)
              (subst (λ k. Blocks h e k 0 (y ∷ ys)) (omega arith) s.1.1) in
          subst (Freed h (free_block h e) p a) (sym (ahead-used (c.bytes + b.bytes) y ys used)) (
            subst
              (λ g. Freed h g p a (record { bytes = c.bytes + b.bytes; unused = true } ∷ y ∷ ys))
              (sym (
                free_block-pre h e (open_at-next h a e b y ys s.1 ∙ used) into
                ∙ ap₂ (λ t k. merge h t k (h.next e)) s.1.0.before m))
              merged)
      | inl joins ↦
          let n : h.next e ≡ e + b.bytes = s.1.0.behind in
          let m : h.size (h.pre e) + (h.size e + h.size (h.next e)) ≡ c.bytes + b.bytes + y.bytes =
            ap₂ ◌+◌ (ap h.size s.1.0.before ∙ s.0.sized)
              (ap₂ ◌+◌ s.1.0.sized (ap h.size n ∙ s.1.1.0.sized))
            ∙ omega arith in
          let z : h.next (h.next e) ≡ start (a + (c.bytes + b.bytes + y.bytes)) 0 ys =
            ap h.next n ∙ s.1.1.0.behind ∙ ap (λ k. start k 0 ys) (omega arith) in
          let merged =
            merge-Blocks h p (e + b.bytes) a (c.bytes + b.bytes + y.bytes) (h.next (h.next e)) ys
              s.0.before (s.0.marked ∙ free) s.0.there (omega (arith, s.0.nonempty)) z
              (subst (λ k. Blocks h (e + b.bytes) k 0 ys) (omega arith) s.1.1.1) in
          subst (Freed h (free_block h e) p a) (sym (ahead-free (c.bytes + b.bytes) y ys joins)) (
            subst
              (λ g.
                Freed h g p a (record { bytes = c.bytes + b.bytes + y.bytes; unused = true } ∷ ys))
              (sym (
                free_block-both h e (open_at-next h a e b y ys s.1 ∙ joins) into
                ∙ ap₂ (λ t k. merge h t k (h.next (h.next e))) s.1.0.before m))
              merged)
    ]
