-- ===== src/MBuffer/Coalesced.antt =====
-- Buffers in which no two free blocks stand side by side.
use tmpi.Base.{
  inr, inl, ℕ, ◌+◌, ◌-◌, ◌≤◌, ◌≡◌, refl, sym, ap, ap₂, ◌∙◌, subst, inr, true, false, ◌&&◌, List, [],
  ◌∷◌, ◌++◌, arith, leb, if◌then◌else◌, Bool-cases,
}
use tmpi.MBuffer.{min_fragment}
use tmpi.MBuffer.Blocks.{Block, block}
use tmpi.MBuffer.Alloc.{cut}
use tmpi.MBuffer.Merge.{ahead, freed, ahead-used, ahead-free, freed-free, freed-used}

abbrev pub Coalesced : List Block → Type 0
Coalesced [] = Unit {0}
Coalesced (b ∷ []) = Unit {0}
Coalesced (b ∷ c ∷ bs) = ((b.unused && c.unused) ≡ false) × Coalesced (c ∷ bs)

-- the block that is split off at the front, and what is left of it
abbrev pub taken : (need : ℕ) → Block → ℕ
taken need b = if leb (need + min_fragment) b.bytes then need else b.bytes

abbrev pub spare : (need : ℕ) → Block → List Block
spare need b =
    if leb (need + min_fragment) b.bytes
    then record { bytes = b.bytes - need; unused = true } ∷ []
    else []

pub cut-taken :
    (need : ℕ) (b : Block)
    → cut need b ≡ record { bytes = taken need b; unused = false } ∷ spare need b
cut-taken need b = elim (Bool-cases (leb (need + min_fragment) b.bytes)) [
  | inl big ↦ rw big refl
  | inr small ↦ rw small refl
]

-- Only whether it is free matters of a block.
alike :
    (b c : Block) (bs : List Block) → c.unused ≡ b.unused → Coalesced (b ∷ bs) → Coalesced (c ∷ bs)
alike b c [] e s = tt
alike b c (d ∷ bs) e s = (ap (λ u. u && d.unused) e ∙ s.0, s.1)

used_first : (b : Block) (bs : List Block) → b.unused ≡ false → Coalesced bs → Coalesced (b ∷ bs)
used_first b [] e s = tt
used_first b (d ∷ bs) e s = (ap (λ u. u && d.unused) e, s)

tail-Coalesced : (b : Block) (bs : List Block) → Coalesced (b ∷ bs) → Coalesced bs
tail-Coalesced b [] s = tt
tail-Coalesced b (c ∷ bs) s = s.1

-- The split of a free block keeps this.
pub cut-Coalesced :
    (need : ℕ) (xs : List Block) (b : Block) (ys : List Block)
    → Coalesced (xs ++ b ∷ ys)
    → b.unused ≡ true
    → Coalesced (xs ++ (cut need b ++ ys))
cut-Coalesced need [] b ys c free = elim (Bool-cases (leb (need + min_fragment) b.bytes)) [
  | inl big ↦
      rw big (refl, alike b (record { bytes = b.bytes - need; unused = true }) ys (sym free) c)
  | inr small ↦ rw small (used_first (record b { unused = false }) ys refl (tail-Coalesced b ys c))
]
cut-Coalesced need (x ∷ []) b ys c free = elim (Bool-cases (leb (need + min_fragment) b.bytes)) [
  | inl big ↦ rw big (
    ground arith,
    (refl, alike b (record { bytes = b.bytes - need; unused = true }) ys (sym free) c.1),
  )
  | inr small ↦
      rw small
        (ground arith, used_first (record b { unused = false }) ys refl (tail-Coalesced b ys c.1))
]
cut-Coalesced need (x ∷ y ∷ xs) b ys c free = (c.0, cut-Coalesced need (y ∷ xs) b ys c.1 free)

ahead-Coalesced :
    (m : ℕ) (b : Block) (ys : List Block) → Coalesced (b ∷ ys) → Coalesced (ahead m ys)
ahead-Coalesced m b [] c = tt
ahead-Coalesced m b (y ∷ ys) c = elim (Bool-cases y.unused) [
  | inl free ↦
      subst Coalesced (sym (ahead-free m y ys free))
        (alike y (record { bytes = m + y.bytes; unused = true }) ys (sym free) c.1)
  | inr used ↦ subst Coalesced (sym (ahead-used m y ys used)) (used, c.1)
]

-- The first block once another is freed is free if it was.
cons-freed :
    (x y : Block) (xs : List Block) (m : ℕ) (ys : List Block)
    → (x.unused && y.unused) ≡ false
    → Coalesced (freed (y ∷ xs) m ys)
    → Coalesced (x ∷ freed (y ∷ xs) m ys)
cons-freed x y (z ∷ xs) m ys apart c = (apart, c)
cons-freed x y [] m ys apart c = elim (Bool-cases y.unused) [
  | inr used ↦
      let e = freed-used y m ys used in
      subst (λ l. Coalesced (x ∷ l)) (sym e) (apart, subst Coalesced e c)
  | inl free ↦ used_first x (freed (y ∷ []) m ys) (ground (arith, apart, free)) c
]

pub freed-Coalesced :
    (xs : List Block) (b : Block) (ys : List Block)
    → Coalesced (xs ++ b ∷ ys)
    → Coalesced (freed xs b.bytes ys)
freed-Coalesced [] b ys c = ahead-Coalesced b.bytes b ys c
freed-Coalesced (x ∷ []) b ys c = elim (Bool-cases x.unused) [
  | inl free ↦
      subst Coalesced (sym (freed-free x b.bytes ys free))
        (ahead-Coalesced (x.bytes + b.bytes) b ys c.1)
  | inr used ↦
      subst Coalesced (sym (freed-used x b.bytes ys used))
        (used_first x (ahead b.bytes ys) used (ahead-Coalesced b.bytes b ys c.1))
]
freed-Coalesced (x ∷ y ∷ xs) b ys c =
    cons-freed x y xs b.bytes ys c.0 (freed-Coalesced (y ∷ xs) b ys c.1)

-- The freed front of a block takes up the rest again, and nothing else.
ahead-spare :
    (need : ℕ) (b : Block) (ys : List Block)
    → need ≤ b.bytes
    → b.unused ≡ true
    → Coalesced (b ∷ ys)
    → ahead (taken need b) (spare need b ++ ys) ≡ b ∷ ys
ahead-spare need b ys fit free c = elim (Bool-cases (leb (need + min_fragment) b.bytes)) [
  | inl big ↦ rw big (ap (λ (x : Block). x ∷ ys) (ap₂ block (omega arith) (sym free)))
  | inr small ↦ rw small (last ys c)
]
  where
    same : record { bytes = b.bytes; unused = true } ≡ b
    same = ap (block b.bytes) (sym free)

    last : (zs : List Block) → Coalesced (b ∷ zs) → ahead b.bytes zs ≡ b ∷ zs
    last [] d = ap (λ (x : Block). x ∷ []) same
    last (z ∷ zs) d =
        ahead-used b.bytes z zs (ground (arith, d.0, free)) ∙ ap (λ (x : Block). x ∷ z ∷ zs) same

pub freed-cut :
    (need : ℕ) (xs : List Block) (b : Block) (ys : List Block)
    → need ≤ b.bytes
    → b.unused ≡ true
    → Coalesced (xs ++ b ∷ ys)
    → freed xs (taken need b) (spare need b ++ ys) ≡ xs ++ b ∷ ys
freed-cut need [] b ys fit free c = ahead-spare need b ys fit free c
freed-cut need (x ∷ []) b ys fit free c =
    freed-used x (taken need b) (spare need b ++ ys) (ground (arith, c.0, free))
    ∙ ap (λ l. x ∷ l) (ahead-spare need b ys fit free c.1)
freed-cut need (x ∷ y ∷ xs) b ys fit free c =
    ap (λ l. x ∷ l) (freed-cut need (y ∷ xs) b ys fit free c.1)
