-- ===== src/Hash.antt =====
-- The hash table of the translator: src/compile/mpitrans/hash.c. A symbol goes by the address of the
-- BUCKET in front of it, 0 is NULL, and keys are numbers or, for the hash functions, their bytes.
pub mod Laws
mod Tests
use tmpi.Base.{
  ℕ, zero, suc, ◌+◌, ◌-◌, ◌*◌, ◌/◌, ◌%◌, ◌^◌, sym, Bool, Option, none, some, List, [], ◌∷◌, ◌==◌,
  if◌then◌else◌,
}
use tmpi.Intra.Types.{update}
use Prim.Native.Nat.{bit_and, bit_xor}

-- what prev points to: an entry of the table, or the `next` of a bucket
pub data Cell : Type 0 where
  slot : ℕ → Cell
  next_of : ℕ → Cell

-- HASH_TAB with the links of its buckets
pub record HashTab : Type 0 where
  pub size : ℕ
  pub numsyms : ℕ
  pub table : ℕ → ℕ
  pub next : ℕ → ℕ
  pub prev : ℕ → Cell

-- the functions in a HASH_TAB; `keys_differ` is cmp
pub record Functions : Type 0 where
  pub hash : ℕ → ℕ
  pub get_key : ℕ → ℕ
  pub keys_differ : ℕ → ℕ → Bool

-- maketab; `next` and `prev` are those of all buckets there will be
unfoldable pub maketab : (got : Bool) (maxsym : ℕ) (next : ℕ → ℕ) (prev : ℕ → Cell) → Option HashTab
maketab got maxsym next prev =
    if got
    then some (record {
      size = if maxsym == 0 then 127 else maxsym;
      numsyms = 0;
      table = λ i. 0;
      next = next;
      prev = prev;
    })
    else none

-- `*c = b`
unfoldable pub write_cell : Cell → (b : ℕ) → HashTab → HashTab
write_cell (slot i) b t = record t { table = update t.table i b }
write_cell (next_of p) b t = record t { next = update t.next p b }

-- symhash, for the entry of a symbol
unfoldable pub symhash : Functions → (sym : ℕ) → ℕ
symhash fs sym = fs.hash (fs.get_key sym)

-- addsym
unfoldable pub addsym : Functions → HashTab → (sym : ℕ) → HashTab
addsym fs t sym =
    let i = symhash fs sym % t.size in
    let tmp = t.table i in
    let prev₁ = update t.prev sym (slot i) in
    record t {
      table = update t.table i sym;
      next = update t.next sym tmp;
      prev = if tmp == 0 then prev₁ else update prev₁ tmp (next_of sym);
      numsyms = t.numsyms + 1;
    }

-- The body of delsym. A table counts every symbol in it, so that the subtraction is exact.
unfoldable pub unlink : HashTab → (sym : ℕ) → HashTab
unlink t sym =
    let after = t.next sym in
    let t₁ = write_cell (t.prev sym) after (record t { numsyms = t.numsyms - 1 }) in
    if after == 0 then t₁ else record t₁ { prev = update t₁.prev after (t₁.prev sym) }

-- delsym, none for a table that is NULL
unfoldable pub delsym : Option HashTab → (sym : ℕ) → Option HashTab
delsym none sym = none
delsym (some t) sym = some (if sym == 0 then t else unlink t sym)

-- the loop of findsym
unfoldable pub find_from : Functions → HashTab → (key fuel p : ℕ) → Option ℕ
find_from fs t key zero p = none
find_from fs t key (suc n) p =
    let rest = find_from fs t key n (t.next p) in
    if p == 0 then some 0 else if fs.keys_differ key (fs.get_key p) then rest else some p

-- findsym; none when the fuel runs out
unfoldable pub findsym : Functions → Option HashTab → (fuel key : ℕ) → Option ℕ
findsym fs none fuel key = some 0
findsym fs (some t) fuel key = find_from fs t key fuel (t.table (fs.hash key % t.size))

-- symcmp
abbrev pub symcmp : Functions → (sym1 sym2 : ℕ) → Bool
symcmp fs sym1 sym2 = fs.keys_differ (fs.get_key sym1) (fs.get_key sym2)

-- nextsym; none when the fuel runs out
unfoldable pub nextsym : Functions → HashTab → (fuel last : ℕ) → Option ℕ
nextsym fs t zero last = none
nextsym fs t (suc n) last =
    let rest = nextsym fs t n (t.next last) in
    if t.next last == 0
    then some 0
    else if symcmp fs last (t.next last)
    then rest
    else some (t.next last)

-- hash_add, from the sum `h` on; the bytes of a key are those before its 0
unfoldable pub hash_add : (h : ℕ) (name : List ℕ) → ℕ
hash_add h [] = h
hash_add h (c ∷ cs) = hash_add ((h + c) % 2 ^ 32) cs

-- HIGH_BITS
abbrev pub high_bits : ℕ
high_bits = 0xf0000000

-- h after the shift and the addition of a round of hash_pjw, and after the round
abbrev pub shifted : (h c : ℕ) → ℕ
shifted h c = (h * 16 + c) % 2 ^ 32

unfoldable pub pjw_round : (h : ℕ) → ℕ
pjw_round h =
    let g = bit_and h high_bits in
    if g == 0 then h else bit_and (bit_xor h (g / 2 ^ 24)) (2 ^ 32 - 1 - high_bits)

-- hash_pjw, from `h` on
unfoldable pub hash_pjw : (h : ℕ) (name : List ℕ) → ℕ
hash_pjw h [] = h
hash_pjw h (c ∷ cs) = hash_pjw (pjw_round (shifted h c)) cs

-- hash_pjw2, from `h` on; `hh` is what that variable holds, at first nothing that was written to it
unfoldable pub hash_pjw2 : (h hh : ℕ) (name : List ℕ) → ℕ
hash_pjw2 h hh [] = hh
hash_pjw2 h hh (c ∷ cs) = hash_pjw2 (pjw_round (shifted h c)) (shifted h c) cs
