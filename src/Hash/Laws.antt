-- ===== src/Hash/Laws.antt =====
-- What addsym, findsym and delsym do to one another.
use tmpi.Hash.{
  HashTab, Functions, write_cell, symhash, addsym, unlink, delsym, find_from, findsym, slot,
  next_of,
}
use tmpi.Base.{
  ℕ, suc, ◌+◌, ◌-◌, ◌%◌, ◌≡◌, refl, sym, ap, ◌∙◌, ◌≢◌, inl, inr, false, some, arith, ◌==◌,
  if◌then◌else◌, Bool-cases,
}
use tmpi.Intra.Types.{update, update_self}

-- findsym finds the symbol that was added last, in front of others with its key, in one round.
pub findsym-addsym :
    (fs : Functions) (t : HashTab) (symbol n : ℕ)
    → symbol ≢ 0
    → fs.keys_differ (fs.get_key symbol) (fs.get_key symbol) ≡ false
    → findsym fs (some (addsym fs t symbol)) (suc n) (fs.get_key symbol) ≡ some symbol
unfolding findsym find_from addsym symhash
findsym-addsym fs t symbol n real same =
    let i = fs.hash (fs.get_key symbol) % t.size in
    let here : update t.table i symbol i ≡ symbol = update_self t.table i symbol in
    let not_null : (symbol == 0) ≡ false = ground arith in rw (here, not_null, same) refl

-- the table after the two
abbrev both : Functions → HashTab → (symbol : ℕ) → HashTab
both fs t symbol =
    let i = symhash fs symbol % t.size in
    let tmp = t.table i in
    let prev₁ = update t.prev symbol (slot i) in
    record {
      size = t.size;
      numsyms = t.numsyms + 1 - 1;
      table = update (update t.table i symbol) i tmp;
      next = update t.next symbol tmp;
      prev = if tmp == 0 then prev₁ else update (update prev₁ tmp (next_of symbol)) tmp (slot i);
    }

unlink-addsym :
    (fs : Functions) (t : HashTab) (symbol : ℕ)
    → t.table (symhash fs symbol % t.size) ≢ symbol
    → unlink (addsym fs t symbol) symbol ≡ both fs t symbol
unfolding unlink write_cell addsym
unlink-addsym fs t symbol fresh =
    let i = symhash fs symbol % t.size in
    let tmp = t.table i in
    let prev₁ = update t.prev symbol (slot i) in
    let after : update t.next symbol tmp symbol ≡ tmp = update_self t.next symbol tmp in
    let own : prev₁ symbol ≡ slot i = update_self t.prev symbol (slot i) in
    elim (Bool-cases (tmp == 0)) [
      | inl last ↦ rw (after, last, own) refl
      | inr more ↦
          let other : (symbol == tmp) ≡ false = ground arith in
          let own₂ : update prev₁ tmp (next_of symbol) symbol ≡ slot i = rw other own in
          rw (after, more, own₂, own₂) refl
    ]

restored : (f : ℕ → ℕ) (i v j : ℕ) → update (update f i v) i (f i) j ≡ f j
restored f i v j = elim (Bool-cases (j == i)) [
  | inl here ↦ rw here (ap f (ground arith))
  | inr there ↦ rw there refl
]

prev_restored :
    (fs : Functions) (t : HashTab) (symbol p : ℕ)
    → p ≢ symbol
    → (t.table (symhash fs symbol % t.size) ≢ 0
        → t.prev (t.table (symhash fs symbol % t.size)) ≡ slot (symhash fs symbol % t.size))
    → (both fs t symbol).prev p ≡ t.prev p
prev_restored fs t symbol p other back =
    let tmp = t.table (symhash fs symbol % t.size) in
    let apart : (p == symbol) ≡ false = ground arith in
    elim (Bool-cases (tmp == 0)) [
      | inl last ↦ rw (last, apart) refl
      | inr more ↦ elim (Bool-cases (p == tmp)) [
        | inl here ↦
            let at : p ≡ tmp = ground arith in
            rw (more, here) (sym (ap t.prev at ∙ back (ground arith)))
        | inr there ↦ rw (more, there, apart) refl
      ]
    ]

-- delsym of the symbol that was added last gives the table back as it was, for every table in which
-- the first bucket of a list points back to its entry: the number of symbols, the entries, and the
-- links of all buckets but the symbol's own.
pub delsym-addsym :
    (fs : Functions) (t : HashTab) (symbol : ℕ)
    → symbol ≢ 0
    → t.table (symhash fs symbol % t.size) ≢ symbol
    → (t.table (symhash fs symbol % t.size) ≢ 0
        → t.prev (t.table (symhash fs symbol % t.size)) ≡ slot (symhash fs symbol % t.size))
    → (t' : HashTab) × (delsym (some (addsym fs t symbol)) symbol ≡ some t')
      × (t'.size ≡ t.size)
      × (t'.numsyms ≡ t.numsyms)
      × ((i : ℕ) → t'.table i ≡ t.table i)
      × ((p : ℕ) → p ≢ symbol → t'.next p ≡ t.next p)
      × ((p : ℕ) → p ≢ symbol → t'.prev p ≡ t.prev p)
unfolding delsym unlink write_cell addsym
delsym-addsym fs t symbol real fresh back =
    let i = symhash fs symbol % t.size in
    let tmp = t.table i in
    let not_null : (symbol == 0) ≡ false = ground arith in
    (
      both fs t symbol,
      rw (not_null, unlink-addsym fs t symbol fresh) refl,
      refl,
      omega arith,
      (λ j. restored t.table i symbol j),
      (λ p other. let apart : (p == symbol) ≡ false = ground arith in rw apart refl),
      λ p other. prev_restored fs t symbol p other back,
    )
