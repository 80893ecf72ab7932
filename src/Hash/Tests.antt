-- ===== src/Hash/Tests.antt =====
-- A table of two entries, and keys that are the symbols.
use tmpi.Hash.{
  HashTab, Functions, symhash, addsym, delsym, findsym, hash_add, pjw_round, hash_pjw, slot,
}
use tmpi.Hash.Laws.{findsym-addsym, delsym-addsym}
use tmpi.Base.{ℕ, ◌%◌, ◌≡◌, refl, ◌≢◌, not, some, [], ◌∷◌, arith, ◌==◌}
use tmpi.Intra.Types.{update}

abbrev plain : Functions
plain = record { hash = λ k. k; get_key = λ s. s; keys_differ = λ a b. not (a == b) }

abbrev two : HashTab
two = record {
  size = 2;
  numsyms = 1;
  table = update (λ i. 0) 1 5;
  next = λ p. 0;
  prev = λ p. slot 1;
}

in_use : two.table (symhash plain 7 % two.size) ≢ 7
unfolding symhash
in_use = omega arith

at_head : slot 1 ≡ slot (symhash plain 7 % two.size)
unfolding symhash
at_head = refl

findsym-addsym_example : findsym plain (some (addsym plain two 7)) 3 7 ≡ some 7
findsym-addsym_example = findsym-addsym plain two 7 2 (omega arith) refl

delsym-addsym_example :
    (t' : HashTab) × (delsym (some (addsym plain two 7)) 7 ≡ some t')
    × (t'.size ≡ 2)
    × (t'.numsyms ≡ 1)
    × ((i : ℕ) → t'.table i ≡ two.table i)
    × ((p : ℕ) → p ≢ 7 → t'.next p ≡ 0)
    × ((p : ℕ) → p ≢ 7 → t'.prev p ≡ slot 1)
delsym-addsym_example = delsym-addsym plain two 7 (omega arith) in_use (λ h. at_head)

hash_ab : hash_pjw 0 (b'a' ∷ b'b' ∷ []) ≡ 0x672
unfolding hash_pjw pjw_round
hash_ab = refl

hash_add_ab : hash_add 0 (b'a' ∷ b'b' ∷ []) ≡ 195
unfolding hash_add
hash_add_ab = refl
