-- ===== src/Base/Ints.antt =====
-- C's `int` where a program stores negative marks (MPI_UNDEFINED, MPI_ANY_TAG) beside ranks.
-- Nothing here adds such numbers: they are only compared.
use Prim.Native.Nat.{ℕ, compare, Ordering}
use mathlib.Core.Path.{◌≡◌, refl}
use mathlib.Core.Logic.{◌↔◌}
use mathlib.Core.Bool.{Bool, true, false}
use native.Mathlib.Omega.{arith}

-- `negsuc n` is -(n + 1).
pub data ℤ : Type 0 where
  pos : ℕ → ℤ
  negsuc : ℕ → ℤ

abbrev pub eqb : ℤ → ℤ → Bool
eqb (pos a) (pos b) = elim (compare a b) [ Ordering.eq ↦ true | _ ↦ false ]
eqb (negsuc a) (negsuc b) = elim (compare a b) [ Ordering.eq ↦ true | _ ↦ false ]
eqb (pos a) (negsuc b) = false
eqb (negsuc a) (pos b) = false

pub eqb_iff : (a b : ℤ) → (eqb a b ≡ true) ↔ (a ≡ b)
eqb_iff (pos a) (pos b) = ground arith
eqb_iff (negsuc a) (negsuc b) = ground arith
eqb_iff (pos a) (negsuc b) = ground arith
eqb_iff (negsuc a) (pos b) = ground arith

pub eqb_comm : (a b : ℤ) → eqb a b ≡ eqb b a
eqb_comm (pos a) (pos b) = ground arith
eqb_comm (negsuc a) (negsuc b) = ground arith
eqb_comm (pos a) (negsuc b) = refl
eqb_comm (negsuc a) (pos b) = refl
