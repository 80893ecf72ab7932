-- ===== src/Intra/Lengths.antt =====
-- The length of a message: the product of two ints.
use tmpi.Base.{ℕ, ◌+◌, ◌-◌, ◌*◌, ◌%◌, ◌^◌, ◌≤◌, ◌<◌, ◌≡◌, none, some, arith, pos, negsuc}
use tmpi.Intra.Create.{as_int, int_product}

as_int_fits : (u : ℕ) → u < 2 ^ 31 → as_int (u % 2 ^ 32) ≡ some u
as_int_fits u h = let e : u % 2 ^ 32 ≡ u = omega arith in rw e (ground arith)

as_int_negative : (u : ℕ) → 2 ^ 31 ≤ u → u < 2 ^ 32 → as_int (u % 2 ^ 32) ≡ none
as_int_negative u h k = let e : u % 2 ^ 32 ≡ u = omega arith in rw e (ground arith)

as_int_wraps : (u : ℕ) → 2 ^ 32 ≤ u → u < 2 ^ 32 + 2 ^ 31 → as_int (u % 2 ^ 32) ≡ some (u - 2 ^ 32)
as_int_wraps u h k = let e : u % 2 ^ 32 ≡ u - 2 ^ 32 = omega arith in rw e (ground arith)

as_int_below : (u : ℕ) → 0 < u → u ≤ 2 ^ 31 → as_int ((2 ^ 32 - u % 2 ^ 32) % 2 ^ 32) ≡ none
as_int_below u h k =
    let e : (2 ^ 32 - u % 2 ^ 32) % 2 ^ 32 ≡ 2 ^ 32 - u = omega arith in rw e (ground arith)

-- The length of a message is the product of count and size when that fits an int, an error when it
-- is 2 GB to 4 GB or negative down to -2 GB, and 4 GB too small when it is 4 GB to 6 GB.
pub int_product_lem :
    (n c : ℕ)
    → (n * c < 2 ^ 31 → int_product n (pos c) ≡ some (n * c))
      × (2 ^ 31 ≤ n * c → n * c < 2 ^ 32 → int_product n (pos c) ≡ none)
      × (2 ^ 32 ≤ n * c → n * c < 2 ^ 32 + 2 ^ 31 → int_product n (pos c) ≡ some (n * c - 2 ^ 32))
      × (0 < n * (c + 1) → n * (c + 1) ≤ 2 ^ 31 → int_product n (negsuc c) ≡ none)
unfolding int_product
int_product_lem n c =
    (as_int_fits (n * c), as_int_negative (n * c), as_int_wraps (n * c), as_int_below (n * (c + 1)))
