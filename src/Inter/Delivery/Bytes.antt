-- ===== src/Inter/Delivery/Bytes.antt =====
-- What netq_recvdata writes.
use tmpi.Base.{
  ℕ, zero, suc, ◌+◌, ◌≤◌, ◌<◌, ◌≡◌, refl, ap, ap₂, ◌∙◌, List, [], ◌∷◌, arith, length, take,
}
use tmpi.Intra.Types.{update, update_self}
use tmpi.Intra.Channel.{bytes}
use tmpi.Inter.Wire.{put}

put_outside : (mem : ℕ → ℕ) (dst a : ℕ) (xs : List ℕ) → a < dst → put mem dst xs a ≡ mem a
put_outside mem dst a [] h = refl
put_outside mem dst a (x ∷ xs) h =
    put_outside (update mem dst x) (dst + 1) a xs (omega arith) ∙ ground arith

-- The destination holds what was read.
pub bytes-put : (mem : ℕ → ℕ) (dst : ℕ) (xs : List ℕ) → bytes (put mem dst xs) dst (length xs) ≡ xs
unfolding bytes
bytes-put mem dst [] = refl
bytes-put mem dst (x ∷ xs) =
    ap₂ ◌∷◌ (put_outside (update mem dst x) (dst + 1) dst xs (omega arith) ∙ update_self mem dst x)
      (bytes-put (update mem dst x) (dst + 1) xs)

pub length-bytes : (mem : ℕ → ℕ) (p n : ℕ) → length (bytes mem p n) ≡ n
unfolding bytes
length-bytes mem p zero = refl
length-bytes mem p (suc n) = omega (arith, length-bytes mem (p + 1) n)

pub take-bytes : (mem : ℕ → ℕ) (p m n : ℕ) → m ≤ n → take m (bytes mem p n) ≡ bytes mem p m
unfolding bytes
take-bytes mem p zero n h = refl
take-bytes mem p (suc m) zero h = absurd (omega arith)
take-bytes mem p (suc m) (suc n) h =
    ap (λ xs. mem p ∷ xs) (take-bytes mem (p + 1) m n (omega arith))
