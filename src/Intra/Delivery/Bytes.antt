-- ===== src/Intra/Delivery/Bytes.antt =====
-- What memcpy does to the bytes of memory.
use tmpi.Base.{ℕ, zero, suc, ◌+◌, ◌-◌, ◌≤◌, ◌<◌, ◌≡◌, refl, ap, ap₂, ◌∙◌, ◌⊎◌, List, [], ◌∷◌, arith}
use tmpi.Intra.Channel.{memcpy, bytes}

pub bytes-eq :
    (f g : ℕ → ℕ) (a b n : ℕ)
    → ((i : ℕ) → i < n → f (a + i) ≡ g (b + i))
    → bytes f a n ≡ bytes g b n
unfolding bytes
bytes-eq f g a b zero same = refl
bytes-eq f g a b (suc n) same =
    ap₂ ◌∷◌ (ap f (omega arith) ∙ same 0 (omega arith) ∙ ap g (omega arith)) (
      bytes-eq f g (a + 1) (b + 1) n
        (λ i h. ap f (omega arith) ∙ same (suc i) (omega arith) ∙ ap g (omega arith)))

head_or : ℕ → List ℕ → ℕ
head_or d [] = d
head_or d (x ∷ xs) = x

tail_of : List ℕ → List ℕ
tail_of [] = []
tail_of (x ∷ xs) = xs

bytes-at : (f g : ℕ → ℕ) (a b n i : ℕ) → bytes f a n ≡ bytes g b n → i < n → f (a + i) ≡ g (b + i)
unfolding bytes head_or tail_of
bytes-at f g a b zero i e h = absurd (omega arith)
bytes-at f g a b (suc n) zero e h = ap f (omega arith) ∙ ap (head_or 0) e ∙ ap g (omega arith)
bytes-at f g a b (suc n) (suc i) e h =
    ap f (omega arith)
    ∙ bytes-at f g (a + 1) (b + 1) n i (ap tail_of e) (omega arith)
    ∙ ap g (omega arith)

-- A shorter stretch agrees if a longer one does.
pub bytes-prefix :
    (f g : ℕ → ℕ) (a b m n : ℕ) → m ≤ n → bytes f a n ≡ bytes g b n → bytes f a m ≡ bytes g b m
bytes-prefix f g a b m n h e = bytes-eq f g a b m (λ i hi. bytes-at f g a b n i e (omega arith))

memcpy_inside :
    (mem : ℕ → ℕ) (dst src n i : ℕ) → i < n → memcpy mem dst src n (dst + i) ≡ mem (src + i)
unfolding memcpy
memcpy_inside mem dst src n i h = let e : dst + i - dst ≡ i = omega arith in ground arith

-- The destination holds what the source held.
pub bytes-memcpy :
    (mem : ℕ → ℕ) (dst src n : ℕ) → bytes (memcpy mem dst src n) dst n ≡ bytes mem src n
bytes-memcpy mem dst src n = bytes-eq _ _ dst src n (memcpy_inside mem dst src n)

-- Outside of the destination nothing changes.
pub memcpy_outside :
    (mem : ℕ → ℕ) (dst src n a : ℕ) → (a < dst) ⊎ (dst + n ≤ a) → memcpy mem dst src n a ≡ mem a
unfolding memcpy
memcpy_outside mem dst src n a h = ground arith
