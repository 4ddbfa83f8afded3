-- ===== src/Base/Memory.antt =====
-- Bytes in an array: what `memcpy` writes into it, and what is read out of it.
use netudp.Base.Arrays.{Array, update}
use Prim.Native.Nat.{ℕ, zero, suc, ◌+◌, ◌≤◌, ◌<◌}
use mathlib.Core.Path.{◌≡◌, refl, ap₂, ◌∙◌}
use mathlib.Core.Logic.{◌⊎◌, inl, inr}
use mathlib.Core.List.{List, [], ◌∷◌}
use native.Mathlib.Omega.{arith}
use netudp.Base.Lists.{length}

-- `memcpy(a + offset, bs, length bs)`
unfoldable pub copy_at : Array ℕ → ℕ → List ℕ → Array ℕ
copy_at a offset [] = a
copy_at a offset (b ∷ bs) = copy_at (update a offset b) (offset + 1) bs

-- The `n` bytes of `a` from `offset` on.
unfoldable pub bytes_from : Array ℕ → ℕ → ℕ → List ℕ
bytes_from a offset zero = []
bytes_from a offset (suc n) = a offset ∷ bytes_from a (offset + 1) n

-- What `memcpy` does not write stays.
pub copy_at-outside :
    (a : Array ℕ) (offset : ℕ) (bs : List ℕ) (j : ℕ)
    → (j < offset) ⊎ (offset + length bs ≤ j)
    → copy_at a offset bs j ≡ a j
unfolding copy_at
copy_at-outside a offset [] j h = refl
copy_at-outside a offset (b ∷ bs) j (inl h) =
    copy_at-outside (update a offset b) (offset + 1) bs j (inl (omega (arith, h)))
    ∙ ground (arith, h)
copy_at-outside a offset (b ∷ bs) j (inr h) =
    copy_at-outside (update a offset b) (offset + 1) bs j (inr (omega (arith, h)))
    ∙ ground (arith, h)

pub bytes_from-ext :
    (a c : Array ℕ) (offset n : ℕ)
    → ((j : ℕ) → offset ≤ j → j < offset + n → a j ≡ c j)
    → bytes_from a offset n ≡ bytes_from c offset n
unfolding bytes_from
bytes_from-ext a c offset zero h = refl
bytes_from-ext a c offset (suc n) h =
    ap₂ ◌∷◌ (h offset (omega arith) (omega arith))
      (bytes_from-ext a c (offset + 1) n (λ j lo hi. h j (omega (arith, lo)) (omega (arith, hi))))

pub bytes_from-copy_at :
    (a : Array ℕ) (offset : ℕ) (bs : List ℕ)
    → bytes_from (copy_at a offset bs) offset (length bs) ≡ bs
unfolding bytes_from copy_at
bytes_from-copy_at a offset [] = refl
bytes_from-copy_at a offset (b ∷ bs) =
    ap₂ ◌∷◌
      (copy_at-outside (update a offset b) (offset + 1) bs offset (inl (omega arith))
        ∙ here a offset b)
      (bytes_from-copy_at (update a offset b) (offset + 1) bs)
  where
    here : (a : Array ℕ) (offset b : ℕ) → update a offset b offset ≡ b
    here a offset b = ground arith
