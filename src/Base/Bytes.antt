-- ===== src/Base/Bytes.antt =====
-- `memcpy` between an unsigned integer and its bytes on a little-endian machine, as the code copies
-- the fields of its wire format.
use Prim.Native.Nat.{ℕ, zero, suc, ◌+◌, ◌*◌, ◌/◌, ◌%◌, ◌^◌, ◌≤◌, ◌<◌}
use mathlib.Core.Path.{◌≡◌, refl, ap, sym}
use mathlib.Core.Option.{Option, none, some, some-injective}
use mathlib.Core.List.{List, [], ◌∷◌, ◌++◌}
use native.Mathlib.Nat.{pow-suc}
use native.Mathlib.Omega.{arith}
use netudp.Base.Lists.{length, All, drop}

-- the low `k` bytes of `x`
unfoldable pub bytes_le : ℕ → ℕ → List ℕ
bytes_le zero x = []
bytes_le (suc k) x = (x % 256) ∷ bytes_le k (x / 256)

-- the number in the first `k` bytes; a missing byte reads as 0
unfoldable pub read_le : ℕ → List ℕ → ℕ
read_le zero bs = 0
read_le (suc k) [] = 0
read_le (suc k) (b ∷ bs) = b + 256 * read_le k bs

pub length-bytes_le : (k x : ℕ) → length (bytes_le k x) ≡ k
unfolding bytes_le
length-bytes_le zero x = refl
length-bytes_le (suc k) x = ap suc (length-bytes_le k (x / 256))

pub bytes_le-All : (k x : ℕ) → All (λ b. b < 256) (bytes_le k x)
unfolding bytes_le
bytes_le-All zero x = tt
bytes_le-All (suc k) x = (omega arith, bytes_le-All k (x / 256))

pub drop-bytes_le : (k x : ℕ) (rest : List ℕ) → drop k (bytes_le k x ++ rest) ≡ rest
unfolding bytes_le
drop-bytes_le zero x rest = refl
drop-bytes_le (suc k) x rest = drop-bytes_le k (x / 256) rest

pub read_le-bytes_le :
    (k x : ℕ) (rest : List ℕ) → x < 256 ^ k → read_le k (bytes_le k x ++ rest) ≡ x
unfolding bytes_le read_le
read_le-bytes_le zero x rest h = omega arith
read_le-bytes_le (suc k) x rest h = omega (arith, read_le-bytes_le k (x / 256) rest (smaller k x h))
  where
    smaller : (k x : ℕ) → x < 256 ^ suc k → x / 256 < 256 ^ k
    smaller k x h = omega (arith, pow-suc 256 k)

-- Bytes in front of those that may follow.
abbrev pub joined : List ℕ → Option (List ℕ) → Option (List ℕ)
joined bs none = none
joined bs (some rest) = some (bs ++ rest)

pub joined-some :
    (b bs : List ℕ) (o : Option (List ℕ))
    → joined b o ≡ some bs
    → (rest : List ℕ) × ((o ≡ some rest) × (bs ≡ b ++ rest))
joined-some b bs none e = ground (arith, e)
joined-some b bs (some rest) e = (rest, (refl, sym (some-injective _ _ e)))

-- Bytes behind the number do not change it.
pub read_le-append :
    (k : ℕ) (bs rest : List ℕ) → k ≤ length bs → read_le k (bs ++ rest) ≡ read_le k bs
unfolding read_le
read_le-append zero bs rest h = refl
read_le-append (suc k) [] rest h = absurd (omega (arith, h))
read_le-append (suc k) (b ∷ bs) rest h =
    ap (λ t. b + 256 * t) (read_le-append k bs rest (omega (arith, h)))
