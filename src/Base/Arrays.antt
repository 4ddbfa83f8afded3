-- ===== src/Base/Arrays.antt =====
-- A C array of fixed size as a function of the index. Each use takes its index modulo the size, or
-- has a theorem that bounds it.
use Prim.Native.Nat.{ℕ}
use netudp.Base.Tests.{◌==◌, if◌then◌else◌}

abbrev pub Array {ℓ} : Type ℓ → Type ℓ
Array A = ℕ → A

-- `a[i] = v`
abbrev pub update {ℓ} : {A : Type ℓ} → Array A → ℕ → A → Array A
update a i v j = if i == j then v else a j
