-- ===== src/Crypto/Epoch/NonceTag.antt =====
-- An AEAD whose tag is the nonce in the clear, for runs of src/crypto/packet_crypto.cpp: it opens what
-- it sealed, under the nonce that sealed it and no other.
use mathlib.Core.Option.{some-injective}
use netudp.Base.{
  ℕ, ◌≡◌, refl, subst, ◌==◌, if◌then◌else◌, Option, some, none, List, [], ◌∷◌, ◌++◌, arith, inl,
  inr, Option-cases, ==_self,
}
use netudp.Base.Lists.{length}
use netudp.Crypto.Epoch.{Bytes, Aead}
use netudp.Crypto.Epoch.Exchange.{Opens, SealsNonce}

abbrev pub strip : List ℕ → List ℕ → Option (List ℕ)
strip [] l = some l
strip (p ∷ ps) [] = none
strip (p ∷ ps) (x ∷ xs) = if p == x then strip ps xs else none

abbrev pub nonce_tag : Aead
nonce_tag = record {
  encrypt = λ key nonce aad pt. some (length nonce ∷ (nonce ++ pt));
  decrypt = λ key nonce aad ct. strip (length nonce ∷ nonce) ct;
}

strip-append : (p x : List ℕ) → strip p (p ++ x) ≡ some x
strip-append [] x = refl
strip-append (a ∷ p) x = rw (==_self a) (strip-append p x)

strip_same : (p q x y : List ℕ) → length p ≡ length q → strip p (q ++ x) ≡ some y → p ≡ q
strip_same [] [] x y h e = refl
strip_same [] (b ∷ q) x y h e = absurd (omega arith)
strip_same (a ∷ p) [] x y h e = absurd (omega arith)
strip_same (a ∷ p) (b ∷ q) x y h e = ground (arith, strip_same p q x y)

pub nonce_tag-Opens : Opens nonce_tag
nonce_tag-Opens key nonce aad pt ct e =
    subst (λ c. strip (length nonce ∷ nonce) c ≡ some pt) (some-injective _ _ e)
      (rw (==_self (length nonce)) (strip-append nonce pt))

pub nonce_tag-SealsNonce : SealsNonce nonce_tag
nonce_tag-SealsNonce key nonce nonce' aad aad' pt ct other e =
    elim (Option-cases (strip (length nonce' ∷ nonce') (length nonce ∷ (nonce ++ pt)))) [
      | inl fails ↦
          subst (λ c. strip (length nonce' ∷ nonce') c ≡ none) (some-injective _ _ e) fails
      | inr (y, opens) ↦ absurd (other (same y opens))
    ]
  where
    same :
        (y : Bytes)
        → strip (length nonce' ∷ nonce') (length nonce ∷ (nonce ++ pt)) ≡ some y
        → nonce' ≡ nonce
    same y opens = ground (arith, strip_same nonce' nonce pt y)
