-- ===== src/Crypto/Xchacha.antt =====
-- src/crypto/xchacha.cpp, over `crypto_aead_lock` and `crypto_aead_unlock` of the vendored library:
-- what is sealed is the ciphertext with the 16 bytes of the tag behind it.
use netudp.Base.{
  ℕ, ◌+◌, ◌-◌, ◌≡◌, refl, sym, ap, ap₂, ◌∙◌, ltb, if◌then◌else◌, Option, some, none, ◌++◌, if-elim,
  arith,
}
use mathlib.Core.Option.{some-injective}
use netudp.Base.Lists.{length, take, drop, length-append, take-append, drop-append}
use netudp.Crypto.Epoch.{Bytes, Aead}
use netudp.Crypto.Epoch.Exchange.{Opens}

-- `lock` takes the key, the nonce, the additional data and the plain text, and returns the
-- ciphertext and the tag; `unlock` takes the tag before the key.
pub record Cipher : Type 0 where
  pub lock : Bytes → Bytes → Bytes → Bytes → Bytes × Bytes
  pub unlock : Bytes → Bytes → Bytes → Bytes → Bytes → Option Bytes

abbrev pub mac_size : ℕ
mac_size = 16

unfoldable pub xchacha_encrypt : Cipher → Bytes → Bytes → Bytes → Bytes → Option Bytes
xchacha_encrypt c key nonce aad pt = let (ct, mac) = c.lock key nonce aad pt in some (ct ++ mac)

unfoldable pub xchacha_decrypt : Cipher → Bytes → Bytes → Bytes → Bytes → Option Bytes
xchacha_decrypt c key nonce aad ct =
    let pt_len = length ct - mac_size in
    if ltb (length ct) mac_size
    then none
    else c.unlock (drop pt_len ct) key nonce aad (take pt_len ct)

unfoldable pub xchacha : Cipher → Aead
xchacha c = record { encrypt = xchacha_encrypt c; decrypt = xchacha_decrypt c }

-- What the library documents: a ciphertext is as long as its plain text, a tag has 16 bytes, and
-- what was locked is unlocked with the same key, nonce and additional data.
pub record IsCipher (c : Cipher) : Type 0 where
  pub ct_size : (key nonce aad pt : Bytes) → length (c.lock key nonce aad pt).0 ≡ length pt
  pub tag_size : (key nonce aad pt : Bytes) → length (c.lock key nonce aad pt).1 ≡ mac_size
  pub unlocks :
      (key nonce aad pt : Bytes)
      → c.unlock (c.lock key nonce aad pt).1 key nonce aad (c.lock key nonce aad pt).0 ≡ some pt

pub xchacha_decrypt-xchacha_encrypt :
    (c : Cipher) (key nonce aad pt : Bytes)
    → IsCipher c
    → let sealed = (c.lock key nonce aad pt).0 ++ (c.lock key nonce aad pt).1 in
      (xchacha_encrypt c key nonce aad pt ≡ some sealed)
      × ((length sealed ≡ length pt + mac_size)
          × (xchacha_decrypt c key nonce aad sealed ≡ some pt))
unfolding xchacha_encrypt xchacha_decrypt
xchacha_decrypt-xchacha_encrypt c key nonce aad pt h =
    let (ct, mac) = c.lock key nonce aad pt in
    let size : length (ct ++ mac) ≡ length pt + mac_size =
      omega
        (arith, length-append ct mac, h.ct_size key nonce aad pt, h.tag_size key nonce aad pt) in
    let front : length (ct ++ mac) - mac_size ≡ length ct =
      omega (arith, size, h.ct_size key nonce aad pt) in
    (
      refl,
      (
        size,
        if-elim (λ (r : Option Bytes). r ≡ some pt) (ltb (length (ct ++ mac)) mac_size)
            (λ short. ground (arith, short, size))
            (λ enough.
              ap₂ (λ (tag : Bytes) (text : Bytes). c.unlock tag key nonce aad text)
                (ap (λ (k : ℕ). drop k (ct ++ mac)) front ∙ drop-append ct mac)
                (ap (λ (k : ℕ). take k (ct ++ mac)) front ∙ take-append ct mac)
              ∙ h.unlocks key nonce aad pt),
      ),
    )

-- An AEAD made of a cipher opens what it sealed.
pub xchacha-Opens : (c : Cipher) → IsCipher c → Opens (xchacha c)
unfolding xchacha xchacha_encrypt
xchacha-Opens c h key nonce aad pt ct e =
    let (sealed, (size, opened)) = xchacha_decrypt-xchacha_encrypt c key nonce aad pt h in
    ap (xchacha_decrypt c key nonce aad) (sym (some-injective _ _ e)) ∙ opened
