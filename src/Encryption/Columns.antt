-- ===== src/Encryption/Columns.antt =====
-- On the column type `EncryptedString` of app/core/encryption.py.
use ops_pilot_be.Prelude.{
  ℕ, ◌-◌, ◌≤◌, ◌≡◌, refl, Option, none, some, [], ◌∷◌, ◌++◌, String, nat_eq, ◌==◌, length,
  length-append, take, drop, zero, suc, arith, Bool-cases, inl, inr, nat_beq_iff,
}
use ops_pilot_be.Encryption.{
  Bytes, Crypto, Settings, zeros, ljust, key_of, key_from, derive_key, encrypt, decrypt,
  process_bind_param, process_result_value,
}

-- What the code relies on: with the nonce and any key, each function of a pair takes back what the
-- other makes of the text.
pub record Inverses (c : Crypto) (nonce : Bytes) (s : String) : Type 0 where
  pub text : c.decode (c.encode s) ≡ some s
  pub cipher :
      (key : Bytes) → c.unseal key nonce (c.seal key nonce (c.encode s)) ≡ some (c.encode s)
  pub base64 :
      (key : Bytes)
      → c.b64decode (c.b64encode (nonce ++ c.seal key nonce (c.encode s)))
        ≡ some (nonce ++ c.seal key nonce (c.encode s))

abbrev pub TakesBack : Crypto → Bytes → Option String → Type 0
TakesBack c nonce none = Unit {0}
TakesBack c nonce (some s) = Inverses c nonce s

take-append : (n : ℕ) (xs ys : Bytes) → length xs ≡ n → take n (xs ++ ys) ≡ xs
take-append zero [] ys e = refl
take-append zero (x ∷ xs) ys e = absurd (omega arith)
take-append (suc n) [] ys e = absurd (omega arith)
take-append (suc n) (x ∷ xs) ys e = rw (take-append n xs ys (omega arith)) refl

drop-append : (n : ℕ) (xs ys : Bytes) → length xs ≡ n → drop n (xs ++ ys) ≡ ys
drop-append zero [] ys e = refl
drop-append zero (x ∷ xs) ys e = absurd (omega arith)
drop-append (suc n) [] ys e = absurd (omega arith)
drop-append (suc n) (x ∷ xs) ys e = drop-append n xs ys (omega arith)

length-zeros : (n : ℕ) → length (zeros n) ≡ n
length-zeros zero = refl
length-zeros (suc n) = omega (arith, length-zeros n)

length-take-le : (n : ℕ) (xs : Bytes) → length (take n xs) ≤ n
length-take-le zero xs = omega arith
length-take-le (suc n) [] = omega arith
length-take-le (suc n) (x ∷ xs) = omega (arith, length-take-le n xs)

length-ljust : (n : ℕ) (xs : Bytes) → length (ljust n (take n xs)) ≡ n
length-ljust n xs = omega (
  arith,
  length-append (take n xs) (zeros (n - length (take n xs))),
  length-zeros (n - length (take n xs)),
  length-take-le n xs,
)

module _ (c : Crypto) (settings : Settings) where
  key_of-length : (raw : String) (o : Option Bytes) → length (key_of c settings raw o) ≡ 32
  key_of-length raw none = length-ljust 32 (c.encode raw)
  key_of-length raw (some bs) = elim (Bool-cases (length bs == 32)) [
    | inl fits ↦ rw fits ((nat_beq_iff (length bs) 32).0 fits)
    | inr other ↦ rw other (length-ljust 32 (c.encode raw))
  ]

  key_from-length :
      (o : Option String)
      → ((bs : Bytes) → length (c.hkdf bs) ≡ 32)
      → length (key_from c settings o) ≡ 32
  key_from-length none h = h (c.encode settings.jwt_secret_key)
  key_from-length (some raw) h = key_of-length raw (c.fromhex raw)

  decrypt-encrypt :
      (nonce : Bytes) (s : String)
      → Inverses c nonce s
      → length nonce ≡ 12
      → decrypt c settings (encrypt c settings nonce s) ≡ some s
  unfolding decrypt encrypt
  decrypt-encrypt nonce s inv twelve =
      let sealed = c.seal (derive_key c settings) nonce (c.encode s) in
      rw
        (
          inv.base64 (derive_key c settings),
          take-append 12 nonce sealed twelve,
          drop-append 12 nonce sealed twelve,
          inv.cipher (derive_key c settings),
          inv.text,
        )
        refl

  -- If the nonce has twelve bytes, decryption, base64 and UTF-8 each take back what was made of the
  -- value, and HKDF gives 32 bytes, then an encrypted column reads back the value that was written,
  -- or no value where none was, and the key has 32 bytes whatever the settings hold.
  pub process_result_value-bind :
      (nonce : Bytes) (value : Option String)
      → TakesBack c nonce value
      → ((bs : Bytes) → length (c.hkdf bs) ≡ 32)
      → length nonce ≡ 12
      → (process_result_value c settings (process_bind_param c settings nonce value) ≡ value)
        × (length (derive_key c settings) ≡ 32)
  unfolding process_result_value process_bind_param derive_key
  process_result_value-bind nonce none inv h twelve =
      (refl, key_from-length settings.encryption_key h)
  process_result_value-bind nonce (some s) inv h twelve =
      (rw (decrypt-encrypt nonce s inv twelve) refl, key_from-length settings.encryption_key h)
