-- ===== src/Encryption.antt =====
-- app/core/encryption.py: the derivation of the key, both helpers and the column type. Bytes are
-- numbers. AES-GCM, HKDF, base64, UTF-8 and hexadecimal text are others' code and enter as a record of
-- functions; where one raises, it gives `none`.
pub mod Columns
use ops_pilot_be.Prelude.{
  ℕ, ◌-◌, Option, none, some, List, [], ◌∷◌, ◌++◌, String, ok, nat_eq, ◌==◌, length, take, drop,
  if◌then◌else◌, zero, suc,
}

abbrev pub Bytes : Type 0
Bytes = List ℕ

pub record Crypto : Type 0 where
  pub encode : String → Bytes
  pub decode : Bytes → Option String
  pub fromhex : String → Option Bytes
  pub hkdf : Bytes → Bytes
  -- key, nonce and plaintext
  pub seal : Bytes → Bytes → Bytes → Bytes
  pub unseal : Bytes → Bytes → Bytes → Option Bytes
  pub b64encode : Bytes → String
  pub b64decode : String → Option Bytes

pub record Settings : Type 0 where
  pub encryption_key : Option String
  pub jwt_secret_key : String

abbrev pub zeros : ℕ → Bytes
zeros zero = []
zeros (suc n) = 0 ∷ zeros n

-- `bs.ljust(n, b"\x00")`
abbrev pub ljust : ℕ → Bytes → Bytes
ljust n bs = bs ++ zeros (n - length bs)

module _ (c : Crypto) (settings : Settings) where
  -- `raw.encode()[:32].ljust(32, b"\x00")`
  abbrev pub padded : String → Bytes
  padded raw = ljust 32 (take 32 (c.encode raw))

  abbrev pub key_of : String → Option Bytes → Bytes
  key_of raw none = padded raw
  key_of raw (some key_bytes) = if length key_bytes == 32 then key_bytes else padded raw

  abbrev pub key_from : Option String → Bytes
  key_from (some raw) = key_of raw (c.fromhex raw)
  key_from none = c.hkdf (c.encode settings.jwt_secret_key)

  unfoldable pub derive_key : Bytes
  derive_key = key_from settings.encryption_key

  -- `nonce` is what `os.urandom(12)` drew.
  unfoldable pub encrypt : Bytes → String → String
  encrypt nonce plaintext = c.b64encode (nonce ++ c.seal derive_key nonce (c.encode plaintext))

  abbrev pub open_text : Option Bytes → Option String
  open_text none = none
  open_text (some plaintext) = c.decode plaintext

  abbrev pub open_data : Option Bytes → Option String
  open_data none = none
  open_data (some bytes) = open_text (c.unseal derive_key (take 12 bytes) (drop 12 bytes))

  -- Whatever raises becomes a `ValueError`, which is `none` here.
  unfoldable pub decrypt : String → Option String
  decrypt token = open_data (c.b64decode token)

  -- `EncryptedString`: what is written for a value, and what is read for a stored text.
  unfoldable pub process_bind_param : Bytes → Option String → Option String
  process_bind_param nonce none = none
  process_bind_param nonce (some value) = some (encrypt nonce value)

  abbrev pub or_raw : String → Option String → String
  or_raw value none = value
  or_raw value (some plaintext) = plaintext

  unfoldable pub process_result_value : Option String → Option String
  process_result_value none = none
  process_result_value (some value) = some (or_raw value (decrypt value))
