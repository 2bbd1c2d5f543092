-- ===== src/Crypto.antt =====
-- golang.org/x/crypto and Go's crypto packages, which the program calls and does not implement: the
-- functions are fields of a record, and the laws that it relies on are those of another.
pub mod Sample
use reflex.Prelude.{ℕ, ◌+◌, ◌≡◌, Option, none, some, length}
use reflex.Prelude.Bytes.{Bytes}

-- `seal key nonce plaintext` and `unseal key nonce ciphertext` are chacha20poly1305 with no
-- additional data, `sum256` is SHA-256.
pub record Crypto : Type 0 where
  pub seal : Bytes → Bytes → Bytes → Bytes
  pub unseal : Bytes → Bytes → Bytes → Option Bytes
  pub sum256 : Bytes → Bytes

-- `chacha20poly1305.KeySize`, `NonceSize` and `Overhead`.
abbrev pub key_size : ℕ
key_size = 32

abbrev pub nonce_size : ℕ
nonce_size = 12

abbrev pub overhead : ℕ
overhead = 16

-- What is documented of an AEAD: it opens what it sealed, and a tag is added to the plaintext.
pub record CryptoLaws (c : Crypto) : Type 0 where
  pub unseal-seal : (key nonce p : Bytes) → c.unseal key nonce (c.seal key nonce p) ≡ some p
  pub length-seal : (key nonce p : Bytes) → length (c.seal key nonce p) ≡ length p + overhead
