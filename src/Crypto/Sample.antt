-- ===== src/Crypto/Sample.antt =====
-- Ciphers that meet the laws, for the concrete runs: they add sixteen bytes and hide nothing.
use reflex.Prelude.{
  ◌+◌, ◌-◌, ◌%◌, ◌≡◌, refl, ap, none, some, ◌∷◌, ◌++◌, length, length-append, take, take-length,
  drop, drop-length, replicate, if◌then◌else◌, arith,
}
use reflex.Prelude.Bytes.{Bytes, bytes_eq, bytes_eq_refl, uint}
use reflex.Crypto.{Crypto, CryptoLaws}

abbrev pub sample : Crypto
sample = record {
  seal = λ key nonce p. p ++ replicate 16 0;
  unseal = λ key nonce p. some (take (length p - 16) p);
  sum256 = λ p. p;
}

sample-unseal :
    (p : Bytes) → some (take (length (p ++ replicate 16 0) - 16) (p ++ replicate 16 0)) ≡ some p
sample-unseal p =
    ap (λ (q : Bytes). some q)
      (take-length p (replicate 16 0) (length (p ++ replicate 16 0) - 16)
        (omega (arith, length-append p (replicate 16 0))))

pub sample-CryptoLaws : CryptoLaws sample
sample-CryptoLaws = record {
  unseal-seal = λ key nonce p. sample-unseal p;
  length-seal = λ key nonce p. length-append p (replicate 16 0);
}

-- The sixteen bytes of the second cipher depend on the nonce, and it checks them.
unfoldable pub tag : Bytes → Bytes
tag nonce = uint nonce % 256 ∷ replicate 15 0

abbrev pub checked_sample : Crypto
checked_sample = record {
  seal = λ key nonce p. p ++ tag nonce;
  unseal = λ key nonce p.
      if bytes_eq (drop (length p - 16) p) (tag nonce) then some (take (length p - 16) p) else none;
  sum256 = λ p. p;
}

length-tagged : (nonce p : Bytes) → length (p ++ tag nonce) ≡ length p + 16
unfolding tag
length-tagged nonce p = length-append p (uint nonce % 256 ∷ replicate 15 0)

checked-unseal :
    (key nonce p : Bytes)
    → checked_sample.unseal key nonce (checked_sample.seal key nonce p) ≡ some p
checked-unseal key nonce p =
    rw
      (
        drop-length p (tag nonce) (length (p ++ tag nonce) - 16)
            (omega (arith, length-tagged nonce p)),
        take-length p (tag nonce) (length (p ++ tag nonce) - 16)
            (omega (arith, length-tagged nonce p)),
        bytes_eq_refl (tag nonce),
      )
      refl

pub checked_sample-CryptoLaws : CryptoLaws checked_sample
checked_sample-CryptoLaws = record {
  unseal-seal = λ key nonce p. checked-unseal key nonce p;
  length-seal = λ key nonce p. length-tagged nonce p;
}
