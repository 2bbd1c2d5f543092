-- ===== src/Prelude/Bytes.antt =====
-- Byte strings as lists of numbers: Go's encoding/binary (big endian) and comparison.
use Prim.Native.Nat.{ℕ, zero, suc, ◌+◌, ◌*◌, ◌/◌, ◌%◌, ◌^◌, ◌<◌}
use Prim.Native.Char.{code}
use Prim.Native.String.{String}
use mathlib.Core.Path.{◌≡◌, refl, sym, ap, ap₂, ◌∙◌}
use mathlib.Core.Bool.{Bool, true, false, ◌&&◌}
use mathlib.Core.List.{List, [], ◌∷◌, ◌++◌, append-nil, append_assoc}
use native.Mathlib.Omega.{arith}
use native.Mathlib.Nat.{pow-suc, add-zero, zero-add}
use reflex.Prelude.Tests.{◌==◌}
use reflex.Prelude.Lists.{
  take, drop, take-length, drop-length, length, length-append, All, All-append,
}

abbrev pub IsByte : ℕ → Type 0
IsByte b = b < 256

abbrev pub Bytes : Type 0
Bytes = List ℕ

-- The bytes of an ASCII string.
abbrev pub codes : String → Bytes
codes String.[] = []
codes (String.◌∷◌ c s) = code c ∷ codes s

-- `bytes.Equal`, and `==` on arrays of bytes and on strings.
unfoldable pub bytes_eq : Bytes → Bytes → Bool
bytes_eq [] [] = true
bytes_eq [] (y ∷ ys) = false
bytes_eq (x ∷ xs) [] = false
bytes_eq (x ∷ xs) (y ∷ ys) = x == y && bytes_eq xs ys

pub bytes_eq→eq : (xs ys : Bytes) → bytes_eq xs ys ≡ true → xs ≡ ys
unfolding bytes_eq
bytes_eq→eq [] [] h = refl
bytes_eq→eq [] (y ∷ ys) h = cc
bytes_eq→eq (x ∷ xs) [] h = cc
bytes_eq→eq (x ∷ xs) (y ∷ ys) h = ground (arith, bytes_eq→eq xs ys)

pub bytes_eq_refl : (xs : Bytes) → bytes_eq xs xs ≡ true
unfolding bytes_eq
bytes_eq_refl [] = refl
bytes_eq_refl (x ∷ xs) = ground (arith, bytes_eq_refl xs)

-- The number that big-endian bytes stand for, with `acc` read before them.
unfoldable pub uint_from : ℕ → Bytes → ℕ
uint_from acc [] = acc
uint_from acc (b ∷ bs) = uint_from (acc * 256 + b) bs

-- `binary.BigEndian.Uint16`, `Uint32` and `Uint64` on exactly 2, 4 and 8 bytes.
abbrev pub uint : Bytes → ℕ
uint = uint_from 0

-- `PutUint16` is `put_uint 2`, `PutUint64` is `put_uint 8`: the last `k` bytes of the number.
unfoldable pub put_uint : ℕ → ℕ → Bytes
put_uint zero v = []
put_uint (suc k) v = put_uint k (v / 256) ++ ((v % 256) ∷ [])

put_uint-last : (k v b : ℕ) → b < 256 → put_uint (suc k) (v * 256 + b) ≡ put_uint k v ++ (b ∷ [])
unfolding put_uint
put_uint-last k v b h = ap₂ (λ (n c : ℕ). put_uint k n ++ (c ∷ [])) (omega arith) (omega arith)

pub length-put_uint : (k v : ℕ) → length (put_uint k v) ≡ k
unfolding put_uint
length-put_uint zero v = refl
length-put_uint (suc k) v =
    omega
      (arith, length-append (put_uint k (v / 256)) ((v % 256) ∷ []), length-put_uint k (v / 256))

pub put_uint-IsByte : (k v : ℕ) → All IsByte (put_uint k v)
unfolding put_uint
put_uint-IsByte zero v = tt
put_uint-IsByte (suc k) v =
    All-append IsByte (put_uint k (v / 256)) _ (put_uint-IsByte k (v / 256)) (omega arith)

uint_from-append :
    (acc : ℕ) (xs : Bytes) (b : ℕ) → uint_from acc (xs ++ (b ∷ [])) ≡ uint_from acc xs * 256 + b
unfolding uint_from
uint_from-append acc [] b = refl
uint_from-append acc (x ∷ xs) b = uint_from-append (acc * 256 + x) xs b

-- Reading back what was written.
pub uint-put_uint : (k v : ℕ) → v < 256 ^ k → uint (put_uint k v) ≡ v
unfolding put_uint uint_from
uint-put_uint zero v h = omega arith
uint-put_uint (suc k) v h =
    uint_from-append 0 (put_uint k (v / 256)) (v % 256)
    ∙ omega (arith, uint-put_uint k (v / 256) (omega (arith, pow-suc 256 k)))

put_uint-from :
    (k acc : ℕ) (xs : Bytes)
    → All IsByte xs
    → put_uint (k + length xs) (uint_from acc xs) ≡ put_uint k acc ++ xs
unfolding uint_from
put_uint-from k acc [] h = rw (add-zero, append-nil)
put_uint-from k acc (x ∷ xs) (hx, hxs) =
    ap (λ (n : ℕ). put_uint n (uint_from (acc * 256 + x) xs)) (suc-right k (length xs))
    ∙ put_uint-from (suc k) (acc * 256 + x) xs hxs
    ∙ ap (λ (ys : Bytes). ys ++ xs) (put_uint-last k acc x hx)
    ∙ append_assoc (put_uint k acc) (x ∷ []) xs
  where
    suc-right : (a b : ℕ) → a + suc b ≡ suc a + b
    suc-right a b = omega arith

-- Writing again what was read.
pub put_uint-uint : (xs : Bytes) → All IsByte xs → put_uint (length xs) (uint xs) ≡ xs
unfolding put_uint
put_uint-uint xs h = rw (← zero-add (length xs)) (put_uint-from 0 0 xs h)

uint_from-lt :
    (k acc : ℕ) (xs : Bytes)
    → All IsByte xs
    → acc < 256 ^ k
    → uint_from acc xs < 256 ^ (k + length xs)
unfolding uint_from
uint_from-lt k acc [] h lt = rw add-zero lt
uint_from-lt k acc (x ∷ xs) (hx, hxs) lt =
    rw (suc-right k (length xs))
      (uint_from-lt (suc k) (acc * 256 + x) xs hxs (omega (arith, pow-suc 256 k)))
  where
    suc-right : (a b : ℕ) → a + suc b ≡ suc a + b
    suc-right a b = omega arith

pub uint-lt : (xs : Bytes) → All IsByte xs → uint xs < 256 ^ length xs
uint-lt xs h = rw (← zero-add (length xs)) (uint_from-lt 0 0 xs h (omega arith))

-- A field of `k` bytes in front of the rest of a message: its value, and the rest.
pub uint-field : (k v : ℕ) (rest : Bytes) → v < 256 ^ k → uint (take k (put_uint k v ++ rest)) ≡ v
uint-field k v rest h =
    ap uint (take-length (put_uint k v) rest k (sym (length-put_uint k v))) ∙ uint-put_uint k v h

pub drop-field : (k v : ℕ) (rest : Bytes) → drop k (put_uint k v ++ rest) ≡ rest
drop-field k v rest = drop-length (put_uint k v) rest k (sym (length-put_uint k v))

pub length-field : (k v : ℕ) (rest : Bytes) → length (put_uint k v ++ rest) ≡ k + length rest
length-field k v rest = omega (arith, length-append (put_uint k v) rest, length-put_uint k v)
