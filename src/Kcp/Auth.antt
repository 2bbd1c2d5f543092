-- ===== src/Kcp/Auth.antt =====
-- transport/internet/kcp/crypt.go and xor.go: the authenticator of packets when no seed is set. FNV-1a,
-- which is hash/fnv's, is a parameter. `Seal` and `Open` are given an empty slice to append to, and both append
-- in place as long as its array has room.
pub mod RoundTrip
use Prim.Native.Nat.{bit_xor}
use reflex.Prelude.{
  ℕ, suc, ◌+◌, ◌-◌, ◌%◌, Bool, true, false, Option, none, some, List, [], ◌∷◌, ◌++◌, length, take,
  drop, replicate, leb, ltb, ◌==◌, if◌then◌else◌,
}
use reflex.Prelude.Bytes.{Bytes, uint, put_uint}

-- The loop of `xorfwd` behind the first four bytes, with the last four bytes that it has left behind:
-- `x[i] ^= x[i-4]`, from the front.
forwards : ℕ → ℕ → ℕ → ℕ → Bytes → Bytes
forwards a b c d [] = []
forwards a b c d (x ∷ xs) = let y = bit_xor x a in y ∷ forwards b c d y xs

unfoldable pub xorfwd : Bytes → Bytes
unfolding forwards
xorfwd (a ∷ b ∷ c ∷ d ∷ xs) = a ∷ b ∷ c ∷ d ∷ forwards a b c d xs
xorfwd (a ∷ b ∷ c ∷ []) = a ∷ b ∷ c ∷ []
xorfwd (a ∷ b ∷ []) = a ∷ b ∷ []
xorfwd (a ∷ []) = a ∷ []
xorfwd [] = []

-- The loop of `xorbkd` goes from the back, so that `x[i-4]` is not changed yet.
backwards : ℕ → ℕ → ℕ → ℕ → Bytes → Bytes
backwards a b c d [] = []
backwards a b c d (x ∷ xs) = bit_xor x a ∷ backwards b c d x xs

unfoldable pub xorbkd : Bytes → Bytes
unfolding backwards
xorbkd (a ∷ b ∷ c ∷ d ∷ xs) = a ∷ b ∷ c ∷ d ∷ backwards a b c d xs
xorbkd (a ∷ b ∷ c ∷ []) = a ∷ b ∷ c ∷ []
xorbkd (a ∷ b ∷ []) = a ∷ b ∷ []
xorbkd (a ∷ []) = a ∷ []
xorbkd [] = []

-- Four bytes more at most, so that whole words are combined, and off again.
xtra : Bytes → ℕ
xtra dst = 4 - length dst % 4

padded : (Bytes → Bytes) → Bytes → Bytes
unfolding xtra
padded combine dst =
    if xtra dst == 4
    then combine dst
    else take (length dst) (combine (dst ++ replicate (xtra dst) 0))

checked : ℕ → Bytes → Option Bytes
checked hash dst =
    if uint (take 4 dst) == hash
    then if length dst - 6 == uint (take 2 (drop 4 dst)) then some (drop 6 dst) else none
    else none

module _ (fnv32a : Bytes → ℕ) where
  -- `dst` before its bytes are combined: hash, length and plaintext.
  plain_dst : Bytes → Bytes
  plain_dst plain =
      let body = put_uint 2 (length plain) ++ plain in put_uint 4 (fnv32a body) ++ body

  -- The slice that `Seal` returns.
  unfoldable pub seal : Bytes → Bytes
  unfolding padded plain_dst
  seal plain = padded xorfwd (plain_dst plain)

  -- What then stands in the caller's array, which has room for so many bytes, six more than the
  -- plaintext at least. Where the bytes that pad `dst` go past it, `append` has moved to a new array,
  -- and the caller's keeps the bytes that were not combined.
  unfoldable pub seal_in : ℕ → Bytes → Bytes
  unfolding xtra plain_dst seal
  seal_in room plain =
      let dst = plain_dst plain in
      if xtra dst == 4
      then seal plain
      else if leb (length dst + xtra dst) room
      then seal plain
      else dst

  -- A text of fewer than six bytes makes Go panic; the reader of packets asks for more.
  unfoldable pub unseal : Bytes → Option Bytes
  unfolding padded checked
  unseal cipher_text =
      let dst = padded xorbkd cipher_text in
      if ltb (length cipher_text) 6 then none else checked (fnv32a (drop 4 dst)) dst
