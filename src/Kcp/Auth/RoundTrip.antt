-- ===== src/Kcp/Auth/RoundTrip.antt =====
-- What is sealed opens.
use Prim.Native.Nat.{bit_xor}
use reflex.Prelude.{
  ℕ, suc, ◌+◌, ◌-◌, ◌^◌, ◌≤◌, ◌<◌, ◌≡◌, refl, sym, ap, ◌∙◌, inl, inr, Bool-cases, false, some, [],
  ◌∷◌, ◌++◌, length, take, drop, ◌==◌, ==_refl, arith, ge→ltb, le→leb, drop-drop,
}
use reflex.Prelude.Bytes.{Bytes, put_uint, uint-field, drop-field, length-field}
use reflex.Prelude.Xor.{bit_xor_cancel}
use reflex.Kcp.Auth.{
  forwards, xorfwd, backwards, xorbkd, xtra, padded, checked, plain_dst, seal, seal_in, unseal,
}

backwards-forwards : (a b c d : ℕ) (xs : Bytes) → backwards a b c d (forwards a b c d xs) ≡ xs
unfolding forwards backwards
backwards-forwards a b c d [] = refl
backwards-forwards a b c d (x ∷ xs) =
    rw (bit_xor_cancel x a) (ap (◌∷◌ x) (backwards-forwards b c d (bit_xor x a) xs))

-- `xorbkd` undoes `xorfwd`.
xorbkd-xorfwd : (xs : Bytes) → xorbkd (xorfwd xs) ≡ xs
unfolding xorbkd xorfwd
xorbkd-xorfwd (a ∷ b ∷ c ∷ d ∷ xs) =
    ap (λ (ys : Bytes). a ∷ b ∷ c ∷ d ∷ ys) (backwards-forwards a b c d xs)
xorbkd-xorfwd (a ∷ b ∷ c ∷ []) = refl
xorbkd-xorfwd (a ∷ b ∷ []) = refl
xorbkd-xorfwd (a ∷ []) = refl
xorbkd-xorfwd [] = refl

-- The padding does not reach the bytes in front of it.
forwards-append :
    (a b c d : ℕ) (xs ys : Bytes)
    → take (length xs) (forwards a b c d (xs ++ ys)) ≡ forwards a b c d xs
unfolding forwards
forwards-append a b c d [] ys = refl
forwards-append a b c d (x ∷ xs) ys =
    ap (◌∷◌ (bit_xor x a)) (forwards-append b c d (bit_xor x a) xs ys)

backwards-append :
    (a b c d : ℕ) (xs ys : Bytes)
    → take (length xs) (backwards a b c d (xs ++ ys)) ≡ backwards a b c d xs
unfolding backwards
backwards-append a b c d [] ys = refl
backwards-append a b c d (x ∷ xs) ys = ap (◌∷◌ (bit_xor x a)) (backwards-append b c d x xs ys)

padded-xorfwd :
    (a b c d : ℕ) (xs : Bytes) → padded xorfwd (a ∷ b ∷ c ∷ d ∷ xs) ≡ xorfwd (a ∷ b ∷ c ∷ d ∷ xs)
unfolding padded xorfwd
padded-xorfwd a b c d xs = elim (Bool-cases (xtra (a ∷ b ∷ c ∷ d ∷ xs) == 4)) [
  | inl whole ↦ rw whole refl
  | inr part ↦ rw part (ap (λ (ys : Bytes). a ∷ b ∷ c ∷ d ∷ ys) (forwards-append a b c d xs _))
]

padded-xorbkd :
    (a b c d : ℕ) (xs : Bytes) → padded xorbkd (a ∷ b ∷ c ∷ d ∷ xs) ≡ xorbkd (a ∷ b ∷ c ∷ d ∷ xs)
unfolding padded xorbkd
padded-xorbkd a b c d xs = elim (Bool-cases (xtra (a ∷ b ∷ c ∷ d ∷ xs) == 4)) [
  | inl whole ↦ rw whole refl
  | inr part ↦ rw part (ap (λ (ys : Bytes). a ∷ b ∷ c ∷ d ∷ ys) (backwards-append a b c d xs _))
]

length-forwards : (a b c d : ℕ) (xs : Bytes) → length (forwards a b c d xs) ≡ length xs
unfolding forwards
length-forwards a b c d [] = refl
length-forwards a b c d (x ∷ xs) = ap suc (length-forwards b c d (bit_xor x a) xs)

-- Sealing and opening on a text of four bytes or more.
combined :
    (dst : Bytes)
    → 4 ≤ length dst
    → (length (padded xorfwd dst) ≡ length dst) × (padded xorbkd (padded xorfwd dst) ≡ dst)
unfolding xorfwd
combined [] h = absurd (omega arith)
combined (a ∷ []) h = absurd (omega arith)
combined (a ∷ b ∷ []) h = absurd (omega arith)
combined (a ∷ b ∷ c ∷ []) h = absurd (omega arith)
combined (a ∷ b ∷ c ∷ d ∷ xs) h = rw (padded-xorfwd a b c d xs) (
  omega (arith, length-forwards a b c d xs),
  padded-xorbkd a b c d (forwards a b c d xs) ∙ xorbkd-xorfwd (a ∷ b ∷ c ∷ d ∷ xs),
)

module _ (fnv32a : Bytes → ℕ) where
  body : Bytes → Bytes
  body plain = put_uint 2 (length plain) ++ plain

  dst_of : Bytes → Bytes
  unfolding body
  dst_of plain = put_uint 4 (fnv32a (body plain)) ++ body plain

  length-dst : (plain : Bytes) → length (dst_of plain) ≡ 6 + length plain
  unfolding dst_of body
  length-dst plain = omega (
    arith,
    length-field 4 (fnv32a (body plain)) (body plain),
    length-field 2 (length plain) plain,
  )

  -- The six bytes of overhead.
  pub length-seal : (plain : Bytes) → length (seal fnv32a plain) ≡ 6 + length plain
  unfolding seal plain_dst dst_of body
  length-seal plain =
      (combined (dst_of plain) (omega (arith, length-dst plain))).0 ∙ length-dst plain

  checked-dst :
      (plain : Bytes)
      → length plain < 2 ^ 16
      → ((p : Bytes) → fnv32a p < 2 ^ 32)
      → checked (fnv32a (drop 4 (dst_of plain))) (dst_of plain) ≡ some plain
  unfolding checked dst_of body
  checked-dst plain short word =
      let inner = put_uint 2 (length plain) ++ plain in
      rw (
        drop-field 4 (fnv32a inner) inner,
        uint-field 4 (fnv32a inner) inner (omega (arith, word inner)),
        ==_refl (fnv32a inner),
        uint-field 2 (length plain) plain (omega arith),
        length-field 4 (fnv32a inner) inner,
        length-field 2 (length plain) plain,
        long_enough,
        ==_refl (length plain),
        behind,
      )
    where
      long_enough : 4 + (2 + length plain) - 6 ≡ length plain
      long_enough = omega arith

      behind : drop 6 (dst_of plain) ≡ plain
      behind =
          sym (drop-drop 2 4 (dst_of plain))
          ∙ ap (drop 2) (drop-field 4 (fnv32a (body plain)) (body plain))
          ∙ drop-field 2 (length plain) plain

  -- What `Seal` makes of a plaintext of less than 64 KiB, `Open` takes apart again, for any hash of
  -- thirty-two bits.
  pub unseal-seal :
      (plain : Bytes)
      → length plain < 2 ^ 16
      → ((p : Bytes) → fnv32a p < 2 ^ 32)
      → unseal fnv32a (seal fnv32a plain) ≡ some plain
  unfolding unseal seal plain_dst dst_of body
  unseal-seal plain short word =
      rw
        (
          (combined (dst_of plain) (omega (arith, length-dst plain))).1,
          (combined (dst_of plain) (omega (arith, length-dst plain))).0,
          ge→ltb (length (dst_of plain)) 6 (omega (arith, length-dst plain)),
        )
        (checked-dst plain short word)

  -- With three bytes of room behind the text the padding stays in the array.
  pub seal_in-seal :
      (room : ℕ) (plain : Bytes)
      → length plain + 9 ≤ room
      → seal_in fnv32a room plain ≡ seal fnv32a plain
  unfolding seal_in xtra plain_dst dst_of body
  seal_in-seal room plain enough = elim (Bool-cases (xtra (dst_of plain) == 4)) [
    | inl whole ↦ rw whole refl
    | inr part ↦
        rw
          (
            part,
            le→leb (length (dst_of plain) + xtra (dst_of plain)) room
                (omega (arith, length-dst plain, enough, few part)),
          )
          refl
  ]
    where
      few : (xtra (dst_of plain) == 4) ≡ false → xtra (dst_of plain) ≤ 3
      few part = ground (arith, part)
