-- ===== src/MultiBuffer/Content.antt =====
-- No operation on lists of buffers loses, repeats or moves a byte.
use reflex.Prelude.{
  ℕ, zero, suc, ◌+◌, ◌-◌, ◌≤◌, ◌<◌, ◌≡◌, refl, sym, ap, ◌∙◌, inl, inr, true, false, Bool-cases,
  Option, none, some, [], ◌∷◌, ◌++◌, length, take, drop, ltb, leb, ◌==◌, arith, append_assoc,
  append-nil, length-append, length-take, length-drop, take-append-drop, take_all, ==→eq, min,
}
use reflex.Prelude.Bytes.{Bytes}
use reflex.MultiBuffer.{
  Buffer, size, len, write, read, MultiBuffer, bytes_of, total_len, fresh_buffers, merge_bytes,
  split_bytes, keep_apart, compact_from, compact,
}

pub length-bytes_of : (mb : MultiBuffer) → length (bytes_of mb) ≡ total_len mb
unfolding bytes_of total_len
length-bytes_of [] = refl
length-bytes_of (b ∷ mb) = omega (arith, length-append b.content (bytes_of mb), length-bytes_of mb)

fresh_buffers-bytes :
    (fuel : ℕ) (src : Bytes) → length src ≤ fuel → bytes_of (fresh_buffers fuel src) ≡ src
unfolding bytes_of fresh_buffers write
fresh_buffers-bytes zero [] h = refl
fresh_buffers-bytes zero (x ∷ xs) h = absurd (omega arith)
fresh_buffers-bytes (suc fuel) [] h = refl
fresh_buffers-bytes (suc fuel) (x ∷ xs) h =
    ap (λ (rest : Bytes). take size (x ∷ xs) ++ rest)
      (fresh_buffers-bytes fuel (drop size (x ∷ xs)) (omega (arith, length-drop size (x ∷ xs))))
    ∙ take-append-drop size (x ∷ xs)

-- `MergeBytes` puts the bytes behind those that are there.
pub merge_bytes-bytes :
    (mb : MultiBuffer) (src : Bytes) → bytes_of (merge_bytes mb src) ≡ bytes_of mb ++ src
unfolding merge_bytes bytes_of write
merge_bytes-bytes [] src = fresh_buffers-bytes (length src) src (omega arith)
merge_bytes-bytes (b ∷ []) src = elim (Bool-cases (b.available == 0)) [
  | inl full ↦ rw full (
      ap (λ (rest : Bytes). b.content ++ rest) (fresh_buffers-bytes (length src) src (omega arith))
      ∙ ap (λ (front : Bytes). front ++ src) (sym (append-nil b.content)))
  | inr room ↦ rw room (
      simp append_assoc (
        ap (λ (rest : Bytes). b.content ++ (take b.available src ++ rest))
          (fresh_buffers-bytes (length (drop b.available src)) (drop b.available src) (omega arith))
        ∙ ap (λ (rest : Bytes). b.content ++ rest) (take-append-drop b.available src)))
]
merge_bytes-bytes (b ∷ c ∷ mb) src =
    ap (λ (rest : Bytes). b.content ++ rest) (merge_bytes-bytes (c ∷ mb) src)
    ∙ sym (append_assoc b.content (bytes_of (c ∷ mb)) src)

read-bytes : (b : Buffer) (n : ℕ) → (read b n).1 ++ (read b n).0.content ≡ b.content
unfolding read
read-bytes b n = elim (Bool-cases (length (take n b.content) == len b)) [
  | inl all ↦ rw all (append-nil (take n b.content) ∙ take_whole all)
  | inr some_left ↦ rw some_left (take-append-drop n b.content)
]
  where
    take_whole : (length (take n b.content) == len b) ≡ true → take n b.content ≡ b.content
    take_whole e = take_all b.content n (omega (arith, length-take n b.content, ==→eq _ _ e))

read_all : (b : Buffer) (n : ℕ) → len (read b n).0 ≡ 0 → (read b n).1 ≡ b.content
read_all b n gone =
    sym (append-nil (read b n).1)
    ∙ ap (λ (rest : Bytes). (read b n).1 ++ rest) (sym (empty (read b n).0.content gone))
    ∙ read-bytes b n
  where
    empty : (xs : Bytes) → length xs ≡ 0 → xs ≡ []
    empty [] h = refl
    empty (x ∷ xs) h = absurd (omega arith)

length-read : (b : Buffer) (n : ℕ) → length (read b n).1 ≡ min n (len b)
unfolding read
length-read b n = elim (Bool-cases (length (take n b.content) == len b)) [
  | inl all ↦ rw all (length-take n b.content)
  | inr some_left ↦ rw some_left (length-take n b.content)
]

-- A part of the list in front of the rest.
split_bytes-bytes :
    (mb : MultiBuffer) (n : ℕ) → (split_bytes mb n).1 ++ bytes_of (split_bytes mb n).0 ≡ bytes_of mb
unfolding split_bytes bytes_of
split_bytes-bytes [] n = refl
split_bytes-bytes (b ∷ mb) n = elim (Bool-cases (len (read b n).0 == 0)) [
  | inl gone ↦ rw gone (
      append_assoc (read b n).1 _ _
      ∙ ap (λ (rest : Bytes). (read b n).1 ++ rest) (split_bytes-bytes mb (n - length (read b n).1))
      ∙ ap (λ (front : Bytes). front ++ bytes_of mb) (read_all b n (==→eq _ _ gone)))
  | inr left ↦ rw left (
      sym (append_assoc (read b n).1 (read b n).0.content (bytes_of mb))
      ∙ ap (λ (front : Bytes). front ++ bytes_of mb) (read-bytes b n))
]

length-split_bytes : (mb : MultiBuffer) (n : ℕ) → length (split_bytes mb n).1 ≡ min n (total_len mb)
unfolding split_bytes total_len
length-split_bytes [] n = omega arith
length-split_bytes (b ∷ mb) n = elim (Bool-cases (len (read b n).0 == 0)) [
  | inl gone ↦ rw gone (
      omega (
        arith,
        length-append (read b n).1 (split_bytes mb (n - length (read b n).1)).1,
        length-split_bytes mb (n - length (read b n).1),
        length-read b n,
        ap length (read_all b n (==→eq _ _ gone)),
      ))
  | inr left ↦ rw left (omega (arith, length-read b n, whole, ne_zero left))
]
  where
    whole : length (read b n).1 + len (read b n).0 ≡ len b
    whole = sym (length-append (read b n).1 (read b n).0.content) ∙ ap length (read-bytes b n)

    ne_zero : (len (read b n).0 == 0) ≡ false → 0 < len (read b n).0
    ne_zero e = ground arith

-- `SplitBytes` gives the first bytes, as many as there are or as the slice takes, and leaves the rest.
pub split_bytes_lem :
    (mb : MultiBuffer) (n : ℕ)
    → ((split_bytes mb n).1 ++ bytes_of (split_bytes mb n).0 ≡ bytes_of mb)
      × (length (split_bytes mb n).1 ≡ min n (total_len mb))
split_bytes_lem mb n = (split_bytes-bytes mb n, length-split_bytes mb n)

over : {n : ℕ} → leb n size ≡ false → size < n
over e = ground arith

-- What was asked of `SplitSize` and what it gives: the bytes in front, as many as fit whole
-- buffers, and the rest behind them.
abbrev pub SplitAt : MultiBuffer → ℕ → Option (MultiBuffer × MultiBuffer) → Type 0
SplitAt mb n none = buffer_over n mb
  where
    buffer_over : ℕ → MultiBuffer → Type 0
    buffer_over n [] = ⊥
    buffer_over n (b ∷ mb) = (size < n) × (n < len b)
SplitAt mb n (some (rest, front)) =
    (bytes_of front ++ bytes_of rest ≡ bytes_of mb) × (length (bytes_of front) ≤ n)

keep_apart-some :
    (last : Buffer) (later : Option MultiBuffer) (made : MultiBuffer)
    → keep_apart last later ≡ some made
    → (mb : MultiBuffer) × (later ≡ some mb) × (made ≡ last ∷ mb)
unfolding keep_apart
keep_apart-some last none made e = cc
keep_apart-some last (some mb) made e = (mb, refl, cc)

compact_from-bytes :
    (mb made : MultiBuffer) (last : Buffer)
    → compact_from last mb ≡ some made
    → bytes_of made ≡ last.content ++ bytes_of mb
unfolding compact_from bytes_of
compact_from-bytes [] made last e = rw (sym (only e)) refl
  where
    only : some (last ∷ []) ≡ some made → last ∷ [] ≡ made
    only e = cc
compact_from-bytes (curr ∷ mb) made last e = elim (Bool-cases (ltb last.available (len curr))) [
  | inl over ↦
      let (later, found, same) = keep_apart-some last (compact_from curr mb) made (rw over at e) in
      rw same (ap (λ (rest : Bytes). last.content ++ rest) (compact_from-bytes mb later curr found))
  | inr fits ↦ elim (Bool-cases (len curr == 0)) [
    | inl empty ↦ panics (rw (fits, empty) at e)
    | inr some_bytes ↦
        compact_from-bytes mb made _ (rw (fits, some_bytes) at e)
        ∙ append_assoc last.content curr.content (bytes_of mb)
  ]
]
  where
    panics :
        ◌≡◌ {A = Option MultiBuffer} none (some made)
        → bytes_of made ≡ last.content ++ (curr.content ++ bytes_of mb)
    panics h = cc

-- `Compact` keeps the bytes, where it does not panic on an empty buffer.
pub compact-bytes : (mb made : MultiBuffer) → compact mb ≡ some made → bytes_of made ≡ bytes_of mb
unfolding compact bytes_of
compact-bytes [] made e = rw (sym (only e)) refl
  where
    only : ◌≡◌ {A = Option MultiBuffer} (some []) (some made) → ◌≡◌ {A = MultiBuffer} [] made
    only e = cc
compact-bytes (b ∷ mb) made e = compact_from-bytes mb made b e
