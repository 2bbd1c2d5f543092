-- ===== src/MultiBuffer.antt =====
-- common/buf: buffers of buffer.go, and the lists of them of multi_buffer.go. A buffer's array is the
-- bytes that are cut off in front, the content, and the room behind it; pools of arrays, and what
-- releasing gives back to them, are not seen.
pub mod Content
mod Tests
use reflex.Prelude.{
  ℕ, zero, suc, ◌+◌, ◌-◌, Bool, true, false, ◌&&◌, not, Option, none, some, List, [], ◌∷◌, ◌++◌,
  length, take, drop, ltb, leb, ◌==◌, if◌then◌else◌,
}
use reflex.Prelude.Bytes.{Bytes}

-- `start`, `Bytes()`, and `Available()`.
pub record Buffer : Type 0 where
  pub start : ℕ
  pub content : Bytes
  pub available : ℕ

-- `Size`, the capacity of `New()`.
abbrev pub size : ℕ
size = 8192

abbrev pub new_buffer : Buffer
new_buffer = record { start = 0; content = []; available = size }

-- `FromBytes` of an array that is full.
abbrev pub from_bytes : Bytes → Buffer
from_bytes p = record { start = 0; content = p; available = 0 }

abbrev pub len : Buffer → ℕ
len b = length b.content

abbrev clear : Buffer → Buffer
clear b = record { start = 0; content = []; available = b.start + len b + b.available }

-- `Write`: what fits, and what is left of the source.
unfoldable pub write : Buffer → Bytes → Buffer × Bytes
write b p = (
  record b {
    content = b.content ++ take b.available p;
    available = b.available - length (take b.available p);
  },
  drop b.available p,
)

-- `Read` into `n` bytes: the bytes that are copied. On an empty buffer it is `io.EOF`, with none.
unfoldable pub read : Buffer → ℕ → Buffer × Bytes
read b n =
    let got = take n b.content in
    if length got == len b
    then (clear b, got)
    else (record b { start = b.start + length got; content = drop n b.content }, got)

abbrev pub MultiBuffer : Type 0
MultiBuffer = List Buffer

-- All bytes of a list of buffers, one behind the other.
unfoldable pub bytes_of : MultiBuffer → Bytes
bytes_of [] = []
bytes_of (b ∷ mb) = b.content ++ bytes_of mb

-- `(mb MultiBuffer).Len` and `IsEmpty`.
unfoldable pub total_len : MultiBuffer → ℕ
total_len [] = 0
total_len (b ∷ mb) = len b + total_len mb

unfoldable pub is_empty : MultiBuffer → Bool
is_empty [] = true
is_empty (b ∷ mb) = len b == 0 && is_empty mb

abbrev pub merge_multi : MultiBuffer → MultiBuffer → MultiBuffer
merge_multi dest src = dest ++ src

-- The loop of `MergeBytes`, with fuel for the bytes: a new buffer takes one at least.
fresh_buffers : ℕ → Bytes → MultiBuffer
unfolding write
fresh_buffers zero src = []
fresh_buffers (suc fuel) [] = []
fresh_buffers (suc fuel) (x ∷ xs) =
    let (b, rest) = write new_buffer (x ∷ xs) in b ∷ fresh_buffers fuel rest

-- `MergeBytes`: first into the last buffer, if it has room.
unfoldable pub merge_bytes : MultiBuffer → Bytes → MultiBuffer
unfolding fresh_buffers write
merge_bytes [] src = fresh_buffers (length src) src
merge_bytes (b ∷ []) src =
    if b.available == 0
    then b ∷ fresh_buffers (length src) src
    else let (b', rest) = write b src in b' ∷ fresh_buffers (length rest) rest
merge_bytes (b ∷ c ∷ mb) src = b ∷ merge_bytes (c ∷ mb) src

-- `Copy` into `n` bytes.
unfoldable pub copy : MultiBuffer → ℕ → Bytes
copy [] n = []
copy (b ∷ mb) n =
    let got = take n b.content in
    let rest = copy mb (n - length got) in if ltb (length got) (len b) then got else got ++ rest

-- `SplitBytes` into `n` bytes: what is left, and the bytes.
unfoldable pub split_bytes : MultiBuffer → ℕ → MultiBuffer × Bytes
unfolding read
split_bytes [] n = ([], [])
split_bytes (b ∷ mb) n =
    let (b', got) = read b n in
    let rest = split_bytes mb (n - length got) in
    if len b' == 0 then (rest.0, got ++ rest.1) else (b' ∷ mb, got)

unfoldable pub split_first : MultiBuffer → MultiBuffer × Option Buffer
split_first [] = ([], none)
split_first (b ∷ mb) = (mb, some b)

-- Whole buffers, while they fit.
whole_buffers : MultiBuffer → ℕ → ℕ → MultiBuffer × MultiBuffer
whole_buffers [] total limit = ([], [])
whole_buffers (b ∷ mb) total limit =
    let rest = whole_buffers mb (total + len b) limit in
    if ltb limit (total + len b) then (b ∷ mb, []) else (rest.0, b ∷ rest.1)

-- `SplitSize`: what is left, and the front. A piece of a buffer is copied into a new one, and Go
-- panics where that is over its capacity. The size, an int32, is not negative.
unfoldable pub split_size : MultiBuffer → ℕ → Option (MultiBuffer × MultiBuffer)
unfolding whole_buffers
split_size [] n = some ([], [])
split_size (b ∷ mb) n =
    if ltb n (len b)
    then if leb n size
      then some (
        record b { start = b.start + n; content = drop n b.content } ∷ mb,
        record { start = 0; content = take n b.content; available = size - n } ∷ [],
      )
      else none
    else some (whole_buffers (b ∷ mb) 0 n)

keep_apart : Buffer → Option MultiBuffer → Option MultiBuffer
keep_apart last none = none
keep_apart last (some mb) = some (last ∷ mb)

-- The loop of `Compact`. `last.ReadFrom(curr)` is `io.EOF` on an empty buffer, where `Must2` panics.
compact_from : Buffer → MultiBuffer → Option MultiBuffer
unfolding keep_apart
compact_from last [] = some (last ∷ [])
compact_from last (curr ∷ mb) =
    let apart = compact_from curr mb in
    let joined =
      compact_from
        (record last {
          content = last.content ++ curr.content;
          available = last.available - len curr;
        })
        mb in
    if ltb last.available (len curr)
    then keep_apart last apart
    else if len curr == 0
    then none
    else joined

unfoldable pub compact : MultiBuffer → Option MultiBuffer
unfolding compact_from
compact [] = some []
compact (b ∷ mb) = compact_from b mb

-- `SplitMulti` at an index that is not negative.
unfoldable pub split_multi : MultiBuffer → ℕ → MultiBuffer × MultiBuffer
split_multi mb i = if ltb i (length mb) then (take i mb, drop i mb) else (mb, [])
