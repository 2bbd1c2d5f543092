-- ===== src/Uuid.antt =====
-- common/uuid/uuid.go. A UUID is its sixteen bytes; texts are byte strings. `encoding/hex` is written
-- out, SHA-1 and the random source are arguments.
pub mod RoundTrip
pub mod Trailing
mod Tests
use Prim.Native.Nat.{bit_and, bit_or}
use reflex.Prelude.{
  ℕ, zero, suc, ◌+◌, ◌-◌, ◌*◌, ◌/◌, ◌%◌, Bool, true, false, ◌&&◌, ◌||◌, Option, none, some, List,
  [], ◌∷◌, ◌++◌, length, take, drop, replicate, ltb, leb, ◌==◌, if◌then◌else◌,
}
use reflex.Prelude.Bytes.{Bytes, bytes_eq}
use reflex.Prelude.Result.{Result, ok, err}

abbrev pub byte_groups : List ℕ
byte_groups = 8 ∷ 4 ∷ 4 ∷ 4 ∷ 12 ∷ []

-- The errors of `ParseBytes` and `ParseString`, and that of `hex.Decode`.
pub data UuidError : Type 0 where
  invalid_uuid invalid_hex : UuidError

-- A digit of `hex.EncodeToString`.
unfoldable pub hex_digit : ℕ → ℕ
hex_digit n = if ltb n 10 then b'0' + n else b'a' + n - 10

unfoldable pub hex_encode : Bytes → Bytes
unfolding hex_digit
hex_encode [] = []
hex_encode (b ∷ bs) = hex_digit (b / 16) ∷ hex_digit (b % 16) ∷ hex_encode bs

-- `hex.Decode` takes digits of either case.
unfoldable pub hex_value : ℕ → Option ℕ
hex_value c =
    if leb b'0' c && leb c b'9'
    then some (c - b'0')
    else if leb b'a' c && leb c b'f'
    then some (c - b'a' + 10)
    else if leb b'A' c && leb c b'F'
    then some (c - b'A' + 10)
    else none

hex_byte : Option ℕ → Option ℕ → Option Bytes → Option Bytes
hex_byte (some hi) (some lo) (some bs) = some ((hi * 16 + lo) ∷ bs)
hex_byte (some hi) (some lo) none = none
hex_byte (some hi) none rest = none
hex_byte none lo rest = none

unfoldable pub hex_decode : Bytes → Option Bytes
unfolding hex_byte hex_value
hex_decode [] = some []
hex_decode (c ∷ []) = none
hex_decode (c ∷ d ∷ cs) = hex_byte (hex_value c) (hex_value d) (hex_decode cs)

-- The loop of `String`; `rest` is `bytes[start:]`.
string_groups : List ℕ → Bytes → Bytes
string_groups [] rest = []
string_groups (g ∷ gs) rest =
    b'-' ∷ hex_encode (take (g / 2) rest) ++ string_groups gs (drop (g / 2) rest)

unfoldable pub uuid_string : Bytes → Bytes
unfolding string_groups hex_encode
uuid_string u = hex_encode (take 4 u) ++ string_groups (4 ∷ 4 ∷ 4 ∷ 12 ∷ []) (drop 4 u)

-- `Equals`, on pointers that may be nil.
unfoldable pub uuid_equals : Option Bytes → Option Bytes → Bool
uuid_equals none none = true
uuid_equals none (some v) = false
uuid_equals (some u) none = false
uuid_equals (some u) (some v) = bytes_eq u v

-- The version in the upper half of byte 6, the variant in the upper bits of byte 8.
stamp_variant : Bytes → Bytes
stamp_variant [] = []
stamp_variant (b ∷ bs) = bit_or (bit_and b 0x3f) 0x80 ∷ bs

stamp_version : ℕ → Bytes → Bytes
stamp_version v [] = []
stamp_version v (b ∷ bs) = bit_or (bit_and b 0x0f) (v * 16) ∷ take 1 bs ++ stamp_variant (drop 1 bs)

unfoldable pub stamp : ℕ → Bytes → Bytes
unfolding stamp_version stamp_variant
stamp v u = take 6 u ++ stamp_version v (drop 6 u)

-- `New`, from the sixteen bytes of the random source.
unfoldable pub new_uuid : Bytes → Bytes
unfolding stamp
new_uuid random = stamp 4 random

unfoldable pub parse_bytes : Bytes → Result UuidError Bytes
parse_bytes b = if length b == 16 then ok b else err invalid_uuid

pub strip_dash : Bytes → Bytes
strip_dash [] = []
strip_dash (c ∷ cs) = if c == b'-' then cs else c ∷ cs

-- A group's bytes in front of those of the later groups.
join_group : Option Bytes → Result UuidError Bytes → Result UuidError Bytes
join_group none later = err invalid_hex
join_group (some bs) (ok later) = ok (bs ++ later)
join_group (some bs) (err e) = err e

-- The loop of `ParseString` over the groups. What is left of the text behind the last is dropped.
pub parse_groups : List ℕ → Bytes → Result UuidError Bytes
parse_groups [] text = ok []
parse_groups (g ∷ gs) text =
    let text' = strip_dash text in
    if ltb (length text') g
    then err invalid_uuid
    else join_group (hex_decode (take g text')) (parse_groups gs (drop g text'))

-- A text that is too short for a UUID is hashed into one.
unfoldable pub parse_string : (Bytes → Bytes) → Bytes → Result UuidError Bytes
unfolding parse_groups join_group strip_dash stamp hex_decode
parse_string sha1 text =
    let l = length text in
    if ltb l 32 || ltb 36 l
    then if l == 0 || ltb 30 l
      then err invalid_uuid
      else ok (stamp 5 (take 16 (sha1 (replicate 16 0 ++ text))))
    else parse_groups byte_groups text
