-- ===== src/Uuid/RoundTrip.antt =====
-- Printing a UUID and parsing it back.
use reflex.Prelude.{
  ℕ, ◌+◌, ◌-◌, ◌*◌, ◌/◌, ◌%◌, ◌≤◌, ◌<◌, ◌≡◌, refl, ap, ◌∙◌, Bool, true, false, ◌||◌, Option, none,
  some, List, [], ◌∷◌, ◌++◌, length, take, drop, All, ltb, ◌==◌, arith, take-length, drop-length,
  length-append, length-take, length-drop, take-append-drop, All-take, All-drop, ge→ltb,
}
use reflex.Prelude.Bytes.{Bytes, IsByte}
use native.Mathlib.Nat.{zero-add}
use reflex.Prelude.Tables.{passes, passes→test}
use reflex.Prelude.Result.{ok}
use reflex.Uuid.{
  hex_digit, hex_encode, hex_value, hex_decode, hex_byte, string_groups, uuid_string, parse_string,
  parse_groups, join_group, strip_dash,
}

is_value : ℕ → Option ℕ → Bool
is_value n none = false
is_value n (some m) = m == n

is_value→eq : (n : ℕ) (o : Option ℕ) → is_value n o ≡ true → o ≡ some n
unfolding is_value
is_value→eq n none h = cc
is_value→eq n (some m) h = ground arith

hex_value-digit : (n : ℕ) → n < 16 → hex_value (hex_digit n) ≡ some n
unfolding passes hex_value hex_digit is_value
hex_value-digit n h =
    is_value→eq n (hex_value (hex_digit n))
      (rw zero-add at (passes→test (λ k. is_value k (hex_value (hex_digit k))) 16 0 n h refl))

pub hex_decode-encode : (bs : Bytes) → All IsByte bs → hex_decode (hex_encode bs) ≡ some bs
unfolding hex_decode hex_encode
hex_decode-encode [] h = refl
hex_decode-encode (b ∷ bs) (hb, hbs) =
    rw
      (
        hex_value-digit (b / 16) (omega arith),
        hex_value-digit (b % 16) (omega arith),
        hex_decode-encode bs hbs,
      )
      (unfold hex_byte in ap (λ (n : ℕ). some (n ∷ bs)) halves)
  where
    halves : b / 16 * 16 + b % 16 ≡ b
    halves = omega arith

pub length-hex_encode : (bs : Bytes) → length (hex_encode bs) ≡ 2 * length bs
unfolding hex_encode
length-hex_encode [] = refl
length-hex_encode (b ∷ bs) = omega (arith, length-hex_encode bs)

-- One group, with or without a dash in front.
pub parse_group :
    (g : ℕ) (gs : List ℕ) (bs later : Bytes) (rest text : Bytes)
    → All IsByte bs
    → 2 * length bs ≡ g
    → strip_dash text ≡ hex_encode bs ++ rest
    → parse_groups gs rest ≡ ok later
    → parse_groups (g ∷ gs) text ≡ ok (bs ++ later)
unfolding parse_groups join_group
parse_group g gs bs later rest text bytes size stripped parsed =
    rw
      (
        stripped,
        ge→ltb (length (hex_encode bs ++ rest)) g
            (omega (arith, length-append (hex_encode bs) rest, length-hex_encode bs)),
      )
      (rw (
        take-length (hex_encode bs) rest g (omega (arith, length-hex_encode bs)),
        drop-length (hex_encode bs) rest g (omega (arith, length-hex_encode bs)),
        hex_decode-encode bs bytes,
        parsed,
      ))

-- Groups of an even number of digits that cover the bytes.
abbrev pub Covers : List ℕ → ℕ → Type 0
Covers [] n = n ≡ 0
Covers (g ∷ gs) n = (2 * (g / 2) ≡ g) × (g / 2 ≤ n) × Covers gs (n - g / 2)

parse_groups-string :
    (gs : List ℕ) (bs : Bytes)
    → All IsByte bs
    → Covers gs (length bs)
    → parse_groups gs (string_groups gs bs) ≡ ok bs
unfolding string_groups
parse_groups-string [] [] h covers = unfold parse_groups in refl
parse_groups-string [] (b ∷ bs) h covers = absurd (omega arith)
parse_groups-string (g ∷ gs) bs h (even, enough, covers) =
    parse_group g gs (take (g / 2) bs) (drop (g / 2) bs) (string_groups gs (drop (g / 2) bs))
      (string_groups (g ∷ gs) bs) (All-take IsByte (g / 2) bs h)
      (omega (arith, length-take (g / 2) bs)) (unfold strip_dash in refl)
      (parse_groups-string gs (drop (g / 2) bs) (All-drop IsByte (g / 2) bs h)
        (rw (length-drop (g / 2) bs) covers))
    ∙ ap ok (take-append-drop (g / 2) bs)

-- What the groups print: their digits, and a dash for each.
printed : List ℕ → ℕ
printed [] = 0
printed (g ∷ gs) = 1 + g + printed gs

length-string_groups :
    (gs : List ℕ) (bs : Bytes) → Covers gs (length bs) → length (string_groups gs bs) ≡ printed gs
unfolding string_groups printed
length-string_groups [] bs covers = refl
length-string_groups (g ∷ gs) bs (even, enough, covers) = omega (
  arith,
  length-append (hex_encode (take (g / 2) bs)) (string_groups gs (drop (g / 2) bs)),
  length-hex_encode (take (g / 2) bs),
  length-take (g / 2) bs,
  length-string_groups gs (drop (g / 2) bs) (rw (length-drop (g / 2) bs) covers),
)

-- A group of digits does not start with a dash.
pub strip_dash-hex :
    (bs rest : Bytes) → 0 < length bs → strip_dash (hex_encode bs ++ rest) ≡ hex_encode bs ++ rest
unfolding strip_dash hex_encode hex_digit
strip_dash-hex [] rest h = absurd (omega arith)
strip_dash-hex (b ∷ bs) rest h = ground arith

abbrev tail_groups : List ℕ
tail_groups = 4 ∷ 4 ∷ 4 ∷ 12 ∷ []

-- Every UUID is read back from its text.
pub parse_string-uuid_string :
    (sha1 : Bytes → Bytes) (u : Bytes)
    → length u ≡ 16
    → All IsByte u
    → parse_string sha1 (uuid_string u) ≡ ok u
unfolding parse_string uuid_string
parse_string-uuid_string sha1 u size bytes = rw in_range (
    parse_group 8 tail_groups (take 4 u) (drop 4 u) (string_groups tail_groups (drop 4 u))
      (uuid_string u) (All-take IsByte 4 u bytes) (omega (arith, length-take 4 u))
      (strip_dash-hex (take 4 u) (string_groups tail_groups (drop 4 u))
        (omega (arith, length-take 4 u)))
      (parse_groups-string tail_groups (drop 4 u) (All-drop IsByte 4 u bytes) covers)
    ∙ ap ok (take-append-drop 4 u))
  where
    covers : Covers tail_groups (length (drop 4 u))
    covers = rw (length-drop 4 u, size) (omega arith)

    total : length (uuid_string u) ≡ 36
    total =
        unfold printed in
        omega (
          arith,
          length-append (hex_encode (take 4 u)) (string_groups tail_groups (drop 4 u)),
          length-hex_encode (take 4 u),
          length-take 4 u,
          length-string_groups tail_groups (drop 4 u) covers,
        )

    in_range : (ltb (length (uuid_string u)) 32 || ltb 36 (length (uuid_string u))) ≡ false
    in_range = rw total

-- Two UUIDs with one text are one.
pub uuid_string-injective :
    (u v : Bytes)
    → length u ≡ 16
    → length v ≡ 16
    → All IsByte u
    → All IsByte v
    → uuid_string u ≡ uuid_string v
    → u ≡ v
uuid_string-injective u v su sv bu bv e = cc (
  parse_string-uuid_string (λ x. x) u su bu,
  parse_string-uuid_string (λ x. x) v sv bv,
  ap (parse_string (λ x. x)) e,
)
