-- ===== src/Uuid/Tests.antt =====
-- UUIDs and their texts.
use reflex.Prelude.{◌≡◌, refl, ◌∷◌, ◌++◌, arith, replicate}
use reflex.Prelude.Bytes.{Bytes, codes}
use reflex.Prelude.Result.{ok}
use reflex.Uuid.{hex_encode, uuid_string, parse_string}
use reflex.Uuid.RoundTrip.{parse_string-uuid_string}
use reflex.Uuid.Trailing.{parse_string-digits}

abbrev uuid : Bytes
uuid = 18 ∷ 52 ∷ 171 ∷ replicate 13 255

uuid_printed : uuid_string uuid ≡ codes "1234abff-ffff-ffff-ffff-ffffffffffff"
unfolding uuid_string
uuid_printed = refl

parse_string-uuid_string_example : parse_string (λ x. x) (uuid_string uuid) ≡ ok uuid
parse_string-uuid_string_example =
    parse_string-uuid_string (λ x. x) uuid (omega arith) (omega arith)

parse_string-digits_example : parse_string (λ x. x) (hex_encode uuid ++ codes "zz") ≡ ok uuid
parse_string-digits_example =
    parse_string-digits (λ x. x) uuid (codes "zz") (omega arith) (omega arith) (omega arith)
