-- ===== src/Handshake/Encoding.antt =====
-- The layout of a client handshake as an encoder, against which `parseBinaryHandshake` is checked in
-- both directions.
use reflex.Prelude.{
  ℕ, ◌+◌, ◌-◌, ◌^◌, ◌≤◌, ◌<◌, ◌≡◌, sym, ap, ◌∙◌, ◌++◌, append_assoc, length, take, drop, All, arith,
  take-append-drop, take_all, length-take, length-drop, length-append, take-length, drop-length,
  drop-drop, All-take, All-drop,
}
use reflex.Prelude.Bytes.{
  Bytes, IsByte, uint, put_uint, length-put_uint, put_uint-uint, uint-put_uint, uint-lt,
}
use reflex.Prelude.Int.{ℤ, pos, negsuc, pos_part, neg_part, signed64}
use reflex.Prelude.Result.{ok}
use reflex.Handshake.{
  ClientHandshake, slice, handshake_fields, head_size, max_policy_payload_size,
  parse_binary_handshake,
}
use reflex.Handshake.Parsing.{policy_len, parse-ok, parse-append}

-- The 64-bit word of a signed number.
abbrev pub word64 : ℤ → ℕ
word64 (pos n) = n
word64 (negsuc n) = 2 ^ 64 - 1 - n

word64-signed64 : (w : ℕ) → w < 2 ^ 64 → word64 (signed64 w) ≡ w
word64-signed64 w h = ground arith

-- Public key, user id, time in seconds, nonce, the length of the policy request, and the request.
unfoldable pub encode_head : ClientHandshake → Bytes
encode_head hs =
    hs.public_key
    ++ (hs.user_id
        ++ (put_uint 8 (word64 hs.timestamp) ++ (hs.nonce ++ put_uint 2 (length hs.policy_req))))

unfoldable pub encode_client_handshake : ClientHandshake → Bytes
unfolding encode_head
encode_client_handshake hs = encode_head hs ++ hs.policy_req

slice-drop : (i n : ℕ) (xs : Bytes) → slice i n xs ++ drop (i + n) xs ≡ drop i xs
slice-drop i n xs =
    ap (λ (y : Bytes). slice i n xs ++ y) (sym (drop-drop n i xs)) ∙ take-append-drop n (drop i xs)

put_uint-slice :
    (i n : ℕ) (xs : Bytes)
    → i + n ≤ length xs
    → All IsByte xs
    → put_uint n (uint (slice i n xs)) ≡ slice i n xs
put_uint-slice i n xs h bytes =
    ap (λ (k : ℕ). put_uint k (uint (slice i n xs))) size
    ∙ put_uint-uint (slice i n xs) (All-take IsByte n (drop i xs) (All-drop IsByte i xs bytes))
  where
    size : n ≡ length (slice i n xs)
    size = omega (arith, length-take n (drop i xs), length-drop i xs)

timestamp-slice :
    (raw : Bytes)
    → 56 ≤ length raw
    → All IsByte raw
    → put_uint 8 (word64 (signed64 (uint (slice 48 8 raw)))) ≡ slice 48 8 raw
timestamp-slice raw h bytes =
    ap (put_uint 8) (word64-signed64 (uint (slice 48 8 raw)) in_range)
    ∙ put_uint-slice 48 8 raw (omega arith) bytes
  where
    eight : length (slice 48 8 raw) ≡ 8
    eight = omega (arith, length-take 8 (drop 48 raw), length-drop 48 raw)

    in_range : uint (slice 48 8 raw) < 2 ^ 64
    in_range = omega (
      arith,
      rw eight at (
          uint-lt (slice 48 8 raw)
            (All-take IsByte 8 (drop 48 raw) (All-drop IsByte 48 raw bytes))),
    )

-- A handshake that parses was laid out so: no two byte strings parse to the same handshake.
pub encode-parse_binary_handshake :
    (raw : Bytes) (hs : ClientHandshake)
    → All IsByte raw
    → parse_binary_handshake raw ≡ ok hs
    → encode_client_handshake hs ≡ raw
unfolding encode_client_handshake
encode-parse_binary_handshake raw hs bytes parsed =
    let (size, small, made) = parse-ok raw hs parsed in
    rw
      (
        made,
        timestamp-slice raw (omega (arith, size)) bytes,
        length_field size,
        put_uint-slice 72 2 raw (omega (arith, size)) bytes,
      )
      (simp append_assoc (
        rw (
          slice-drop 72 2 raw,
          slice-drop 56 16 raw,
          slice-drop 48 8 raw,
          slice-drop 32 16 raw,
          slice-drop 0 32 raw,
        )))
  where
    length_field :
        length raw ≡ head_size + policy_len raw → length (drop head_size raw) ≡ policy_len raw
    length_field size = omega (arith, length-drop head_size raw, size)

-- The field sizes of the layout.
pub record IsHandshake (hs : ClientHandshake) : Type 0 where
  pub public_key : length hs.public_key ≡ 32
  pub user_id : length hs.user_id ≡ 16
  pub nonce : length hs.nonce ≡ 16
  pub timestamp : (pos_part hs.timestamp < 2 ^ 63) × (neg_part hs.timestamp ≤ 2 ^ 63)
  pub policy_req : length hs.policy_req ≤ max_policy_payload_size

signed64-word64 : (t : ℤ) → pos_part t < 2 ^ 63 → neg_part t ≤ 2 ^ 63 → signed64 (word64 t) ≡ t
signed64-word64 t h k = ground arith

word64-lt : (t : ℤ) → pos_part t < 2 ^ 63 → neg_part t ≤ 2 ^ 63 → word64 t < 256 ^ 8
word64-lt (pos n) h k = omega arith
word64-lt (negsuc n) h k = omega arith

skip : (i n : ℕ) (xs ys : Bytes) → length xs ≡ i → drop (i + n) (xs ++ ys) ≡ drop n ys
skip i n xs ys h = sym (drop-drop n i (xs ++ ys)) ∙ ap (drop n) (drop-length xs ys i (sym h))

-- The fields stand where the parser slices.
module _ (hs : ClientHandshake) (h : IsHandshake hs) where
  len_field : Bytes
  len_field = put_uint 2 (length hs.policy_req)

  from_nonce : Bytes
  unfolding len_field
  from_nonce = hs.nonce ++ len_field

  stamp_field : Bytes
  stamp_field = put_uint 8 (word64 hs.timestamp)

  from_stamp : Bytes
  unfolding stamp_field from_nonce
  from_stamp = stamp_field ++ from_nonce

  from_user : Bytes
  unfolding from_stamp
  from_user = hs.user_id ++ from_stamp

  drop_fields :
      (drop 32 (encode_head hs) ≡ from_user)
      × (drop 48 (encode_head hs) ≡ from_stamp)
      × (drop 56 (encode_head hs) ≡ from_nonce)
      × (drop 72 (encode_head hs) ≡ len_field)
  unfolding encode_head from_user
  drop_fields =
      let eight : length stamp_field ≡ 8 = length-put_uint 8 (word64 hs.timestamp) in
      (
        skip 32 0 hs.public_key from_user h.public_key,
        skip 32 16 hs.public_key from_user h.public_key ∙ skip 16 0 hs.user_id from_stamp h.user_id,
        skip 32 24 hs.public_key from_user h.public_key
            ∙ skip 16 8 hs.user_id from_stamp h.user_id
            ∙ skip 8 0 stamp_field from_nonce eight,
        skip 32 40 hs.public_key from_user h.public_key
            ∙ skip 16 24 hs.user_id from_stamp h.user_id
            ∙ skip 8 16 stamp_field from_nonce eight
            ∙ skip 16 0 hs.nonce len_field h.nonce,
      )

  length-encode_head : length (encode_head hs) ≡ head_size
  unfolding encode_head from_user
  length-encode_head = omega (
    arith,
    length-append hs.public_key from_user,
    length-append hs.user_id from_stamp,
    length-append stamp_field from_nonce,
    length-append hs.nonce len_field,
    length-put_uint 8 (word64 hs.timestamp),
    length-put_uint 2 (length hs.policy_req),
    h.public_key,
    h.user_id,
    h.nonce,
  )

  policy_len-encode_head : length hs.policy_req ≡ policy_len (encode_head hs)
  unfolding len_field
  policy_len-encode_head = sym (
      ap (λ (x : Bytes). uint (take 2 x)) drop_fields.3
      ∙ ap uint (take_all len_field 2 (omega (arith, length-put_uint 2 (length hs.policy_req))))
      ∙ uint-put_uint 2 (length hs.policy_req) (omega (arith, h.policy_req)))

  fields-encode_head : handshake_fields (encode_head hs) hs.policy_req ≡ hs
  unfolding encode_head from_user
  fields-encode_head = λ i. record {
    public_key = take-length hs.public_key from_user 32 (sym h.public_key) i;
    user_id = user i;
    policy_req = hs.policy_req;
    timestamp = time i;
    nonce = salt i;
  }
    where
      user : slice 32 16 (encode_head hs) ≡ hs.user_id
      user = ap (take 16) drop_fields.0 ∙ take-length hs.user_id from_stamp 16 (sym h.user_id)

      salt : slice 56 16 (encode_head hs) ≡ hs.nonce
      salt = ap (take 16) drop_fields.2 ∙ take-length hs.nonce len_field 16 (sym h.nonce)

      time : signed64 (uint (slice 48 8 (encode_head hs))) ≡ hs.timestamp
      time =
          ap (λ (x : Bytes). signed64 (uint (take 8 x))) drop_fields.1
          ∙ ap (λ (x : Bytes). signed64 (uint x))
              (take-length stamp_field from_nonce 8 (sym (length-put_uint 8 (word64 hs.timestamp))))
          ∙ ap signed64 (
              uint-put_uint 8 (word64 hs.timestamp)
                (word64-lt hs.timestamp h.timestamp.0 h.timestamp.1))
          ∙ signed64-word64 hs.timestamp h.timestamp.0 h.timestamp.1

-- A handshake with fields of the right sizes, laid out, parses back to itself.
pub parse_binary_handshake-encode :
    (hs : ClientHandshake)
    → IsHandshake hs
    → parse_binary_handshake (encode_client_handshake hs) ≡ ok hs
unfolding encode_client_handshake
parse_binary_handshake-encode hs h =
    parse-append (encode_head hs) hs.policy_req (length-encode_head hs h)
      (policy_len-encode_head hs h) (rw (← policy_len-encode_head hs h) h.policy_req)
    ∙ ap ok (fields-encode_head hs h)
