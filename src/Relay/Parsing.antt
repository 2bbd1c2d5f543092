-- ===== src/Relay/Parsing.antt =====
-- The destination at the head of the first data frame.
use reflex.Prelude.{
  ℕ, ◌+◌, ◌^◌, ◌≤◌, ◌<◌, ◌≡◌, refl, sym, ap, ◌∙◌, [], ◌∷◌, ◌++◌, length, take, drop, All, All-take,
  All-drop, arith, ge→ltb, take-length, drop-length, length-append, length-take, length-drop,
  take-append-drop, drop-drop, append_assoc,
}
use mathlib.Core.Path.{ap₂}
use reflex.Prelude.Bytes.{
  Bytes, IsByte, uint, put_uint, uint-put_uint, length-put_uint, put_uint-uint,
}
use reflex.Prelude.Result.{ok}
use reflex.Relay.{Destination, parse_destination}

-- The length of the address in a byte, the address, and the port in two bytes.
unfoldable pub encode_destination : Destination → Bytes
encode_destination d = length d.address ∷ (d.address ++ put_uint 2 d.port)

-- What a client puts in front of its payload is split off again, for an address of at most 255 bytes
-- and a port of sixteen bits.
pub parse_destination-encode :
    (d : Destination) (payload : Bytes)
    → length d.address < 256
    → d.port < 2 ^ 16
    → parse_destination (encode_destination d ++ payload) ≡ ok (d, payload)
unfolding parse_destination encode_destination
parse_destination-encode d payload size port =
    rw
      (
        ge→ltb (1 + length body) 3 (omega (arith, total)),
        ge→ltb (1 + length body) (1 + length d.address + 2) (omega (arith, total)),
      )
      (λ i. ok (record { address = address i; port = number i }, behind i))
  where
    body : Bytes
    body = (d.address ++ put_uint 2 d.port) ++ payload

    total : length body ≡ length d.address + 2 + length payload
    total = omega (
      arith,
      length-append (d.address ++ put_uint 2 d.port) payload,
      length-append d.address (put_uint 2 d.port),
      length-put_uint 2 d.port,
    )

    address : take (length d.address) body ≡ d.address
    address =
        rw (append_assoc d.address (put_uint 2 d.port) payload)
          (take-length d.address _ (length d.address) refl)

    number : uint (take 2 (drop (length d.address) body)) ≡ d.port
    number =
        rw
          (
            append_assoc d.address (put_uint 2 d.port) payload,
            drop-length d.address (put_uint 2 d.port ++ payload) (length d.address) refl,
            take-length (put_uint 2 d.port) payload 2 (sym (length-put_uint 2 d.port)),
          )
          (uint-put_uint 2 d.port port)

    behind : drop (length d.address + 2) body ≡ payload
    behind =
        drop-length (d.address ++ put_uint 2 d.port) payload (length d.address + 2)
          (omega (arith, length-append d.address (put_uint 2 d.port), length-put_uint 2 d.port))

split :
    (n : ℕ) (body : Bytes)
    → n + 2 ≤ length body
    → All IsByte body
    → length (take n body)
        ∷ ((take n body ++ put_uint 2 (uint (take 2 (drop n body)))) ++ drop (n + 2) body)
      ≡ n ∷ body
split n body size bytes =
    ap₂ (λ (k : ℕ) (xs : Bytes). k ∷ xs) first
      (ap (λ (p : Bytes). (take n body ++ p) ++ drop (n + 2) body) port
        ∙ append_assoc (take n body) (take 2 (drop n body)) (drop (n + 2) body)
        ∙ ap (λ (xs : Bytes). take n body ++ (take 2 (drop n body) ++ xs))
            (sym (drop-drop 2 n body))
        ∙ ap (λ (xs : Bytes). take n body ++ xs) (take-append-drop 2 (drop n body))
        ∙ take-append-drop n body)
  where
    first : length (take n body) ≡ n
    first = omega (arith, length-take n body)

    two : length (take 2 (drop n body)) ≡ 2
    two = omega (arith, length-take 2 (drop n body), length-drop n body)

    port : put_uint 2 (uint (take 2 (drop n body))) ≡ take 2 (drop n body)
    port =
        ap (λ (k : ℕ). put_uint k (uint (take 2 (drop n body)))) (sym two)
        ∙ put_uint-uint (take 2 (drop n body))
            (All-take IsByte 2 (drop n body) (All-drop IsByte n body bytes))

-- The other way round: a frame from which a destination and a payload were split off is that
-- destination's encoding with the payload behind it.
pub encode-parse_destination :
    (frame payload : Bytes) (d : Destination)
    → All IsByte frame
    → parse_destination frame ≡ ok (d, payload)
    → encode_destination d ++ payload ≡ frame
unfolding parse_destination encode_destination
encode-parse_destination [] payload d bytes e = cc
encode-parse_destination (n ∷ body) payload d (byte, bytes) e = ground (arith, split n body, bytes)
