-- ===== src/Handshake/Parsing.antt =====
-- The two readings of a client handshake, from the connection and from an HTTP body, agree.
use reflex.Prelude.{
  ℕ, zero, suc, ◌+◌, ◌≤◌, ◌≡◌, refl, sym, ap, append-nil, ◌∙◌, inl, inr, true, [], ◌∷◌, ◌++◌,
  append_assoc, length, take, drop, ltb, ◌==◌, if◌then◌else◌, arith, Bool-cases, take-append-drop,
  length-take, length-drop, length-append, drop_all, take-length, drop-length, ltb→ge, ge→ltb,
}
use reflex.Prelude.Bytes.{Bytes, uint}
use reflex.Prelude.Result.{Result, ok, err}
use mathlib.Core.Path.{ap₂}
use reflex.Io.{
  IoError, Reader, read_full-ok, read_full, read_full_at, Error, handshake_too_short,
  policy_too_large, handshake_malformed,
}
use reflex.Handshake.{
  ClientHandshake, slice, handshake_fields, head_size, max_policy_payload_size, read_head,
  read_policy, read_binary_handshake, parse_binary_handshake,
}

take-take : (n k : ℕ) (xs : Bytes) → n ≤ k → take n (take k xs) ≡ take n xs
take-take zero k xs h = refl
take-take (suc n) zero xs h = absurd (omega arith)
take-take (suc n) (suc k) [] h = refl
take-take (suc n) (suc k) (x ∷ xs) h = ap (◌∷◌ x) (take-take n k xs (omega arith))

-- A slice within the first part of a text does not see the rest.
slice-take : (i n k : ℕ) (xs : Bytes) → i + n ≤ k → slice i n (take k xs) ≡ slice i n xs
slice-take zero n k xs h = take-take n k xs (omega arith)
slice-take (suc i) n zero xs h = absurd (omega arith)
slice-take (suc i) n (suc k) [] h = refl
slice-take (suc i) n (suc k) (x ∷ xs) h = slice-take i n k xs (omega arith)

fields-head :
    (raw policy : Bytes)
    → handshake_fields (take head_size raw) policy ≡ handshake_fields raw policy
fields-head raw policy = rw (
  slice-take 0 32 74 raw (omega arith),
  slice-take 32 16 74 raw (omega arith),
  slice-take 48 8 74 raw (omega arith),
  slice-take 56 16 74 raw (omega arith),
)

-- What a handshake that parses is made of.
abbrev pub policy_len : Bytes → ℕ
policy_len raw = uint (slice 72 2 raw)

parse_guards :
    (size len : ℕ) (made hs : ClientHandshake)
    → (if ltb size head_size
        then err handshake_too_short
        else if ltb max_policy_payload_size len
        then err policy_too_large
        else if size == head_size + len
        then ok made
        else err handshake_malformed)
      ≡ ok hs
    → (size ≡ head_size + len) × (len ≤ max_policy_payload_size) × (hs ≡ made)
parse_guards size len made hs e = ground arith

policy-drop :
    (raw : Bytes) (len : ℕ)
    → length raw ≡ head_size + len
    → (if ltb 0 len then drop head_size raw else []) ≡ drop head_size raw
policy-drop raw len size = elim (Bool-cases (ltb 0 len)) [
  | inl some_policy ↦ rw some_policy
  | inr no_policy ↦
      rw no_policy (sym (drop_all head_size raw (omega (arith, ltb→ge 0 len no_policy))))
]

pub parse-ok :
    (raw : Bytes) (hs : ClientHandshake)
    → parse_binary_handshake raw ≡ ok hs
    → (length raw ≡ head_size + policy_len raw)
      × (policy_len raw ≤ max_policy_payload_size)
      × (hs ≡ handshake_fields raw (drop head_size raw))
unfolding parse_binary_handshake
parse-ok raw hs e =
    let (size, small, made) =
      parse_guards (length raw) (policy_len raw) (handshake_fields raw policy) hs e in
    (size, small, made ∙ ap (handshake_fields raw) (policy-drop raw (policy_len raw) size))
  where
    policy : Bytes
    policy = if ltb 0 (policy_len raw) then drop head_size raw else []

read_head-fields :
    (raw rest : Bytes) (r : Reader)
    → length raw ≡ head_size + policy_len raw
    → policy_len raw ≤ max_policy_payload_size
    → r.pending ≡ drop head_size raw ++ rest
    → read_head (r, ok (take head_size raw))
      ≡ (record r { pending = rest }, ok (handshake_fields raw (drop head_size raw)))
unfolding read_head read_policy
read_head-fields raw rest r size small e =
    rw
      (
        ap uint (slice-take 72 2 74 raw (omega arith)),
        ge→ltb max_policy_payload_size (policy_len raw) small,
      )
      (elim (Bool-cases (ltb 0 (policy_len raw))) [
        | inl some_policy ↦
            rw
              (
                some_policy,
                read_full_at (policy_len raw) (drop head_size raw) rest r e
                    (omega (arith, length-drop head_size raw)),
              )
              (ap (λ (x : ClientHandshake). (record r { pending = rest }, ok x))
                (fields-head raw (drop head_size raw)))
        | inr no_policy ↦
            let empty : drop head_size raw ≡ [] =
              drop_all head_size raw (omega (arith, ltb→ge 0 (policy_len raw) no_policy)) in
            let gone : r.pending ≡ rest = e ∙ ap (λ (x : Bytes). x ++ rest) empty in
            let made : handshake_fields (take head_size raw) []
                ≡ handshake_fields raw (drop head_size raw) =
              fields-head raw [] ∙ ap (handshake_fields raw) (sym empty) in
            rw no_policy (λ i. (record r { pending = gone i }, ok (made i)))
      ])

-- A handshake that parses as a whole is read off the connection as it is, and what follows it
-- stays there.
pub read_binary_handshake-parse :
    (raw rest : Bytes) (hs : ClientHandshake) (r : Reader)
    → parse_binary_handshake raw ≡ ok hs
    → r.pending ≡ raw ++ rest
    → read_binary_handshake r ≡ (record r { pending = rest }, ok hs)
unfolding read_binary_handshake parse_binary_handshake
read_binary_handshake-parse raw rest hs r parsed e =
    let (size, small, made) = parse-ok raw hs parsed in
    rw (
      read_full_at head_size (take head_size raw) (drop head_size raw ++ rest) r
          (e
            ∙ ap (λ (x : Bytes). x ++ rest) (sym (take-append-drop head_size raw))
            ∙ append_assoc (take head_size raw) (drop head_size raw) rest)
          (omega (arith, length-take head_size raw, size)),
      read_head-fields raw rest (record r { pending = drop head_size raw ++ rest }) size small refl,
      made,
    )

-- A head and the policy that it announces parse as a whole.
pub parse-append :
    (head policy : Bytes)
    → length head ≡ head_size
    → length policy ≡ policy_len head
    → policy_len head ≤ max_policy_payload_size
    → parse_binary_handshake (head ++ policy) ≡ ok (handshake_fields head policy)
unfolding parse_binary_handshake
parse-append head policy size announced small =
    rw
      (
        same_len,
        ge→ltb (length raw) head_size (omega (arith, total, size)),
        ge→ltb max_policy_payload_size (policy_len head) small,
        exact,
        policy-drop raw (policy_len head) (total ∙ omega (arith, size, announced)),
      )
      (ap ok (
        sym (fields-head raw (drop head_size raw))
        ∙ ap₂ handshake_fields front (drop-length head policy head_size (sym size))))
  where
    raw : Bytes
    raw = head ++ policy

    front : take head_size raw ≡ head
    front = take-length head policy head_size (sym size)

    total : length raw ≡ length head + length policy
    total = length-append head policy

    same_len : uint (slice 72 2 raw) ≡ policy_len head
    same_len =
        ap uint (sym (slice-take 72 2 head_size raw (omega arith)))
        ∙ ap (λ (x : Bytes). uint (slice 72 2 x)) front

    exact : (length raw == head_size + policy_len head) ≡ true
    exact = ground (arith, total)

-- What was read off a connection.
abbrev Taken : ClientHandshake → Reader → Reader → Type 0
Taken hs r r' =
    (raw : Bytes) × (r.pending ≡ raw ++ r'.pending) × (parse_binary_handshake raw ≡ ok hs)

policy-Taken :
    (head : Bytes) (hs : ClientHandshake) (r r1 r' : Reader) (input : Reader × Result IoError Bytes)
    → r.pending ≡ head ++ r1.pending
    → length head ≡ head_size
    → policy_len head ≤ max_policy_payload_size
    → read_full (policy_len head) r1 ≡ input
    → read_policy head input ≡ (r', ok hs)
    → Taken hs r r'
unfolding read_policy
policy-Taken head hs r r1 r' (r2, err x) before size small e h = cc
policy-Taken head hs r r1 r' (r2, ok policy) before size small e h =
    let (after, announced) = read_full-ok (policy_len head) r1 r2 policy e in
    (
      head ++ policy,
      before
          ∙ ap (◌++◌ head) after
          ∙ sym (append_assoc head policy r2.pending)
          ∙ ap (λ (x : Reader × Result Error ClientHandshake). (head ++ policy) ++ x.0.pending) h,
      parse-append head policy size announced small
          ∙ ap (λ (x : Reader × Result Error ClientHandshake). x.1) h,
    )

head-Taken :
    (hs : ClientHandshake) (r r' : Reader) (input : Reader × Result IoError Bytes)
    → read_full head_size r ≡ input
    → read_head input ≡ (r', ok hs)
    → Taken hs r r'
unfolding read_head
head-Taken hs r r' (r1, err x) e h = cc
head-Taken hs r r' (r1, ok head) e h =
    let (before, size) = read_full-ok head_size r r1 head e in
    elim (Bool-cases (ltb max_policy_payload_size (policy_len head))) [
      | inl large ↦ cc (rw large at h)
      | inr small ↦ elim (Bool-cases (ltb 0 (policy_len head))) [
        | inl some_policy ↦
            policy-Taken head hs r r1 r' (read_full (policy_len head) r1) before size
              (ltb→ge max_policy_payload_size (policy_len head) small) refl
              (rw (small, some_policy) at h)
        | inr no_policy ↦
            let h' : ◌≡◌ {A = Reader × Result Error ClientHandshake}
                (r1, ok (handshake_fields head [])) (r', ok hs) =
              rw (small, no_policy) at h in
            (
              head ++ [],
              before
                  ∙ ap (λ (x : Bytes). x ++ r1.pending) (sym (append-nil head))
                  ∙ ap (λ (x : Reader × Result Error ClientHandshake). (head ++ []) ++ x.0.pending)
                      h',
              parse-append head [] size (omega (arith, ltb→ge 0 (policy_len head) no_policy))
                    (ltb→ge max_policy_payload_size (policy_len head) small)
                  ∙ ap (λ (x : Reader × Result Error ClientHandshake). x.1) h',
            )
      ]
    ]

-- The other way round: what was read off the connection parses as a whole, to the same handshake.
pub parse-read_binary_handshake :
    (hs : ClientHandshake) (r r' : Reader)
    → read_binary_handshake r ≡ (r', ok hs)
    → (raw : Bytes) × (r.pending ≡ raw ++ r'.pending) × (parse_binary_handshake raw ≡ ok hs)
unfolding read_binary_handshake
parse-read_binary_handshake hs r r' e = head-Taken hs r r' (read_full head_size r) refl e
