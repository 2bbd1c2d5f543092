-- ===== src/Uuid/Trailing.antt =====
-- `ParseString` on digits without dashes, with more text behind them.
use reflex.Prelude.{
  ℕ, ◌+◌, ◌/◌, ◌≤◌, ◌<◌, ◌≡◌, refl, sym, ap, ◌∙◌, false, ◌||◌, List, [], ◌∷◌, ◌++◌, append_assoc,
  length, take, drop, All, ltb, arith, length-append, length-take, length-drop, take-append-drop,
  All-take, All-drop, ge→ltb,
}
use reflex.Prelude.Bytes.{Bytes, IsByte}
use reflex.Prelude.Result.{ok}
use reflex.Uuid.{byte_groups, hex_encode, parse_string, parse_groups}
use reflex.Uuid.RoundTrip.{Covers, parse_group, strip_dash-hex, length-hex_encode}

hex_encode-append : (xs ys : Bytes) → hex_encode (xs ++ ys) ≡ hex_encode xs ++ hex_encode ys
unfolding hex_encode
hex_encode-append [] ys = refl
hex_encode-append (x ∷ xs) ys = rw (hex_encode-append xs ys)

parse_groups-digits :
    (gs : List ℕ) (bs junk : Bytes)
    → All IsByte bs
    → Covers gs (length bs)
    → All (λ g. 0 < g / 2) gs
    → parse_groups gs (hex_encode bs ++ junk) ≡ ok bs
parse_groups-digits [] [] junk h covers some_digits = unfold parse_groups in refl
parse_groups-digits [] (b ∷ bs) junk h covers some_digits = absurd (omega arith)
parse_groups-digits (g ∷ gs) bs junk h (even, enough, covers) (digits, more_digits) =
    parse_group g gs first later (hex_encode later ++ junk) (hex_encode bs ++ junk)
      (All-take IsByte (g / 2) bs h) (omega (arith, length-take (g / 2) bs))
      (rw split
        (strip_dash-hex first (hex_encode later ++ junk) (omega (arith, length-take (g / 2) bs))))
      (parse_groups-digits gs later junk (All-drop IsByte (g / 2) bs h)
        (rw (length-drop (g / 2) bs) covers) more_digits)
    ∙ ap ok (take-append-drop (g / 2) bs)
  where
    first : Bytes
    first = take (g / 2) bs

    later : Bytes
    later = drop (g / 2) bs

    split : hex_encode bs ++ junk ≡ hex_encode first ++ (hex_encode later ++ junk)
    split =
        ap (λ (x : Bytes). hex_encode x ++ junk) (sym (take-append-drop (g / 2) bs))
        ∙ ap (λ (x : Bytes). x ++ junk) (hex_encode-append first later)
        ∙ append_assoc (hex_encode first) (hex_encode later) junk

-- Thirty-two digits are a UUID, and up to four characters behind them, whatever they are, are
-- ignored.
pub parse_string-digits :
    (sha1 : Bytes → Bytes) (u junk : Bytes)
    → length u ≡ 16
    → All IsByte u
    → length junk ≤ 4
    → parse_string sha1 (hex_encode u ++ junk) ≡ ok u
unfolding parse_string
parse_string-digits sha1 u junk size bytes short =
    rw in_range (parse_groups-digits byte_groups u junk bytes (rw size (omega arith)) (omega arith))
  where
    total : length (hex_encode u ++ junk) ≡ 32 + length junk
    total = omega (arith, length-append (hex_encode u) junk, length-hex_encode u)

    in_range :
        (ltb (length (hex_encode u ++ junk)) 32 || ltb 36 (length (hex_encode u ++ junk))) ≡ false
    in_range = rw (
      ge→ltb (length (hex_encode u ++ junk)) 32 (omega (arith, total)),
      ge→ltb 36 (length (hex_encode u ++ junk)) (omega (arith, total)),
    )
