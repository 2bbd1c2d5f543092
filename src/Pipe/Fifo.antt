-- ===== src/Pipe/Fifo.antt =====
-- What comes out of a pipe, whatever the order of the calls.
use reflex.Prelude.{
  ℕ, ◌≡◌, ◌≢◌, refl, sym, ap, ◌∙◌, Bool, Option, none, some, [], ◌∷◌, ◌++◌, append_assoc,
  append-nil, either_branch,
}
use reflex.Prelude.Bytes.{Bytes}
use reflex.MultiBuffer.{MultiBuffer, bytes_of, is_empty, merge_multi}
use reflex.Pipe.{
  State, opened, closed, errord, Pipe, new_pipe, buffers, state_for_read, Outcome, got, failed,
  waits, taken, read_round, read_multi_buffer, state_for_write, put, write_failed, write_round,
  write_multi_buffer, close_from, close, end_with, dropped, interrupt, Error, buffer_full,
  slow_down, closed_pipe, eof,
}

-- The bytes that a round has moved.
unfoldable pub moved : Outcome → Bytes
moved (got (some mb)) = bytes_of mb
moved (got none) = []
moved (failed e) = []
moved waits = []

-- The runs of a pipe, with the bytes that went in and those that came out.
pub data Run (limit : Option ℕ) (discard : Bool) : Pipe → Bytes → Bytes → Type 0 where
  start : Run limit discard (new_pipe limit discard) [] []
  reads :
      {p : Pipe} {ins outs : Bytes}
      → Run limit discard p ins outs
      → Run limit discard (read_multi_buffer p).0 ins (outs ++ moved (read_multi_buffer p).1)
  writes :
      {p : Pipe} {ins outs : Bytes} (mb : MultiBuffer)
      → Run limit discard p ins outs
      → Run limit discard
          (write_multi_buffer mb p).0
          (ins ++ moved (write_multi_buffer mb p).1)
          outs
  closes :
      {p : Pipe} {ins outs : Bytes}
      → Run limit discard p ins outs
      → Run limit discard (close p) ins outs
  interrupts :
      {p : Pipe} {ins outs : Bytes}
      → Run limit discard p ins outs
      → Run limit discard (interrupt p) ins outs

-- What came out is a first part of what went in; unless the pipe was interrupted, the rest is in it.
abbrev pub Fifo : Pipe → Bytes → Bytes → Type 0
Fifo p ins outs =
    (rest : Bytes) × (outs ++ rest ≡ ins) × (p.state ≢ errord → rest ≡ bytes_of (buffers p.content))

opened_errord : opened ≢ errord
opened_errord e = cc

closed_errord : closed ≢ errord
closed_errord e = cc

taken-Fifo :
    (p : Pipe) (c : Option MultiBuffer) (ins outs : Bytes)
    → p.content ≡ c
    → p.state ≢ errord
    → Fifo p ins outs
    → Fifo (taken p c).0 ins (outs ++ moved (taken p c).1)
unfolding taken moved bytes_of
taken-Fifo p none ins outs e live (rest, sum, inside) =
    (rest, ap (λ (x : Bytes). x ++ rest) (append-nil outs) ∙ sum, inside)
taken-Fifo p (some mb) ins outs e live (rest, sum, inside) = (
  [],
  append-nil (outs ++ bytes_of mb)
      ∙ ap (λ (x : Bytes). outs ++ x)
          (sym (inside live ∙ ap (λ (c : Option MultiBuffer). bytes_of (buffers c)) e))
      ∙ sum,
  (λ l. refl),
)

failed-Fifo :
    (p : Pipe) (e : Error) (ins outs : Bytes)
    → Fifo p ins outs
    → Fifo (read_round p (some e)).0 ins (outs ++ moved (read_round p (some e)).1)
unfolding read_round moved
failed-Fifo p e ins outs (rest, sum, inside) =
    (rest, ap (λ (x : Bytes). x ++ rest) (append-nil outs) ∙ sum, inside)

read-Fifo :
    (p : Pipe) (s : State) (ins outs : Bytes)
    → p.state ≡ s
    → Fifo p ins outs
    → Fifo
        (read_round p (state_for_read s p)).0
        ins
        (outs ++ moved (read_round p (state_for_read s p)).1)
unfolding state_for_read read_round
read-Fifo p opened ins outs e h =
    taken-Fifo p p.content ins outs refl (λ d. opened_errord (sym e ∙ d)) h
read-Fifo p closed ins outs e h =
    either_branch
      (λ (o : Option Error). Fifo (read_round p o).0 ins (outs ++ moved (read_round p o).1))
      (is_empty (buffers p.content)) (some eof) none (λ x. failed-Fifo p eof ins outs h)
      (λ x. taken-Fifo p p.content ins outs refl (λ d. closed_errord (sym e ∙ d)) h)
read-Fifo p errord ins outs e h = failed-Fifo p closed_pipe ins outs h

bytes_of-append : (xs ys : MultiBuffer) → bytes_of (merge_multi xs ys) ≡ bytes_of xs ++ bytes_of ys
unfolding bytes_of
bytes_of-append [] ys = refl
bytes_of-append (x ∷ xs) ys =
    ap (λ (b : Bytes). x.content ++ b) (bytes_of-append xs ys)
    ∙ sym (append_assoc x.content (bytes_of xs) (bytes_of ys))

no_bytes : bytes_of [] ≡ []
unfolding bytes_of
no_bytes = refl

put-Fifo :
    (p : Pipe) (mb : MultiBuffer) (c : Option MultiBuffer) (ins outs : Bytes)
    → p.content ≡ c
    → p.state ≡ opened
    → Fifo p ins outs
    → Fifo (put p mb c) (ins ++ bytes_of mb) outs
unfolding put
put-Fifo p mb none ins outs e at (rest, sum, inside) = (
  rest ++ bytes_of mb,
  sym (append_assoc outs rest (bytes_of mb)) ∙ ap (λ (x : Bytes). x ++ bytes_of mb) sum,
  (λ l.
      ap (λ (x : Bytes). x ++ bytes_of mb)
        (inside l ∙ ap (λ (c : Option MultiBuffer). bytes_of (buffers c)) e ∙ no_bytes)),
)
put-Fifo p mb (some held) ins outs e at (rest, sum, inside) = (
  rest ++ bytes_of mb,
  sym (append_assoc outs rest (bytes_of mb)) ∙ ap (λ (x : Bytes). x ++ bytes_of mb) sum,
  (λ l.
      ap (λ (x : Bytes). x ++ bytes_of mb)
        (inside l ∙ ap (λ (c : Option MultiBuffer). bytes_of (buffers c)) e)
      ∙ sym (bytes_of-append held mb)),
)

-- A round that moves nothing in.
refused-Fifo :
    (p : Pipe) (e : Error) (mb : MultiBuffer) (ins outs : Bytes)
    → Fifo p ins outs
    → Fifo (write_failed e p).0 (ins ++ moved (write_failed e p).1) outs
unfolding write_failed moved
refused-Fifo p buffer_full mb ins outs h =
    either_branch (λ (r : Pipe × Outcome). Fifo r.0 (ins ++ moved r.1) outs) p.discard_overflow
      (p, got none) (p, waits) (λ e. more h) (λ e. more h)
  where
    more : Fifo p ins outs → Fifo p (ins ++ []) outs
    more (rest, sum, inside) = (rest, sum ∙ sym (append-nil ins), inside)
refused-Fifo p slow_down mb ins outs (rest, sum, inside) =
    (rest, sum ∙ sym (append-nil ins), inside)
refused-Fifo p closed_pipe mb ins outs (rest, sum, inside) =
    (rest, sum ∙ sym (append-nil ins), inside)
refused-Fifo p eof mb ins outs (rest, sum, inside) = (rest, sum ∙ sym (append-nil ins), inside)

abbrev Wrote : Bytes → Bytes → Pipe × Outcome → Type 0
Wrote ins outs (p, o) = Fifo p (ins ++ moved o) outs

round-Wrote :
    (p : Pipe) (mb : MultiBuffer) (s : State) (ins outs : Bytes)
    → p.state ≡ s
    → Fifo p ins outs
    → Wrote ins outs (write_round p mb (state_for_write s p))
unfolding state_for_write write_round moved
round-Wrote p mb opened ins outs e h =
    either_branch (λ (o : Option Error). Wrote ins outs (write_round p mb o)) _ (some buffer_full)
      none (λ x. refused-Fifo p buffer_full mb ins outs h)
      (λ x. put-Fifo p mb p.content ins outs refl e h)
round-Wrote p mb closed ins outs e h = refused-Fifo p closed_pipe mb ins outs h
round-Wrote p mb errord ins outs e h = refused-Fifo p closed_pipe mb ins outs h

close-Fifo :
    (p : Pipe) (s : State) (ins outs : Bytes)
    → p.state ≡ s
    → Fifo p ins outs
    → Fifo (close_from s p) ins outs
unfolding close_from
close-Fifo p opened ins outs e (rest, sum, inside) =
    (rest, sum, (λ l. inside (λ d. opened_errord (sym e ∙ d))))
close-Fifo p closed ins outs e h = h
close-Fifo p errord ins outs e h = h

ended-Fifo :
    (p : Pipe) (s : State) (rest ins outs : Bytes)
    → p.state ≡ s
    → s ≢ closed
    → outs ++ rest ≡ ins
    → Fifo (end_with s p) ins outs
unfolding end_with
ended-Fifo p opened rest ins outs e live sum = (rest, sum, (λ l. absurd (l refl)))
ended-Fifo p closed rest ins outs e live sum = absurd (live refl)
ended-Fifo p errord rest ins outs e live sum = (rest, sum, (λ l. absurd (l e)))

kept-Fifo :
    (p : Pipe) (s : State) (ins outs : Bytes)
    → p.state ≡ s
    → Fifo p ins outs
    → Fifo (end_with s p) ins outs
unfolding end_with
kept-Fifo p opened ins outs e (rest, sum, inside) = (rest, sum, (λ l. absurd (l refl)))
kept-Fifo p closed ins outs e h = h
kept-Fifo p errord ins outs e h = h

dropped-Fifo :
    (p : Pipe) (s : State) (ins outs : Bytes)
    → p.state ≡ s
    → Fifo p ins outs
    → Fifo (end_with (dropped s p).state (dropped s p)) ins outs
unfolding dropped
dropped-Fifo p opened ins outs e (rest, sum, inside) =
    ended-Fifo (record p { content = none }) p.state rest ins outs refl
      (λ d. opened_closed (sym e ∙ d)) sum
  where
    opened_closed : opened ≢ closed
    opened_closed d = cc
dropped-Fifo p closed ins outs e (rest, sum, inside) =
    ended-Fifo (record p { content = none; state = errord }) errord rest ins outs refl
      (λ d. closed_errord (sym d)) sum
dropped-Fifo p errord ins outs e (rest, sum, inside) =
    ended-Fifo (record p { content = none }) p.state rest ins outs refl
      (λ d. closed_errord (sym d ∙ e)) sum

-- Whatever is called in whatever order, the bytes that have come out of a pipe are the first of those that
-- went in, each once and in order; unless the pipe was interrupted, the others are in it.
pub calls-Fifo :
    (limit : Option ℕ) (discard : Bool) (p : Pipe) (ins outs : Bytes)
    → Run limit discard p ins outs
    → Fifo p ins outs
unfolding read_multi_buffer write_multi_buffer close interrupt moved
calls-Fifo limit discard p ins outs start = ([], refl, (λ l. unfold bytes_of in refl))
calls-Fifo limit discard p ins outs (reads {p = p'} {outs = outs'} r) =
    read-Fifo p' p'.state ins outs' refl (calls-Fifo limit discard p' ins outs' r)
calls-Fifo limit discard p ins outs (writes {p = p'} {ins = ins'} mb r) =
    either_branch (Wrote ins' outs) (is_empty mb) (p', got none)
      (write_round p' mb (state_for_write p'.state p'))
      (λ e. nothing (calls-Fifo limit discard p' ins' outs r))
      (λ e. round-Wrote p' mb p'.state ins' outs refl (calls-Fifo limit discard p' ins' outs r))
  where
    nothing : Fifo p' ins' outs → Fifo p' (ins' ++ []) outs
    nothing (rest, sum, inside) = (rest, sum ∙ sym (append-nil ins'), inside)
calls-Fifo limit discard p ins outs (closes {p = p'} r) =
    close-Fifo p' p'.state ins outs refl (calls-Fifo limit discard p' ins outs r)
calls-Fifo limit discard p ins outs (interrupts {p = p'} r) =
    either_branch (λ (q : Pipe). Fifo (end_with q.state q) ins outs) (is_empty (buffers p'.content))
      p' (dropped p'.state p')
      (λ e. kept-Fifo p' p'.state ins outs refl (calls-Fifo limit discard p' ins outs r))
      (λ e. dropped-Fifo p' p'.state ins outs refl (calls-Fifo limit discard p' ins outs r))
