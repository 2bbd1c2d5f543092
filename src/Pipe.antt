-- ===== src/Pipe.antt =====
-- transport/pipe/impl.go: the pipe between the two ends of a link. A call that takes the lock is one step;
-- the loops around it that wait for a signal are rounds here. Lengths stay below 2 ^ 31.
pub mod Fifo
mod Tests
use reflex.Prelude.{
  ℕ, Bool, true, false, not, Option, none, some, List, [], ◌∷◌, ltb, if◌then◌else◌,
}
use reflex.MultiBuffer.{MultiBuffer, merge_multi, total_len, is_empty}

pub data State : Type 0 where
  opened : State
  closed : State
  errord : State

pub data Error : Type 0 where
  buffer_full : Error
  slow_down : Error
  closed_pipe : Error
  eof : Error

-- `data` is none for nil, `limit` for a negative one. `done` says whether the instance was closed.
pub record Pipe : Type 0 where
  pub content : Option MultiBuffer
  pub read_signal : Bool
  pub write_signal : Bool
  pub done : Bool
  pub limit : Option ℕ
  pub discard_overflow : Bool
  pub state : State

abbrev pub new_pipe : Option ℕ → Bool → Pipe
new_pipe limit discard_overflow = record {
  content = none;
  read_signal = false;
  write_signal = false;
  done = false;
  limit = limit;
  discard_overflow = discard_overflow;
  state = opened;
}

is_full : Option ℕ → ℕ → Bool
is_full none size = false
is_full (some limit) size = ltb limit size

abbrev pub buffers : Option MultiBuffer → MultiBuffer
buffers none = []
buffers (some mb) = mb

len : Pipe → ℕ
len p = total_len (buffers p.content)

-- `getState`: the error, if there is one.
state_for_read : State → Pipe → Option Error
state_for_read opened p = none
state_for_read closed p = if is_empty (buffers p.content) then some eof else none
state_for_read errord p = some closed_pipe

state_for_write : State → Pipe → Option Error
unfolding is_full len
state_for_write opened p = if is_full p.limit (len p) then some buffer_full else none
state_for_write closed p = some closed_pipe
state_for_write errord p = some closed_pipe

-- How a round comes back, or that it waits.
pub data Outcome : Type 0 where
  got : Option MultiBuffer → Outcome
  failed : Error → Outcome
  waits : Outcome

taken : Pipe → Option MultiBuffer → Pipe × Outcome
taken p none = (p, waits)
taken p (some mb) = (record p { content = none; write_signal = true }, got (some mb))

read_round : Pipe → Option Error → Pipe × Outcome
unfolding taken
read_round p none = taken p p.content
read_round p (some e) = (record p { write_signal = true }, failed e)

-- A round of `ReadMultiBuffer`, which is also one of `ReadMultiBufferTimeout`.
unfoldable pub read_multi_buffer : Pipe → Pipe × Outcome
unfolding read_round state_for_read
read_multi_buffer p = read_round p (state_for_read p.state p)

-- `writeMultiBufferInternal`.
put : Pipe → MultiBuffer → Option MultiBuffer → Pipe
put p mb none = record p { content = some mb; read_signal = true }
put p mb (some data_) = record p { content = some (merge_multi data_ mb); read_signal = true }

write_failed : Error → Pipe → Pipe × Outcome
write_failed buffer_full p = if p.discard_overflow then (p, got none) else (p, waits)
write_failed e p = (record p { read_signal = true }, failed e)

write_round : Pipe → MultiBuffer → Option Error → Pipe × Outcome
unfolding put write_failed
write_round p mb none = (put p mb p.content, got (some mb))
write_round p mb (some e) = write_failed e p

-- A round of `WriteMultiBuffer`: it gets the buffers into the pipe, drops them when the pipe is full and
-- discards what overflows, fails, or waits.
unfoldable pub write_multi_buffer : MultiBuffer → Pipe → Pipe × Outcome
unfolding write_round state_for_write
write_multi_buffer mb p =
    if is_empty mb then (p, got none) else write_round p mb (state_for_write p.state p)

close_from : State → Pipe → Pipe
close_from opened p = record p { state = closed; done = true }
close_from state p = p

unfoldable pub close : Pipe → Pipe
unfolding close_from
close p = close_from p.state p

end_with : State → Pipe → Pipe
end_with opened p = record p { state = errord; done = true }
end_with state p = p

dropped : State → Pipe → Pipe
dropped closed p = record p { content = none; state = errord }
dropped state p = record p { content = none }

unfoldable pub interrupt : Pipe → Pipe
unfolding end_with dropped
interrupt p =
    let p' = if is_empty (buffers p.content) then p else dropped p.state p in end_with p'.state p'
