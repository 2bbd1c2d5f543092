-- ===== src/Kcp/Connection/Flushes.antt =====
-- What a flush does to the state of a connection that its user has closed.
use reflex.Prelude.{
  ℕ, ◌<◌, ◌≡◌, refl, ap, ◌∙◌, inl, inr, Bool, true, false, Bool-cases, ◌&&◌, List, ltb, leb, lt→ltb,
  arith,
}
use reflex.Kcp.Words.{sub32}
use reflex.Kcp.Segment.{Segment}
use reflex.Kcp.Sending
use reflex.Kcp.Connection.{
  State, active, ready_to_close, terminating, peer_terminating, terminated, is, Connection,
  close_write, entered, set_state, ping, ping_if, flush_workers, ping_when_old, idle_closed,
  drained_closed, flush_terminating, timed_out, flush_open, flush_live, flush,
}
use reflex.Kcp.Connection.Arrivals.{phase}

ping_if-phase :
    (due : Bool) (current : ℕ) (r : Connection × List Segment)
    → phase (ping_if due current r).0 ≡ phase r.0
unfolding ping_if ping
ping_if-phase false current (c, out) = refl
ping_if-phase true current (c, out) = refl

workers-phase : (current : ℕ) (c : Connection) → phase (flush_workers current c).0 ≡ phase c
unfolding flush_workers
workers-phase current c = ping_if-phase _ current _

old-phase :
    (current : ℕ) (r : Connection × List Segment) → phase (ping_when_old current r).0 ≡ phase r.0
unfolding ping_when_old
old-phase current (c, out) =
    ping_if-phase (leb 3000 (sub32 current c.last_ping_time)) current (c, out)

is_self : (s t : State) (c : Connection) → c.state ≡ t → is c.state s ≡ is t s
is_self s t c e = ap (λ (u : State). is u s) e

idle_same : (current : ℕ) (c : Connection) → is c.state active ≡ false → idle_closed current c ≡ c
unfolding idle_closed
idle_same current c e = rw e refl

timed_out_same :
    (s : State) (limit current : ℕ) (c : Connection)
    → is c.state s ≡ false
    → timed_out s limit current c ≡ c
unfolding timed_out
timed_out_same s limit current c e = rw e refl

timed_out_over :
    (s : State) (limit current : ℕ) (c : Connection)
    → is c.state s ≡ true
    → limit < sub32 current c.state_begin_time
    → timed_out s limit current c ≡ set_state current terminating c
unfolding timed_out
timed_out_over s limit current c e over =
    rw (e, lt→ltb limit (sub32 current c.state_begin_time) over) refl

live_open :
    (current : ℕ) (c : Connection)
    → is c.state terminating ≡ false
    → flush_live current c ≡ flush_open current c
unfolding flush_live
live_open current c e = rw e refl

live_terminating :
    (current : ℕ) (c : Connection)
    → is c.state terminating ≡ true
    → flush_live current c ≡ flush_terminating current c
unfolding flush_live
live_terminating current c e = rw e refl

flush_from :
    (current : ℕ) (c : Connection)
    → is c.state terminated ≡ false
    → is c.state active ≡ false
    → flush current c ≡ flush_live current (drained_closed current c)
unfolding flush
flush_from current c e e' = rw e (
    ap (λ (c' : Connection). flush_live current (drained_closed current c'))
      (idle_same current c e'))

drained_same :
    (current : ℕ) (c : Connection)
    → (is c.state ready_to_close && Sending.is_empty c.sending_worker) ≡ false
    → drained_closed current c ≡ c
unfolding drained_closed
drained_same current c e = rw e refl

drained_now :
    (current : ℕ) (c : Connection)
    → (is c.state ready_to_close && Sending.is_empty c.sending_worker) ≡ true
    → drained_closed current c ≡ set_state current terminating c
unfolding drained_closed
drained_now current c e = rw e refl

-- Terminating, and the way on from there.
terminating_now :
    (current : ℕ) (c : Connection)
    → phase (flush_live current (set_state current terminating c)).0 ≡ (terminating, current)
unfolding flush_live flush_terminating set_state entered close_write ping is
terminating_now current c = rw (young current) refl
  where
    young : (current : ℕ) → ltb 8000 (sub32 current current) ≡ false
    young current = ground arith

open_over :
    (current : ℕ) (c : Connection)
    → c.state ≡ ready_to_close
    → 15000 < sub32 current c.state_begin_time
    → phase (flush_open current c).0 ≡ (terminating, current)
unfolding flush_open is set_state entered close_write
open_over current c e over =
    old-phase current _
    ∙ workers-phase current _
    ∙ ap (λ (c' : Connection). phase (timed_out ready_to_close 15000 current c'))
        (timed_out_same peer_terminating 4000 current c
          (is_self peer_terminating ready_to_close c e))
    ∙ ap phase (
        timed_out_over ready_to_close 15000 current c (is_self ready_to_close ready_to_close c e)
          over)

live_over :
    (current : ℕ) (c : Connection)
    → c.state ≡ ready_to_close
    → 15000 < sub32 current c.state_begin_time
    → phase (flush_live current (drained_closed current c)).0 ≡ (terminating, current)
unfolding is
live_over current c e over =
    elim (Bool-cases (is c.state ready_to_close && Sending.is_empty c.sending_worker)) [
      | inl drained ↦
          ap (λ (c' : Connection). phase (flush_live current c').0) (drained_now current c drained)
          ∙ terminating_now current c
      | inr more ↦
          ap (λ (c' : Connection). phase (flush_live current c').0) (drained_same current c more)
          ∙ ap (λ (r : Connection × List Segment). phase r.0)
              (live_open current c (is_self terminating ready_to_close c e))
          ∙ open_over current c e over
    ]

pub flush_over :
    (current : ℕ) (c : Connection)
    → c.state ≡ ready_to_close
    → 15000 < sub32 current c.state_begin_time
    → phase (flush current c).0 ≡ (terminating, current)
unfolding is
flush_over current c e over =
    ap (λ (r : Connection × List Segment). phase r.0)
      (flush_from current c (is_self terminated ready_to_close c e)
        (is_self active ready_to_close c e))
    ∙ live_over current c e over

terminating_over :
    (current : ℕ) (c : Connection)
    → 8000 < sub32 current c.state_begin_time
    → (flush_terminating current c).0.state ≡ terminated
unfolding flush_terminating ping set_state entered close_write
terminating_over current c over = rw (lt→ltb 8000 (sub32 current c.state_begin_time) over) refl

pub flush_in_terminating :
    (current : ℕ) (c : Connection)
    → c.state ≡ terminating
    → flush current c ≡ flush_terminating current c
unfolding is
flush_in_terminating current c e =
    flush_from current c (is_self terminated terminating c e) (is_self active terminating c e)
    ∙ ap (flush_live current) (
        drained_same current c (
          ap (λ (b : Bool). b && Sending.is_empty c.sending_worker)
            (is_self ready_to_close terminating c e)))
    ∙ live_terminating current c (is_self terminating terminating c e)

pub flush_last :
    (current : ℕ) (c : Connection)
    → c.state ≡ terminating
    → 8000 < sub32 current c.state_begin_time
    → (flush current c).0.state ≡ terminated
unfolding is
flush_last current c e over =
    ap (λ (r : Connection × List Segment). r.0.state) (flush_in_terminating current c e)
    ∙ terminating_over current c over
