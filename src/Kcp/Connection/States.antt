-- ===== src/Kcp/Connection/States.antt =====
-- How the state of a connection moves, and that a closed connection comes to its end.
use reflex.Prelude.{
  ℕ, ◌%◌, ◌≤◌, ◌<◌, ◌≡◌, refl, ◌∙◌, ◌⊎◌, inl, inr, Bool, true, false, ◌&&◌, ◌||◌, List, [], ◌∷◌,
  ltb, leb, ◌==◌, if◌then◌else◌, either_branch, arith,
}
use reflex.Kcp.Words.{sub32}
use reflex.Kcp.Segment.{
  Segment, data_segment, ack_segment, cmd_segment, CmdOnlySegment, segment_option_close,
}
use reflex.Kcp.Sending
use reflex.Kcp.Connection.{
  State, active, ready_to_close, peer_closed, terminating, peer_terminating, terminated, is,
  Connection, close_write, entered, set_state, signal_both, closed_from, close, peer_closed_from,
  on_peer_closed, handle_option, terminated_from, on_terminate, receive_data, receive_ack,
  signal_end, receive_numbers, receive_cmd, conversation_of, receive_one, receive_all, input, ping,
  ping_if, flush_workers, ping_when_old, idle_closed, drained_closed, flush_terminating, timed_out,
  flush_open, flush_live, flush, command_terminate,
}

-- The ways from a state to another.
pub data Leads : State → State → Type 0 where
  stays : {s : State} → Leads s s
  closes : {s : State} → Leads ready_to_close s → Leads active s
  peer_closes : {s : State} → Leads peer_closed s → Leads active s
  peer_ends : {s : State} → Leads peer_terminating s → Leads active s
  drains : {s : State} → Leads terminating s → Leads ready_to_close s
  closes_last : {s : State} → Leads terminating s → Leads peer_closed s
  peer_ends_last : {s : State} → Leads peer_terminating s → Leads peer_closed s
  expires : {s : State} → Leads terminating s → Leads peer_terminating s
  ends_first : {s : State} → Leads terminated s → Leads peer_terminating s
  ends : {s : State} → Leads terminated s → Leads terminating s

join_ways : {s t u : State} → Leads s t → Leads t u → Leads s u
join_ways stays q = q
join_ways (closes p) q = closes (join_ways p q)
join_ways (peer_closes p) q = peer_closes (join_ways p q)
join_ways (peer_ends p) q = peer_ends (join_ways p q)
join_ways (drains p) q = drains (join_ways p q)
join_ways (closes_last p) q = closes_last (join_ways p q)
join_ways (peer_ends_last p) q = peer_ends_last (join_ways p q)
join_ways (expires p) q = expires (join_ways p q)
join_ways (ends_first p) q = ends_first (join_ways p q)
join_ways (ends p) q = ends (join_ways p q)

-- How far a state is on the way to the end.
unfoldable pub rank : State → ℕ
rank active = 0
rank ready_to_close = 1
rank peer_closed = 1
rank peer_terminating = 2
rank terminating = 3
rank terminated = 4

rank_grows : {s t : State} → Leads s t → rank s ≤ rank t
unfolding rank
rank_grows stays = omega arith
rank_grows (closes p) = omega (arith, rank_grows p)
rank_grows (peer_closes p) = omega (arith, rank_grows p)
rank_grows (peer_ends p) = omega (arith, rank_grows p)
rank_grows (drains p) = omega (arith, rank_grows p)
rank_grows (closes_last p) = omega (arith, rank_grows p)
rank_grows (peer_ends_last p) = omega (arith, rank_grows p)
rank_grows (expires p) = omega (arith, rank_grows p)
rank_grows (ends_first p) = omega (arith, rank_grows p)
rank_grows (ends p) = omega (arith, rank_grows p)

same_or_further : {s t : State} → Leads s t → (s ≡ t) ⊎ (rank s < rank t)
unfolding rank
same_or_further stays = inl refl
same_or_further (closes p) = inr (omega (arith, rank_grows p))
same_or_further (peer_closes p) = inr (omega (arith, rank_grows p))
same_or_further (peer_ends p) = inr (omega (arith, rank_grows p))
same_or_further (drains p) = inr (omega (arith, rank_grows p))
same_or_further (closes_last p) = inr (omega (arith, rank_grows p))
same_or_further (peer_ends_last p) = inr (omega (arith, rank_grows p))
same_or_further (expires p) = inr (omega (arith, rank_grows p))
same_or_further (ends_first p) = inr (omega (arith, rank_grows p))
same_or_further (ends p) = inr (omega (arith, rank_grows p))

entered-state : (s : State) (c : Connection) → (entered s c).state ≡ c.state
unfolding entered close_write
entered-state active c = refl
entered-state ready_to_close c = refl
entered-state peer_closed c = refl
entered-state terminating c = refl
entered-state peer_terminating c = refl
entered-state terminated c = refl

set_state-state : (current : ℕ) (s : State) (c : Connection) → (set_state current s c).state ≡ s
unfolding set_state
set_state-state current s c = entered-state s (record c { state = s; state_begin_time = current })

-- Where the state of the second connection lies on a way from the first's.
abbrev Onward : Connection → Connection → Type 0
Onward c c' = Leads c.state c'.state

set-Leads :
    {s t : State} (current : ℕ) (c : Connection) → Leads s t → Leads s (set_state current t c).state
set-Leads current c p = rw (set_state-state current _ c) p

closed_from-Leads :
    (current : ℕ) (s : State) (c : Connection)
    → c.state ≡ s
    → Leads s (closed_from current s c).0.state
unfolding closed_from
closed_from-Leads current active c e = set-Leads current c (closes stays)
closed_from-Leads current ready_to_close c e = rw e stays
closed_from-Leads current peer_closed c e = set-Leads current c (closes_last stays)
closed_from-Leads current terminating c e = rw e stays
closed_from-Leads current peer_terminating c e = set-Leads current c (ends_first stays)
closed_from-Leads current terminated c e = rw e stays

close-Leads : (current : ℕ) (c : Connection) → Onward c (close current c).0
unfolding close signal_both
close-Leads current c = closed_from-Leads current c.state (signal_both c) refl

peer_closed_from-Leads :
    (current : ℕ) (s : State) (c : Connection)
    → c.state ≡ s
    → Leads s (peer_closed_from current s c).state
unfolding peer_closed_from
peer_closed_from-Leads current active c e = set-Leads current c (peer_closes stays)
peer_closed_from-Leads current ready_to_close c e = set-Leads current c (drains stays)
peer_closed_from-Leads current peer_closed c e = rw e stays
peer_closed_from-Leads current terminating c e = rw e stays
peer_closed_from-Leads current peer_terminating c e = rw e stays
peer_closed_from-Leads current terminated c e = rw e stays

option-Leads : (current opt : ℕ) (c : Connection) → Onward c (handle_option current opt c)
unfolding handle_option on_peer_closed
option-Leads current opt c =
    either_branch (Onward c) (opt % 2 == segment_option_close) (on_peer_closed current c) c
      (λ e. peer_closed_from-Leads current c.state c refl) (λ e. stays)

terminated_from-Leads :
    (current : ℕ) (s : State) (c : Connection)
    → c.state ≡ s
    → Leads s (terminated_from current s c).state
unfolding terminated_from
terminated_from-Leads current active c e = set-Leads current c (peer_ends stays)
terminated_from-Leads current ready_to_close c e = set-Leads current c (drains stays)
terminated_from-Leads current peer_closed c e = set-Leads current c (peer_ends_last stays)
terminated_from-Leads current terminating c e = set-Leads current c (ends stays)
terminated_from-Leads current peer_terminating c e = rw e stays
terminated_from-Leads current terminated c e = rw e stays

signal_end-Leads : (seg : CmdOnlySegment) (c : Connection) → Onward c (signal_end seg c)
unfolding signal_end signal_both
signal_end-Leads seg c =
    either_branch (Onward c) (seg.option == segment_option_close || seg.cmd == command_terminate)
      (signal_both c) c (λ e. stays) (λ e. stays)

cmd-Leads :
    (current : ℕ) (seg : CmdOnlySegment) (c : Connection) → Onward c (receive_cmd current seg c)
unfolding receive_cmd receive_numbers on_terminate
cmd-Leads current seg c =
    join_ways
      (either_branch (Onward c) (seg.cmd == command_terminate) (on_terminate current c) c
        (λ e. terminated_from-Leads current c.state c refl) (λ e. stays))
      (signal_end-Leads seg (if seg.cmd == command_terminate then on_terminate current c else c))

one-Leads : (current : ℕ) (seg : Segment) (c : Connection) → Onward c (receive_one current seg c)
unfolding receive_one receive_data receive_ack
one-Leads current (data_segment s) c = option-Leads current s.option c
one-Leads current (ack_segment s) c = option-Leads current s.option c
one-Leads current (cmd_segment s) c =
    join_ways (option-Leads current s.option c)
      (cmd-Leads current s (handle_option current s.option c))

all-Leads :
    (current : ℕ) (segs : List Segment) (c : Connection) → Onward c (receive_all current segs c)
unfolding receive_all
all-Leads current [] c = stays
all-Leads current (seg ∷ segs) c =
    either_branch (Onward c) (conversation_of seg == c.conversation)
      (receive_all current segs (receive_one current seg c)) c
      (λ e.
        join_ways (one-Leads current seg c) (all-Leads current segs (receive_one current seg c)))
      (λ e. stays)

ping_if-state :
    (due : Bool) (current : ℕ) (r : Connection × List Segment)
    → (ping_if due current r).0.state ≡ r.0.state
unfolding ping_if ping
ping_if-state false current (c, out) = refl
ping_if-state true current (c, out) = refl

workers-state : (current : ℕ) (c : Connection) → (flush_workers current c).0.state ≡ c.state
unfolding flush_workers
workers-state current c = ping_if-state _ current _

old-state :
    (current : ℕ) (r : Connection × List Segment) → (ping_when_old current r).0.state ≡ r.0.state
unfolding ping_when_old
old-state current (c, out) =
    ping_if-state (leb 3000 (sub32 current c.last_ping_time)) current (c, out)

is_eq : (s t : State) → is s t ≡ true → s ≡ t
unfolding is
is_eq active active e = refl
is_eq ready_to_close ready_to_close e = refl
is_eq peer_closed peer_closed e = refl
is_eq terminating terminating e = refl
is_eq peer_terminating peer_terminating e = refl
is_eq terminated terminated e = refl
is_eq s t e = cc

left_true : (a b : Bool) → a && b ≡ true → a ≡ true
left_true true b e = refl
left_true false b e = e

way_from : {s t u : State} → u ≡ s → Leads s t → Leads u t
way_from e p = rw e p

timed_out-Leads :
    (s : State) (limit current : ℕ) (c : Connection)
    → Leads s terminating
    → Onward c (timed_out s limit current c)
unfolding timed_out
timed_out-Leads s limit current c way =
    either_branch (Onward c) (is c.state s && ltb limit (sub32 current c.state_begin_time))
      (set_state current terminating c) c
      (λ e. set-Leads current c (
        way_from
          (is_eq c.state s
            (left_true (is c.state s) (ltb limit (sub32 current c.state_begin_time)) e))
          way))
      (λ e. stays)

idle-Leads : (current : ℕ) (c : Connection) → Onward c (idle_closed current c)
unfolding idle_closed
idle-Leads current c =
    either_branch (Onward c) (is c.state active && leb 30000 (sub32 current c.last_incoming_time))
      (close current c).0 c (λ e. close-Leads current c) (λ e. stays)

drained-Leads : (current : ℕ) (c : Connection) → Onward c (drained_closed current c)
unfolding drained_closed
drained-Leads current c =
    either_branch (Onward c) (is c.state ready_to_close && Sending.is_empty c.sending_worker)
      (set_state current terminating c) c
      (λ e. set-Leads current c (
        way_from
          (is_eq c.state ready_to_close
            (left_true (is c.state ready_to_close) (Sending.is_empty c.sending_worker) e))
          (drains stays)))
      (λ e. stays)

terminating-Leads :
    (current : ℕ) (c : Connection)
    → c.state ≡ terminating
    → Onward c (flush_terminating current c).0
unfolding flush_terminating ping
terminating-Leads current c e =
    either_branch (Onward c) (ltb 8000 (sub32 current c.state_begin_time))
      (set_state current terminated (ping current command_terminate c).0)
      (ping current command_terminate c).0
      (λ e'. set-Leads current (ping current command_terminate c).0 (way_from e (ends stays)))
      (λ e'. stays)

open-Leads : (current : ℕ) (c : Connection) → Onward c (flush_open current c).0
unfolding flush_open
open-Leads current c =
    let c1 = timed_out peer_terminating 4000 current c in
    let c2 = timed_out ready_to_close 15000 current c1 in
    join_ways (timed_out-Leads peer_terminating 4000 current c (expires stays)) (
      join_ways (timed_out-Leads ready_to_close 15000 current c1 (drains stays))
        (way_onto (old-state current (flush_workers current c2) ∙ workers-state current c2)))
  where
    way_onto : {s t : State} → t ≡ s → Leads s t
    way_onto e = rw e stays

live-Leads : (current : ℕ) (c : Connection) → Onward c (flush_live current c).0
unfolding flush_live
live-Leads current c =
    either_branch (λ (r : Connection × List Segment). Onward c r.0) (is c.state terminating)
      (flush_terminating current c) (flush_open current c)
      (λ e. terminating-Leads current c (is_eq c.state terminating e)) (λ e. open-Leads current c)

flush-Leads : (current : ℕ) (c : Connection) → Onward c (flush current c).0
unfolding flush
flush-Leads current c =
    let c1 = idle_closed current c in
    let c2 = drained_closed current c1 in
    either_branch (λ (r : Connection × List Segment). Onward c r.0) (is c.state terminated) (c, [])
      (flush_live current c2) (λ e. stays)
      (λ e.
        join_ways (idle-Leads current c)
          (join_ways (drained-Leads current c1) (live-Leads current c2)))

abbrev pub Forward : State → State → Type 0
Forward s t = (s ≡ t) ⊎ (rank s < rank t)

-- Incoming segments, a close and a flush leave the state of a connection or move it on towards the
-- end, from active over closed by one side, terminating on the peer's side and terminating to
-- terminated, and never back.
pub state-Forward :
    (current : ℕ) (segs : List Segment) (c : Connection)
    → Forward c.state (input current segs c).state
      × Forward c.state (close current c).0.state
      × Forward c.state (flush current c).0.state
unfolding input
state-Forward current segs c = (
  same_or_further (all-Leads current segs (record c { last_incoming_time = current })),
  same_or_further (close-Leads current c),
  same_or_further (flush-Leads current c),
)
