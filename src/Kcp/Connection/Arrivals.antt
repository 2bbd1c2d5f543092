-- ===== src/Kcp/Connection/Arrivals.antt =====
-- What the segments that come in do to a connection that its user has closed.
use reflex.Prelude.{
  ℕ, ◌%◌, ◌≤◌, ◌≡◌, refl, sym, ap, ◌⊎◌, inl, inr, ◌||◌, List, [], ◌∷◌, ◌==◌, if◌then◌else◌,
  either_branch, All,
}
use mathlib.Core.Path.{subst}
use reflex.Kcp.Segment.{
  Segment, data_segment, ack_segment, cmd_segment, CmdOnlySegment, segment_option_close,
}
use reflex.Kcp.Connection.{
  State, active, ready_to_close, peer_closed, terminating, peer_terminating, terminated, Connection,
  close_write, entered, set_state, signal_both, peer_closed_from, on_peer_closed, handle_option,
  terminated_from, on_terminate, receive_data, receive_ack, signal_end, receive_numbers,
  receive_cmd, conversation_of, receive_one, receive_all, input, command_terminate,
}

-- The state of a connection, and since when it is in it.
abbrev pub phase : Connection → State × ℕ
phase c = (c.state, c.state_begin_time)

entered-phase : (s : State) (c : Connection) → phase (entered s c) ≡ phase c
unfolding entered close_write
entered-phase active c = refl
entered-phase ready_to_close c = refl
entered-phase peer_closed c = refl
entered-phase terminating c = refl
entered-phase peer_terminating c = refl
entered-phase terminated c = refl

pub set_state-phase :
    (current : ℕ) (s : State) (c : Connection) → phase (set_state current s c) ≡ (s, current)
unfolding set_state
set_state-phase current s c = entered-phase s (record c { state = s; state_begin_time = current })

-- What holds of a connection's phase holds after incoming segments, when it does after the peer's close
-- and after its `CommandTerminate`.
module _ (P : State × ℕ → Type 0) (current : ℕ)
    (close_keeps : (c : Connection) → P (phase c) → P (phase (on_peer_closed current c)))
    (terminate_keeps : (c : Connection) → P (phase c) → P (phase (on_terminate current c))) where
  option-phase : (opt : ℕ) (c : Connection) → P (phase c) → P (phase (handle_option current opt c))
  unfolding handle_option
  option-phase opt c h =
      either_branch (λ (c' : Connection). P (phase c')) (opt % 2 == segment_option_close)
        (on_peer_closed current c) c (λ e. close_keeps c h) (λ e. h)

  signal_end-phase :
      (seg : CmdOnlySegment) (c : Connection) → P (phase c) → P (phase (signal_end seg c))
  unfolding signal_end signal_both
  signal_end-phase seg c h =
      either_branch (λ (c' : Connection). P (phase c'))
        (seg.option == segment_option_close || seg.cmd == command_terminate) (signal_both c) c
        (λ e. h) (λ e. h)

  cmd-phase :
      (seg : CmdOnlySegment) (c : Connection) → P (phase c) → P (phase (receive_cmd current seg c))
  unfolding receive_cmd receive_numbers
  cmd-phase seg c h =
      signal_end-phase seg (if seg.cmd == command_terminate then on_terminate current c else c) (
        either_branch (λ (c' : Connection). P (phase c')) (seg.cmd == command_terminate)
          (on_terminate current c) c (λ e. terminate_keeps c h) (λ e. h))

  one-phase : (seg : Segment) (c : Connection) → P (phase c) → P (phase (receive_one current seg c))
  unfolding receive_one receive_data receive_ack
  one-phase (data_segment s) c h = option-phase s.option c h
  one-phase (ack_segment s) c h = option-phase s.option c h
  one-phase (cmd_segment s) c h =
      cmd-phase s (handle_option current s.option c) (option-phase s.option c h)

  all-phase :
      (segs : List Segment) (c : Connection) → P (phase c) → P (phase (receive_all current segs c))
  unfolding receive_all
  all-phase [] c h = h
  all-phase (seg ∷ segs) c h =
      either_branch (λ (c' : Connection). P (phase c')) (conversation_of seg == c.conversation)
        (receive_all current segs (receive_one current seg c)) c
        (λ e. all-phase segs (receive_one current seg c) (one-phase seg c h)) (λ e. h)

  input-phase :
      (segs : List Segment) (c : Connection) → P (phase c) → P (phase (input current segs c))
  unfolding input
  input-phase segs c h = all-phase segs (record c { last_incoming_time = current }) h

-- Terminating since this time at the latest, or terminated.
abbrev pub Ended : ℕ → State × ℕ → Type 0
Ended t p = ((p.0 ≡ terminating) × (p.1 ≤ t)) ⊎ (p.0 ≡ terminated)

-- Closed since this time, or ended.
abbrev pub Closing : ℕ → ℕ → State × ℕ → Type 0
Closing since t p = ((p.0 ≡ ready_to_close) × (p.1 ≡ since)) ⊎ Ended t p

set_terminating :
    (t current : ℕ) (c : Connection)
    → current ≤ t
    → Ended t (phase (set_state current terminating c))
set_terminating t current c h =
    subst (Ended t) (sym (set_state-phase current terminating c)) (inl (refl, h))

closed-Ended :
    (t current : ℕ) (c : Connection)
    → Ended t (phase c)
    → Ended t (phase (on_peer_closed current c))
unfolding on_peer_closed peer_closed_from
closed-Ended t current c (inl (e, h)) =
    subst (λ (c' : Connection). Ended t (phase c'))
      (sym (ap (λ (s : State). peer_closed_from current s c) e)) (inl (e, h))
closed-Ended t current c (inr e) =
    subst (λ (c' : Connection). Ended t (phase c'))
      (sym (ap (λ (s : State). peer_closed_from current s c) e)) (inr e)

terminate-Ended :
    (t current : ℕ) (c : Connection) → Ended t (phase c) → Ended t (phase (on_terminate current c))
unfolding on_terminate terminated_from
terminate-Ended t current c (inl (e, h)) =
    subst (λ (c' : Connection). Ended t (phase c'))
      (sym (ap (λ (s : State). terminated_from current s c) e))
      (inr (ap (λ (p : State × ℕ). p.0) (set_state-phase current terminated c)))
terminate-Ended t current c (inr e) =
    subst (λ (c' : Connection). Ended t (phase c'))
      (sym (ap (λ (s : State). terminated_from current s c) e)) (inr e)

closed-Closing :
    (since t current : ℕ) (c : Connection)
    → current ≤ t
    → Closing since t (phase c)
    → Closing since t (phase (on_peer_closed current c))
unfolding on_peer_closed peer_closed_from
closed-Closing since t current c h (inl (e, begun)) =
    subst (λ (c' : Connection). Closing since t (phase c'))
      (sym (ap (λ (s : State). peer_closed_from current s c) e))
      (inr (set_terminating t current c h))
closed-Closing since t current c h (inr ended) = inr (closed-Ended t current c ended)

terminate-Closing :
    (since t current : ℕ) (c : Connection)
    → current ≤ t
    → Closing since t (phase c)
    → Closing since t (phase (on_terminate current c))
unfolding on_terminate terminated_from
terminate-Closing since t current c h (inl (e, begun)) =
    subst (λ (c' : Connection). Closing since t (phase c'))
      (sym (ap (λ (s : State). terminated_from current s c) e))
      (inr (set_terminating t current c h))
terminate-Closing since t current c h (inr ended) = inr (terminate-Ended t current c ended)

-- Packets of segments come in, each at its time.
unfoldable pub arrivals : List (ℕ × List Segment) → Connection → Connection
arrivals [] c = c
arrivals ((current, segs) ∷ rest) c = arrivals rest (input current segs c)

pub arrivals-Ended :
    (t : ℕ) (packets : List (ℕ × List Segment)) (c : Connection)
    → Ended t (phase c)
    → Ended t (phase (arrivals packets c))
unfolding arrivals
arrivals-Ended t [] c h = h
arrivals-Ended t ((current, segs) ∷ rest) c h =
    arrivals-Ended t rest (input current segs c)
      (input-phase (Ended t) current (closed-Ended t current) (terminate-Ended t current) segs c h)

pub arrivals-Closing :
    (since t : ℕ) (packets : List (ℕ × List Segment)) (c : Connection)
    → All (λ packet. packet.0 ≤ t) packets
    → Closing since t (phase c)
    → Closing since t (phase (arrivals packets c))
unfolding arrivals
arrivals-Closing since t [] c early h = h
arrivals-Closing since t ((current, segs) ∷ rest) c (first, early) h =
    arrivals-Closing since t rest (input current segs c) early (
      input-phase (Closing since t) current (λ c' h'. closed-Closing since t current c' first h')
        (λ c' h'. terminate-Closing since t current c' first h') segs c h)
