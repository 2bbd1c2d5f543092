-- ===== src/Kcp/Connection/Ending.antt =====
-- A connection that its user has closed comes to its end by flushes, whatever comes in meanwhile.
use reflex.Prelude.{
  ℕ, ◌+◌, ◌^◌, ◌≤◌, ◌<◌, ◌≡◌, refl, sym, ap, ◌∙◌, inl, inr, List, ltb, arith, All, either_branch,
}
use mathlib.Core.Path.{subst}
use reflex.Kcp.Words.{sub32}
use reflex.Kcp.Segment.{Segment}
use reflex.Kcp.Connection.{
  State, ready_to_close, terminating, terminated, is, Connection, set_state, ping,
  flush_terminating, flush, command_terminate,
}
use reflex.Kcp.Connection.Arrivals.{
  phase, set_state-phase, Ended, Closing, arrivals, arrivals-Ended, arrivals-Closing,
}
use reflex.Kcp.Connection.Flushes.{flush_over, flush_in_terminating, flush_last}

flush_terminated : (current : ℕ) (c : Connection) → c.state ≡ terminated → (flush current c).0 ≡ c
unfolding flush is
flush_terminated current c e = rw e refl

flush_terminating-Ended :
    (t current : ℕ) (c : Connection)
    → c.state ≡ terminating
    → c.state_begin_time ≤ t
    → Ended t (phase (flush current c).0)
unfolding is flush_terminating ping
flush_terminating-Ended t current c e begun =
    subst (λ (r : Connection × List Segment). Ended t (phase r.0))
      (sym (flush_in_terminating current c e))
      (either_branch (λ (c' : Connection). Ended t (phase c'))
        (ltb 8000 (sub32 current c.state_begin_time))
        (set_state current terminated (ping current command_terminate c).0)
        (ping current command_terminate c).0
        (λ over. inr (ap (λ (p : State × ℕ). p.0) (set_state-phase current terminated _)))
        (λ young. inl (e, begun)))

flush-Ended :
    (since t : ℕ) (c : Connection)
    → since + 15000 < t
    → t < 2 ^ 32
    → Closing since t (phase c)
    → Ended t (phase (flush t c).0)
flush-Ended since t c over word (inl (e, begun)) =
    subst (Ended t) (sym (flush_over t c e (omega (arith, over, word, begun))))
      (inl (refl, omega arith))
flush-Ended since t c over word (inr (inl (e, begun))) = flush_terminating-Ended t t c e begun
flush-Ended since t c over word (inr (inr e)) =
    inr (ap (λ (c' : Connection). c'.state) (flush_terminated t c e) ∙ e)

flush_ends :
    (t current : ℕ) (c : Connection)
    → t + 8000 < current
    → current < 2 ^ 32
    → Ended t (phase c)
    → (flush current c).0.state ≡ terminated
flush_ends t current c over word (inl (e, begun)) =
    flush_last current c e (omega (arith, over, word, begun))
flush_ends t current c over word (inr e) =
    ap (λ (c' : Connection). c'.state) (flush_terminated current c e) ∙ e

-- A connection that its user has closed is terminated after two flushes, whatever packets come in before
-- the first of them, not later than it, and between the two, and whether or not all was acknowledged: the
-- first is more than 15 seconds behind the close, the second more than 8 seconds behind the first, and the
-- clock of milliseconds has not wrapped around.
pub closed-ends :
    (t1 t2 : ℕ) (c : Connection) (before between : List (ℕ × List Segment))
    → c.state ≡ ready_to_close
    → c.state_begin_time + 15000 < t1
    → t1 + 8000 < t2
    → t2 < 2 ^ 32
    → All (λ packet. packet.0 ≤ t1) before
    → (flush t2 (arrivals between (flush t1 (arrivals before c)).0)).0.state ≡ terminated
closed-ends t1 t2 c before between e over over' word early =
    flush_ends t1 t2 (arrivals between (flush t1 (arrivals before c)).0) over' word (
      arrivals-Ended t1 between (flush t1 (arrivals before c)).0 (
        flush-Ended c.state_begin_time t1 (arrivals before c) over (omega (arith, over', word))
          (arrivals-Closing c.state_begin_time t1 before c early (inl (e, refl)))))
