-- ===== src/Kcp/Acks.antt =====
-- transport/internet/kcp/receiving.go, `AckList`: the numbers to acknowledge. Its three slices have
-- one length and are a list of triples here; `flushCandidates` is a scratch slice with room for 128.
pub mod Flush
use reflex.Prelude.{
  ℕ, zero, suc, ◌+◌, ◌/◌, ◌%◌, ◌^◌, Bool, true, false, ◌||◌, not, List, [], ◌∷◌, ◌++◌, length, ltb,
  leb, ◌==◌, if◌then◌else◌,
}
use reflex.Kcp.Words.{add32}
use reflex.Kcp.Segment.{
  AckSegment, new_ack_segment, put_number, put_timestamp, is_full, ack_number_limit,
}

pub record Pending : Type 0 where
  pub number : ℕ
  pub timestamp : ℕ
  pub next_flush : ℕ

pub record AckList : Type 0 where
  pub entries : List Pending
  pub dirty : Bool

abbrev pub new_ack_list : AckList
new_ack_list = record { entries = []; dirty = false }

unfoldable pub add : ℕ → ℕ → AckList → AckList
add number timestamp l = record {
  entries = l.entries ++ (record { number = number; timestamp = timestamp; next_flush = 0 } ∷ []);
  dirty = true;
}

-- The loop of `Clear` moves up what is kept.
unfoldable pub keep_from : ℕ → List Pending → List Pending
keep_from una [] = []
keep_from una (p ∷ ps) = if ltb p.number una then keep_from una ps else p ∷ keep_from una ps

unfoldable pub clear : ℕ → AckList → AckList
clear una l =
    let kept = keep_from una l.entries in
    if ltb (length kept) (length l.entries) then record { entries = kept; dirty = true } else l

-- What the loop of `Flush` carries: the segment that is filled, the numbers that may come along, the
-- segments that are written, and `dirty`.
pub record Flushing : Type 0 where
  pub seg : AckSegment
  pub candidates : List ℕ
  pub written : List AckSegment
  pub dirty : Bool

abbrev pub candidate_limit : ℕ
candidate_limit = 128

-- A full segment goes out, and a new one is begun.
write_full : Flushing → Flushing
write_full f =
    if is_full f.seg
    then record f { seg = new_ack_segment; written = f.written ++ (f.seg ∷ []); dirty = false }
    else f

-- An entry that is not due yet may come along; one that is due is put into the segment.
flush_entry : ℕ → Pending → Flushing → Flushing
unfolding write_full
flush_entry current p f =
    if ltb current p.next_flush
    then if ltb (length f.candidates) candidate_limit
      then record f { candidates = f.candidates ++ (p.number ∷ []) }
      else f
    else write_full (record f { seg = put_timestamp p.timestamp (put_number p.number f.seg) })

-- Half the timeout, twenty milliseconds at least.
abbrev flush_timeout : ℕ → ℕ
flush_timeout rto = if ltb (rto / 2) 20 then 20 else rto / 2

reschedule : ℕ → ℕ → Pending → Pending
reschedule current rto p =
    if ltb current p.next_flush
    then p
    else record p { next_flush = add32 current (flush_timeout rto) }

reschedule_all : ℕ → ℕ → List Pending → List Pending
unfolding reschedule
reschedule_all current rto [] = []
reschedule_all current rto (p ∷ ps) = reschedule current rto p ∷ reschedule_all current rto ps

flush_entries : ℕ → List Pending → Flushing → Flushing
unfolding flush_entry
flush_entries current [] f = f
flush_entries current (p ∷ ps) f = flush_entries current ps (flush_entry current p f)

-- The candidates, while there is room.
put_candidates : List ℕ → AckSegment → AckSegment
put_candidates [] seg = seg
put_candidates (n ∷ ns) seg = if is_full seg then seg else put_candidates ns (put_number n seg)

is_empty : AckSegment → Bool
is_empty seg = length seg.number_list == 0

last_segment : Flushing → List AckSegment
unfolding put_candidates is_empty
last_segment f =
    if f.dirty || not (is_empty f.seg)
    then f.written ++ (put_candidates f.candidates f.seg ∷ [])
    else f.written

flushed : ℕ → AckList → Flushing
unfolding flush_entries
flushed current l =
    flush_entries current l.entries
      (record { seg = new_ack_segment; candidates = []; written = []; dirty = l.dirty })

-- `Flush`: the list behind it, and the segments that it writes, in order. `dirty` is false behind it,
-- whichever way it goes.
unfoldable pub flush : ℕ → ℕ → AckList → AckList × List AckSegment
unfolding reschedule_all flushed last_segment
flush current rto l = (
  record { entries = reschedule_all current rto l.entries; dirty = false },
  last_segment (flushed current l),
)
