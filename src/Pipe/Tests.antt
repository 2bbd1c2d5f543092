-- ===== src/Pipe/Tests.antt =====
-- A pipe at concrete inputs.
use reflex.Prelude.{some, false, [], ◌∷◌, ◌++◌}
use reflex.MultiBuffer.{MultiBuffer, from_bytes}
use reflex.Pipe.{Pipe, new_pipe, read_multi_buffer, write_multi_buffer, close}
use reflex.Pipe.Fifo.{moved, Run, start, reads, writes, closes, Fifo, calls-Fifo}

abbrev three_bytes : MultiBuffer
three_bytes = from_bytes (1 ∷ 2 ∷ []) ∷ from_bytes (3 ∷ []) ∷ []

abbrev fresh : Pipe
fresh = new_pipe (some 16) false

abbrev filled : Pipe
filled = close (write_multi_buffer three_bytes fresh).0

-- Three bytes go in, the writer closes, and the reader takes them.
filled_runs :
    Run
      (some 16)
      false
      (read_multi_buffer filled).0
      ([] ++ moved (write_multi_buffer three_bytes fresh).1)
      ([] ++ moved (read_multi_buffer filled).1)
filled_runs = reads (closes (writes three_bytes start))

calls-Fifo_example :
    Fifo
      (read_multi_buffer filled).0
      ([] ++ moved (write_multi_buffer three_bytes fresh).1)
      ([] ++ moved (read_multi_buffer filled).1)
calls-Fifo_example =
    calls-Fifo (some 16) false (read_multi_buffer filled).0
      ([] ++ moved (write_multi_buffer three_bytes fresh).1)
      ([] ++ moved (read_multi_buffer filled).1) filled_runs
