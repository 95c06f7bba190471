-- ===== src/Conn/Tests.antt =====
-- Runs of the buffering goroutine, and the theorems at concrete inputs.
use rakoshare.Base.{◌+◌, ◌≤◌, ◌≡◌, refl, List, [], ◌∷◌, ◌++◌, length, ok}
use rakoshare.Conn.{
  Buffered, new_buffered, buffer_size, Event, packet, tick, run_events, on_packet, on_tick, close,
}
use rakoshare.Conn.Stream.{concat, bytes_of, run_events-stream}

abbrev some_events : List Event
some_events = packet (1 ∷ 2 ∷ []) ∷ packet (3 ∷ []) ∷ tick ∷ packet (4 ∷ []) ∷ []

one_write_then_a_byte :
    run_events 3 some_events new_buffered
    ≡ ok (record { buf = 4 ∷ []; written = (1 ∷ 2 ∷ 3 ∷ []) ∷ [] })
unfolding run_events on_packet on_tick
one_write_then_a_byte = refl

run_events-stream_example :
    (c : Buffered) × (run_events (2 + 1) some_events new_buffered ≡ ok c)
    × (length c.buf ≤ buffer_size)
    × (concat (close c) ++ c.buf ≡ bytes_of some_events)
run_events-stream_example = run_events-stream some_events
