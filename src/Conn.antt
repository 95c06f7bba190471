-- ===== src/Conn.antt =====
-- conn.go: the goroutine of a `BufferedSpipeConn`, which gathers packets in a buffer of 1024 bytes.
-- `buf` holds `buf[:buflen]`; the bytes past it are never written. `written` is what the calls of
-- `conn.Write` have been given, in order.
pub mod Stream
mod Tests
use rakoshare.Base.{
  ℕ, zero, suc, ◌+◌, ◌-◌, List, [], ◌∷◌, ◌++◌, length, take, drop, ltb, ◌==◌, if◌then◌else◌, Bool,
  true, false, Run, ok, panic, out_of_fuel, ◌>>=◌,
}

pub record Buffered : Type 0 where
  pub buf : List ℕ
  pub written : List (List ℕ)

abbrev pub buffer_size : ℕ
buffer_size = 1024

abbrev pub new_buffered : Buffered
new_buffered = record { buf = []; written = [] }

-- `for len(packet) > 1024 { … }`: the rest of the packet, and the writes with those of the loop.
unfoldable pub write_full : ℕ → List ℕ → List (List ℕ) → Run (List ℕ × List (List ℕ))
write_full zero packet written = out_of_fuel
write_full (suc fuel) packet written = elim (ltb buffer_size (length packet)) [
  | false ↦ ok (packet, written)
  | true ↦ write_full fuel (drop buffer_size packet) (written ++ (take buffer_size packet ∷ []))
]

-- `case packet := <-bsc.packets`. `copy(buf[:], packet)` copies what fits.
unfoldable pub on_packet : ℕ → List ℕ → Buffered → Run Buffered
unfolding write_full
on_packet fuel packet c =
    if ltb (length c.buf + length packet) buffer_size
    then ok (record c { buf = c.buf ++ packet })
    else (let room = buffer_size - length c.buf in
        write_full fuel (drop room packet) (c.written ++ ((c.buf ++ take room packet) ∷ []))
        >>= λ (rest, written). ok (record { buf = take buffer_size rest; written = written }))

-- `case <-tick`
unfoldable pub on_tick : Buffered → Buffered
on_tick c =
    if length c.buf == 0 then c else record { buf = []; written = c.written ++ (c.buf ∷ []) }

-- What arrives at the goroutine's `select` before it is told to quit.
pub data Event : Type 0 where
  packet : List ℕ → Event
  tick : Event

-- The goroutine over the events in the order in which its `select` takes them.
unfoldable pub run_events : ℕ → List Event → Buffered → Run Buffered
unfolding on_packet on_tick
run_events fuel [] c = ok c
run_events fuel (packet p ∷ events) c = on_packet fuel p c >>= λ c'. run_events fuel events c'
run_events fuel (tick ∷ events) c = run_events fuel events (on_tick c)

-- `Write` sends the packet to the goroutine and returns its length.
unfoldable pub write : List ℕ → List Event × ℕ
write p = (packet p ∷ [], length p)

-- `Close` has the goroutine quit and closes the connection: what has reached it by then.
unfoldable pub close : Buffered → List (List ℕ)
close c = c.written
