-- ===== src/Conn/Stream.antt =====
-- The buffer changes where the stream is cut and nothing else.
use rakoshare.Base.{
  ℕ, zero, suc, ◌+◌, ◌-◌, ◌≤◌, ◌<◌, ◌≡◌, refl, sym, ◌∙◌, List, [], ◌∷◌, ◌++◌, length, take, drop,
  arith, ltb, ◌==◌, ◌⊎◌, if◌then◌else◌, true, false, Bool-cases, inl, inr, ok, append_assoc,
  append-nil, take-append-drop, take-eq_of_le, length-drop, length-append,
}
use rakoshare.Conn.{
  Buffered, new_buffered, buffer_size, write_full, on_packet, on_tick, Event, packet, tick,
  run_events, close,
}

-- The bytes of the writes, one after the other.
abbrev pub concat : List (List ℕ) → List ℕ
concat [] = []
concat (w ∷ ws) = w ++ concat ws

-- The bytes that the packets of the events hold.
abbrev pub bytes_of : List Event → List ℕ
bytes_of [] = []
bytes_of (packet p ∷ events) = p ++ bytes_of events
bytes_of (tick ∷ events) = bytes_of events

abbrev pub longest : List Event → ℕ
longest [] = 0
longest (packet p ∷ events) = if ltb (length p) (longest events) then longest events else length p
longest (tick ∷ events) = longest events

-- What has been written, then what is in the buffer.
abbrev pub stream : Buffered → List ℕ
stream c = concat c.written ++ c.buf

concat-append_one : (ws : List (List ℕ)) (w : List ℕ) → concat (ws ++ (w ∷ [])) ≡ concat ws ++ w
concat-append_one [] w = append-nil w
concat-append_one (x ∷ ws) w = rw (concat-append_one ws w) (sym (append_assoc x (concat ws) w))

-- The loop returns a rest that fits the buffer, and it and the writes hold the packet.
write_full_lem :
    (fuel : ℕ) (p : List ℕ) (ws : List (List ℕ))
    → length p < fuel
    → (rest : List ℕ) × (ws' : List (List ℕ)) × (write_full fuel p ws ≡ ok (rest, ws'))
      × (length rest ≤ buffer_size)
      × (concat ws' ++ rest ≡ concat ws ++ p)
unfolding write_full
write_full_lem zero p ws h = absurd (omega arith)
write_full_lem (suc fuel) p ws h = elim (Bool-cases (ltb buffer_size (length p))) [
  | inr e ↦ (p, ws, rw (write_full, e), ground arith, refl)
  | inl e ↦
      let (rest, ws', f, small, g) =
        write_full_lem fuel (drop buffer_size p) (ws ++ (take buffer_size p ∷ []))
          (ground (arith, length-drop buffer_size p)) in
      let joined : concat (ws ++ (take buffer_size p ∷ [])) ++ drop buffer_size p ≡ concat ws ++ p =
        rw (
          concat-append_one ws (take buffer_size p),
          append_assoc (concat ws) (take buffer_size p) (drop buffer_size p),
          take-append-drop buffer_size p,
        ) in
      (rest, ws', rw (write_full, e) f, small, g ∙ joined)
]

-- A connection whose buffer holds what it has room for.
abbrev pub IsBuffered : Buffered → Type 0
IsBuffered c = length c.buf ≤ buffer_size

on_packet_lem :
    (fuel : ℕ) (p : List ℕ) (c : Buffered)
    → length p < fuel
    → IsBuffered c
    → (c' : Buffered) × (on_packet fuel p c ≡ ok c') × IsBuffered c' × (stream c' ≡ stream c ++ p)
unfolding on_packet
on_packet_lem fuel p c h v = elim (Bool-cases (ltb (length c.buf + length p) buffer_size)) [
  | inl e ↦ (
    record c { buf = c.buf ++ p },
    rw (on_packet, e),
    ground (arith, length-append c.buf p),
    sym (append_assoc (concat c.written) c.buf p),
  )
  | inr e ↦
      let room = buffer_size - length c.buf in
      let (rest, ws, f, small, g) =
        write_full_lem fuel (drop room p) (c.written ++ ((c.buf ++ take room p) ∷ []))
          (omega (arith, length-drop room p)) in
      let fits = take-eq_of_le buffer_size rest small in
      let joined : concat (c.written ++ ((c.buf ++ take room p) ∷ [])) ++ drop room p
          ≡ stream c ++ p =
        rw
          (
            concat-append_one c.written (c.buf ++ take room p),
            append_assoc (concat c.written) (c.buf ++ take room p) (drop room p),
            append_assoc c.buf (take room p) (drop room p),
            take-append-drop room p,
          )
          (sym (append_assoc (concat c.written) c.buf p)) in
      (record { buf = rest; written = ws }, rw (on_packet, e, f, fits), small, g ∙ joined)
]

on_tick_lem : (c : Buffered) → IsBuffered (on_tick c) × (stream (on_tick c) ≡ stream c)
unfolding on_tick
on_tick_lem c = go (Bool-cases (length c.buf == 0))
  where
    go :
        ((length c.buf == 0) ≡ true) ⊎ ((length c.buf == 0) ≡ false)
        → IsBuffered (on_tick c) × (stream (on_tick c) ≡ stream c)
    go (inl e) = rw (on_tick, e) (ground arith, refl)
    go (inr e) = rw (on_tick, e) (omega arith, append-nil _ ∙ concat-append_one c.written c.buf)

run_events_from :
    (fuel : ℕ) (events : List Event) (c : Buffered)
    → longest events < fuel
    → IsBuffered c
    → (c' : Buffered) × (run_events fuel events c ≡ ok c')
      × IsBuffered c'
      × (stream c' ≡ stream c ++ bytes_of events)
unfolding run_events
run_events_from fuel [] c h v = (c, refl, v, sym (append-nil (stream c)))
run_events_from fuel (tick ∷ events) c h v =
    let (w, e) = on_tick_lem c in
    let (c', f, u, g) = run_events_from fuel events (on_tick c) h w in (c', f, u, rw e at g)
run_events_from fuel (packet p ∷ events) c h v =
    let (d, e, w, s) = on_packet_lem fuel p c (ground arith) v in
    let (c', f, u, g) = run_events_from fuel events d (ground arith) w in
    (c', rw e f, u, g ∙ (rw s (append_assoc (stream c) p (bytes_of events))))

-- For any packets and ticks the goroutine goes on, given fuel for its longest packet; its buffer
-- never holds more than 1024 bytes, and what reaches the connection by a Close then, followed by
-- what is in the buffer, is the packets, byte by byte and in order.
pub run_events-stream :
    (events : List Event)
    → (c : Buffered) × (run_events (longest events + 1) events new_buffered ≡ ok c)
      × (length c.buf ≤ buffer_size)
      × (concat (close c) ++ c.buf ≡ bytes_of events)
run_events-stream events =
    let (c, e, v, s) =
      run_events_from (longest events + 1) events new_buffered (omega arith) (omega arith) in
    (c, e, v, unfold close in s)

-- No tick is among the events.
abbrev pub HasNoTick : List Event → Type 0
HasNoTick [] = Unit
HasNoTick (packet p ∷ events) = HasNoTick events
HasNoTick (tick ∷ events) = ⊥

unwritten :
    (fuel : ℕ) (events : List Event) (c : Buffered)
    → HasNoTick events
    → length c.buf + length (bytes_of events) < buffer_size
    → c.written ≡ []
    → (c' : Buffered) × (run_events fuel events c ≡ ok c') × (close c' ≡ [])
unfolding run_events on_packet close
unwritten fuel [] c h b e = (c, refl, e)
unwritten fuel (tick ∷ events) c h b e = absurd h
unwritten fuel (packet p ∷ events) c h b e =
    let n = length-append p (bytes_of events) in
    let fits : ltb (length c.buf + length p) buffer_size ≡ true = ground (arith, n) in
    let (c', f, g) =
      unwritten fuel events (record c { buf = c.buf ++ p }) h
        (ground (arith, n, length-append c.buf p)) e in
    (c', rw (on_packet, fits) f, g)

-- Where fewer than 1024 bytes come in packets before the first tick, nothing has reached the
-- connection by a Close then.
run_events-lost :
    (fuel : ℕ) (events : List Event)
    → HasNoTick events
    → length (bytes_of events) < buffer_size
    → (c : Buffered) × (run_events fuel events new_buffered ≡ ok c) × (close c ≡ [])
run_events-lost fuel events h b = unwritten fuel events new_buffered h (omega arith) refl
