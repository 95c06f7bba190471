-- ===== src/Peer/Queue.antt =====
-- `queueingWriter` is a queue: what it delivers is what it received, in order.
use rakoshare.Base.{
  ℕ, zero, suc, ◌+◌, ◌-◌, ◌≤◌, ◌<◌, ◌≡◌, refl, sym, ap, false, List, [], ◌∷◌, ◌++◌, map, arith,
  append_assoc, ◌⊎◌, inl, inr, Option, none, some, ◌==◌,
}
use rakoshare.Peer.{
  Message, Queueing, initial_queue, update, Turn, Turns, receive, deliver, start, turn,
}

-- The entries of the map at `count` keys from `key` on.
abbrev pub entries : (ℕ → Option Message) → ℕ → ℕ → List (Option Message)
entries queue key zero = []
entries queue key (suc count) = queue key ∷ entries queue (key + 1) count

-- The messages that wait.
abbrev pub waiting : Queueing → List (Option Message)
waiting s = entries s.queue s.tail (s.head - s.tail)

-- The tail is not past the head, and what was delivered followed by what waits is what was received.
abbrev pub IsFifo : Queueing → Type 0
IsFifo s = (s.tail ≤ s.head) × (map some s.received ≡ s.delivered ++ waiting s)

map-append : {A B : Type 0} (f : A → B) (xs ys : List A) → map f (xs ++ ys) ≡ map f xs ++ map f ys
map-append f [] ys = refl
map-append f (x ∷ xs) ys = ap (◌∷◌ (f x)) (map-append f xs ys)

module _ (queue : ℕ → Option Message) (key : ℕ) (m : Option Message) where
  entries_outside :
      (from count : ℕ)
      → (from + count ≤ key) ⊎ (key < from)
      → entries (update queue key m) from count ≡ entries queue from count
  unfolding update
  entries_outside from zero h = refl
  entries_outside from (suc count) h =
      let off : (from == key) ≡ false = ground arith in
      let at : update queue key m from ≡ queue from = rw (update, off) in
      rw (at, entries_outside (from + 1) count (ground arith))

entries_next :
    (queue : ℕ → Option Message) (from count : ℕ)
    → entries queue from (count + 1) ≡ entries queue from count ++ (queue (from + count) ∷ [])
entries_next queue from zero = let e : from + 0 ≡ from = omega arith in rw e
entries_next queue from (suc count) =
    let e : suc count + 1 ≡ suc (count + 1) = omega arith in
    let f : from + suc count ≡ from + 1 + count = omega arith in
    rw (e, f, entries_next queue (from + 1) count)

entries_pushed :
    (queue : ℕ → Option Message) (from count : ℕ) (m : Message)
    → entries (update queue (from + count) (some m)) from (count + 1)
      ≡ entries queue from count ++ (some m ∷ [])
entries_pushed queue from count m =
    let at : update queue (from + count) (some m) (from + count) ≡ some m =
      unfold update in ground arith in
    rw (
      entries_next (update queue (from + count) (some m)) from count,
      at,
      entries_outside queue (from + count) (some m) from count (inl (omega arith)),
    )

Turn-IsFifo : (s t : Queueing) → Turn s t → IsFifo s → IsFifo t
Turn-IsFifo s t (receive m) (le, e) =
    let n : s.head + 1 - s.tail ≡ s.head - s.tail + 1 = omega arith in
    let h : s.tail + (s.head - s.tail) ≡ s.head = omega arith in
    let pushed = entries_pushed s.queue s.tail (s.head - s.tail) m in
    let p : entries (update s.queue s.head (some m)) s.tail (s.head - s.tail + 1)
        ≡ waiting s ++ (some m ∷ []) =
      rw h at pushed in
    (
      omega arith,
      rw (n, p, map-append some s.received (m ∷ []), e)
          (append_assoc s.delivered (waiting s) (some m ∷ [])),
    )
Turn-IsFifo s t (deliver ne) (le, e) =
    let lt : s.tail < s.head = ground arith in
    let n : s.head - s.tail ≡ suc (s.head - (s.tail + 1)) = omega arith in
    let w : waiting s ≡ s.queue s.tail ∷ entries s.queue (s.tail + 1) (s.head - (s.tail + 1)) =
      rw n in
    let later =
      entries_outside s.queue s.tail none (s.tail + 1) (s.head - (s.tail + 1))
        (inr (omega arith)) in
    (omega arith, rw (later, e, w) (sym (append_assoc s.delivered (s.queue s.tail ∷ []) _)))

-- In every state that `queueingWriter` reaches, what it has delivered followed by what waits in its
-- map is what it has received, message by message and in order; the nil message of an absent key is
-- never delivered.
pub Turns-IsFifo : (s : Queueing) → Turns initial_queue s → IsFifo s
Turns-IsFifo s start = (omega arith, refl)
Turns-IsFifo s (turn t _ before last) = Turn-IsFifo t s last (Turns-IsFifo t before)
