-- ===== src/Peer/Frames.antt =====
-- The messages that `peerWriter` writes come out of `peerReader`.
use rakoshare.Base.{
  ℕ, zero, suc, ◌+◌, ◌%◌, ◌^◌, ◌≤◌, ◌<◌, ◌≡◌, refl, true, false, List, [], ◌∷◌, ◌++◌, length, take,
  drop, map, arith, All, append_assoc, append-nil, subst, ◌⊎◌, Option, none, some, ok, ◌>>=◌, ltb,
  Bool-cases, inl, inr, take-length-append, drop-length-append, length-append, length-drop,
}
use rakoshare.Peer.{
  Message, max_payload, put_uint32, uint32, frame, write_messages, read_full, read_messages,
}

uint32-put_uint32 : (x : ℕ) → x < 2 ^ 32 → uint32 (put_uint32 x) ≡ x
unfolding uint32 put_uint32
uint32-put_uint32 x h = omega arith

read_full-append : (xs ys : List ℕ) → read_full (length xs) (xs ++ ys) ≡ some (xs, ys)
unfolding read_full
read_full-append xs ys =
    let enough : ltb (length (xs ++ ys)) (length xs) ≡ false =
      ground (arith, length-append xs ys) in
    rw (enough, take-length-append xs ys, drop-length-append xs ys)

-- The reader's limit on the payload of a message.
abbrev pub IsSmall : Message → Type 0
IsSmall msg = length msg ≤ max_payload

module _ (fuel : ℕ) (msg : Message) (rest : List ℕ) where
  size_of_frame :
      length msg < 2 ^ 32
      → read_full 4 (frame msg ++ rest) ≡ some (put_uint32 (length msg), msg ++ rest)
  unfolding frame put_uint32
  size_of_frame h =
      let e : length msg % 2 ^ 32 ≡ length msg = omega arith in
      rw e (read_full-append (put_uint32 (length msg)) (msg ++ rest))

  read_messages-frame :
      IsSmall msg
      → read_messages (suc fuel) (frame msg ++ rest)
        ≡ (read_messages fuel rest >>= λ messages. ok (some msg ∷ messages))
  unfolding read_messages
  read_messages-frame h =
      let e : uint32 (put_uint32 (length msg)) ≡ length msg =
        uint32-put_uint32 (length msg) (omega arith) in
      let f : ltb max_payload (length msg) ≡ false = ground arith in
      rw (read_messages, size_of_frame (omega arith), e, f, e, read_full-append msg rest)

  read_messages-large :
      max_payload < length msg
      → length msg < 2 ^ 32
      → read_messages (suc fuel) (frame msg ++ rest) ≡ ok (none ∷ [])
  unfolding read_messages
  read_messages-large h k =
      let e : uint32 (put_uint32 (length msg)) ≡ length msg = uint32-put_uint32 (length msg) k in
      let f : ltb max_payload (length msg) ≡ true = ground arith in
      rw (read_messages, size_of_frame k, e, f)

-- The reader passes small messages on, and then is where it would be without them.
read_messages-write_messages_append :
    (fuel : ℕ) (msgs : List Message) (rest : List ℕ) (last : List (Option Message))
    → All IsSmall msgs
    → read_messages fuel rest ≡ ok last
    → read_messages (length msgs + fuel) (write_messages msgs ++ rest) ≡ ok (map some msgs ++ last)
unfolding write_messages
read_messages-write_messages_append fuel [] rest last h e =
    let z : 0 + fuel ≡ fuel = omega arith in rw z e
read_messages-write_messages_append fuel (msg ∷ msgs) rest last (h, hs) e =
    let z : length (msg ∷ msgs) + fuel ≡ suc (length msgs + fuel) = omega arith in
    let later = read_messages-write_messages_append fuel msgs rest last hs e in
    rw (
      z,
      append_assoc (frame msg) (write_messages msgs) rest,
      read_messages-frame (length msgs + fuel) msg (write_messages msgs ++ rest) h,
      later,
    )

-- What is written for messages of at most 130 KiB each is read back as those messages in their
-- order, then a nil message for the end of the stream.
pub read_messages-write_messages :
    (msgs : List Message)
    → All IsSmall msgs
    → read_messages (length msgs + 1) (write_messages msgs) ≡ ok (map some msgs ++ (none ∷ []))
unfolding read_messages
read_messages-write_messages msgs h =
    let e : write_messages msgs ++ [] ≡ write_messages msgs = append-nil (write_messages msgs) in
    subst
      (λ (stream : List ℕ).
        read_messages (length msgs + 1) stream ≡ ok (map some msgs ++ (none ∷ [])))
      e (read_messages-write_messages_append 1 msgs [] (none ∷ []) h (unfold read_full in refl))

-- A message of more than 130 KiB ends the reading: the small messages before it are passed on, and
-- nothing that is written after it.
read_messages-large_message :
    (msgs : List Message) (msg : Message) (rest : List ℕ)
    → All IsSmall msgs
    → max_payload < length msg
    → length msg < 2 ^ 32
    → read_messages (length msgs + 1) (write_messages msgs ++ (frame msg ++ rest))
      ≡ ok (map some msgs ++ (none ∷ []))
read_messages-large_message msgs msg rest h large word =
    read_messages-write_messages_append 1 msgs (frame msg ++ rest) (none ∷ []) h
      (read_messages-large 0 msg rest large word)

length-read_full :
    (n : ℕ) (stream : List ℕ)
    → (read_full n stream ≡ none)
      ⊎ ((a : List ℕ) × (b : List ℕ) × (read_full n stream ≡ some (a, b))
          × (length b + n ≡ length stream))
unfolding read_full
length-read_full n stream = elim (Bool-cases (ltb (length stream) n)) [
  | inl e ↦ inl (rw e)
  | inr e ↦ inr (take n stream, drop n stream, rw e, ground (arith, length-drop n stream))
]

-- The reader ends on every stream, within one round more than the stream has bytes.
read_messages-terminates :
    (fuel : ℕ) (stream : List ℕ)
    → length stream < fuel
    → (messages : List (Option Message)) × (read_messages fuel stream ≡ ok messages)
unfolding read_messages
read_messages-terminates zero stream h = absurd (omega arith)
read_messages-terminates (suc fuel) stream h = elim (length-read_full 4 stream) [
  | inl e ↦ (none ∷ [], rw (read_messages, e))
  | inr (size, rest, e, k) ↦ elim (Bool-cases (ltb max_payload (uint32 size))) [
    | inl large ↦ (none ∷ [], rw (read_messages, e, large))
    | inr small ↦ elim (length-read_full (uint32 size) rest) [
      | inl f ↦ (none ∷ [], rw (read_messages, e, small, f))
      | inr (buf, rest', f, k') ↦
          let (messages, ih) = read_messages-terminates fuel rest' (omega arith) in
          (some buf ∷ messages, rw (read_messages, e, small, f, ih))
    ]
  ]
]
