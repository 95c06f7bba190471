-- ===== src/Requesting/Choice.antt =====
-- The piece that `ChoosePiece` picks.
use rakoshare.Base.{
  ℕ, zero, suc, ◌+◌, ◌-◌, ◌≤◌, ◌<◌, ◌≡◌, refl, ◌∙◌, ◌==◌, arith, Bool, true, false, not, ◌&&◌,
  Bool-cases, inl, inr, none, some, ℤ, pos, negsuc, Run, ok, ℕ_discrete, dec_lt,
}
use rakoshare.Bitset.{Bitset, test}
use rakoshare.Bitset.Valid.{is_set-test}
use rakoshare.Peer.{PeerState}
use rakoshare.Requesting.{Session, lookup, peer_has, is_wanted, check_range, choose_piece}

-- Whether the session lacks piece `i`, the peer has it, and it is not active.
abbrev pub wanted : Session → Bitset → ℕ → Bool
wanted t have i =
    not (test t.piece_set i)
    && test have i
    && (elim (lookup i t.active_pieces) [ none ↦ true | some a ↦ false ])

-- The result is a wanted piece from `from` on and below `to`, or -1 and there is none.
abbrev pub IsWantedIn : (ℕ → Bool) → ℕ → ℕ → ℤ → Type 0
IsWantedIn w from to (pos i) = (from ≤ i) × (i < to) × (w i ≡ true)
IsWantedIn w from to (negsuc n) = (i : ℕ) → from ≤ i → i < to → w i ≡ false

is_wanted-wanted :
    (t : Session) (p : PeerState) (have : Bitset) (i : ℕ)
    → p.have ≡ some have
    → i < t.piece_set.n
    → i < have.n
    → is_wanted t p i ≡ ok (wanted t have i)
unfolding is_wanted peer_has
is_wanted-wanted t p have i e h k = elim (Bool-cases (test t.piece_set i)) [
  | inl f ↦ rw (is_set-test t.piece_set i h, f)
  | inr f ↦ elim (Bool-cases (test have i)) [
    | inl g ↦ rw (is_set-test t.piece_set i h, f, e, is_set-test have i k, g)
    | inr g ↦ rw (is_set-test t.piece_set i h, f, e, is_set-test have i k, g)
  ]
]

module _ (w : ℕ → Bool) where
  widen :
      (from to : ℕ) (r : ℤ) → w from ≡ false → IsWantedIn w (from + 1) to r → IsWantedIn w from to r
  widen from to (pos i) e (a, b, c) = (omega arith, b, c)
  widen from to (negsuc n) e nowhere = λ i a b. elim (ℕ_discrete i from) [
    | yes here ↦ rw here e
    | no off ↦ nowhere i (omega arith) b
  ]

  check_range-IsWantedIn :
      (run : ℕ → Run Bool) (rounds from : ℕ)
      → ((i : ℕ) → from ≤ i → i < from + rounds → run i ≡ ok (w i))
      → (r : ℤ) × (check_range rounds run from ≡ ok r) × IsWantedIn w from (from + rounds) r
  unfolding check_range
  check_range-IsWantedIn run zero from h = (negsuc 0, refl, λ i a b. absurd (omega arith))
  check_range-IsWantedIn run (suc rounds) from h = elim (Bool-cases (w from)) [
    | inl e ↦ (pos from, rw (h from (omega arith) (omega arith), e), (omega arith, omega arith, e))
    | inr e ↦
        let (r, f, v) =
          check_range-IsWantedIn run rounds (from + 1) (λ i a b. h i (omega arith) (omega arith)) in
        let n : from + 1 + rounds ≡ from + suc rounds = omega arith in
        let v' : IsWantedIn w (from + 1) (from + suc rounds) r = rw n at v in
        (r, rw (h from (omega arith) (omega arith), e, f), widen from (from + suc rounds) r e v')
  ]

  -- A piece after the start, or one before it where there is none after it.
  later_or_earlier :
      (n start : ℕ) (later earlier : ℤ)
      → start ≤ n
      → IsWantedIn w start n later
      → IsWantedIn w 0 start earlier
      → (r : ℤ) × ((elim later [ pos i ↦ ok (pos i) | negsuc i ↦ ok earlier ]) ≡ ok r)
        × IsWantedIn w 0 n r
  later_or_earlier n start (pos i) earlier h (a, b, c) v = (pos i, refl, (omega arith, b, c))
  later_or_earlier n start (negsuc m) (pos i) h nowhere (a, b, c) =
      (pos i, refl, (a, omega arith, c))
  later_or_earlier n start (negsuc m) (negsuc k) h nowhere nowhere' = (
    negsuc k,
    refl,
    λ i a b. elim (dec_lt i start) [
      | yes before ↦ nowhere' i a before
      | no after ↦ nowhere i (omega arith) b
    ],
  )

choose_piece-check_range :
    (start : ℕ) (t : Session) (p : PeerState) (later earlier : ℤ)
    → (t.total_pieces == 0) ≡ false
    → check_range (t.total_pieces - start) (is_wanted t p) start ≡ ok later
    → check_range start (is_wanted t p) 0 ≡ ok earlier
    → choose_piece start t p ≡ (elim later [ pos i ↦ ok (pos i) | negsuc i ↦ ok earlier ])
unfolding choose_piece
choose_piece-check_range start t p (pos i) earlier e f g = rw (e, f)
choose_piece-check_range start t p (negsuc n) earlier e f g = rw (e, f, g)

-- Where the sets of the session and of the peer have a bit for each of the pieces, and there is a
-- piece, `ChoosePiece` returns, from any start, a piece that the session lacks, the peer has and
-- nobody downloads, or -1 exactly where there is none.
pub choose_piece-IsWantedIn :
    (start : ℕ) (t : Session) (p : PeerState) (have : Bitset)
    → start < t.total_pieces
    → t.piece_set.n ≡ t.total_pieces
    → p.have ≡ some have
    → have.n ≡ t.total_pieces
    → (r : ℤ) × (choose_piece start t p ≡ ok r) × IsWantedIn (wanted t have) 0 t.total_pieces r
choose_piece-IsWantedIn start t p have h n e m =
    let w = wanted t have in
    let run : (i : ℕ) → i < t.total_pieces → is_wanted t p i ≡ ok (w i) =
      λ i k. is_wanted-wanted t p have i e (omega arith) (omega arith) in
    let (later, f, v) =
      check_range-IsWantedIn w (is_wanted t p) (t.total_pieces - start) start
        (λ i a b. run i (omega arith)) in
    let (earlier, g, u) =
      check_range-IsWantedIn w (is_wanted t p) start 0 (λ i a b. run i (omega arith)) in
    let whole : start + (t.total_pieces - start) ≡ t.total_pieces = omega arith in
    let v' : IsWantedIn w start t.total_pieces later = rw whole at v in
    let first : 0 + start ≡ start = omega arith in
    let u' : IsWantedIn w 0 start earlier = rw first at u in
    let some_piece : (t.total_pieces == 0) ≡ false = ground arith in
    let (r, q, x) = later_or_earlier w t.total_pieces start later earlier (omega arith) v' u' in
    (r, choose_piece-check_range start t p later earlier some_piece f g ∙ q, x)
