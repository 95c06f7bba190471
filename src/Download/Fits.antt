-- ===== src/Download/Fits.antt =====
-- What the tests of a received block let pass.
use rakoshare.Base.{
  ◌+◌, ◌-◌, ◌*◌, ◌≤◌, ◌<◌, ◌≡◌, length, arith, ltb, leb, ltb→lt, Bool, true, false, not, Bool-cases,
  Option-cases, inl, inr, Option, none, some, ok, Ensures, Ensures-if,
}
use rakoshare.Bitset.{test, is_set, in_range, is_within_limits}
use rakoshare.Bitset.Valid.{is_set-test}
use rakoshare.Peer.{PeerState, Message}
use rakoshare.Requesting.{Session}
use rakoshare.Serving.{Refusal, index_of, begin_of}
use rakoshare.Download.{check_block}

-- A block passes the tests only of a piece that exists and is missing, and within its length.
abbrev pub Fits : Session → Message → Option Refusal × Bool → Type 0
Fits t msg r =
    r.1 ≡ true
    → (index_of msg < t.piece_set.n)
      × (test t.piece_set (index_of msg) ≡ false)
      × (begin_of msg + (length msg - 9) ≤ t.piece_length)

pub check_block-Fits :
    (t : Session) (p : PeerState) (msg : Message) → Ensures (Fits t msg) (check_block t p msg)
unfolding check_block is_set in_range
check_block-Fits t p msg =
    let index = index_of msg in
    let P = Fits t msg in
    elim (Bool-cases (ltb (length msg) 9)) [
      | inl a ↦ rw (check_block, a) (λ e. cc)
      | inr a ↦ elim (Option-cases p.have) [
        | inl f ↦ rw (check_block, a, f) tt
        | inr (have, f) ↦
            rw (check_block, a, f)
              (Ensures-if P (not (is_within_limits have index))
                (ok (some Refusal.piece_out_of_range, false)) _ (λ e. cc)
                (elim (Bool-cases (ltb index t.piece_set.n)) [
                  | inr n ↦ rw (is_set, in_range, n) tt
                  | inl n ↦
                      let lt : index < t.piece_set.n = ltb→lt index t.piece_set.n n in
                      rw (is_set-test t.piece_set index lt)
                        (elim (Bool-cases (test t.piece_set index)) [
                          | inl c ↦ rw c (λ e. cc)
                          | inr c ↦ rw c (
                              Ensures-if P (leb t.piece_length (begin_of msg))
                                (ok (some Refusal.begin_out_of_range, false)) _ (λ e. cc)
                                (elim (Bool-cases
                                  (ltb t.piece_length (begin_of msg + (length msg - 9)))) [
                                    | inl d ↦ rw d (λ e. cc)
                                    | inr d ↦ rw d (
                                        Ensures-if P (ltb (128 * 1024) (length msg - 9))
                                          (ok (some Refusal.block_too_large, false))
                                          (ok (none, true)) (λ e. cc) (λ e. (lt, c, ground arith)))
                                  ]))
                        ])
                ]))
      ]
    ]
