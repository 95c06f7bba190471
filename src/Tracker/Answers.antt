-- ===== src/Tracker/Answers.antt =====
-- The addresses of an answer: those of IPv6 are all read, of the others at most every sixth slot is.
use rakoshare.Base.{
  ℕ, zero, suc, ◌+◌, ◌*◌, ◌/◌, ◌≤◌, ◌<◌, ◌≡◌, refl, ◌∙◌, ap, List, [], ◌∷◌, length, take, drop,
  replicate, get_or, set, length-set, length-replicate, get_or-set, get_or-replicate, dec_lt, ◌≢◌,
  arith, ◌==◌, true, false,
}
use rakoshare.Tracker.{Text, TrackerResponse}
use rakoshare.Tracker.Queries.{Http, decode_peers, peer6, decode_peers6, with_peers}

get_or-set_other :
    (xs : List Text) (i j : ℕ) (v : Text) → i ≢ j → get_or (set xs i v) j [] ≡ get_or xs j []
get_or-set_other [] i j v h = refl
get_or-set_other (x ∷ xs) zero zero v h = absurd (h refl)
get_or-set_other (x ∷ xs) zero (suc j) v h = refl
get_or-set_other (x ∷ xs) (suc i) zero v h = refl
get_or-set_other (x ∷ xs) (suc i) (suc j) v h = get_or-set_other xs i j v (λ e. h (ap suc e))

module _ (lib : Http) where
  -- The loop writes only to the slots of the sixths of its indices.
  decode_peers-above :
      (rounds i : ℕ) (raw : List ℕ) (peers : List Text) (j : ℕ)
      → i + rounds ≤ j * 6
      → get_or (decode_peers lib rounds i raw peers) j [] ≡ get_or peers j []
  unfolding decode_peers
  decode_peers-above zero i raw peers j h = refl
  decode_peers-above (suc rounds) i raw peers j h =
      let other : i / 6 ≢ j = omega arith in
      decode_peers-above rounds (i + 1) raw
        (set peers (i / 6) (lib.dotted_port (take 6 (drop (i * 6) raw)))) j (omega arith)
      ∙ get_or-set_other peers (i / 6) j (lib.dotted_port (take 6 (drop (i * 6) raw))) other

  decode_peers6-below :
      (rounds i : ℕ) (raw : List ℕ) (peers : List Text) (j : ℕ)
      → j < i
      → get_or (decode_peers6 lib rounds i raw peers) j [] ≡ get_or peers j []
  unfolding decode_peers6
  decode_peers6-below zero i raw peers j h = refl
  decode_peers6-below (suc rounds) i raw peers j h =
      let other : i ≢ j = omega arith in
      decode_peers6-below rounds (i + 1) raw (set peers i (peer6 lib (take 18 (drop (i * 18) raw))))
        j (omega arith)
      ∙ get_or-set_other peers i j (peer6 lib (take 18 (drop (i * 18) raw))) other

  decode_peers6_lem :
      (rounds i : ℕ) (raw : List ℕ) (peers : List Text) (j : ℕ)
      → i ≤ j
      → j < i + rounds
      → i + rounds ≤ length peers
      → get_or (decode_peers6 lib rounds i raw peers) j [] ≡ peer6 lib (take 18 (drop (j * 18) raw))
  unfolding decode_peers6
  decode_peers6_lem zero i raw peers j a b c = absurd (omega arith)
  decode_peers6_lem (suc rounds) i raw peers j a b c =
      let entry = peer6 lib (take 18 (drop (i * 18) raw)) in
      let size = length-set peers i entry in
      elim (dec_lt i j) [
        | yes lt ↦
            decode_peers6_lem rounds (i + 1) raw (set peers i entry) j (omega arith) (omega arith)
              (omega (arith, size))
        | no ge ↦
            let same : i ≡ j = omega arith in
            let hit : (i == j) ≡ true = ground arith in
            decode_peers6-below rounds (i + 1) raw (set peers i entry) j (omega arith)
            ∙ (get_or-set peers i j entry [] (omega arith) ∙ rw (hit, same) refl)
      ]

  -- Slot `j` of `Peers` is empty where six times `j` is not below the number of the addresses that an
  -- answer has, whereas every address of IPv6 stands in its own slot of `Peers6`.
  pub with_peers_lem :
      (r : TrackerResponse) (j : ℕ)
      → 0 < length r.peers_raw
      → (length r.peers_raw / 6 ≤ j * 6 → get_or (with_peers lib r).peers j [] ≡ [])
        × (j < length r.peers6_raw / 18
            → get_or (with_peers lib r).peers6 j []
              ≡ peer6 lib (take 18 (drop (j * 18) r.peers6_raw)))
  unfolding with_peers
  with_peers_lem r j h =
      let some_peers : (length r.peers_raw == 0) ≡ false = ground arith in
      (
        λ far.
            rw (with_peers, some_peers)
              (decode_peers-above (length r.peers_raw / 6) 0 r.peers_raw
                  (replicate (length r.peers_raw / 6) []) j (omega arith)
                ∙ get_or-replicate {A = Text} (length r.peers_raw / 6) j []),
        λ lt.
            let some_peers6 : (length r.peers6_raw == 0) ≡ false = ground arith in
            rw (with_peers, some_peers6)
              (decode_peers6_lem (length r.peers6_raw / 18) 0 r.peers6_raw
                (replicate (length r.peers6_raw / 18) []) j (omega arith) (omega arith)
                (omega (arith, length-replicate {A = Text} (length r.peers6_raw / 18) []))),
      )
