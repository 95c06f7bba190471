-- ===== src/Pieces/Slices.antt =====
-- The sums of single pieces among all sums, and what `checkPiece` compares.
use rakoshare.Base.{
  ℕ, ◌+◌, ◌*◌, ◌/◌, ◌%◌, ◌<◌, ◌≡◌, refl, sym, ap, ◌∙◌, List, length, take, drop, get_or_ext,
  get_or-take, get_or-drop, replicate, length-replicate, length-take, length-drop, arith, ltb,
  ltb-eq-false, true, false, none, some, Option,
}
use rakoshare.Files.{Disk, FileStore, ReadResult}
use rakoshare.Files.Flat.{IsLaid, IsBacked, flat, part, padded}
use rakoshare.Files.Read.{read_at-flat}
use rakoshare.Pieces.{
  sum_size, num_pieces, read_piece, compute_sums, compute_piece_sum, check_piece, check_equal,
}
use rakoshare.Pieces.Integrity.{read_size}
use rakoshare.Pieces.Sums.{AllBelow, has_index, length-merge, compute_sums-piece}

-- The bytes of the sum of a piece.
abbrev pub sum_of : List ℕ → ℕ → List ℕ
sum_of sums i = take sum_size (drop (i * sum_size) sums)

pub length-sum_of :
    (sums : List ℕ) (n i : ℕ)
    → length sums ≡ n * sum_size
    → i < n
    → length (sum_of sums i) ≡ sum_size
length-sum_of sums n i e lt =
    omega (arith, length-take sum_size (drop (i * sum_size) sums), length-drop (i * sum_size) sums)

module _ (sha1 : List ℕ → List ℕ) (hash : (piece : List ℕ) → length (sha1 piece) ≡ sum_size)
    (d : Disk) (fs : FileStore) (total piece_length : ℕ) (lay : IsLaid 0 fs) (back : IsBacked d fs)
    (arriving : List ℕ) (below : AllBelow (num_pieces total piece_length) arriving)
    (every : (i : ℕ) → i < num_pieces total piece_length → has_index i arriving ≡ true) where
  abbrev pub sums : List ℕ
  sums = compute_sums sha1 d fs total piece_length arriving

  pub length-sums : length sums ≡ num_pieces total piece_length * sum_size
  unfolding compute_sums
  length-sums =
      length-merge (λ i. sha1 (read_piece d fs total piece_length i))
        (num_pieces total piece_length) (λ i. hash _) arriving
        (replicate (sum_size * num_pieces total piece_length) 0) below
        (length-replicate {A = ℕ} (sum_size * num_pieces total piece_length) 0)
      ∙ omega arith

  sum_of-sums :
      (i : ℕ)
      → i < num_pieces total piece_length
      → sum_of sums i ≡ sha1 (read_piece d fs total piece_length i)
  sum_of-sums i lt =
      let size = length-sum_of sums (num_pieces total piece_length) i length-sums lt in
      get_or_ext 0 (sum_of sums i) (sha1 (read_piece d fs total piece_length i))
        (size ∙ sym (hash _))
        λ k h.
          let at : (i * sum_size + k) / sum_size ≡ i = omega (arith, size) in
          let place : (i * sum_size + k) % sum_size ≡ k = omega (arith, size) in
          get_or-take sum_size k (drop (i * sum_size) sums) (omega (arith, size))
          ∙ (get_or-drop (i * sum_size) k sums
              ∙ rw (at, place) at
                  (compute_sums-piece sha1 d fs total piece_length arriving (i * sum_size + k) hash
                    below every (omega (arith, size))))

  -- A check of a piece on a store of the same bytes compares the sums.
  pub check_piece-sum_of :
      (d' : Disk) (fs' : FileStore) (ref : List ℕ) (i : ℕ)
      → IsLaid 0 fs'
      → IsBacked d' fs'
      → flat d' fs' ≡ flat d fs
      → length ref ≡ num_pieces total piece_length * sum_size
      → i < num_pieces total piece_length
      → check_piece sha1 d' fs' total piece_length ref i
        ≡ check_equal (sum_of ref i) (sum_of sums i)
  unfolding check_piece compute_piece_sum read_piece
  check_piece-sum_of d' fs' ref i laid' backed' same e lt =
      let buffer : List ℕ = replicate (read_size total piece_length i) 0 in
      let enough : ltb (length ref) (i * sum_size + sum_size) ≡ false =
        ltb-eq-false _ _ (omega arith) in
      let sum : compute_piece_sum sha1 d' fs' total piece_length i
          ≡ some (
              sha1
                (padded (part (flat d' fs') (i * piece_length) (length buffer)) (length buffer))) =
        ap
          (λ (r : ReadResult). elim r.error as (λ x. Option (List ℕ)) [
            | some e ↦ none
            | none ↦ some (sha1 r.buffer)
          ])
          (read_at-flat d' fs' buffer (i * piece_length) laid' backed') in
      let read : read_piece d fs total piece_length i
          ≡ padded (part (flat d fs) (i * piece_length) (length buffer)) (length buffer) =
        ap (λ (r : ReadResult). r.buffer) (read_at-flat d fs buffer (i * piece_length) lay back) in
      rw (check_piece, sum, enough, sum_of-sums i lt, read, same) refl
