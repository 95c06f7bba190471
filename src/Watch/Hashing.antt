-- ===== src/Watch/Hashing.antt =====
-- The sums of a torrent that is made: those of the blocks of its files, one after the other.
use rakoshare.Base.{
  ℕ, zero, suc, ◌+◌, ◌-◌, ◌≤◌, ◌<◌, ◌≡◌, refl, sym, ap, subst, ◌∙◌, List, [], ◌∷◌, ◌++◌, map,
  append-nil, append_assoc, length, take, drop, length-take, length-drop, length-append,
  take-eq_of_le, take-append-drop, arith, ltb-eq-false, lt→ltb, ◌==◌, false, dec_lt, ok, All,
}
use rakoshare.Watch.{BlockHasher, new_block_hasher, copy_n, flush, read_from}

abbrev pub concat : List (List ℕ) → List ℕ
concat [] = []
concat (xs ∷ lists) = xs ++ concat lists

concat-append : (a b : List (List ℕ)) → concat (a ++ b) ≡ concat a ++ concat b
concat-append [] b = refl
concat-append (xs ∷ a) b = rw (concat-append a b) (sym (append_assoc xs (concat a) (concat b)))

map-append : (f : List ℕ → List ℕ) (a b : List (List ℕ)) → map f (a ++ b) ≡ map f a ++ map f b
map-append f [] b = refl
map-append f (x ∷ a) b = ap (λ (r : List (List ℕ)). f x ∷ r) (map-append f a b)

All-append : (P : List ℕ → Type 0) (a b : List (List ℕ)) → All P a → All P b → All P (a ++ b)
All-append P [] b h k = k
All-append P (x ∷ a) b (p, h) k = (p, All-append P a b h k)

module _ (sha1 : List ℕ → List ℕ) (n : ℕ) (positive : 0 < n) where
  -- The stream that a hasher has read is whole blocks of `n` bytes, of which it has the sums, and then
  -- fewer than `n` bytes.
  pub record IsHashed (stream : List ℕ) (h : BlockHasher) : Type 0 where
    pub blocks : List (List ℕ)
    pub whole : concat blocks ++ h.buffered ≡ stream
    pub sizes : All (λ (b : List ℕ). length b ≡ n) blocks
    pub sums : h.pieces ≡ concat (map sha1 blocks)
    pub left : h.left + length h.buffered ≡ n
    pub short : 0 < h.left
    pub size : h.block_size ≡ n

  pub new_block_hasher-IsHashed : IsHashed [] (new_block_hasher n)
  new_block_hasher-IsHashed = record {
    blocks = [];
    whole = refl;
    sizes = tt;
    sums = refl;
    left = omega arith;
    short = positive;
    size = refl;
  }

  -- A block that becomes full is hashed.
  full :
      (stream bytes : List ℕ) (h : BlockHasher)
      → IsHashed stream h
      → h.left ≤ length bytes
      → IsHashed (stream ++ take h.left bytes) (flush sha1 (copy_n bytes h).0)
  unfolding flush copy_n
  full stream bytes h v enough =
      let block = h.buffered ++ take h.left bytes in
      let none_left : h.left - length bytes ≡ 0 = omega arith in
      let size : length block ≡ n =
        omega
          (arith, length-append h.buffered (take h.left bytes), length-take h.left bytes, v.left) in
      let joined : concat (v.blocks ++ (block ∷ [])) ++ [] ≡ stream ++ take h.left bytes =
        append-nil _
        ∙ (concat-append v.blocks (block ∷ [])
            ∙ (ap (λ (r : List ℕ). concat v.blocks ++ r) (append-nil block)
                ∙ (sym (append_assoc (concat v.blocks) h.buffered (take h.left bytes))
                    ∙ ap (λ (r : List ℕ). r ++ take h.left bytes) v.whole))) in
      let sums : h.pieces ++ sha1 block ≡ concat (map sha1 (v.blocks ++ (block ∷ []))) =
        ap (λ (r : List ℕ). r ++ sha1 block) v.sums
        ∙ (ap (λ (r : List ℕ). concat (map sha1 v.blocks) ++ r) (sym (append-nil (sha1 block)))
            ∙ (sym (concat-append (map sha1 v.blocks) (sha1 block ∷ []))
                ∙ ap concat (sym (map-append sha1 v.blocks (block ∷ []))))) in
      rw none_left (record {
        blocks = v.blocks ++ (block ∷ []);
        whole = joined;
        sizes = All-append (λ b. length b ≡ n) v.blocks (block ∷ []) v.sizes (size, tt);
        sums = sums;
        left = omega (arith, v.size);
        short = omega (arith, v.size, positive);
        size = v.size;
      })

  -- What is read does not fill the block.
  partial :
      (stream bytes : List ℕ) (h : BlockHasher)
      → IsHashed stream h
      → length bytes < h.left
      → IsHashed (stream ++ bytes) (flush sha1 (copy_n bytes h).0)
  unfolding flush copy_n
  partial stream bytes h v few =
      let some_left : (h.left - length bytes == 0) ≡ false = ground arith in
      let all = take-eq_of_le h.left bytes (omega arith) in
      rw some_left (record {
        blocks = v.blocks;
        whole =
            ap (λ (r : List ℕ). concat v.blocks ++ (h.buffered ++ r)) all
            ∙ (sym (append_assoc (concat v.blocks) h.buffered bytes)
                ∙ ap (λ (r : List ℕ). r ++ bytes) v.whole);
        sizes = v.sizes;
        sums = v.sums;
        left =
            omega (
              arith,
              v.left,
              length-append h.buffered (take h.left bytes),
              length-take h.left bytes,
            );
        short = omega arith;
        size = v.size;
      })

  pub read_from-IsHashed :
      (fuel : ℕ) (stream bytes : List ℕ) (h : BlockHasher)
      → IsHashed stream h
      → length bytes < fuel
      → (h' : BlockHasher) × (read_from sha1 fuel bytes h ≡ ok h') × IsHashed (stream ++ bytes) h'
  unfolding read_from copy_n
  read_from-IsHashed zero stream bytes h v lt = absurd (omega arith)
  read_from-IsHashed (suc fuel) stream bytes h v lt =
      let open_block = lt→ltb 0 h.left v.short in
      elim (dec_lt (length bytes) h.left) [
        | yes few ↦ (
          flush sha1 (copy_n bytes h).0,
          rw (open_block, lt→ltb (length bytes) h.left few) refl,
          partial stream bytes h v few,
        )
        | no enough ↦
            let next = full stream bytes h v (omega arith) in
            let (h', e, v') =
              read_from-IsHashed fuel (stream ++ take h.left bytes) (drop h.left bytes)
                (flush sha1 (copy_n bytes h).0) next
                (omega (arith, length-drop h.left bytes, v.short)) in
            (
              h',
              rw (open_block, ltb-eq-false (length bytes) h.left (omega arith)) e,
              subst (λ (s : List ℕ). IsHashed s h')
                  (append_assoc stream (take h.left bytes) (drop h.left bytes)
                    ∙ ap (λ (r : List ℕ). stream ++ r) (take-append-drop h.left bytes))
                  v',
            )
      ]
