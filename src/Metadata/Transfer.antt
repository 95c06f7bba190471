-- ===== src/Metadata/Transfer.antt =====
-- A dictionary that one session serves is put together by another.
use rakoshare.Base.{
  ℕ, zero, suc, ◌+◌, ◌-◌, ◌*◌, ◌/◌, ◌%◌, ◌≤◌, ◌<◌, ◌≡◌, ◌≢◌, refl, sym, ap, ◌∙◌, List, [], ◌∷◌,
  ◌++◌, min, length, take, drop, replicate, set, length-take, length-drop, length-append,
  length-replicate, take-append-drop, drop-append, drop-eq_of_le, arith, ltb, leb, ltb-eq-false,
  ◌==◌, true, false, Option, none, some, ℤ, pos, ok,
}
use rakoshare.Control.{extension, extension_code, to_byte}
use rakoshare.Metadata.{
  MetadataMessage, Coding, Exchange, MetaPeer, metadata_piece_size, ut_metadata, first_missing,
  concat, is_zero, piece_size, respond, on_metadata_request, after_data, store_piece,
  on_metadata_data, do_metadata,
}

abbrev pub slice : List ℕ → ℕ → List ℕ
slice raw k = take metadata_piece_size (drop (k * metadata_piece_size) raw)

abbrev pub slices : List ℕ → ℕ → ℕ → List (List ℕ)
slices raw from zero = []
slices raw from (suc k) = slice raw from ∷ slices raw (from + 1) k

-- The first `k` pieces are there, and the `m` others are missing.
abbrev pub gathered : List ℕ → ℕ → ℕ → ℕ → List (List ℕ)
gathered raw from k m = slices raw from k ++ replicate m []

length-slice :
    (raw : List ℕ) (k : ℕ)
    → length (slice raw k) ≡ min metadata_piece_size (length raw - k * metadata_piece_size)
length-slice raw k = omega (
  arith,
  length-take metadata_piece_size (drop (k * metadata_piece_size) raw),
  length-drop (k * metadata_piece_size) raw,
)

length-slices : (raw : List ℕ) (from k : ℕ) → length (slices raw from k) ≡ k
length-slices raw from zero = refl
length-slices raw from (suc k) = ap suc (length-slices raw (from + 1) k)

length-gathered : (raw : List ℕ) (from k m : ℕ) → length (gathered raw from k m) ≡ k + m
length-gathered raw from k m = omega (
  arith,
  length-append (slices raw from k) (replicate m []),
  length-slices raw from k,
  length-replicate {A = List ℕ} m [],
)

set-gathered :
    (raw : List ℕ) (from k m : ℕ)
    → set (gathered raw from k (suc m)) k (slice raw (from + k)) ≡ gathered raw from (suc k) m
set-gathered raw from zero m = let e : from + 0 ≡ from = omega arith in rw e refl
set-gathered raw from (suc k) m =
    let e : from + suc k ≡ from + 1 + k = omega arith in
    rw e (ap (λ (r : List (List ℕ)). slice raw from ∷ r) (set-gathered raw (from + 1) k m))

first_missing-some :
    (i : ℕ) (piece : List ℕ) (pieces : List (List ℕ))
    → 0 < length piece
    → first_missing i (piece ∷ pieces) ≡ first_missing (i + 1) pieces
first_missing-some i [] pieces h = absurd (omega arith)
first_missing-some i (b ∷ piece) pieces h = refl

-- The first piece that is missing is the one after those that are there.
pub first_missing-gathered :
    (raw : List ℕ) (from k m i : ℕ)
    → (from + k) * metadata_piece_size < length raw + metadata_piece_size
    → first_missing i (gathered raw from k (suc m)) ≡ some (i + k)
first_missing-gathered raw from zero m i h = let e : i + 0 ≡ i = omega arith in rw e refl
first_missing-gathered raw from (suc k) m i h =
    let e : i + suc k ≡ i + 1 + k = omega arith in
    first_missing-some i (slice raw from) (gathered raw (from + 1) k (suc m))
      (omega (arith, length-slice raw from))
    ∙ rw e (first_missing-gathered raw (from + 1) k m (i + 1) (omega arith))

pub first_missing-slices :
    (raw : List ℕ) (from k i : ℕ)
    → (from + k) * metadata_piece_size < length raw + metadata_piece_size
    → first_missing i (gathered raw from k 0) ≡ none
first_missing-slices raw from zero i h = refl
first_missing-slices raw from (suc k) i h =
    first_missing-some i (slice raw from) (gathered raw (from + 1) k 0)
      (omega (arith, length-slice raw from))
    ∙ first_missing-slices raw (from + 1) k (i + 1) (omega arith)

drop-drop : (a b : ℕ) (xs : List ℕ) → drop b (drop a xs) ≡ drop (a + b) xs
drop-drop zero b xs = let e : 0 + b ≡ b = omega arith in rw e refl
drop-drop (suc a) b [] =
    drop-eq_of_le {A = ℕ} b [] (omega arith)
    ∙ sym (drop-eq_of_le {A = ℕ} (suc a + b) [] (omega arith))
drop-drop (suc a) b (x ∷ xs) =
    let e : suc a + b ≡ suc (a + b) = omega arith in rw e (drop-drop a b xs)

-- The pieces from one on are the rest of the dictionary.
pub concat-slices :
    (raw : List ℕ) (from k : ℕ)
    → length raw ≤ (from + k) * metadata_piece_size
    → concat (gathered raw from k 0) ≡ drop (from * metadata_piece_size) raw
concat-slices raw from zero h = sym (drop-eq_of_le (from * metadata_piece_size) raw (omega arith))
concat-slices raw from (suc k) h =
    let e : (from + 1) * metadata_piece_size ≡ from * metadata_piece_size + metadata_piece_size =
      omega arith in
    ap (λ (r : List ℕ). slice raw from ++ r)
      (concat-slices raw (from + 1) k (omega arith)
        ∙ (ap (λ (n : ℕ). drop n raw) e
            ∙ sym (drop-drop (from * metadata_piece_size) metadata_piece_size raw)))
    ∙ take-append-drop metadata_piece_size (drop (from * metadata_piece_size) raw)

-- The length of a piece by the total size.
piece_size-slice :
    (raw : List ℕ) (k m : ℕ)
    → length raw / metadata_piece_size ≡ k + m
    → piece_size k (k + suc m) (pos (length raw)) ≡ some (length (slice raw k))
piece_size-slice raw k zero h =
    let last : (k + 1 == k + 1) ≡ true = ground arith in
    rw last (ap some (omega (arith, length-slice raw k)))
piece_size-slice raw k (suc m) h =
    let inner : (k + 1 == k + suc (suc m)) ≡ false = ground arith in
    rw inner (ap some (omega (arith, length-slice raw k)))

-- The end of a message is the piece that it carries.
tail-slice :
    (bytes piece : List ℕ) → drop (length (bytes ++ piece) - length piece) (bytes ++ piece) ≡ piece
tail-slice bytes piece =
    let e : length (bytes ++ piece) - length piece ≡ length bytes =
      omega (arith, length-append bytes piece) in
    let z : length bytes - length bytes ≡ 0 = omega arith in
    rw e (
      drop-append (length bytes) bytes piece
      ∙ rw (z, drop-eq_of_le (length bytes) bytes (omega arith)) refl)

-- What the program relies on of bencode: what is encoded is decoded, whatever follows it.
abbrev pub IsCoding : Coding → Type 0
IsCoding c =
    (message : MetadataMessage)
    → (bytes : List ℕ) × (c.encode message ≡ some bytes)
      × ((more : List ℕ) → c.decode (bytes ++ more) ≡ some message)

is_zero-pos : (n : ℕ) → 0 < n → is_zero (pos n) ≡ false
is_zero-pos zero h = absurd (omega arith)
is_zero-pos (suc n) h = refl

-- A session that serves the dictionary, and one that gathers it from a peer with the first `k` pieces there.
abbrev pub gatherer : Coding → List ℕ → Exchange → ℕ → ℕ → Exchange
gatherer c raw x k m = record x {
  have_torrent = false;
  pieces = gathered raw 0 k m;
  info_hash = c.sha1 raw;
}

module _ (c : Coding) (v : IsCoding c) (x y : Exchange) (p q : MetaPeer) (code : ℤ) (k m : ℕ)
    (serves : x.have_torrent ≡ true)
    (understands : extension_code ut_metadata p.their_extensions ≡ some code)
    (count : length x.raw_info / metadata_piece_size ≡ k + m)
    (rest : length x.raw_info % metadata_piece_size ≢ 0) where
  -- The request of a piece that exists is answered.
  pub on_metadata_request-slice :
      (body : List ℕ) × (on_metadata_request c (pos k) x p
        ≡ ok (record p {
          sent = p.sent ++ ((extension ∷ (to_byte code ∷ (body ++ slice x.raw_info k))) ∷ []);
        }))
      × ((more : List ℕ)
          → c.decode (body ++ more)
            ≡ some
                (record { msg_type = pos 1; piece = pos k; total_size = pos (length x.raw_info) }))
  unfolding on_metadata_request respond
  on_metadata_request-slice =
      let (body, e, f) =
        v (record { msg_type = pos 1; piece = pos k; total_size = pos (length x.raw_info) }) in
      let inside : leb (length x.raw_info) (k * metadata_piece_size) ≡ false = ground arith in
      (body, rw (on_metadata_request, serves, inside, understands, respond, e) refl, f)

  -- The answer is stored at its place.
  pub do_metadata-stored :
      (body : List ℕ)
      → ((more : List ℕ)
          → c.decode (body ++ more)
            ≡ some
                (record { msg_type = pos 1; piece = pos k; total_size = pos (length x.raw_info) }))
      → do_metadata c (body ++ slice x.raw_info k) (gatherer c x.raw_info y k (suc m)) q
        ≡ after_data c (gatherer c x.raw_info y (suc k) m) q
  unfolding do_metadata on_metadata_data store_piece
  do_metadata-stored body f =
      let raw = x.raw_info in
      let msg = body ++ slice raw k in
      let l = length-gathered raw 0 k (suc m) in
      let here : 0 + k ≡ k = omega arith in
      let total : is_zero (pos (length raw)) ≡ false = is_zero-pos (length raw) (ground arith) in
      let inside : leb (length (gathered raw 0 k (suc m))) k ≡ false = ground (arith, l) in
      let size =
        ap (λ (n : ℕ). piece_size k n (pos (length raw))) l ∙ piece_size-slice raw k m count in
      let whole : ltb (length msg) (length (slice raw k)) ≡ false =
        ltb-eq-false _ _ (omega (arith, length-append body (slice raw k))) in
      let placed : set (gathered raw 0 k (suc m)) k (slice raw k) ≡ gathered raw 0 (suc k) m =
        ap (λ (n : ℕ). set (gathered raw 0 k (suc m)) k (slice raw n)) (sym here)
        ∙ set-gathered raw 0 k m in
      let kept : store_piece c k (some (length (slice raw k))) msg (gatherer c raw y k (suc m))
          ≡ ok (gatherer c raw y (suc k) m) =
        rw (store_piece, whole, tail-slice body (slice raw k))
          (ap
            (λ (ps : List (List ℕ)).
              ok (record y { have_torrent = false; pieces = ps; info_hash = c.sha1 raw }))
            placed) in
      let stored =
        ap (λ (s : Option ℕ). store_piece c k s msg (gatherer c raw y k (suc m))) size ∙ kept in
      rw (do_metadata, f (slice raw k), on_metadata_data, total, inside, stored) refl
