-- ===== src/Loading/Intact.antt =====
-- A session that loads a torrent knows exactly the pieces that it has.
use rakoshare.Base.{
  ℕ, ◌+◌, ◌-◌, ◌*◌, ◌≤◌, ◌<◌, ◌≡◌, refl, ap, ◌∙◌, ◌⊎◌, inl, inr, List, [], ◌∷◌, length, arith, ◌==◌,
  if◌then◌else◌, Bool, true, false, none, pos, ok, dec_lt,
}
use rakoshare.Bitset.{test}
use rakoshare.Bitset.Valid.{is_set-test}
use rakoshare.Files.{FileName, Disk, FileStore}
use rakoshare.Files.Flat.{IsLaid, IsBacked, total}
use rakoshare.Store.{new_file_store, cleanup}
use rakoshare.Store.Open.{AreApart, open_files_lem}
use rakoshare.Store.Marked.{IsSpare, IsSpare-IsDistinct}
use rakoshare.Pieces.{Checked, sum_size, num_pieces, check_piece}
use rakoshare.Pieces.Sums.{AllBelow, has_index}
use rakoshare.Pieces.Slices.{check_piece-sum_of}
use rakoshare.Pieces.Verdicts.{check_pieces_lem}
use rakoshare.Peers.{int_eqb}
use rakoshare.Download.{Torrent, minus}
use rakoshare.Download.Integrity.{IsSound, IsIntact}
use rakoshare.Loading.{Dictionary, is_known_encoding, last_length, bytes_left, take_over, load}

-- The session's set holds exactly the pieces that pass `checkPiece`.
abbrev pub IsExact : (List ℕ → List ℕ) → Torrent → Type 0
IsExact sha1 t =
    (i : ℕ)
    → i < t.serving.session.total_pieces
    → check_piece sha1 t.serving.disk t.serving.file_store t.total_size
        t.serving.session.piece_length t.sums i
      ≡ ok (test t.serving.session.piece_set i)

pub IsExact-IsIntact : (sha1 : List ℕ → List ℕ) (t : Torrent) → IsExact sha1 t → IsIntact sha1 t
IsExact-IsIntact sha1 t h i lt m = h i lt ∙ ap ok m

-- The files of a dictionary: those of its list, or the one of its own name.
abbrev pub sources : Dictionary → List (List FileName × ℕ)
sources dict = elim dict.files [ [] ↦ dict.single ∷ [] | f ∷ files ↦ f ∷ files ]

opened_lem :
    (full_path : List FileName → FileName) (d : Disk) (single : List FileName × ℕ)
    (files : List (List FileName × ℕ))
    → AreApart full_path
        (elim files as (λ x. List (List FileName × ℕ)) [ [] ↦ single ∷ [] | f ∷ rest ↦ f ∷ rest ])
    → IsLaid 0 (new_file_store full_path d single files).1
      × IsBacked
          (new_file_store full_path d single files).0
          (new_file_store full_path d single files).1
unfolding new_file_store
opened_lem full_path d single [] h =
    let (laid, backed, sum) = open_files_lem full_path (single ∷ []) d 0 h in (laid, backed)
opened_lem full_path d single (f ∷ files) h =
    let (laid, backed, sum) = open_files_lem full_path (f ∷ files) d 0 h in (laid, backed)

-- Where a piece is bad, some bytes are left.
bytes_left-positive :
    (bad piece_length total : ℕ) (whole : Bool)
    → 0 < piece_length
    → 0 < bad
    → int_eqb (bytes_left bad piece_length (last_length total piece_length) whole) (pos 0) ≡ false
unfolding bytes_left int_eqb last_length
bytes_left-positive bad piece_length total true p b =
    let much : piece_length ≤ bad * piece_length = grind arith in ground (arith, much)
bytes_left-positive bad piece_length total false p b =
    let much : piece_length ≤ bad * piece_length = grind arith in ground (arith, much)

-- The session after `load`, with what the disk holds then.
abbrev taken : Torrent → Checked → Disk → Torrent
taken t c disk = record t {
  serving = record t.serving {
    session = record t.serving.session { piece_set = c.good_bits; total_pieces = c.good + c.bad };
    file_store = c.file_store;
    disk = disk;
  };
  good_pieces = c.good;
}

take_over_lem :
    (t : Torrent) (c : Checked)
    → c.good_bits.n ≡ c.good + c.bad
    → 0 < c.good + c.bad
    → 0 < t.serving.session.piece_length
    → t.serving.session.last_piece_length ≡ last_length t.total_size t.serving.session.piece_length
    → (disk : Disk) × (take_over t c ≡ ok (none, true, taken t c disk))
      × ((c.bad ≡ 0) ⊎ (disk ≡ c.disk))
unfolding take_over minus
take_over_lem t c size some_piece p last =
    let before : minus (pos (c.good + c.bad)) 1 ≡ pos (c.good + c.bad - 1) = ground arith in
    let look = is_set-test c.good_bits (c.good + c.bad - 1) (omega (arith, size)) in
    let whole = test c.good_bits (c.good + c.bad - 1) in
    let left =
      bytes_left c.bad t.serving.session.piece_length t.serving.session.last_piece_length whole in
    elim (dec_lt 0 c.bad) [
      | no b ↦ (
        if int_eqb left (pos 0) then cleanup c.disk c.file_store else c.disk,
        rw (take_over, before, look) refl,
        inl (omega arith),
      )
      | yes b ↦
          let more : int_eqb left (pos 0) ≡ false =
            rw last
              (bytes_left-positive c.bad t.serving.session.piece_length t.total_size whole p b) in
          (c.disk, rw (take_over, before, look, more) refl, inr refl)
    ]

-- What opening the files of a dictionary leaves, and the number of its pieces.
abbrev pub opened : (List FileName → FileName) → Dictionary → Torrent → Disk × FileStore × ℕ
opened full_path dict t = new_file_store full_path t.serving.disk dict.single dict.files

abbrev pub piece_count : (List FileName → FileName) → Dictionary → Torrent → ℕ
piece_count full_path dict t = num_pieces (opened full_path dict t).2 dict.piece_length

-- Where the encoding is a known one, the length of a piece is not zero and the torrent has a piece at
-- least, every file has a name of its own, with and without `.part`, a sum has 20 bytes, the metainfo
-- has a sum for each piece, and the sum of every piece arrives in any order, `load` returns with a
-- torrent of all its pieces. Either it has every piece, or the session is sound and its set holds
-- exactly the pieces that pass `checkPiece` on the disk.
pub load-IsExact :
    (sha1 : List ℕ → List ℕ) (full_path : List FileName → FileName) (encoding : FileName)
    (dict : Dictionary) (arriving : List ℕ) (have_torrent : Bool) (t : Torrent)
    → ((piece : List ℕ) → length (sha1 piece) ≡ sum_size)
    → is_known_encoding encoding ≡ true
    → 0 < dict.piece_length
    → AreApart full_path (sources dict)
    → IsSpare (opened full_path dict t).1
    → 0 < piece_count full_path dict t
    → length dict.pieces ≡ piece_count full_path dict t * sum_size
    → AllBelow (piece_count full_path dict t) arriving
    → ((i : ℕ) → i < piece_count full_path dict t → has_index i arriving ≡ true)
    → (t' : Torrent) × (load sha1 full_path encoding dict arriving have_torrent t
        ≡ ok (none, true, t'))
      × (t'.serving.session.total_pieces ≡ piece_count full_path dict t)
      × ((t'.good_pieces ≡ t'.serving.session.total_pieces) ⊎ (IsSound t' × IsExact sha1 t'))
unfolding load
load-IsExact sha1 full_path encoding dict arriving have_torrent t hash known p apart spare
      some_piece e below every =
    let d = (opened full_path dict t).0 in
    let fs = (opened full_path dict t).1 in
    let total = (opened full_path dict t).2 in
    let (laid, backed) = opened_lem full_path t.serving.disk dict.single dict.files apart in
    let (c, run, checked) =
      check_pieces_lem sha1 hash d fs total dict.piece_length laid backed arriving below every
        dict.pieces e spare in
    let t1 : Torrent = record t {
      serving = record t.serving {
        session = record t.serving.session {
          piece_length = dict.piece_length;
          last_piece_length = last_length total dict.piece_length;
        };
        file_store = fs;
        disk = d;
      };
      total_size = total;
      sums = dict.pieces;
    } in
    let (disk, took, which) =
      take_over_lem t1 c (omega (arith, checked.size, checked.count)) (omega (arith, checked.count))
        p refl in
    let nonzero : (dict.piece_length == 0) ≡ false = ground arith in
    (
      taken t1 c disk,
      rw (load, known, nonzero, run) took,
      checked.count,
      elim which [
        | inl none_bad ↦ inl (omega (arith, none_bad))
        | inr same ↦ inr (
            rw same (
              record {
                bits = checked.bits;
                size = omega (arith, checked.size, checked.count);
                positive = p;
                laid = checked.laid;
                backed = checked.backed;
                distinct = IsSpare-IsDistinct c.file_store checked.spare;
                sums = rw checked.count e;
              },
              λ i lt.
                  let below_n : i < num_pieces total dict.piece_length =
                    omega (arith, lt, checked.count) in
                  check_piece-sum_of sha1 hash d fs total dict.piece_length laid backed arriving
                    below every c.disk c.file_store dict.pieces i checked.laid checked.backed
                    checked.bytes e below_n
                  ∙ checked.done i below_n,
            ))
      ],
    )
