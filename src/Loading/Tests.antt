-- ===== src/Loading/Tests.antt =====
-- Runs of loading, and the theorem at a concrete input.
use rakoshare.Base.{
  ℕ, zero, suc, ◌≡◌, ◌<◌, ◌⊎◌, refl, List, [], ◌∷◌, ◌++◌, replicate, length-replicate, get_or,
  arith, if◌then◌else◌, true, false, none, some, ok, pos,
}
use rakoshare.Bitset.{new}
use rakoshare.Files.{FileName, Disk, name_eq, update}
use rakoshare.Store.{new_file_store, open_files, entry_open, need_to_retrieve}
use rakoshare.Download.{Torrent}
use rakoshare.Download.Integrity.{IsSound}
use rakoshare.Store.Marked.{IsSpare}
use rakoshare.Pieces.{num_pieces}
use rakoshare.Pieces.Sums.{has_index}
use rakoshare.Loading.{Dictionary, LoadError, is_known_encoding, load, new_torrent_session, reload}
use rakoshare.Loading.Intact.{IsExact, opened, piece_count, load-IsExact}

-- A sum that is the first byte of a piece, twenty times.
abbrev first_byte : List ℕ → List ℕ
first_byte piece = replicate 20 (get_or piece 0 0)

abbrev last_element : List FileName → FileName
last_element [] = []
last_element (p ∷ path) = p

-- The file `a` of three bytes, of which the second piece is not what the metainfo says.
abbrev one_file : Dictionary
one_file = record {
  piece_length = 2;
  pieces = replicate 20 7 ++ replicate 20 5;
  single = ((b'a' ∷ []) ∷ [], 3);
  files = [];
}

abbrev disk : Disk
disk name = if name_eq name (b'a' ∷ []) then some (7 ∷ 8 ∷ 9 ∷ []) else none

abbrev fresh : Torrent
fresh = record {
  serving = record {
    session = record {
      piece_set = new 0;
      total_pieces = 0;
      piece_length = 0;
      last_piece_length = 0;
      active_pieces = [];
    };
    file_store = [];
    disk = disk;
    uploaded = 0;
  };
  downloaded = 0;
  left = pos 0;
  good_pieces = 0;
  total_size = 0;
  sums = [];
}

unknown_encoding :
    new_torrent_session first_byte last_element false (b'x' ∷ []) one_file [] fresh
    ≡ ok (some LoadError.bad_encoding, false, fresh)
unfolding new_torrent_session name_eq
unknown_encoding = refl

bad_reload :
    reload first_byte last_element (λ info. none) [] [] [] true fresh
    ≡ ok (some LoadError.bad_dictionary, true, fresh)
unfolding reload
bad_reload = refl

both_arrive : (i : ℕ) → i < 2 → has_index i (1 ∷ 0 ∷ []) ≡ true
both_arrive zero h = refl
both_arrive (suc zero) h = refl
both_arrive (suc (suc i)) h = absurd (omega (arith, h))

two_pieces : piece_count last_element one_file fresh ≡ 2
unfolding new_file_store open_files entry_open need_to_retrieve name_eq update num_pieces
two_pieces = refl

one_name : IsSpare (opened last_element one_file fresh).1
unfolding new_file_store open_files entry_open need_to_retrieve name_eq update
one_name = (tt, tt)

load-IsExact_example :
    (t' : Torrent) × (load first_byte last_element [] one_file (1 ∷ 0 ∷ []) false fresh
      ≡ ok (none, true, t'))
    × (t'.serving.session.total_pieces ≡ piece_count last_element one_file fresh)
    × ((t'.good_pieces ≡ t'.serving.session.total_pieces) ⊎ (IsSound t' × IsExact first_byte t'))
load-IsExact_example =
    load-IsExact first_byte last_element [] one_file (1 ∷ 0 ∷ []) false fresh
      (λ piece. length-replicate 20 (get_or piece 0 0)) (unfold is_known_encoding name_eq in refl)
      (omega arith) (tt, tt) one_name (rw two_pieces (omega arith)) (rw two_pieces refl)
      (rw two_pieces (omega arith)) (rw two_pieces both_arrive)
