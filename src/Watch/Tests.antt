-- ===== src/Watch/Tests.antt =====
-- Runs of the watcher, and the theorems at concrete inputs.
use rakoshare.Base.{
  ℕ, ◌^◌, ◌<◌, ◌≡◌, ◌==◌, if◌then◌else◌, refl, List, [], ◌∷◌, ◌++◌, map, length, take, All, true,
  false, none, some, Option, ok,
}
use rakoshare.Files.{name_eq}
use rakoshare.Store.{ext_from}
use rakoshare.Watch.{
  Visit, InfoDict, MetaInfo, initial_watcher, idem, is_counted, create_meta, scan_dir, torrent_walk,
  watch_turn,
}
use rakoshare.Watch.Hashing.{concat}
use rakoshare.Watch.Created.{IsReadable, contents, entries, create_meta-pieces}
use rakoshare.Watch.Turns.{turns_of, watch_turn-announced}

-- A file of three bytes, a part file, and a hidden file.
abbrev note : Visit
note = record {
  path = b'/' ∷ b'n' ∷ [];
  base = b'n' ∷ [];
  parts = (b'n' ∷ []) ∷ [];
  is_regular = true;
  size = 3;
  mod_time = 20;
  content = some (1 ∷ 2 ∷ 3 ∷ []);
  failed = false;
}

abbrev part : Visit
part = record note { path = b'/' ∷ b'n' ∷ b'.' ∷ b'p' ∷ b'a' ∷ b'r' ∷ b't' ∷ []; content = none }

abbrev hidden : Visit
hidden = record note { base = b'.' ∷ b'n' ∷ []; content = none }

counted_note : is_counted note ≡ true
unfolding is_counted name_eq ext_from
counted_note = refl

counted_part : is_counted part ≡ false
unfolding is_counted name_eq ext_from
counted_part = refl

counted_hidden : is_counted hidden ≡ false
unfolding is_counted name_eq ext_from
counted_hidden = refl

abbrev first_bytes : List ℕ → List ℕ
first_bytes bytes = take 2 bytes

abbrev encode : InfoDict → Option (List ℕ)
encode info = some info.pieces

visits-IsReadable : All IsReadable (hidden ∷ note ∷ part ∷ [])
visits-IsReadable = (
  λ e. absurd (cc (e, counted_hidden)),
  (λ e. (refl, 1 ∷ 2 ∷ 3 ∷ [], refl), (λ e. absurd (cc (e, counted_part)), tt)),
)

create_meta-pieces_example :
    (meta : MetaInfo) × (blocks : List (List ℕ)) × (last : List ℕ) × (create_meta first_bytes encode
        (hidden ∷ note ∷ part ∷ [])
      ≡ ok (none, some meta))
    × (meta.info.files ≡ entries (hidden ∷ note ∷ part ∷ []))
    × (concat blocks ++ last ≡ contents (hidden ∷ note ∷ part ∷ []))
    × All (λ (b : List ℕ). length b ≡ 2 ^ 20) blocks
    × (length last < 2 ^ 20)
    × (meta.info.pieces
        ≡ concat (map first_bytes blocks) ++ (if length last == 0 then [] else first_bytes last))
create_meta-pieces_example =
    create_meta-pieces first_bytes encode (hidden ∷ note ∷ part ∷ []) visits-IsReadable
      (λ info. (info.pieces, refl))

-- The file is new at time 10, and not at time 30.
watch_turn-announced_example :
    ((turns_of ((note ∷ [], 30) ∷ []) (some (7 ∷ [])) (initial_watcher 10)).announced ≡ [])
    × (watch_turn
          (note ∷ [])
          40
          (some (7 ∷ []))
          (turns_of ((note ∷ [], 30) ∷ []) (some (7 ∷ [])) (initial_watcher 10))
        ≡ record {
          previous = idem;
          current = idem;
          compare_time = 40;
          announced = [] ++ ((7 ∷ []) ∷ []);
        })
    × ((turns_of ((note ∷ [], 50) ∷ (note ∷ [], 60) ∷ []) (some (8 ∷ [])) (
          watch_turn
            (note ∷ [])
            40
            (some (7 ∷ []))
            (turns_of ((note ∷ [], 30) ∷ []) (some (7 ∷ [])) (initial_watcher 10)))).announced
        ≡ [] ++ ((7 ∷ []) ∷ []))
watch_turn-announced_example =
    watch_turn-announced (note ∷ []) (note ∷ []) 30 40 [] ((note ∷ [], 50) ∷ (note ∷ [], 60) ∷ [])
      (7 ∷ []) (some (8 ∷ [])) (initial_watcher 10)
      (unfold scan_dir torrent_walk is_counted name_eq ext_from in refl, tt)
      (unfold scan_dir torrent_walk is_counted name_eq ext_from in refl)
      (unfold scan_dir torrent_walk is_counted name_eq ext_from in (refl, (refl, tt)))
