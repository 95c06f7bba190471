-- ===== src/Watch/Turns.antt =====
-- When the watcher makes a torrent.
use rakoshare.Base.{ℕ, ◌≡◌, refl, ap, ◌∙◌, List, [], ◌∷◌, ◌++◌, Option, none, some}
use rakoshare.Watch.{
  Visit, Watcher, idem, changed, new_file, scan_dir, state_after, end_turn, watch_turn,
}

-- The turns of the loop: what each walk visits, and the time after it.
abbrev pub turns_of : List (List Visit × ℕ) → Option (List ℕ) → Watcher → Watcher
turns_of [] made w = w
turns_of ((visits, now) ∷ turns) made w = turns_of turns made (watch_turn visits now made w)

-- Every walk finds a file that is newer than the walk before it.
abbrev pub AreBusy : ℕ → List (List Visit × ℕ) → Type 0
AreBusy time [] = Unit
AreBusy time ((visits, now) ∷ turns) = (scan_dir time visits ≡ some new_file) × AreBusy now turns

abbrev pub last_time : ℕ → List (List Visit × ℕ) → ℕ
last_time time [] = time
last_time time ((visits, now) ∷ turns) = last_time now turns

watch_turn-changed :
    (visits : List Visit) (now : ℕ) (made : Option (List ℕ)) (w : Watcher)
    → scan_dir w.compare_time visits ≡ some new_file
    → watch_turn visits now made w
      ≡ record w { previous = changed; current = changed; compare_time = now }
unfolding watch_turn state_after end_turn
watch_turn-changed visits now none w e = rw (watch_turn, e, state_after, end_turn) refl
watch_turn-changed visits now (some ih) w e = rw (watch_turn, e, state_after, end_turn) refl

turns_of-changed :
    (visits : List Visit) (now : ℕ) (turns : List (List Visit × ℕ)) (made : Option (List ℕ))
    (w : Watcher)
    → AreBusy w.compare_time ((visits, now) ∷ turns)
    → turns_of ((visits, now) ∷ turns) made w
      ≡ record w { previous = changed; current = changed; compare_time = last_time now turns }
turns_of-changed visits now [] made w (e, h) = watch_turn-changed visits now made w e
turns_of-changed visits now ((visits', now') ∷ turns) made w (e, h) =
    ap (λ (x : Watcher). turns_of ((visits', now') ∷ turns) made x)
      (watch_turn-changed visits now made w e)
    ∙ turns_of-changed visits' now' turns made
        (record w { previous = changed; current = changed; compare_time = now }) h

-- No walk finds a newer file, and none fails.
abbrev pub AreQuiet : ℕ → List (List Visit × ℕ) → Type 0
AreQuiet time [] = Unit
AreQuiet time ((visits, now) ∷ turns) = (scan_dir time visits ≡ none) × AreQuiet now turns

watch_turn-idle :
    (visits : List Visit) (now : ℕ) (made : Option (List ℕ)) (w : Watcher)
    → w.previous ≡ idem
    → scan_dir w.compare_time visits ≡ none
    → watch_turn visits now made w
      ≡ record w { previous = idem; current = idem; compare_time = now }
unfolding watch_turn state_after end_turn
watch_turn-idle visits now none w idle e = rw (watch_turn, e, state_after, idle, end_turn) refl
watch_turn-idle visits now (some ih) w idle e = rw (watch_turn, e, state_after, idle, end_turn) refl

-- An idle watcher makes nothing as long as no file is newer.
turns-idle :
    (turns : List (List Visit × ℕ)) (made : Option (List ℕ)) (w : Watcher)
    → w.previous ≡ idem
    → AreQuiet w.compare_time turns
    → (turns_of turns made w).announced ≡ w.announced
turns-idle [] made w idle h = refl
turns-idle ((visits, now) ∷ turns) made w idle (e, h) =
    ap (λ (x : Watcher). (turns_of turns made x).announced)
      (watch_turn-idle visits now made w idle e)
    ∙ turns-idle turns made (record w { previous = idem; current = idem; compare_time = now }) refl
        h

-- However many scans in a row find a newer file, none of them makes a torrent. The next scan that finds
-- none makes exactly one, where `torrentify` succeeds, the watcher is idle again, and the scans after
-- it make none as long as they find no newer file and do not fail.
pub watch_turn-announced :
    (visits quiet : List Visit) (now later : ℕ) (turns more : List (List Visit × ℕ))
    (infohash : List ℕ) (made : Option (List ℕ)) (w : Watcher)
    → AreBusy w.compare_time ((visits, now) ∷ turns)
    → scan_dir (last_time now turns) quiet ≡ none
    → AreQuiet later more
    → ((turns_of ((visits, now) ∷ turns) (some infohash) w).announced ≡ w.announced)
      × (watch_turn quiet later (some infohash) (turns_of ((visits, now) ∷ turns) (some infohash) w)
          ≡ record {
            previous = idem;
            current = idem;
            compare_time = later;
            announced = w.announced ++ (infohash ∷ []);
          })
      × ((turns_of more made (
            watch_turn quiet later
              (some infohash)
              (turns_of ((visits, now) ∷ turns) (some infohash) w))).announced
          ≡ w.announced ++ (infohash ∷ []))
unfolding watch_turn state_after end_turn
watch_turn-announced visits quiet now later turns more infohash made w h e q =
    let busy = turns_of-changed visits now turns (some infohash) w h in
    let done : Watcher = record {
      previous = idem;
      current = idem;
      compare_time = later;
      announced = w.announced ++ (infohash ∷ []);
    } in
    let one : watch_turn quiet later (some infohash)
          (turns_of ((visits, now) ∷ turns) (some infohash) w)
        ≡ done =
      ap (λ (x : Watcher). watch_turn quiet later (some infohash) x) busy
      ∙ rw (watch_turn, e, state_after, end_turn) refl in
    (
      ap (λ (x : Watcher). x.announced) busy,
      one,
      ap (λ (x : Watcher). (turns_of more made x).announced) one ∙ turns-idle more made done refl q,
    )
