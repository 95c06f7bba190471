-- ===== src/Metadata/RoundTrip.antt =====
-- The exchange of one piece, up to the last, which completes the dictionary.
use rakoshare.Base.{
  ℕ, zero, suc, ◌+◌, ◌/◌, ◌%◌, ◌≡◌, ◌≢◌, refl, ◌∙◌, List, [], ◌∷◌, ◌++◌, length, arith, true, none,
  some, ℤ, pos, ok,
}
use rakoshare.Files.Names.{name_eq_refl}
use rakoshare.Control.{extension, extension_code, to_byte}
use rakoshare.Metadata.{
  Coding, Exchange, MetaPeer, Served, metadata_piece_size, ut_metadata, concat,
  send_metadata_request, on_metadata_request, after_data, do_metadata,
}
use rakoshare.Metadata.Transfer.{
  IsCoding, gatherer, gathered, slice, first_missing-gathered, first_missing-slices, concat-slices,
  on_metadata_request-slice, do_metadata-stored,
}

-- What the session that gathers does once it has piece `k`, with `m` others missing: it asks for the next one,
-- or it has the dictionary.
abbrev pub progress : Coding → List ℕ → Exchange → MetaPeer → ℕ → ℕ → Served
progress c raw y q k zero = ok (some raw, gatherer c raw y (suc k) 0, q)
progress c raw y q k (suc m) =
    ok (none, gatherer c raw y (suc k) (suc m), send_metadata_request c (suc k) q)

after_data-progress :
    (c : Coding) (raw : List ℕ) (y : Exchange) (q : MetaPeer) (k m : ℕ)
    → length raw / metadata_piece_size ≡ k + m
    → length raw % metadata_piece_size ≢ 0
    → after_data c (gatherer c raw y (suc k) m) q ≡ progress c raw y q k m
unfolding after_data
after_data-progress c raw y q k zero h r =
    let full = first_missing-slices raw 0 (suc k) 0 (omega arith) in
    let all : concat (gathered raw 0 (suc k) 0) ≡ raw = concat-slices raw 0 (suc k) (omega arith) in
    rw (after_data, full, all, name_eq_refl (c.sha1 raw)) refl
after_data-progress c raw y q k (suc m) h r =
    let next = first_missing-gathered raw 0 (suc k) m 0 (omega arith) in
    let e : 0 + suc k ≡ suc k = omega arith in rw (after_data, next, e) refl

-- Where the length of a dictionary is no multiple of 16 KiB, a session that has it answers the request of a piece of it, and a
-- session that has the pieces before, and none after, takes that answer: it then has this piece too and asks for the next one, and after the
-- last one it has the dictionary, whose hash is right.
pub do_metadata-progress :
    (c : Coding) (x y : Exchange) (p q : MetaPeer) (code : ℤ) (k m : ℕ)
    → IsCoding c
    → x.have_torrent ≡ true
    → extension_code ut_metadata p.their_extensions ≡ some code
    → length x.raw_info / metadata_piece_size ≡ k + m
    → length x.raw_info % metadata_piece_size ≢ 0
    → (answer : List ℕ) × (on_metadata_request c (pos k) x p
        ≡ ok (record p { sent = p.sent ++ ((extension ∷ (to_byte code ∷ answer)) ∷ []) }))
      × (do_metadata c answer (gatherer c x.raw_info y k (suc m)) q ≡ progress c x.raw_info y q k m)
do_metadata-progress c x y p q code k m v serves understands count rest =
    let (body, e, f) =
      on_metadata_request-slice c v x y p q code k m serves understands count rest in
    (
      body ++ slice x.raw_info k,
      e,
      do_metadata-stored c v x y p q code k m serves understands count rest body f
          ∙ after_data-progress c x.raw_info y q k m count rest,
    )
