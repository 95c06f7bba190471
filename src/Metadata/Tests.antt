-- ===== src/Metadata/Tests.antt =====
-- Runs of the exchange of metadata, and the theorems at concrete inputs. A message is encoded by its
-- three numbers, of which only positive ones occur.
use rakoshare.Base.{
  length, drop, ℕ, zero, suc, ◌≡◌, refl, List, [], ◌∷◌, ◌++◌, replicate, length-replicate, arith,
  true, false, none, some, Option, ℤ, pos, negsuc, ok,
}
use rakoshare.Files.{name_eq}
use rakoshare.Control.{extension, to_byte}
use rakoshare.Metadata.{
  make_pieces, MetadataMessage, Coding, Exchange, MetaPeer, ut_metadata, send_metadata_request,
  on_metadata_request, after_data, do_metadata,
}
use rakoshare.Metadata.Transfer.{IsCoding, gatherer, gathered}
use rakoshare.Metadata.RoundTrip.{progress, do_metadata-progress}
use rakoshare.Metadata.Multiple.{on_metadata_request-past}

abbrev tag : ℤ → ℕ
tag (pos n) = 0
tag (negsuc n) = 1

abbrev size : ℤ → ℕ
size (pos n) = n
size (negsuc n) = n

abbrev number : ℕ → ℕ → ℤ
number zero n = pos n
number (suc t) n = negsuc n

abbrev read : List ℕ → Option MetadataMessage
read (a ∷ b ∷ c ∷ d ∷ e ∷ f ∷ more) =
    some (record { msg_type = number a b; piece = number c d; total_size = number e f })
read bytes = none

abbrev coding : Coding
coding = record {
  encode = λ m. some (
      tag m.msg_type
      ∷ size m.msg_type
      ∷ tag m.piece
      ∷ size m.piece
      ∷ tag m.total_size
      ∷ size m.total_size
      ∷ []);
  decode = read;
  decode_handshake = λ bytes. none;
  sha1 = λ bytes. bytes;
}

number-tag : (n : ℤ) → number (tag n) (size n) ≡ n
number-tag (pos n) = refl
number-tag (negsuc n) = refl

coding-IsCoding : IsCoding coding
coding-IsCoding m = (
  tag m.msg_type
      ∷ size m.msg_type
      ∷ tag m.piece
      ∷ size m.piece
      ∷ tag m.total_size
      ∷ size m.total_size
      ∷ [],
  refl,
  λ more. rw (number-tag m.msg_type, number-tag m.piece, number-tag m.total_size) refl,
)

-- A dictionary of three bytes, and a peer that knows the extension as 4.
abbrev server : Exchange
server = record {
  have_torrent = true;
  transferring = false;
  pieces = [];
  raw_info = 1 ∷ 2 ∷ 3 ∷ [];
  info_hash = [];
}

abbrev peer : MetaPeer
peer = record { their_extensions = (ut_metadata, pos 4) ∷ []; sent = [] }

do_metadata-progress_example :
    (answer : List ℕ) × (on_metadata_request coding (pos 0) server peer
      ≡ ok (record peer { sent = [] ++ ((extension ∷ (to_byte (pos 4) ∷ answer)) ∷ []) }))
    × (do_metadata coding answer (gatherer coding (1 ∷ 2 ∷ 3 ∷ []) server 0 1) peer
        ≡ progress coding (1 ∷ 2 ∷ 3 ∷ []) server peer 0 0)
do_metadata-progress_example =
    do_metadata-progress coding server server peer peer (pos 4) 0 0 coding-IsCoding refl
      (unfold name_eq in refl) refl (omega arith)

-- A dictionary of 16 KiB.
abbrev full : Exchange
full = record server { raw_info = replicate 16384 1 }

on_metadata_request-past_example :
    (pieces : List (List ℕ)) × (make_pieces coding (pos (length full.raw_info)) ≡ ok pieces)
    × (after_data coding
          (record full { pieces = gathered full.raw_info 0 1 0 ++ drop 1 pieces })
          peer
        ≡ ok (
          none,
          record full { pieces = gathered full.raw_info 0 1 0 ++ drop 1 pieces },
          send_metadata_request coding 1 peer,
        ))
    × (on_metadata_request coding (pos 1) full peer ≡ ok peer)
on_metadata_request-past_example =
    on_metadata_request-past coding full full peer peer 1 refl (length-replicate {A = ℕ} 16384 1)
