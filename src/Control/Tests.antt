-- ===== src/Control/Tests.antt =====
-- Runs of the control session, and the theorems at concrete inputs. Numbers are printed in unary, a
-- signature repeats the first byte of the key, and a string is encoded after its length.
use rakoshare.Base.{
  ℕ, zero, suc, ◌≡◌, ◌==◌, refl, ap, ◌⊎◌, List, [], ◌∷◌, ◌++◌, length, take, drop, replicate,
  length-replicate, get_or, arith, true, false, none, some, Option, ℤ, pos, negsuc,
}
use rakoshare.Files.{name_eq}
use rakoshare.Id.{to_array}
use rakoshare.Control.{
  Text, Wire, IhMessage, ControlPeer, ControlSession, split, counter_of, next_rev, is_newer_than,
  set_current, broadcast,
}
use rakoshare.Control.Incoming.{do_metadata}
use rakoshare.Control.Revisions.{IsPlain, IsPrinting}
use rakoshare.Control.Accepting.{
  IsSigning, do_metadata-verified, set_current-do_metadata, set_current-behind,
}

abbrev text_of : List ℕ → Text
text_of [] = []
text_of (n ∷ bytes) = take n bytes

abbrev after_text : List ℕ → List ℕ
after_text [] = []
after_text (n ∷ bytes) = drop n bytes

abbrev encode_text : Text → List ℕ → List ℕ
encode_text s bytes = length s ∷ (s ++ bytes)

abbrev encode_int : ℤ → List ℕ → List ℕ
encode_int (pos n) bytes = 0 ∷ n ∷ bytes
encode_int (negsuc n) bytes = 1 ∷ n ∷ bytes

abbrev decode_end : Text → Text → List ℕ → Option IhMessage
decode_end ih rev (zero ∷ n ∷ sig) =
    some (record { info = record { info_hash = ih; rev = rev }; port = pos n; sig = sig })
decode_end ih rev (suc tag ∷ n ∷ sig) =
    some (record { info = record { info_hash = ih; rev = rev }; port = negsuc n; sig = sig })
decode_end ih rev bytes = none

abbrev decode : List ℕ → Option IhMessage
decode bytes =
    decode_end (text_of bytes) (text_of (after_text bytes)) (after_text (after_text bytes))

abbrev encode : IhMessage → List ℕ
encode m = encode_text m.info.info_hash (encode_text m.info.rev (encode_int m.port m.sig))

abbrev wire : Wire
wire = record {
  atoi = λ s. some (pos (length s));
  itoa = λ n. elim n [ pos k ↦ replicate k b'1' | negsuc k ↦ [] ];
  hex_sum = λ s. [];
  encode_info = λ info. some info.rev;
  encode_message = λ m. some (encode m);
  decode_message = decode;
  decode_handshake = λ bytes. none;
  sign = λ priv bytes. replicate 64 (get_or priv 0 0);
  verify = λ key bytes sig. get_or key 0 0 == get_or sig 0 0;
}

replicate-IsPlain : (n : ℕ) → IsPlain (replicate n b'1')
replicate-IsPlain zero = tt
replicate-IsPlain (suc n) = (refl, replicate-IsPlain n)

wire-IsPrinting : IsPrinting wire
wire-IsPrinting = record {
  back = λ n. ap (λ (k : ℕ). some (pos k)) (length-replicate {A = ℕ} n b'1');
  plain = replicate-IsPlain;
  plain_sum = λ s. tt;
}

text_of-encode_text : (s : Text) (bytes : List ℕ) → text_of (encode_text s bytes) ≡ s
text_of-encode_text [] bytes = refl
text_of-encode_text (c ∷ s) bytes = ap (λ (r : Text). c ∷ r) (text_of-encode_text s bytes)

after_text-encode_text : (s : Text) (bytes : List ℕ) → after_text (encode_text s bytes) ≡ bytes
after_text-encode_text [] bytes = refl
after_text-encode_text (c ∷ s) bytes = after_text-encode_text s bytes

decode-encode : (m : IhMessage) → decode (encode m) ≡ some m
decode-encode m =
    let rest = encode_text m.info.rev (encode_int m.port m.sig) in
    rw
      (
        text_of-encode_text m.info.info_hash rest,
        after_text-encode_text m.info.info_hash rest,
        text_of-encode_text m.info.rev (encode_int m.port m.sig),
        after_text-encode_text m.info.rev (encode_int m.port m.sig),
      )
      (ends m.port)
  where
    ends :
        (port : ℤ)
        → decode_end m.info.info_hash m.info.rev (encode_int port m.sig)
          ≡ some (record m { port = port })
    ends (pos n) = refl
    ends (negsuc n) = refl

wire-IsSigning : IsSigning wire (5 ∷ []) (5 ∷ [])
wire-IsSigning = record {
  encodes = λ info. (info.rev, refl);
  message_encodes = λ m. (encode m, refl, decode-encode m);
  size = λ bytes. refl;
  verifies = λ bytes. refl;
}

abbrev writer : ControlSession
writer = record {
  priv = 5 ∷ [];
  pub_key = 5 ∷ [];
  port = pos 80;
  current_ih = [];
  rev = b'1' ∷ b'1' ∷ b'-' ∷ [];
  saved = [];
  torrents = [];
}

abbrev reader : ControlSession
reader = record writer { priv = []; rev = b'-' ∷ [] }

abbrev peer : ControlPeer
peer = record { address = b'9' ∷ []; ip = b'9' ∷ []; their_extensions = []; sent = [] }

set_current-do_metadata_example :
    (message : IhMessage) × (bytes : List ℕ) × (set_current wire (7 ∷ []) writer (peer ∷ []) ≡ (
      none,
      record writer { saved = bytes; current_ih = 7 ∷ []; rev = next_rev wire (7 ∷ []) writer.rev },
      broadcast wire message (peer ∷ []),
    ))
    × (do_metadata wire bytes peer reader ≡ (
      none,
      record reader {
        saved = bytes;
        torrents =
            reader.torrents
            ++ (record {
              infohash = 7 ∷ [];
              peer = (peer.ip ++ (b':' ∷ [])) ++ wire.itoa writer.port;
            }
                ∷ []);
      },
    ))
    × (is_newer_than wire message.info.rev (record writer {
      saved = bytes;
      current_ih = 7 ∷ [];
      rev = next_rev wire (7 ∷ []) writer.rev;
    })
        ≡ true)
set_current-do_metadata_example =
    set_current-do_metadata wire wire-IsPrinting (7 ∷ []) writer reader (peer ∷ []) peer 0 2
      wire-IsSigning (unfold name_eq in refl) refl (unfold split counter_of in refl)
      (unfold split counter_of in refl) (omega arith)

do_metadata-verified_example :
    ((do_metadata wire (1 ∷ []) peer reader).1 ≡ reader)
    ⊎ (message : IhMessage) × (bytes : List ℕ) × (decode (1 ∷ []) ≡ some message)
      × (some message.info.rev ≡ some bytes)
      × (wire.verify (5 ∷ []) bytes (to_array 64 message.sig) ≡ true)
      × (is_newer_than wire message.info.rev reader ≡ false)
do_metadata-verified_example = do_metadata-verified wire (1 ∷ []) peer reader

-- A message of the third revision, for a session that has none.
abbrev third : IhMessage
third = record {
  info = record { info_hash = 7 ∷ []; rev = b'1' ∷ b'1' ∷ b'1' ∷ b'-' ∷ [] };
  port = pos 80;
  sig = [];
}

set_current-behind_example :
    is_newer_than wire third.info.rev (set_current wire (7 ∷ []) reader (peer ∷ [])).1 ≡ false
set_current-behind_example =
    set_current-behind wire wire-IsPrinting third reader (peer ∷ []) 0 3
      (unfold split counter_of in refl) (unfold split counter_of in refl) (omega arith)
