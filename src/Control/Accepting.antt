-- ===== src/Control/Accepting.antt =====
-- Which announcements a session takes: signed ones that are newer than what it has.
use rakoshare.Base.{
  ℕ, ◌+◌, ◌≤◌, ◌<◌, ◌≡◌, refl, ◌∙◌, ◌⊎◌, inl, inr, List, [], ◌∷◌, ◌++◌, length, arith, ltb, true,
  false, Bool-cases, Option-cases, none, some,
}
use rakoshare.Files.{name_eq}
use rakoshare.Id.{to_array}
use rakoshare.Id.Roles.{to_array-whole}
use rakoshare.Control.{
  Text, Wire, NewInfo, IhMessage, ControlPeer, ControlSession, new_ih_message, next_rev,
  is_newer_than, set_current, broadcast,
}
use rakoshare.Control.Incoming.{is_zero_port, do_metadata}
use rakoshare.Control.Revisions.{IsPrinting, HasCounter, next_rev-HasCounter, is_newer_than_lem}

-- `DoMetadata` leaves the session as it is, or the message is signed by the share's key and the session
-- is not newer than its revision.
pub do_metadata-verified :
    (wire : Wire) (msg : List ℕ) (p : ControlPeer) (cs : ControlSession)
    → ((do_metadata wire msg p cs).1 ≡ cs)
      ⊎ (message : IhMessage) × (bytes : List ℕ) × (wire.decode_message msg ≡ some message)
        × (wire.encode_info message.info ≡ some bytes)
        × (wire.verify cs.pub_key bytes (to_array 64 message.sig) ≡ true)
        × (is_newer_than wire message.info.rev cs ≡ false)
unfolding do_metadata
do_metadata-verified wire msg p cs = elim (Option-cases (wire.decode_message msg)) [
  | inl e ↦ inl (rw (do_metadata, e) refl)
  | inr (message, e) ↦ elim (Bool-cases (is_zero_port wire message.port)) [
    | inl f ↦ inl (rw (do_metadata, e, f) refl)
    | inr f ↦ elim (Bool-cases (is_newer_than wire message.info.rev cs)) [
      | inl g ↦ inl (rw (do_metadata, e, f, g) refl)
      | inr g ↦ elim (Option-cases (wire.encode_info message.info)) [
        | inl k ↦ inl (rw (do_metadata, e, f, g, k) refl)
        | inr (bytes, k) ↦
            elim (Bool-cases (wire.verify cs.pub_key bytes (to_array 64 message.sig))) [
              | inr l ↦ inl (rw (do_metadata, e, f, g, k, l) refl)
              | inl l ↦ inr (message, bytes, e, k, l, g)
            ]
      ]
    ]
  ]
]

-- What the program relies on of bencode and ed25519, for the keys of a share: what is encoded is decoded, and
-- what is signed is verified.
pub record IsSigning (wire : Wire) (priv pub_key : List ℕ) : Type 0 where
  pub encodes : (info : NewInfo) → (bytes : List ℕ) × (wire.encode_info info ≡ some bytes)
  pub message_encodes :
      (m : IhMessage)
      → (bytes : List ℕ) × (wire.encode_message m ≡ some bytes)
        × (wire.decode_message bytes ≡ some m)
  pub size : (bytes : List ℕ) → length (wire.sign priv bytes) ≡ 64
  pub verifies : (bytes : List ℕ) → wire.verify pub_key bytes (wire.sign priv bytes) ≡ true

module _ (wire : Wire) (v : IsPrinting wire) where
  -- Where a writer's session has a revision, and a session with its public key has one that is not above it, the
  -- message that `SetCurrent` of a new infohash saves and broadcasts is taken by that session: `DoMetadata` saves it
  -- and announces the infohash at the sender's address and port. The writer itself is newer than it.
  pub set_current-do_metadata :
      (ih : Text) (writer reader : ControlSession) (peers : List ControlPeer) (p : ControlPeer)
      (m n : ℕ)
      → IsSigning wire writer.priv reader.pub_key
      → name_eq writer.current_ih ih ≡ false
      → is_zero_port wire writer.port ≡ false
      → HasCounter wire writer.rev n
      → HasCounter wire reader.rev m
      → m ≤ n
      → (message : IhMessage) × (bytes : List ℕ) × (set_current wire ih writer peers ≡ (
        none,
        record writer { saved = bytes; current_ih = ih; rev = next_rev wire ih writer.rev },
        broadcast wire message peers,
      ))
        × (do_metadata wire bytes p reader ≡ (
          none,
          record reader {
            saved = bytes;
            torrents =
                reader.torrents
                ++ (record { infohash = ih; peer = (p.ip ++ (b':' ∷ [])) ++ wire.itoa writer.port }
                    ∷ []);
          },
        ))
        × (is_newer_than wire message.info.rev
              (record writer { saved = bytes; current_ih = ih; rev = next_rev wire ih writer.rev })
            ≡ true)
  unfolding set_current do_metadata new_ih_message
  set_current-do_metadata ih writer reader peers p m n s new listening known theirs le =
      let rev = next_rev wire ih writer.rev in
      let info : NewInfo = record { info_hash = ih; rev = rev } in
      let (raw, e) = s.encodes info in
      let message : IhMessage = record {
        info = info;
        port = writer.port;
        sig = wire.sign writer.priv raw;
      } in
      let (bytes, f, g) = s.message_encodes message in
      let next = next_rev-HasCounter wire v ih writer.rev n known in
      let older : ltb m (n + 1) ≡ true = ground arith in
      let same : ltb (n + 1) (n + 1) ≡ false = ground arith in
      let behind : is_newer_than wire rev reader ≡ false =
        is_newer_than_lem wire v rev reader m (n + 1) next theirs ∙ rw older refl in
      let signed : wire.verify reader.pub_key raw (to_array 64 (wire.sign writer.priv raw)) ≡ true =
        rw (to_array-whole 64 (wire.sign writer.priv raw) (s.size raw)) (s.verifies raw) in
      let writer' = record writer { saved = bytes; current_ih = ih; rev = rev } in
      (
        message,
        bytes,
        rw (set_current, new, new_ih_message, e, f) refl,
        rw (do_metadata, g, listening, behind, e, signed) refl,
        is_newer_than_lem wire v rev writer' (n + 1) (n + 1) next next ∙ rw same refl,
      )

  -- What `SetCurrent` does after a message was taken: a session that was two revisions or more behind
  -- is not newer than the message even then, so it would take the message again.
  pub set_current-behind :
      (message : IhMessage) (reader : ControlSession) (peers : List ControlPeer) (m n : ℕ)
      → HasCounter wire message.info.rev n
      → HasCounter wire reader.rev m
      → m + 1 < n
      → is_newer_than wire message.info.rev (set_current wire message.info.info_hash reader peers).1
        ≡ false
  unfolding set_current
  set_current-behind message reader peers m n h k lt =
      let ih = message.info.info_hash in
      let next = next_rev-HasCounter wire v ih reader.rev m k in
      let older : ltb m n ≡ true = ground arith in
      let still : ltb (m + 1) n ≡ true = ground arith in
      let before : is_newer_than wire message.info.rev reader ≡ false =
        is_newer_than_lem wire v message.info.rev reader m n h k ∙ rw older refl in
      elim (Bool-cases (name_eq reader.current_ih ih)) [
        | inl e ↦ rw (set_current, e) before
        | inr e ↦
            elim (Option-cases
              (new_ih_message wire reader.port ih (next_rev wire ih reader.rev) reader.priv)) [
                | inl f ↦ rw (set_current, e, f) before
                | inr (own, f) ↦ elim (Option-cases (wire.encode_message own)) [
                  | inl g ↦ rw (set_current, e, f, g) before
                  | inr (bytes, g) ↦
                      rw (set_current, e, f, g)
                        (is_newer_than_lem wire v message.info.rev
                            (record reader {
                              saved = bytes;
                              current_ih = ih;
                              rev = next_rev wire ih reader.rev;
                            })
                            (m + 1) n h next
                          ∙ rw still refl)
                ]
              ]
      ]
