-- ===== src/Main/Signed.antt =====
-- What a control session takes over: infohashes that the share's key has signed.
use rakoshare.Base.{
  ℕ, ◌≡◌, refl, List, [], ◌∷◌, ◌++◌, All, true, Bool-cases, Option-cases, Option, none, some, inl,
  inr, Ensures, ◌==◌,
}
use rakoshare.Files.{name_eq}
use rakoshare.Id.{to_array}
use rakoshare.Control.{
  Text, Wire, IhMessage, ControlPeer, ControlSession, ControlError, Announce, set_current,
  new_ih_message, next_rev, is_newer_than, extension,
}
use rakoshare.Control.Incoming.{do_metadata, do_other, control_message, is_zero_port}

module _ (wire : Wire) (key : List ℕ) where
  -- An infohash that stands in a message that the share's key has signed.
  abbrev pub IsSigned : Text → Type 0
  IsSigned ih =
      (message : IhMessage) × (bytes : List ℕ) × (wire.encode_info message.info ≡ some bytes)
      × (wire.verify key bytes (to_array 64 message.sig) ≡ true)
      × (message.info.info_hash ≡ ih)

  abbrev pub AreSigned : List Announce → Type 0
  AreSigned torrents = All (λ (a : Announce). IsSigned a.infohash) torrents

  AreSigned-last :
      (torrents : List Announce) (a : Announce)
      → AreSigned torrents
      → IsSigned a.infohash
      → AreSigned (torrents ++ (a ∷ []))
  AreSigned-last [] a h k = (k, tt)
  AreSigned-last (b ∷ torrents) a (g, h) k = (g, AreSigned-last torrents a h k)

  -- The session has the share's key, what it announces is in `P`, and what it tells the loop of is signed.
  pub record IsTrusting (P : Text → Type 0) (cs : ControlSession) : Type 0 where
    pub same_key : cs.pub_key ≡ key
    pub signed : AreSigned cs.torrents
    pub trusted : P cs.current_ih

  module _ (P : Text → Type 0) where
    do_metadata-IsTrusting :
        (msg : List ℕ) (q : ControlPeer) (cs : ControlSession)
        → IsTrusting P cs
        → IsTrusting P (do_metadata wire msg q cs).1
    unfolding do_metadata
    do_metadata-IsTrusting msg q cs h = elim (Option-cases (wire.decode_message msg)) [
      | inl e ↦ rw (do_metadata, e) h
      | inr (message, e) ↦ elim (Bool-cases (is_zero_port wire message.port)) [
        | inl f ↦ rw (do_metadata, e, f) h
        | inr f ↦ elim (Bool-cases (is_newer_than wire message.info.rev cs)) [
          | inl g ↦ rw (do_metadata, e, f, g) h
          | inr g ↦ elim (Option-cases (wire.encode_info message.info)) [
            | inl i ↦ rw (do_metadata, e, f, g, i) h
            | inr (bytes, i) ↦
                elim (Bool-cases (wire.verify cs.pub_key bytes (to_array 64 message.sig))) [
                  | inr j ↦ rw (do_metadata, e, f, g, i, j) h
                  | inl j ↦
                      rw (do_metadata, e, f, g, i, j)
                        (record {
                          same_key = h.same_key;
                          signed =
                              AreSigned-last cs.torrents _ h.signed
                                (message, bytes, i, rw h.same_key at j, refl);
                          trusted = h.trusted;
                        })
                ]
          ]
        ]
      ]
    ]

    pub control_message-IsTrusting :
        (msg : Option (List ℕ)) (q : ControlPeer) (cs : ControlSession)
        → IsTrusting P cs
        → Ensures
            (λ (r : Option ControlError × ControlPeer × ControlSession). IsTrusting P r.2)
            (control_message wire msg q cs)
    unfolding control_message do_other
    control_message-IsTrusting none q cs h = h
    control_message-IsTrusting (some []) q cs h = h
    control_message-IsTrusting (some (id ∷ [])) q cs h = elim (Bool-cases (id == extension)) [
      | inl e ↦ rw e tt
      | inr e ↦ rw e h
    ]
    control_message-IsTrusting (some (id ∷ code ∷ msg)) q cs h =
        elim (Bool-cases (id == extension)) [
          | inr e ↦ rw e h
          | inl e ↦ elim (Bool-cases (code == 0)) [
            | inl f ↦ rw (e, f) h
            | inr f ↦ elim (Bool-cases (code == 1)) [
              | inl g ↦ rw (e, f, g) h
              | inr g ↦ elim (Bool-cases (code == 2)) [
                | inl i ↦ rw (e, f, g, i) (do_metadata-IsTrusting msg q cs h)
                | inr i ↦ rw (e, f, g, i) h
              ]
            ]
          ]
        ]

    pub set_current-IsTrusting :
        (ih : Text) (cs : ControlSession) (peers : List ControlPeer)
        → P ih
        → IsTrusting P cs
        → IsTrusting P (set_current wire ih cs peers).1
    unfolding set_current
    set_current-IsTrusting ih cs peers p h = elim (Bool-cases (name_eq cs.current_ih ih)) [
      | inl e ↦ rw (set_current, e) h
      | inr e ↦
          let rev = next_rev wire ih cs.rev in
          elim (Option-cases (new_ih_message wire cs.port ih rev cs.priv)) [
            | inl f ↦ rw (set_current, e, f) h
            | inr (message, f) ↦ elim (Option-cases (wire.encode_message message)) [
              | inl g ↦ rw (set_current, e, f, g) h
              | inr (bytes, g) ↦
                  rw (set_current, e, f, g)
                    (record { same_key = h.same_key; signed = h.signed; trusted = p })
            ]
          ]
    ]
