-- ===== src/Control/Incoming.antt =====
-- control.go: the messages of a peer, and how an announcement is checked.
use rakoshare.Base.{
  ℕ, zero, suc, List, [], ◌∷◌, ◌++◌, length, ◌==◌, if◌then◌else◌, Bool, true, false, not, Option,
  none, some, ℤ, pos, negsuc, Run, ok, panic,
}
use rakoshare.Id.{to_array}
use rakoshare.Control.{
  Wire, ControlPeer, ControlSession, ControlError, extension, is_newer_than, send_extension_message,
}

module _ (wire : Wire) where
  abbrev pub is_zero_port : ℤ → Bool
  is_zero_port (pos zero) = true
  is_zero_port (pos (suc n)) = false
  is_zero_port (negsuc n) = false

  -- `DoMetadata`: the announcement names the peer's address with the port of the message.
  unfoldable pub do_metadata :
      List ℕ → ControlPeer → ControlSession → Option ControlError × ControlSession
  unfolding is_newer_than
  do_metadata msg p cs = elim (wire.decode_message msg) [
    | none ↦ (some ControlError.decode_failed, cs)
    | some message ↦
        if is_zero_port message.port
        then (none, cs)
        else if is_newer_than wire message.info.rev cs
        then (none, cs)
        else elim (wire.encode_info message.info) [
          | none ↦ (some ControlError.encode_failed, cs)
          | some bytes ↦
              if not (wire.verify cs.pub_key bytes (to_array 64 message.sig))
              then (some ControlError.bad_signature, cs)
              else (
                none,
                record cs {
                  saved = msg;
                  torrents =
                      cs.torrents
                      ++ (record {
                        infohash = message.info.info_hash;
                        peer = (p.ip ++ (b':' ∷ [])) ++ wire.itoa message.port;
                      }
                          ∷ []);
                },
              )
        ]
  ]

  -- The extensions that the session understands: 1 is `ut_pex`, whose handler does nothing.
  unfoldable pub do_other :
      ℕ → List ℕ → ControlPeer → ControlSession → Option ControlError × ControlSession
  unfolding do_metadata
  do_other code msg p cs =
      if code == 1
      then (none, cs)
      else if code == 2
      then do_metadata msg p cs
      else (some ControlError.unknown_extension, cs)

  unfoldable pub do_handshake :
      List ℕ → ControlPeer → ControlSession → Option ControlError × ControlPeer
  unfolding send_extension_message
  do_handshake msg p cs = elim (wire.decode_handshake msg) [
    | none ↦ (some ControlError.handshake_failed, p)
    | some extensions ↦
        let p' = record p { their_extensions = extensions } in
        if length cs.saved == 0 then (none, p') else elim (wire.decode_message cs.saved) [
          | none ↦ (none, p')
          | some message ↦ (none, send_extension_message wire message p')
        ]
  ]

  -- `DoMessage`: `none` is the nil message. The second byte of a message of one byte panics.
  unfoldable pub control_message :
      Option (List ℕ)
      → ControlPeer
      → ControlSession
      → Run (Option ControlError × ControlPeer × ControlSession)
  unfolding do_handshake do_other
  control_message none p cs = ok (some ControlError.eof, p, cs)
  control_message (some []) p cs = ok (none, p, cs)
  control_message (some (id ∷ [])) p cs =
      if not (id == extension) then ok (some ControlError.invalid_type, p, cs) else panic
  control_message (some (id ∷ code ∷ msg)) p cs =
      if not (id == extension)
      then ok (some ControlError.invalid_type, p, cs)
      else if code == 0
      then (let (error, p') = do_handshake msg p cs in ok (error, p', cs))
      else (let (error, cs') = do_other code msg p cs in ok (error, p, cs'))
