-- ===== src/Serving/Frame.antt =====
-- The cases REQUEST, CANCEL and BITFIELD change neither the pieces nor the files of a session.
use rakoshare.Base.{
  ℕ, ◌+◌, ◌*◌, ◌-◌, ◌%◌, ◌^◌, ◌≡◌, refl, ap, ◌∙◌, List, [], ◌∷◌, drop, replicate, ltb, ◌==◌, false,
  Bool-cases, Option-cases, inl, inr, Option, none, some, ok, Ensures, Ensures->>=, Ensures-if,
  Ensures-any,
}
use rakoshare.Bitset.{Bitset, new_from_bytes}
use rakoshare.Files.{Disk, FileStore, read_at}
use rakoshare.Peer.{PeerState, Message, standard_block_length, set_choke, set_interested}
use rakoshare.Requesting.{Session, Requested, request_block}
use rakoshare.Requesting.Frame.{outline, request_block-outline}
use rakoshare.Serving.{
  Serving, Refusal, index_of, begin_of, length_of, check_request, send_request, on_request,
  on_cancel, is_interesting, request_blocks_of, after_bitfield, on_bitfield,
}

-- The pieces of a session, its files and the disk.
abbrev pub view : Serving → (Bitset × ℕ × ℕ) × FileStore × Disk
view s = (outline s.session, s.file_store, s.disk)

abbrev Answer : Type 0
Answer = Option Refusal × Serving × PeerState

-- An answer that leaves what `view` shows.
abbrev pub Keeps : Serving → Option Refusal × Serving × PeerState → Type 0
Keeps s r = view r.1 ≡ view s

send_request-view :
    (index begin length : ℕ) (s : Serving) (p : PeerState)
    → Ensures (Keeps s) (send_request index begin length s p)
unfolding send_request
send_request-view index begin length s p =
    let size = (length + 9) % 2 ^ 32 in
    let result =
      read_at s.disk s.file_store (replicate (size - 9) 0)
        (index * s.session.piece_length + begin) in
    elim (Bool-cases p.am_choking) [
      | inl a ↦ rw (send_request, a) refl
      | inr a ↦ elim (Bool-cases (ltb size 9)) [
        | inl b ↦ rw (send_request, a, b) tt
        | inr b ↦ elim (Option-cases result.error) [
          | inl e ↦ rw (send_request, a, b, e) refl
          | inr (x, e) ↦ rw (send_request, a, b, e) refl
        ]
      ]
    ]

pub on_request-view :
    (msg : Message) (s : Serving) (p : PeerState) → Ensures (Keeps s) (on_request msg s p)
unfolding on_request
on_request-view msg s p = Ensures-any (Keeps s) (check_request s.session p msg) _ λ refusal.
    elim (Option-cases refusal) [
      | inl e ↦ rw e (send_request-view (index_of msg) (begin_of msg) (length_of msg) s p)
      | inr (r, e) ↦ rw e refl
    ]

pub on_cancel-view :
    (msg : Message) (s : Serving) (p : PeerState) → Ensures (Keeps s) (on_cancel msg s p)
unfolding on_cancel
on_cancel-view msg s p = Ensures-any (Keeps s) (check_request s.session p msg) _ λ refusal.
    elim (Option-cases refusal) [
      | inr (r, e) ↦ rw e refl
      | inl e ↦ elim (Bool-cases (length_of msg == standard_block_length)) [
        | inl f ↦ rw (e, f) refl
        | inr f ↦ rw (e, f) refl
      ]
    ]

-- A session whose outline is kept shows the same.
pub view-session :
    (t : Session) (s : Serving)
    → outline t ≡ outline s.session
    → view (record s { session = t }) ≡ view s
view-session t s e = ap (λ (f : Bitset × ℕ × ℕ). (f, s.file_store, s.disk)) e

pub request_blocks_of-view :
    (starts : List ℕ) (fuel now : ℕ) (s0 s : Serving) (p : PeerState)
    → view s ≡ view s0
    → Ensures (Keeps s0) (request_blocks_of fuel now starts s p)
unfolding request_blocks_of
request_blocks_of-view [] fuel now s0 s p e = e
request_blocks_of-view (start ∷ starts) fuel now s0 s p e =
    Ensures->>= (λ (r : Requested). outline r.1 ≡ outline s.session) (Keeps s0)
      (request_block fuel now start s.session p) _
      (request_block-outline fuel now start s.session p)
      λ (err, t, p') same. elim (Option-cases err) [
        | inl f ↦ rw f (
            request_blocks_of-view starts fuel now s0 (record s { session = t }) p'
              (view-session t s same ∙ e))
        | inr (x, f) ↦ rw f (view-session t s same ∙ e)
      ]

after_bitfield-view :
    (fuel now : ℕ) (starts : ℕ × ℕ) (s : Serving) (p : PeerState)
    → Ensures (Keeps s) (after_bitfield fuel now starts s p)
unfolding after_bitfield
after_bitfield-view fuel now (first, second) s p =
    Ensures-any (Keeps s) (is_interesting s.session p) _ λ interesting.
      let p' = record (set_interested interesting p) { can_receive_bitfield = false } in
      Ensures-if (Keeps s) p'.peer_choking (ok (none, s, p'))
        (request_blocks_of fuel now (first ∷ second ∷ []) s p') refl
        (request_blocks_of-view (first ∷ second ∷ []) fuel now s s p' refl)

pub on_bitfield-view :
    (fuel now : ℕ) (starts : ℕ × ℕ) (msg : Message) (s : Serving) (p : PeerState)
    → Ensures (Keeps s) (on_bitfield fuel now starts msg s p)
unfolding on_bitfield
on_bitfield-view fuel now starts msg s p = elim (Bool-cases p.can_receive_bitfield) [
  | inr e ↦ rw (on_bitfield, e) refl
  | inl e ↦ elim (Option-cases (new_from_bytes s.session.total_pieces (drop 1 msg))) [
    | inl f ↦ rw (on_bitfield, e, f) refl
    | inr (have, f) ↦
        rw (on_bitfield, e, f)
          (after_bitfield-view fuel now starts s (record (set_choke false p) { have = some have }))
  ]
]
