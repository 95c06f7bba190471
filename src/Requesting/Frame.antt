-- ===== src/Requesting/Frame.antt =====
-- Requesting changes the active pieces of a session and nothing else of it.
use rakoshare.Base.{
  ℕ, ◌≡◌, refl, ◌∙◌, List, [], ◌∷◌, Bool, true, false, if◌then◌else◌, Option-cases, ℤ-cases, inl,
  inr, Option, none, some, ok, ◌>>=◌, Ensures, Ensures->>=, Ensures-weaken, Ensures-any,
}
use rakoshare.Bitset.{Bitset}
use rakoshare.Peer.{PeerState}
use rakoshare.Active.{ActivePiece, request_loop}
use rakoshare.Requesting.{
  Session, RequestError, Requested, lookup, put, peer_has, request_block2, choose_piece, new_active,
  try_active, request_block,
}

-- The set of pieces, their number and their length.
abbrev pub outline : Session → Bitset × ℕ × ℕ
outline t = (t.piece_set, t.total_pieces, t.piece_length)

pub request_block2-outline :
    (fuel now piece : ℕ) (end_game : Bool) (t : Session) (p : PeerState)
    → Ensures
        (λ (r : Requested). outline r.1 ≡ outline t)
        (request_block2 fuel now piece end_game t p)
unfolding request_block2
request_block2-outline fuel now piece end_game t p =
    elim (Option-cases (lookup piece t.active_pieces)) [
      | inl e ↦ rw (request_block2, e) tt
      | inr (v, e) ↦
          rw (request_block2, e)
            (Ensures-any _ (request_loop fuel end_game v.downloader_count) _ (λ r. refl))
    ]

-- What one round of requests over the active pieces keeps.
abbrev Tried : Session → Option Requested × Session × PeerState → Type 0
Tried t r =
    (outline r.1 ≡ outline t)
    × (elim r.0 as (λ x. Type 0) [ none ↦ Unit {0} | some q ↦ outline q.1 ≡ outline t ])

try_active-outline :
    (active : List (ℕ × ActivePiece)) (fuel now : ℕ) (end_game : Bool) (t0 t : Session)
    (p : PeerState)
    → outline t ≡ outline t0
    → Ensures (Tried t0) (try_active fuel now end_game active t p)
unfolding try_active
try_active-outline [] fuel now end_game t0 t p e = (e, tt)
try_active-outline ((k, a) ∷ active) fuel now end_game t0 t p e =
    Ensures-any (Tried t0) (peer_has p k) _ λ has.
      elim has
        as (λ b. Ensures (Tried t0) (
          if b
          then (request_block2 fuel now k end_game t p >>= λ (err, t', p'). elim err [
            | some RequestError.eof ↦ try_active fuel now end_game active t' p'
            | none ↦ ok (some (none, t', p'), t', p')
          ])
          else try_active fuel now end_game active t p)) [
            | false ↦ try_active-outline active fuel now end_game t0 t p e
            | true ↦
                Ensures->>= (λ (r : Requested). outline r.1 ≡ outline t) (Tried t0)
                  (request_block2 fuel now k end_game t p) _
                  (request_block2-outline fuel now k end_game t p)
                  λ (err, t', p') same.
                    elim err
                      as (λ x. Ensures (Tried t0) (elim x [
                        | some RequestError.eof ↦ try_active fuel now end_game active t' p'
                        | none ↦ ok (some (none, t', p'), t', p')
                      ])) [
                        | none ↦ (same ∙ e, same ∙ e)
                        | some RequestError.eof ↦
                            try_active-outline active fuel now end_game t0 t' p' (same ∙ e)
                      ]
          ]

-- `RequestBlock` keeps the outline.
pub request_block-outline :
    (fuel now start : ℕ) (t : Session) (p : PeerState)
    → Ensures (λ (r : Requested). outline r.1 ≡ outline t) (request_block fuel now start t p)
unfolding request_block
request_block-outline fuel now start t p =
    let P = λ (r : Requested). outline r.1 ≡ outline t in
    let first = try_active-outline t.active_pieces fuel now false t t p refl in
    Ensures->>= (Tried t) P (try_active fuel now false t.active_pieces t p) _ first
      λ (returned, t1, p1) tried. elim (Option-cases returned) [
        | inr (result, e) ↦ let kept : Tried t (some result, t1, p1) = rw e at tried in rw e kept.1
        | inl e ↦ rw e (
            Ensures-any P (choose_piece start t1 p1) _ λ piece. elim (ℤ-cases piece) [
              | inl (i, f) ↦
                  let t2 = record t1 { active_pieces = put i (new_active t1 i) t1.active_pieces } in
                  rw f (
                    Ensures-weaken (λ (r : Requested). outline r.1 ≡ outline t2) P
                      (request_block2 fuel now i false t2 p1)
                      (request_block2-outline fuel now i false t2 p1) λ r same. same ∙ tried.0)
              | inr (i, f) ↦ rw f (
                  Ensures->>= (Tried t) P (try_active fuel now true t1.active_pieces t1 p1) _
                    (try_active-outline t1.active_pieces fuel now true t t1 p1 tried.0)
                    λ (returned', t2, p2) tried'. elim (Option-cases returned') [
                      | inl g ↦ rw g tried'.0
                      | inr (result, g) ↦
                          let kept : Tried t (some result, t2, p2) = rw g at tried' in rw g kept.1
                    ])
            ])
      ]
