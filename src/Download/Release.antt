-- ===== src/Download/Release.antt =====
-- A peer's requests are given back: no count of downloaders rises, and what is downloaded stays.
use rakoshare.Base.{
  ℕ, zero, suc, ◌+◌, ◌/◌, ◌%◌, ◌^◌, ◌<◌, ◌≡◌, refl, ◌∙◌, List, [], ◌∷◌, length, arith, ltb, ◌==◌,
  ==_iff, Bool, true, false, Bool-cases, Option-cases, Option, none, some, ℤ, pos, negsuc, ◌*◌, ok,
  All, inl, inr, subst,
}
use rakoshare.Active.{ActivePiece}
use rakoshare.Peer.{PeerState, standard_block_length}
use rakoshare.Requesting.{Session, lookup, put}
use rakoshare.Download.Returning.{
  release, remove_request, remove_each, remove_requests, do_check_requests,
}
use rakoshare.Download.Lower.{
  AreLower, IsLower-refl, AreLower-refl, AreLower-trans, length-AreLower,
}

pub lookup-put :
    (piece : ℕ) (a : ActivePiece) (active : List (ℕ × ActivePiece))
    → lookup piece (put piece a active) ≡ some a
unfolding put
lookup-put piece a [] = ground arith
lookup-put piece a ((k, b) ∷ active) = elim (Bool-cases (k == piece)) [
  | inl e ↦ rw (e, e) refl
  | inr e ↦ rw (e, e) (lookup-put piece a active)
]

pub lookup-put_other :
    (piece other : ℕ) (a : ActivePiece) (active : List (ℕ × ActivePiece))
    → (piece == other) ≡ false
    → lookup other (put piece a active) ≡ lookup other active
unfolding put
lookup-put_other piece other a [] h = rw h
lookup-put_other piece other a ((k, b) ∷ active) h = elim (Bool-cases (k == piece)) [
  | inl e ↦ let far : (k == other) ≡ false = ground arith in rw (e, far)
  | inr e ↦ elim (Bool-cases (k == other)) [
    | inl f ↦ rw (e, f)
    | inr f ↦ rw (e, f) (lookup-put_other piece other a active h)
  ]
]

release-AreLower :
    (counts : List ℤ) (block : ℕ)
    → block < length counts
    → (counts' : List ℤ) × (release counts block ≡ ok counts') × AreLower counts' counts
unfolding release
release-AreLower [] block h = absurd (omega arith)
release-AreLower (pos zero ∷ counts) zero h =
    (pos zero ∷ counts, refl, (omega arith, AreLower-refl counts))
release-AreLower (pos (suc n) ∷ counts) zero h =
    (pos n ∷ counts, refl, (omega arith, AreLower-refl counts))
release-AreLower (negsuc n ∷ counts) zero h =
    (negsuc n ∷ counts, refl, (refl, AreLower-refl counts))
release-AreLower (v ∷ counts) (suc block) h =
    let (counts', e, lower) = release-AreLower counts block (omega arith) in
    (v ∷ counts', rw e, (IsLower-refl v, lower))

-- An active piece stays active, with its length, and a piece that is not stays so.
abbrev pub IsKept : Option ActivePiece → Option ActivePiece → Type 0
IsKept none none = Unit
IsKept (some v') (some v) =
    AreLower v'.downloader_count v.downloader_count × (v'.piece_length ≡ v.piece_length)
IsKept v' v = ⊥

IsKept-refl : (v : Option ActivePiece) → IsKept v v
IsKept-refl none = tt
IsKept-refl (some v) = (AreLower-refl v.downloader_count, refl)

IsKept-trans : (a b c : Option ActivePiece) → IsKept a b → IsKept b c → IsKept a c
IsKept-trans none none c h k = k
IsKept-trans none (some b) c h k = absurd h
IsKept-trans (some a) none c h k = absurd h
IsKept-trans (some a) (some b) none h k = k
IsKept-trans (some a) (some b) (some c) (h, e) (k, f) =
    (AreLower-trans a.downloader_count b.downloader_count c.downloader_count h k, e ∙ f)

abbrev pub AreKept : List (ℕ × ActivePiece) → List (ℕ × ActivePiece) → Type 0
AreKept active' active = (i : ℕ) → IsKept (lookup i active') (lookup i active)

-- The piece has the block, if it is active.
abbrev pub HasBlock : Option ActivePiece → ℕ → Type 0
HasBlock none block = Unit
HasBlock (some v) block = block < length v.downloader_count

HasBlock-IsKept :
    (v' v : Option ActivePiece) (block : ℕ) → IsKept v' v → HasBlock v block → HasBlock v' block
HasBlock-IsKept none v block h k = tt
HasBlock-IsKept (some v') none block h k = absurd h
HasBlock-IsKept (some v') (some v) block (h, e) k =
    omega (arith, length-AreLower v'.downloader_count v.downloader_count h)

-- The piece of a request has its block, if it is active.
abbrev pub IsInPiece : List (ℕ × ActivePiece) → ℕ → Type 0
IsInPiece active key =
    HasBlock (lookup (key / 2 ^ 32) active) (key % 2 ^ 32 / standard_block_length)

remove_request-AreKept :
    (piece block : ℕ) (t : Session)
    → HasBlock (lookup piece t.active_pieces) block
    → (t' : Session) × (remove_request piece block t ≡ ok t')
      × AreKept t'.active_pieces t.active_pieces
unfolding remove_request
remove_request-AreKept piece block t h = elim (Option-cases (lookup piece t.active_pieces)) [
  | inl e ↦ (t, rw (remove_request, e) refl, λ i. IsKept-refl (lookup i t.active_pieces))
  | inr (v, e) ↦
      let (counts, f, lower) =
        release-AreLower v.downloader_count block
          (subst (λ (o : Option ActivePiece). HasBlock o block) e h) in
      let v' = record v { downloader_count = counts } in
      (
        record t { active_pieces = put piece v' t.active_pieces },
        rw (remove_request, e, f) refl,
        λ i. elim (Bool-cases (piece == i)) [
          | inl same ↦
              let at : piece ≡ i = (==_iff piece i).0 same in
              rw (← at) (rw (lookup-put piece v' t.active_pieces, e) (lower, refl))
          | inr other ↦
              rw (lookup-put_other piece i v' t.active_pieces other)
                (IsKept-refl (lookup i t.active_pieces))
        ],
      )
]

AreKept-All :
    (active' active : List (ℕ × ActivePiece)) (requests : List (ℕ × ℕ))
    → AreKept active' active
    → All (λ (r : ℕ × ℕ). IsInPiece active r.0) requests
    → All (λ (r : ℕ × ℕ). IsInPiece active' r.0) requests
AreKept-All active' active [] kept h = tt
AreKept-All active' active ((key, time) ∷ requests) kept (a, h) = (
  HasBlock-IsKept (lookup (key / 2 ^ 32) active') (lookup (key / 2 ^ 32) active) _
      (kept (key / 2 ^ 32)) a,
  AreKept-All active' active requests kept h,
)

remove_each-AreKept :
    (due : ℕ → Bool) (requests : List (ℕ × ℕ)) (t : Session)
    → All (λ (r : ℕ × ℕ). IsInPiece t.active_pieces r.0) requests
    → (t' : Session) × (remove_each due requests t ≡ ok t')
      × AreKept t'.active_pieces t.active_pieces
unfolding remove_each
remove_each-AreKept due [] t h = (t, refl, λ i. IsKept-refl (lookup i t.active_pieces))
remove_each-AreKept due ((key, time) ∷ requests) t (a, h) = elim (Bool-cases (due time)) [
  | inr e ↦ let (t', f, kept) = remove_each-AreKept due requests t h in (t', rw (e, f) refl, kept)
  | inl e ↦
      let (t1, f, kept) =
        remove_request-AreKept (key / 2 ^ 32) (key % 2 ^ 32 / standard_block_length) t a in
      let (t2, g, kept') =
        remove_each-AreKept due requests t1
          (AreKept-All t1.active_pieces t.active_pieces requests kept h) in
      (
        t2,
        rw (e, f, g) refl,
        λ i.
            IsKept-trans (lookup i t2.active_pieces) (lookup i t1.active_pieces)
              (lookup i t.active_pieces) (kept' i) (kept i),
      )
]

-- Where every active piece that the peer has requests of has the blocks, `doCheckRequests` returns,
-- no piece stops or starts being active, no count of downloaders rises, and no downloaded block is
-- forgotten.
pub do_check_requests-AreKept :
    (now : ℕ) (t : Session) (p : PeerState)
    → All (λ (r : ℕ × ℕ). IsInPiece t.active_pieces r.0) p.our_requests
    → (t' : Session) × (do_check_requests now t p ≡ ok t')
      × AreKept t'.active_pieces t.active_pieces
unfolding do_check_requests
do_check_requests-AreKept now t p h =
    remove_each-AreKept (λ time. ltb (time + 30 * 10 ^ 9) now) p.our_requests t h

pub remove_requests-AreKept :
    (t : Session) (p : PeerState)
    → All (λ (r : ℕ × ℕ). IsInPiece t.active_pieces r.0) p.our_requests
    → (t' : Session) × (remove_requests t p ≡ ok (t', record p { our_requests = [] }))
      × AreKept t'.active_pieces t.active_pieces
unfolding remove_requests
remove_requests-AreKept t p h =
    let (t', e, kept) = remove_each-AreKept (λ time. true) p.our_requests t h in
    (t', rw e refl, kept)
