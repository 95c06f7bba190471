-- ===== src/Download/Heard.antt =====
-- The messages to the other peers when a piece is complete, and the cancel notices.
use rakoshare.Base.{
  ℕ, ◌<◌, ◌≡◌, refl, inl, inr, List, [], ◌∷◌, arith, if◌then◌else◌, Bool, true, false, Bool-cases,
  none, some, Option, ok, ◌>>=◌, All,
}
use rakoshare.Bitset.{Bitset, test}
use rakoshare.Bitset.Valid.{is_set-test}
use rakoshare.Peer.{PeerState, put_uint32, send_message}
use rakoshare.Requesting.{Session, request_block_imp}
use rakoshare.Download.{Swarm, tell_known, cancel_others, has_request, tell, tell_all, tell_swarm}
use rakoshare.Download.Integrity.{HasBits}

tell-ok :
    (n piece : ℕ) (p : PeerState)
    → HasBits n p
    → piece < n
    → (p' : PeerState) × (tell piece p ≡ ok p')
unfolding tell
tell-ok n piece p h lt = go p.have (λ have e. h have e)
  where
    go :
        (known : Option Bitset)
        → ((have : Bitset) → known ≡ some have → have.n ≡ n)
        → (p' : PeerState) × (tell_known piece p known ≡ ok p')
    go none k = (p, refl)
    go (some have) k =
        let look = is_set-test have piece (omega (arith, k have refl)) in
        elim (Bool-cases (test have piece)) [
          | inl f ↦ (p, rw (look, f))
          | inr f ↦ (send_message (4 ∷ put_uint32 piece) p, rw (look, f))
        ]

tell_all-ok :
    (n piece : ℕ) (others : List PeerState)
    → All (HasBits n) others
    → piece < n
    → (others' : List PeerState) × (tell_all piece others ≡ ok others')
unfolding tell_all
tell_all-ok n piece [] h lt = ([], refl)
tell_all-ok n piece (p ∷ others) (a, h) lt =
    let (p', e) = tell-ok n piece p a lt in
    let (others', f) = tell_all-ok n piece others h lt in (p' ∷ others', rw (e, f))

-- Every peer's set, if it is known, has a bit for each of the pieces.
abbrev pub AreHeard : ℕ → Swarm → Type 0
AreHeard n w = HasBits n w.current × All (HasBits n) w.others

pub tell_swarm-ok :
    (n piece : ℕ) (w : Swarm)
    → AreHeard n w
    → piece < n
    → (w' : Swarm) × (tell_swarm piece w ≡ ok w')
unfolding tell_swarm
tell_swarm-ok n piece w (a, h) lt =
    let (p', e) = tell-ok n piece w.current a lt in
    let (others', f) = tell_all-ok n piece w.others h lt in go w.listed p' others' e f
  where
    go :
        (listed : Bool) (p' : PeerState) (others' : List PeerState)
        → tell piece w.current ≡ ok p'
        → tell_all piece w.others ≡ ok others'
        → (w' : Swarm) × (((if listed then tell piece w.current else ok w.current) >>= λ current.
              tell_all piece w.others >>= λ others.
              ok (record w { current = current; others = others }))
            ≡ ok w')
    go true p' others' e f = (record w { current = p'; others = others' }, rw (e, f))
    go false p' others' e f = (record w { others = others' }, rw f)

pub cancel_others-heard :
    (n key piece block : ℕ) (t : Session) (others : List PeerState)
    → All (HasBits n) others
    → All (HasBits n) (cancel_others t key piece block others)
unfolding cancel_others
cancel_others-heard n key piece block t [] h = tt
cancel_others-heard n key piece block t (p ∷ others) (a, h) = (
  elim (Bool-cases (has_request key p.our_requests)) [
    | inl e ↦ rw e (unfold request_block_imp send_message in a)
    | inr e ↦ rw e a
  ],
  cancel_others-heard n key piece block t others h,
)
