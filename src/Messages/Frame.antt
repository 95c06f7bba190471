-- ===== src/Messages/Frame.antt =====
-- Giving requests back, and a HAVE message, change the active pieces of a session alone.
use rakoshare.Base.{
  ℕ, ◌/◌, ◌%◌, ◌^◌, ◌≡◌, refl, ◌∙◌, List, [], ◌∷◌, length, ◌==◌, Bool, true, false, not, Bool-cases,
  Option-cases, inl, inr, Option, none, some, pos, ok, ◌>>=◌, Ensures, Ensures->>=, Ensures-if,
  Ensures-any,
}
use rakoshare.Bitset.{is_set, set_bit, is_within_limits}
use rakoshare.Peer.{PeerState, Message, set_interested, standard_block_length}
use rakoshare.Requesting.{Session, Requested, lookup, put, new_active}
use rakoshare.Requesting.Frame.{outline, request_block2-outline}
use rakoshare.Serving.{Refusal, index_of}
use rakoshare.Download.Returning.{
  release, remove_request, remove_each, remove_requests, do_check_requests,
}
use rakoshare.Messages.{ask_for, on_have}

remove_request-outline :
    (piece block : ℕ) (t : Session)
    → Ensures (λ t'. outline t' ≡ outline t) (remove_request piece block t)
unfolding remove_request
remove_request-outline piece block t = elim (Option-cases (lookup piece t.active_pieces)) [
  | inl e ↦ rw (remove_request, e) refl
  | inr (v, e) ↦
      rw (remove_request, e)
        (Ensures-any (λ (t' : Session). outline t' ≡ outline t) (release v.downloader_count block) _
          λ counts. refl)
]

remove_each-outline :
    (due : ℕ → Bool) (requests : List (ℕ × ℕ)) (t0 t : Session)
    → outline t ≡ outline t0
    → Ensures (λ t'. outline t' ≡ outline t0) (remove_each due requests t)
unfolding remove_each
remove_each-outline due [] t0 t e = e
remove_each-outline due ((key, time) ∷ requests) t0 t e =
    let P = λ (t' : Session). outline t' ≡ outline t0 in
    let piece = key / 2 ^ 32 in
    let block = key % 2 ^ 32 / standard_block_length in
    Ensures-if P (due time) (remove_request piece block t >>= λ t'. remove_each due requests t')
      (remove_each due requests t)
      (Ensures->>= (λ (t' : Session). outline t' ≡ outline t) P (remove_request piece block t) _
        (remove_request-outline piece block t)
        λ t' same. remove_each-outline due requests t0 t' (same ∙ e))
      (remove_each-outline due requests t0 t e)

pub remove_requests-outline :
    (t : Session) (p : PeerState)
    → Ensures (λ (r : Session × PeerState). outline r.0 ≡ outline t) (remove_requests t p)
unfolding remove_requests
remove_requests-outline t p =
    Ensures->>= (λ (t' : Session). outline t' ≡ outline t)
      (λ (r : Session × PeerState). outline r.0 ≡ outline t) _ _
      (remove_each-outline (λ time. true) p.our_requests t t refl) λ t' same. same

pub do_check_requests-outline :
    (now : ℕ) (t : Session) (p : PeerState)
    → Ensures (λ t'. outline t' ≡ outline t) (do_check_requests now t p)
unfolding do_check_requests
do_check_requests-outline now t p = remove_each-outline _ p.our_requests t t refl

abbrev pub HaveAnswer : Type 0
HaveAnswer = Option Refusal × Session × PeerState

ask_for-outline :
    (fuel now piece : ℕ) (t : Session) (p : PeerState)
    → Ensures (λ (r : Session × PeerState). outline r.0 ≡ outline t) (ask_for fuel now piece t p)
unfolding ask_for
ask_for-outline fuel now piece t p =
    let t' = record t { active_pieces = put piece (new_active t piece) t.active_pieces } in
    Ensures->>= (λ (r : Requested). outline r.1 ≡ outline t')
      (λ (r : Session × PeerState). outline r.0 ≡ outline t) _ _
      (request_block2-outline fuel now piece false t' (set_interested true p)) λ r same. same

pub on_have-outline :
    (fuel now : ℕ) (msg : Message) (t : Session) (p : PeerState)
    → Ensures (λ (r : HaveAnswer). outline r.1 ≡ outline t) (on_have fuel now msg t p)
unfolding on_have
on_have-outline fuel now msg t p =
    let index = index_of msg in
    let P = λ (r : HaveAnswer). outline r.1 ≡ outline t in
    elim (Bool-cases (length msg == 5)) [
      | inr a ↦ rw (on_have, a) refl
      | inl a ↦ elim (Option-cases p.have) [
        | inl f ↦ rw (on_have, a, f) tt
        | inr (have, f) ↦
            rw (on_have, a, f)
              (Ensures-if P (not (is_within_limits have index))
                (ok (some Refusal.have_out_of_range, t, p)) _ refl
                (Ensures-any P (set_bit have (pos index)) _ λ have'.
                  let p' = record p { have = some have' } in
                  Ensures-if P p.am_interested (ok (none, t, p')) _ refl (
                    Ensures-any P (is_set t.piece_set (pos index)) _ λ ours.
                      Ensures-if P ours (ok (none, t, p')) _ refl (
                        Ensures->>= (λ (r : Session × PeerState). outline r.0 ≡ outline t) P _ _
                          (ask_for-outline fuel now index t p') λ r same. same))))
      ]
    ]
