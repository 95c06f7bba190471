-- ===== src/Download/Released.antt =====
-- How many requests are given back: each takes one downloader from the count of its block.
use rakoshare.Base.{
  sym, ℕ, zero, suc, ◌+◌, ◌-◌, ◌/◌, ◌%◌, ◌^◌, ◌≡◌, refl, ◌∙◌, ap, List, [], ◌∷◌, get_elem?, arith,
  ◌==◌, ==_iff, if◌then◌else◌, Bool, true, false, Bool-cases, Option-cases, Option, none, some, ℤ,
  pos, negsuc, inl, inr, ok, Ensures, Ensures->>=, Ensures-weaken, Ensures-eq_ok, subst, ◌>>=◌,
}
use rakoshare.Active.{ActivePiece}
use rakoshare.Peer.{PeerState, standard_block_length}
use rakoshare.Requesting.{Session, lookup, put}
use rakoshare.Download.Returning.{release, remove_request, remove_each, remove_requests}
use rakoshare.Download.Release.{lookup-put, lookup-put_other}

-- A count that so many requests fewer stand for; that of a downloaded block stays.
abbrev pub lower_by : ℕ → Option ℤ → Option ℤ
lower_by k none = none
lower_by k (some (pos n)) = some (pos (n - k))
lower_by k (some (negsuc n)) = some (negsuc n)

abbrev pub count_at : Option ActivePiece → ℕ → Option ℤ
count_at none block = none
count_at (some v) block = get_elem? v.downloader_count block

-- The count of a block of a piece, if the piece is active.
abbrev pub count_of : Session → ℕ → ℕ → Option ℤ
count_of t piece block = count_at (lookup piece t.active_pieces) block

abbrev is_same : ℕ → ℕ → ℕ
is_same m n = if m == n then 1 else 0

-- How many of the requests that are due are of a block.
abbrev pub requests_of : (ℕ → Bool) → List (ℕ × ℕ) → ℕ → ℕ → ℕ
requests_of due [] piece block = 0
requests_of due ((key, time) ∷ requests) piece block =
    (if due time
      then (if key / 2 ^ 32 == piece
          then is_same (key % 2 ^ 32 / standard_block_length) block
          else 0)
      else 0)
    + requests_of due requests piece block

lower_by-zero : (o : Option ℤ) → lower_by 0 o ≡ o
lower_by-zero none = refl
lower_by-zero (some (pos n)) = let e : n - 0 ≡ n = omega arith in rw e refl
lower_by-zero (some (negsuc n)) = refl

lower_by-add : (k m : ℕ) (o : Option ℤ) → lower_by k (lower_by m o) ≡ lower_by (m + k) o
lower_by-add k m none = refl
lower_by-add k m (some (pos n)) = let e : n - m - k ≡ n - (m + k) = omega arith in rw e refl
lower_by-add k m (some (negsuc n)) = refl

abbrev Lowered : List ℤ → ℕ → List ℤ → Type 0
Lowered counts block counts' =
    (b : ℕ) → get_elem? counts' b ≡ lower_by (is_same block b) (get_elem? counts b)

Lowered-cons :
    (v : ℤ) (counts counts' : List ℤ) (block : ℕ)
    → Lowered counts block counts'
    → Lowered (v ∷ counts) (suc block) (v ∷ counts')
Lowered-cons v counts counts' block h zero =
    let far : is_same (suc block) zero ≡ 0 = ground arith in
    sym (ap (λ k. lower_by k (some v)) far ∙ lower_by-zero (some v))
Lowered-cons v counts counts' block h (suc b) =
    let same : is_same block b ≡ is_same (suc block) (suc b) = ground arith in
    h b ∙ ap (λ k. lower_by k (get_elem? counts b)) same

Lowered-head :
    (v v' : ℤ) (counts : List ℤ)
    → some v' ≡ lower_by 1 (some v)
    → Lowered (v ∷ counts) zero (v' ∷ counts)
Lowered-head v v' counts h zero = h
Lowered-head v v' counts h (suc b) =
    let far : is_same zero (suc b) ≡ 0 = ground arith in
    sym (ap (λ k. lower_by k (get_elem? counts b)) far ∙ lower_by-zero (get_elem? counts b))

release-Lowered :
    (counts : List ℤ) (block : ℕ) → Ensures (Lowered counts block) (release counts block)
unfolding release
release-Lowered [] block = tt
release-Lowered (pos zero ∷ counts) zero = Lowered-head (pos zero) (pos zero) counts refl
release-Lowered (pos (suc n) ∷ counts) zero =
    Lowered-head (pos (suc n)) (pos n) counts (ap (λ (k : ℕ). some (pos k)) (omega arith))
release-Lowered (negsuc n ∷ counts) zero = Lowered-head (negsuc n) (negsuc n) counts refl
release-Lowered (v ∷ counts) (suc block) =
    Ensures->>= (Lowered counts block) (Lowered (v ∷ counts) (suc block)) (release counts block) _
      (release-Lowered counts block) λ counts' h. Lowered-cons v counts counts' block h

abbrev pub Removed : (ℕ → ℕ → ℕ) → Session → Session → Type 0
Removed times t t' = (i b : ℕ) → count_of t' i b ≡ lower_by (times i b) (count_of t i b)

abbrev one_request : ℕ → ℕ → ℕ → ℕ → ℕ
one_request piece block i b = if piece == i then is_same block b else 0

put_count :
    (piece block : ℕ) (v : ActivePiece) (counts : List ℤ) (t : Session)
    → lookup piece t.active_pieces ≡ some v
    → Lowered v.downloader_count block counts
    → Removed (one_request piece block) t (record t {
      active_pieces = put piece (record v { downloader_count = counts }) t.active_pieces;
    })
put_count piece block v counts t e h i b =
    let v' = record v { downloader_count = counts } in
    elim (Bool-cases (piece == i)) [
      | inl same ↦
          let at : piece ≡ i = (==_iff piece i).0 same in
          let here : count_at (lookup piece (put piece v' t.active_pieces)) b
              ≡ lower_by (is_same block b) (count_at (lookup piece t.active_pieces) b) =
            rw (lookup-put piece v' t.active_pieces, e) (h b) in
          let one : one_request piece block i b ≡ is_same block b = rw same refl in
          rw (one, ← at) here
      | inr other ↦
          let none_less : one_request piece block i b ≡ 0 = rw other refl in
          rw (none_less, lookup-put_other piece i v' t.active_pieces other)
            (sym (lower_by-zero (count_of t i b)))
    ]

absent :
    (piece block : ℕ) (t : Session) (i b : ℕ)
    → lookup piece t.active_pieces ≡ none
    → count_of t i b ≡ lower_by (one_request piece block i b) (count_of t i b)
absent piece block t i b e = elim (Bool-cases (piece == i)) [
  | inl same ↦
      let at : piece ≡ i = (==_iff piece i).0 same in
      let here : count_of t piece b
          ≡ lower_by (one_request piece block piece b) (count_of t piece b) =
        rw e refl in
      subst (λ (j : ℕ). count_of t j b ≡ lower_by (one_request piece block j b) (count_of t j b)) at
        here
  | inr other ↦
      let none_less : one_request piece block i b ≡ 0 = rw other refl in
      rw none_less (sym (lower_by-zero (count_of t i b)))
]

remove_request-Removed :
    (piece block : ℕ) (t : Session)
    → Ensures (Removed (one_request piece block) t) (remove_request piece block t)
unfolding remove_request
remove_request-Removed piece block t = elim (Option-cases (lookup piece t.active_pieces)) [
  | inl e ↦ rw (remove_request, e) (λ i b. absent piece block t i b e)
  | inr (v, e) ↦
      rw (remove_request, e)
        (Ensures->>= (Lowered v.downloader_count block) (Removed (one_request piece block) t)
          (release v.downloader_count block) _ (release-Lowered v.downloader_count block)
          λ counts h. put_count piece block v counts t e h)
]

later :
    (due : ℕ → Bool) (key time : ℕ) (requests : List (ℕ × ℕ)) (i b : ℕ)
    → due time ≡ false
    → requests_of due ((key, time) ∷ requests) i b ≡ requests_of due requests i b
later due key time requests i b e =
    let none_more : 0 + requests_of due requests i b ≡ requests_of due requests i b = omega arith in
    rw e none_more

first :
    (due : ℕ → Bool) (key time : ℕ) (requests : List (ℕ × ℕ)) (i b : ℕ)
    → due time ≡ true
    → requests_of due ((key, time) ∷ requests) i b
      ≡ one_request (key / 2 ^ 32) (key % 2 ^ 32 / standard_block_length) i b
        + requests_of due requests i b
first due key time requests i b e = rw e refl

remove_each-Removed :
    (due : ℕ → Bool) (requests : List (ℕ × ℕ)) (t : Session)
    → Ensures (Removed (requests_of due requests) t) (remove_each due requests t)
unfolding remove_each
remove_each-Removed due [] t = λ i b. sym (lower_by-zero (count_of t i b))
remove_each-Removed due ((key, time) ∷ requests) t = elim (Bool-cases (due time)) [
  | inr e ↦
      let skipped : remove_each due ((key, time) ∷ requests) t ≡ remove_each due requests t =
        rw (remove_each, e) refl in
      let as_many = λ (i b : ℕ). later due key time requests i b e in
      rw skipped (
        Ensures-weaken (Removed (requests_of due requests) t)
          (Removed (requests_of due ((key, time) ∷ requests)) t) (remove_each due requests t)
          (remove_each-Removed due requests t)
          λ t' h i b. h i b ∙ ap (λ n. lower_by n (count_of t i b)) (sym (as_many i b)))
  | inl e ↦
      let piece = key / 2 ^ 32 in
      let block = key % 2 ^ 32 / standard_block_length in
      let taken : remove_each due ((key, time) ∷ requests) t
          ≡ (remove_request piece block t >>= λ t'. remove_each due requests t') =
        rw (remove_each, e) refl in
      let as_many = λ (i b : ℕ). first due key time requests i b e in
      rw taken (
        Ensures->>= (Removed (one_request piece block) t)
          (Removed (requests_of due ((key, time) ∷ requests)) t) (remove_request piece block t) _
          (remove_request-Removed piece block t)
          λ t1 h.
            Ensures-weaken (Removed (requests_of due requests) t1)
              (Removed (requests_of due ((key, time) ∷ requests)) t) (remove_each due requests t1)
              (remove_each-Removed due requests t1)
              λ t2 k i b.
                k i b
                ∙ ap (λ o. lower_by (requests_of due requests i b) o) (h i b)
                ∙ lower_by-add (requests_of due requests i b) (one_request piece block i b)
                    (count_of t i b)
                ∙ ap (λ n. lower_by n (count_of t i b)) (sym (as_many i b)))
]

abbrev pub always : ℕ → Bool
always time = true

-- `removeRequests` gives back every request of the peer, and nothing else.
pub remove_requests-Removed :
    (t t' : Session) (p p' : PeerState)
    → remove_requests t p ≡ ok (t', p')
    → Removed (requests_of always p.our_requests) t t'
unfolding remove_requests
remove_requests-Removed t t' p p' e =
    Ensures-eq_ok (λ (r : Session × PeerState). Removed (requests_of always p.our_requests) t r.0)
      (remove_requests t p) (t', p')
      (Ensures->>= (Removed (requests_of always p.our_requests) t)
        (λ (r : Session × PeerState). Removed (requests_of always p.our_requests) t r.0)
        (remove_each always p.our_requests t) _ (remove_each-Removed always p.our_requests t)
        λ t1 h. h)
      e
