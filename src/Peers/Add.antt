-- ===== src/Peers/Add.antt =====
-- Adding a peer: which peers are kept, and what becomes of the list.
use rakoshare.Base.{
  ℕ, zero, suc, ◌+◌, ◌≡◌, refl, ap, ◌∙◌, str_eq, List, [], ◌∷◌, ◌++◌, length, take, get_or, set,
  length-append, length-set, take-eq_of_le, arith, Bool, true, false, not, ◌&&◌, ◌||◌, Bool-cases,
  Option-cases, inl, inr, Option, none, some,
}
use rakoshare.Peers.{
  Peer, Peers, Net, ConnInfo, get_conn_info, is_preferred, scan, bind, remove_old, add,
}

-- A peer of the list has the new one's host and wins over it.
abbrev pub has_preferred : Net → ConnInfo → List Peer → Bool
has_preferred net this [] = false
has_preferred net this (p ∷ peers) =
    (elim (get_conn_info net p) [
      | none ↦ false
      | some old ↦ str_eq this.host old.host && is_preferred net old this
    ])
    || has_preferred net this peers

abbrev pub is_some : {A : Type 0} → Option A → Bool
is_some none = false
is_some (some a) = true

is_some-bind :
    {A B : Type 0} (o : Option A) (f : A → B) → is_some (bind o (λ a. some (f a))) ≡ is_some o
is_some-bind none f = refl
is_some-bind (some a) f = refl

is_some-scan :
    (net : Net) (this : ConnInfo) (i : ℕ) (peers : List Peer)
    → is_some (scan net this i peers) ≡ not (has_preferred net this peers)
unfolding scan
is_some-scan net this i [] = refl
is_some-scan net this i (p ∷ peers) = elim (Option-cases (get_conn_info net p)) [
  | inl e ↦ rw (scan, e) (is_some-scan net this (i + 1) peers)
  | inr (old, e) ↦ elim (Bool-cases (str_eq this.host old.host)) [
    | inr f ↦ rw (scan, e, f) (is_some-scan net this (i + 1) peers)
    | inl f ↦ elim (Bool-cases (is_preferred net old this)) [
      | inl g ↦ rw (scan, e, f, g)
      | inr g ↦
          rw (scan, e, f, g)
            (is_some-bind (scan net this (i + 1) peers) (◌∷◌ i)
              ∙ is_some-scan net this (i + 1) peers)
    ]
  ]
]

-- `Add` returns true exactly where the connection of the new peer has addresses and no peer of the
-- same host in the list wins over it.
add-keep :
    (net : Net) (peer : Peer) (lp : Peers)
    → (add net peer lp).0 ≡ (elim (get_conn_info net peer) [
      | none ↦ false
      | some this ↦ not (has_preferred net this lp.peer_list)
    ])
unfolding add
add-keep net peer lp = elim (Option-cases (get_conn_info net peer)) [
  | inl e ↦ rw (add, e)
  | inr (this, e) ↦
      let s = is_some-scan net this 0 lp.peer_list in
      elim (Option-cases (scan net this 0 lp.peer_list)) [
        | inl f ↦ rw (add, e, f) (rw f at s)
        | inr (indices, f) ↦ rw (add, e, f) (rw f at s)
      ]
]

set-append_last :
    (xs : List Peer) (i : ℕ) (last : Peer)
    → set (xs ++ (last ∷ [])) i last ≡ set xs i last ++ (last ∷ [])
set-append_last [] zero last = refl
set-append_last [] (suc i) last = refl
set-append_last (x ∷ xs) zero last = refl
set-append_last (x ∷ xs) (suc i) last = ap (◌∷◌ x) (set-append_last xs i last)

get_or-append_last :
    (xs : List Peer) (last d : Peer) → get_or (xs ++ (last ∷ [])) (length xs) d ≡ last
get_or-append_last [] last d = refl
get_or-append_last (x ∷ xs) last d = get_or-append_last xs last d

-- One deletion keeps the length and the last peer.
remove_old-next :
    (i : ℕ) (indices : List ℕ) (before : List Peer) (last : Peer) (closed : List ℕ)
    → (closed' : List ℕ) × (remove_old
          (i ∷ indices)
          (record { peer_list = before ++ (last ∷ []); closed = closed })
        ≡ remove_old indices
            (record { peer_list = set before i last ++ (last ∷ []); closed = closed' }))
unfolding remove_old
remove_old-next i indices [] last closed =
    (closed ++ ((get_or (last ∷ []) i last).handle ∷ []), rw (set-append_last [] i last))
remove_old-next i indices (b ∷ before) last closed =
    let whole = b ∷ (before ++ (last ∷ [])) in
    let n : length (before ++ (last ∷ [])) ≡ length (b ∷ before) =
      omega (arith, length-append before (last ∷ [])) in
    let at : get_or whole (length (before ++ (last ∷ []))) b ≡ last =
      rw n (get_or-append_last (b ∷ before) last b) in
    let cut : take (length (set whole i last)) (set whole i last) ≡ set whole i last =
      take-eq_of_le _ (set whole i last) (omega arith) in
    (closed ++ ((get_or whole i b).handle ∷ []), rw (at, cut, set-append_last (b ∷ before) i last))

remove_old-last :
    (indices : List ℕ) (before : List Peer) (last : Peer) (closed : List ℕ)
    → (before' : List Peer) × (length before' ≡ length before)
      × ((remove_old indices
            (record { peer_list = before ++ (last ∷ []); closed = closed })).peer_list
          ≡ before' ++ (last ∷ []))
remove_old-last [] before last closed = (before, refl, unfold remove_old in refl)
remove_old-last (i ∷ indices) before last closed =
    let (closed', e) = remove_old-next i indices before last closed in
    let (before', n, f) = remove_old-last indices (set before i last) last closed' in
    (before', n ∙ length-set before i last, rw e f)

-- Where `Add` keeps a peer, the list is one longer than before, and the peer that was its last
-- stands before the new one, closed or not.
add-last :
    (net : Net) (peer : Peer) (before : List Peer) (last : Peer) (closed : List ℕ)
    → (add net peer (record { peer_list = before ++ (last ∷ []); closed = closed })).0 ≡ true
    → (before' : List Peer) × (length before' ≡ length before)
      × ((add net peer (record { peer_list = before ++ (last ∷ []); closed = closed })).1.peer_list
          ≡ (before' ++ (last ∷ [])) ++ (peer ∷ []))
unfolding add
add-last net peer before last closed kept = elim (Option-cases (get_conn_info net peer)) [
  | inl e ↦ cc (rw (add, e) at kept)
  | inr (this, e) ↦ elim (Option-cases (scan net this 0 (before ++ (last ∷ [])))) [
    | inl f ↦ cc (rw (add, e, f) at kept)
    | inr (indices, f) ↦
        let (before', n, g) = remove_old-last indices before last closed in
        (before', n, rw (add, e, f, g))
  ]
]
