-- ===== src/ShareSession/Expiry.antt =====
-- Which peers the timers of a share's database delete.
use rakoshare.Base.{
  ℕ, ◌+◌, ◌*◌, ◌≡◌, refl, ap, ◌∙◌, List, [], ◌∷◌, ◌++◌, Bool, true, false, ◌&&◌, Bool-cases, inl,
  inr,
}
use rakoshare.Files.{name_eq}
use rakoshare.Files.Names.{name_eq_refl}
use rakoshare.Control.{Text}
use rakoshare.ShareSession.{
  Tables, PeerRow, Sql, rows_without, save_peer, delete_peer, on_timer, fire,
}

rows_without-append :
    (goes : PeerRow → Bool) (xs ys : List PeerRow)
    → rows_without goes (xs ++ ys) ≡ rows_without goes xs ++ rows_without goes ys
unfolding rows_without
rows_without-append goes [] ys = refl
rows_without-append goes (r ∷ xs) ys = elim (Bool-cases (goes r)) [
  | inl e ↦ rw e (rows_without-append goes xs ys)
  | inr e ↦ rw e (ap (◌∷◌ r) (rows_without-append goes xs ys))
]

-- Of rows that have lost those with an address, none goes that is asked for by it.
rows_without-rows_without :
    (goes also : PeerRow → Bool) (rows : List PeerRow)
    → rows_without (λ r. goes r && also r) (rows_without goes rows) ≡ rows_without goes rows
unfolding rows_without
rows_without-rows_without goes also [] = refl
rows_without-rows_without goes also (r ∷ rows) = elim (Bool-cases (goes r)) [
  | inl e ↦ rw e (rows_without-rows_without goes also rows)
  | inr e ↦ rw (e, e) (ap (◌∷◌ r) (rows_without-rows_without goes also rows))
]

-- The timer of a peer that was saved again meanwhile, at a time that is written differently, deletes
-- nothing.
on_timer-save_peer :
    (sql : Sql) (keep : Bool) (peer : Text) (before now : ℕ) (t : Tables)
    → name_eq
        (sql.column (sql.format (now + 24 * 3600)))
        (sql.column (sql.format (before + 24 * 3600)))
      ≡ false
    → on_timer sql keep before peer (save_peer sql now peer t) ≡ save_peer sql now peer t
unfolding on_timer delete_peer save_peer
on_timer-save_peer sql true peer before now t e = refl
on_timer-save_peer sql false peer before now t e =
    let host = sql.column peer in
    let until = sql.column (sql.format (before + 24 * 3600)) in
    let new_row : PeerRow = record {
      host_port = host;
      valid_until = sql.column (sql.format (now + 24 * 3600));
    } in
    let kept = rows_without (λ r. name_eq r.host_port host) t.peers in
    let stays : rows_without (λ r. name_eq r.host_port host && name_eq r.valid_until until)
          (new_row ∷ [])
        ≡ new_row ∷ [] =
      unfold rows_without in rw (name_eq_refl host, e) refl in
    ap (λ (rows : List PeerRow). record t { peers = rows })
      (rows_without-append (λ r. name_eq r.host_port host && name_eq r.valid_until until) kept
          (new_row ∷ [])
        ∙ (ap
              (λ (rows : List PeerRow).
                rows
                ++ rows_without (λ r. name_eq r.host_port host && name_eq r.valid_until until)
                    (new_row ∷ []))
              (rows_without-rows_without (λ r. name_eq r.host_port host)
                (λ r. name_eq r.valid_until until) t.peers)
            ∙ ap (λ (rows : List PeerRow). kept ++ rows) stays))

rows_without-twice :
    (goes : PeerRow → Bool) (rows : List PeerRow)
    → rows_without goes (rows_without goes rows) ≡ rows_without goes rows
unfolding rows_without
rows_without-twice goes [] = refl
rows_without-twice goes (r ∷ rows) = elim (Bool-cases (goes r)) [
  | inl e ↦ rw e (rows_without-twice goes rows)
  | inr e ↦ rw (e, e) (ap (◌∷◌ r) (rows_without-twice goes rows))
]

-- However many of the timers of `watchPeers` fire, they delete the last peer of the table and no other.
fire-last :
    (sql : Sql) (last : PeerRow) (eol : ℕ) (timers : List ℕ) (t : Tables)
    → fire sql last (eol ∷ timers) t ≡ delete_peer sql last.host_port last.valid_until t
unfolding fire
fire-last sql last eol [] t = refl
fire-last sql last eol (eol' ∷ timers) t =
    fire-last sql last eol' timers (delete_peer sql last.host_port last.valid_until t)
    ∙ (unfold delete_peer in
        ap (λ (rows : List PeerRow). record t { peers = rows }) (rows_without-twice _ t.peers))
