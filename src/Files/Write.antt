-- ===== src/Files/Write.antt =====
-- `fileStore.WriteAt` writes over the flat range of bytes.
use rakoshare.Base.{
  ℕ, ◌+◌, ◌-◌, ◌≤◌, ◌<◌, ◌≡◌, sym, ap, ◌∙◌, min, none, some, List, [], ◌∷◌, ◌++◌, length, take,
  drop, arith, length-append, length-take, length-drop, drop-drop, take-eq_of_le, drop-eq_of_le,
  drop-nil, ltb-eq-false, lt→ltb, suc-==-zero, dec_lt, dec_le,
}
use rakoshare.Files.{Disk, Located, FileStore, WriteResult, update, entry_write_at, write_loop}
use rakoshare.Files.Flat.{IsLaid, IsBacked, flat}
use rakoshare.Files.Overlay.{
  overlay, splice, write_content-splice, length-splice, overlay-nil, overlay-past, overlay-within,
  overlay-across,
}
use rakoshare.Files.Names.{
  Lacks, IsDistinct, update_self, update_other, flat-update, IsBacked-update,
}
use rakoshare.Files.Written.{
  IsWritten, IsWritten-end, IsWritten-nil, write_loop-nil, write_loop-skip,
}

-- One round of the loop whose file takes some of the bytes.
module _ (d : Disk) (x : Located) (f : FileStore) (v : ℕ) (q c : List ℕ) (off n : ℕ)
    (e : d x.entry.name ≡ some c) (size : length c ≡ x.entry.length) (low : x.offset ≤ off)
    (inside : off - x.offset < x.entry.length) where
  abbrev p : List ℕ
  p = v ∷ q

  abbrev o : ℕ
  o = off - x.offset

  abbrev chunk : ℕ
  chunk = min (length p) (x.entry.length - o)

  abbrev changed : List ℕ
  changed = splice c (take chunk p) o

  abbrev after : Disk
  after = update d x.entry.name (some changed)

  length-chunk : length (take chunk p) ≡ chunk
  length-chunk = omega (arith, length-take chunk p)

  here :
      entry_write_at d x.entry (take chunk p) o
      ≡ record { disk = after; count = chunk; error = none }
  here =
      unfold entry_write_at in
      rw (
        e,
        entry_write_at,
        write_content-splice c (take chunk p) o (omega (arith, size)),
        length-chunk,
      )

  write_loop-cons :
      write_loop d (x ∷ f) p off n ≡ write_loop after f (drop chunk p) (off + chunk) (n + chunk)
  write_loop-cons =
      unfold write_loop in
      rw (suc-==-zero (length q), ltb-eq-false off x.offset low, lt→ltb _ _ inside, here, here)

  length-changed : length changed ≡ x.entry.length
  length-changed = length-splice c (take chunk p) o (omega (arith, size, length-chunk)) ∙ size

  -- What the later rounds leave, seen from this one.
  IsWritten-cons :
      (p' : List ℕ) (o' n' : ℕ) (r : WriteResult)
      → Lacks x.entry.name f
      → IsWritten after f p' o' n' r
      → changed ++ overlay (flat d f) p' o' ≡ overlay (c ++ flat d f) p o
      → drop (length (flat d f) - o') p' ≡ drop (length (c ++ flat d f) - o) p
      → n' + length (take (length (flat d f) - o') p')
        ≡ n + length (take (length (c ++ flat d f) - o) p)
      → IsWritten d (x ∷ f) p o n r
  IsWritten-cons p' o' n' r lacks w hb ht hn =
      let same = flat-update d x.entry.name (some changed) f lacks in
      let own : r.disk x.entry.name ≡ some changed =
        w.others x.entry.name lacks ∙ update_self d x.entry.name (some changed) in
      record {
        backed = ((changed, own, length-changed), w.backed);
        bytes = rw (own, e, w.bytes, same) hb;
        others =
            λ name (ne, h). w.others name h ∙ update_other d x.entry.name (some changed) name ne;
        outcome = rw (e, ← ht, ← hn) (rw same at w.outcome);
      }

  IsWritten-within :
      IsBacked d f
      → Lacks x.entry.name f
      → length p ≤ x.entry.length - o
      → IsWritten d (x ∷ f) p o n (write_loop d (x ∷ f) p off n)
  IsWritten-within b lacks fits =
      let whole : chunk ≡ length p = omega arith in
      let all : take chunk p ≡ p = take-eq_of_le chunk p (omega arith) in
      let nothing : drop chunk p ≡ [] = drop-eq_of_le chunk p (omega arith) in
      rw (write_loop-cons, nothing, write_loop-nil)
        (IsWritten-cons [] 0 (n + chunk) _ lacks
          (IsWritten-nil after f 0 (n + chunk)
            (IsBacked-update d x.entry.name (some changed) f lacks b))
          (rw (overlay-nil (flat d f) 0, all)
            (sym (overlay-within c (flat d f) p o (omega (arith, size)))))
          (drop-nil {A = ℕ} (length (flat d f) - 0)
            ∙ sym (
                drop-eq_of_le (length (c ++ flat d f) - o) p
                  (omega (arith, size, length-append c (flat d f)))))
          (omega (
            arith,
            size,
            length-append c (flat d f),
            length-take {A = ℕ} (length (flat d f) - 0) [],
            length-take (length (c ++ flat d f) - o) p,
          )))

  IsWritten-across :
      Lacks x.entry.name f
      → x.entry.length - o ≤ length p
      → IsWritten after f
          (drop chunk p)
          0
          (n + chunk)
          (write_loop after f (drop chunk p) (off + chunk) (n + chunk))
      → IsWritten d (x ∷ f) p o n (write_loop d (x ∷ f) p off n)
  IsWritten-across lacks more w =
      let cut : chunk ≡ length c - o = omega (arith, size) in
      let z : length (flat d f) - 0 ≡ length (flat d f) = omega arith in
      let far : chunk + length (flat d f) ≡ length (c ++ flat d f) - o =
        omega (arith, size, length-append c (flat d f)) in
      rw write_loop-cons (
        IsWritten-cons (drop chunk p) 0 (n + chunk) _ lacks w
          (rw cut
            (sym (overlay-across c (flat d f) p o (omega (arith, size)) (omega (arith, size)))))
          (rw z (drop-drop (length (flat d f)) chunk p ∙ ap (λ k. drop k p) far))
          (omega (
            arith,
            z,
            far,
            length-take (length (flat d f) - 0) (drop chunk p),
            length-drop chunk p,
            length-take (length (c ++ flat d f) - o) p,
          )))

-- A write past a file leaves the file as it was.
IsWritten-past :
    (d : Disk) (x : Located) (f : FileStore) (p c : List ℕ) (o n : ℕ) (r : WriteResult)
    → d x.entry.name ≡ some c
    → length c ≡ x.entry.length
    → x.entry.length ≤ o
    → Lacks x.entry.name f
    → IsWritten d f p (o - x.entry.length) n r
    → IsWritten d (x ∷ f) p o n r
IsWritten-past d x f p c o n r e size out lacks w =
    let own : r.disk x.entry.name ≡ some c = w.others x.entry.name lacks ∙ e in
    let far : length (c ++ flat d f) - o ≡ length (flat d f) - (o - x.entry.length) =
      omega (arith, size, length-append c (flat d f)) in
    record {
      backed = ((c, own, size), w.backed);
      bytes =
          rw (own, e, w.bytes, ← size) (sym (overlay-past c (flat d f) p o (omega (arith, size))));
      others = λ name (ne, h). w.others name h;
      outcome = rw (e, far) w.outcome;
    }

-- From an offset in the range of the entries on, the loop writes over the flat range of bytes.
pub write_loop-IsWritten :
    (d : Disk) (f : FileStore) (base : ℕ) (p : List ℕ) (off n : ℕ)
    → IsLaid base f
    → IsBacked d f
    → IsDistinct f
    → base ≤ off
    → IsWritten d f p (off - base) n (write_loop d f p off n)
write_loop-IsWritten d [] base p off n laid b dis low =
    unfold write_loop in IsWritten-end d p (off - base) n
write_loop-IsWritten d (x ∷ f) base [] off n laid b dis low =
    rw (write_loop-nil d (x ∷ f) off n) (IsWritten-nil d (x ∷ f) (off - base) n b)
write_loop-IsWritten d (x ∷ f) base (v ∷ q) off n (at, laid) ((c, e, size), b) (lacks, dis) low =
    let o = off - x.offset in
    let k = x.entry.length - o in
    let p = v ∷ q in
    rw (← at) (elim (dec_lt o x.entry.length) [
      | no out ↦
          let z : off - (base + x.entry.length) ≡ o - x.entry.length = omega arith in
          rw (write_loop-skip d x f p off n (omega arith)) (
            IsWritten-past d x f p c o n _ e size (omega arith) lacks (
              rw z at (
                write_loop-IsWritten d f (base + x.entry.length) p off n laid b dis (omega arith))))
      | yes inside ↦ elim (dec_le (length p) k) [
        | yes fits ↦ IsWritten-within d x f v q c off n e size (omega arith) inside b lacks fits
        | no more ↦
            let m = chunk d x f v q c off n e size (omega arith) inside in
            let z : off + m - (base + x.entry.length) ≡ 0 = omega arith in
            IsWritten-across d x f v q c off n e size (omega arith) inside lacks (omega arith) (
              rw z at (
                write_loop-IsWritten (after d x f v q c off n e size (omega arith) inside) f
                  (base + x.entry.length) (drop m p) (off + m) (n + m) laid
                  (IsBacked-update d x.entry.name _ f lacks b) dis (omega arith)))
      ]
    ])
