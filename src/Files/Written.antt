-- ===== src/Files/Written.antt =====
-- What a write leaves, and the parts of the loop of `WriteAt` that write nothing.
use rakoshare.Base.{
  ℕ, zero, suc, ◌+◌, ◌-◌, ◌≤◌, ◌≡◌, refl, sym, ap, ◌∙◌, none, List, [], ◌∷◌, length, take, drop,
  arith, drop-nil, take-nil, ltb-eq-false, suc-==-zero,
}
use rakoshare.Files.{FileName, Disk, Located, FileStore, WriteResult, write_tail, write_loop}
use rakoshare.Files.Flat.{IsBacked, flat}
use rakoshare.Files.Overlay.{overlay, overlay-nil, overlay-empty}
use rakoshare.Files.Names.{Lacks}

-- What a write of `p` at `o` into the range of `f` leaves, when `n` bytes were written before.
pub record IsWritten (d : Disk) (f : FileStore) (p : List ℕ) (o n : ℕ) (r : WriteResult)
    : Type 0 where
  pub backed : IsBacked r.disk f
  pub bytes : flat r.disk f ≡ overlay (flat d f) p o
  pub others : (name : FileName) → Lacks name f → r.disk name ≡ d name
  pub outcome :
      r
      ≡ write_tail r.disk
          (drop (length (flat d f) - o) p)
          (n + length (take (length (flat d f) - o) p))

-- The tail of the write leaves the disk alone.
pub disk-write_tail : (d : Disk) (p : List ℕ) (n : ℕ) → (write_tail d p n).disk ≡ d
unfolding write_tail
disk-write_tail d [] n = refl
disk-write_tail d (zero ∷ p) n = disk-write_tail d p (n + 1)
disk-write_tail d (suc v ∷ p) n = refl

pub IsWritten-end : (d : Disk) (p : List ℕ) (o n : ℕ) → IsWritten d [] p o n (write_tail d p n)
unfolding write_tail
IsWritten-end d p o n = record {
  backed = tt;
  bytes = sym (overlay-empty p o);
  others = λ name h. ap (λ (t : Disk). t name) (disk-write_tail d p n);
  outcome =
      let e : 0 - o ≡ 0 = omega arith in
      let f : n + 0 ≡ n = omega arith in rw (disk-write_tail d p n, e, f);
}

-- Nothing to write.
pub IsWritten-nil :
    (d : Disk) (f : FileStore) (o n : ℕ)
    → IsBacked d f
    → IsWritten d f [] o n (record { disk = d; count = n; error = none })
unfolding write_tail
IsWritten-nil d f o n b = record {
  backed = b;
  bytes = sym (overlay-nil (flat d f) o);
  others = λ name h. refl;
  outcome =
      let stays : n + 0 ≡ n = omega arith in
      rw
        (drop-nil {A = ℕ} (length (flat d f) - o), take-nil {A = ℕ} (length (flat d f) - o), stays);
}

pub write_loop-nil :
    (d : Disk) (f : FileStore) (off n : ℕ)
    → write_loop d f [] off n ≡ record { disk = d; count = n; error = none }
unfolding write_loop write_tail
write_loop-nil d [] off n = refl
write_loop-nil d (x ∷ f) off n = refl

-- A file that ends at the offset, or before it, is passed over.
pub write_loop-skip :
    (d : Disk) (x : Located) (f : FileStore) (p : List ℕ) (off n : ℕ)
    → x.offset + x.entry.length ≤ off
    → write_loop d (x ∷ f) p off n ≡ write_loop d f p off n
write_loop-skip d x f [] off n h = write_loop-nil d (x ∷ f) off n ∙ sym (write_loop-nil d f off n)
write_loop-skip d x f (v ∷ q) off n h =
    unfold write_loop in
    rw (
      suc-==-zero (length q),
      ltb-eq-false off x.offset (omega arith),
      ltb-eq-false (off - x.offset) x.entry.length (omega arith),
    )
