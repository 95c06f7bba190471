-- ===== src/Active/Normal.antt =====
-- The normal choice of a block, and the loop of `RequestBlock2` outside the endgame.
use rakoshare.Base.{
  ℕ, zero, suc, ◌+◌, ◌≤◌, ◌<◌, ◌≡◌, refl, ap, false, List, [], ◌∷◌, length, arith, if◌then◌else◌, ℤ,
  pos, negsuc, ok,
}
use rakoshare.Active.{is_zero, choose_normal, choose_block, request_loop}

-- The blocks, counted from `i`, that nobody downloads.
abbrev pub idle : ℕ → List ℤ → List ℕ
idle i [] = []
idle i (v ∷ counts) = if is_zero v then i ∷ idle (i + 1) counts else idle (i + 1) counts

-- The counts after every idle block has been requested once.
abbrev pub filled : List ℤ → List ℤ
filled [] = []
filled (v ∷ counts) = (if is_zero v then pos 1 else v) ∷ filled counts

-- What one choice does to the idle blocks.
pub data Chosen (i : ℕ) (counts : List ℤ) : ℤ → List ℤ → Type 0 where
  one :
      (j : ℕ) (rest : List ℤ)
      → idle i counts ≡ j ∷ idle i rest
      → filled rest ≡ filled counts
      → Chosen i counts (pos j) rest
  nothing : idle i counts ≡ [] → filled counts ≡ counts → Chosen i counts (negsuc 0) counts

Chosen-later :
    (i : ℕ) (v : ℤ) (counts : List ℤ) (index : ℤ) (rest : List ℤ)
    → is_zero v ≡ false
    → Chosen (i + 1) counts index rest
    → Chosen i (v ∷ counts) index (v ∷ rest)
Chosen-later i v counts (pos j) rest e (one _ _ h k) =
    one j (v ∷ rest) (rw e h) (rw e (ap (◌∷◌ v) k))
Chosen-later i v counts (negsuc n) rest e (nothing h k) = nothing (rw e h) (rw e (ap (◌∷◌ v) k))

-- `chooseBlockToDownloadNormal` takes the first idle block and raises its count to one; where no
-- block is idle it returns -1 and changes nothing.
pub choose_normal-Chosen :
    (i : ℕ) (counts : List ℤ)
    → Chosen i counts (choose_normal i counts).0 (choose_normal i counts).1
unfolding choose_normal
choose_normal-Chosen i [] = nothing refl refl
choose_normal-Chosen i (pos zero ∷ counts) = one i (pos 1 ∷ counts) refl refl
choose_normal-Chosen i (pos (suc n) ∷ counts) =
    Chosen-later i (pos (suc n)) counts _ _ refl (choose_normal-Chosen (i + 1) counts)
choose_normal-Chosen i (negsuc n ∷ counts) =
    Chosen-later i (negsuc n) counts _ _ refl (choose_normal-Chosen (i + 1) counts)

loop_step :
    (fuel : ℕ) (counts rest : List ℤ) (index : ℤ)
    → Chosen 0 counts index rest
    → ((next : List ℤ)
        → length (idle 0 next) < fuel
        → request_loop fuel false next ≡ ok (idle 0 next, filled next))
    → length (idle 0 counts) < suc fuel
    → choose_block false counts ≡ (index, rest)
    → request_loop (suc fuel) false counts ≡ ok (idle 0 counts, filled counts)
unfolding request_loop
loop_step fuel counts rest (pos j) (one _ _ h k) ih fits e =
    ground (arith, e, ih rest (omega (arith, ap (λ (l : List ℕ). length l) h)), h, k)
loop_step fuel counts rest (negsuc n) (nothing h k) ih fits e = ground (arith, e, h, k)

request_loop-filled :
    (fuel : ℕ) (counts : List ℤ)
    → length (idle 0 counts) < fuel
    → request_loop fuel false counts ≡ ok (idle 0 counts, filled counts)
request_loop-filled zero counts h = absurd (omega arith)
request_loop-filled (suc fuel) counts h =
    loop_step fuel counts _ _ (choose_normal-Chosen 0 counts) (request_loop-filled fuel) h
      (unfold choose_block in refl)

length-idle : (i : ℕ) (counts : List ℤ) → length (idle i counts) ≤ length counts
length-idle i [] = omega arith
length-idle i (v ∷ counts) = ground (arith, length-idle (i + 1) counts)

-- Outside the endgame the loop of `RequestBlock2` ends within one round more than the piece has
-- blocks: it requests every idle block once, in ascending order, and leaves no block idle.
pub request_loop-normal :
    (counts : List ℤ)
    → request_loop (length counts + 1) false counts ≡ ok (idle 0 counts, filled counts)
      × (idle 0 (filled counts) ≡ [])
request_loop-normal counts = (
  request_loop-filled (length counts + 1) counts (omega (arith, length-idle 0 counts)),
  idle-filled 0 counts,
)
  where
    idle-filled : (i : ℕ) (cs : List ℤ) → idle i (filled cs) ≡ []
    idle-filled i [] = refl
    idle-filled i (pos zero ∷ cs) = idle-filled (i + 1) cs
    idle-filled i (pos (suc n) ∷ cs) = idle-filled (i + 1) cs
    idle-filled i (negsuc n ∷ cs) = idle-filled (i + 1) cs
