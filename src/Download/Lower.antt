-- ===== src/Download/Lower.antt =====
-- Counts of downloaders that are not above those before.
use rakoshare.Base.{◌≤◌, ◌≡◌, refl, ◌∙◌, List, [], ◌∷◌, length, arith, ℤ, pos, negsuc}

-- No count rises, and a block that is downloaded, of which the count is -1, stays downloaded.
abbrev pub IsLower : ℤ → ℤ → Type 0
IsLower (pos m) (pos n) = m ≤ n
IsLower (negsuc m) (negsuc n) = m ≡ n
IsLower v' v = ⊥

abbrev pub AreLower : List ℤ → List ℤ → Type 0
AreLower [] [] = Unit
AreLower (v' ∷ counts') (v ∷ counts) = IsLower v' v × AreLower counts' counts
AreLower counts' counts = ⊥

pub IsLower-refl : (v : ℤ) → IsLower v v
IsLower-refl (pos n) = omega arith
IsLower-refl (negsuc n) = refl

pub AreLower-refl : (counts : List ℤ) → AreLower counts counts
AreLower-refl [] = tt
AreLower-refl (v ∷ counts) = (IsLower-refl v, AreLower-refl counts)

IsLower-trans : (a b c : ℤ) → IsLower a b → IsLower b c → IsLower a c
IsLower-trans (pos a) (pos b) (pos c) h k = omega arith
IsLower-trans (pos a) (pos b) (negsuc c) h k = k
IsLower-trans (pos a) (negsuc b) c h k = absurd h
IsLower-trans (negsuc a) (pos b) c h k = absurd h
IsLower-trans (negsuc a) (negsuc b) (pos c) h k = k
IsLower-trans (negsuc a) (negsuc b) (negsuc c) h k = h ∙ k

pub AreLower-trans : (a b c : List ℤ) → AreLower a b → AreLower b c → AreLower a c
AreLower-trans [] [] [] h k = tt
AreLower-trans [] [] (z ∷ c) h k = k
AreLower-trans [] (y ∷ b) c h k = absurd h
AreLower-trans (x ∷ a) [] c h k = absurd h
AreLower-trans (x ∷ a) (y ∷ b) [] h k = k
AreLower-trans (x ∷ a) (y ∷ b) (z ∷ c) (h, hs) (k, ks) =
    (IsLower-trans x y z h k, AreLower-trans a b c hs ks)

pub length-AreLower : (a b : List ℤ) → AreLower a b → length a ≡ length b
length-AreLower [] [] h = refl
length-AreLower [] (y ∷ b) h = absurd h
length-AreLower (x ∷ a) [] h = absurd h
length-AreLower (x ∷ a) (y ∷ b) (h, hs) = omega (arith, length-AreLower a b hs)
