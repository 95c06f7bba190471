-- ===== src/Files/Names.antt =====
-- The names of a store's entries, and a change of one file of the disk.
use rakoshare.Base.{ℕ, ◌≡◌, refl, ap, ◌∙◌, true, false, Option, List, [], ◌∷◌, ◌++◌, All, arith}
use rakoshare.Files.{FileName, Disk, Located, FileStore, name_eq, update}
use rakoshare.Files.Flat.{IsBacked, content, flat}

pub name_eq_comm : (a b : FileName) → name_eq a b ≡ name_eq b a
unfolding name_eq
name_eq_comm [] [] = refl
name_eq_comm [] (y ∷ b) = refl
name_eq_comm (x ∷ a) [] = refl
name_eq_comm (x ∷ a) (y ∷ b) = ground (arith, name_eq_comm a b)

pub name_eq_refl : (a : FileName) → name_eq a a ≡ true
unfolding name_eq
name_eq_refl [] = refl
name_eq_refl (x ∷ a) = ground (arith, name_eq_refl a)

-- No entry of the store has this name.
abbrev pub Lacks : FileName → FileStore → Type 0
Lacks name f = All (λ (x : Located). name_eq x.entry.name name ≡ false) f

-- The names of the entries differ from one another.
abbrev pub IsDistinct : FileStore → Type 0
IsDistinct [] = Unit
IsDistinct (x ∷ f) = Lacks x.entry.name f × IsDistinct f

module _ (d : Disk) (name : FileName) (c : Option (List ℕ)) where
  pub update_self : update d name c name ≡ c
  unfolding update
  update_self = rw name_eq_refl

  pub update_other :
      (other : FileName) → name_eq name other ≡ false → update d name c other ≡ d other
  unfolding update
  update_other other e = rw e

  pub flat-update : (f : FileStore) → Lacks name f → flat (update d name c) f ≡ flat d f
  flat-update [] h = refl
  flat-update (x ∷ f) (e, h) =
      rw (update_other x.entry.name (name_eq_comm name x.entry.name ∙ e))
        (ap (λ t. content (d x.entry.name) ++ t) (flat-update f h))

  pub IsBacked-update : (f : FileStore) → Lacks name f → IsBacked d f → IsBacked (update d name c) f
  IsBacked-update [] h b = tt
  IsBacked-update (x ∷ f) (e, h) ((c', at, size), b) = (
    (c', update_other x.entry.name (name_eq_comm name x.entry.name ∙ e) ∙ at, size),
    IsBacked-update f h b,
  )
