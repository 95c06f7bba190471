-- ===== src/Id/Tests.antt =====
-- Runs of the identities, and the theorems at concrete inputs.
use rakoshare.Base.{ℕ, ◌≡◌, refl, ◌⊎◌, List, ◌∷◌, replicate, arith, false, none, some, ok}
use rakoshare.Id.{
  Identity, new_from_string, wrs, rs, s, derive_scrypt, empty_id, with_psk, store_id, of_role,
}
use rakoshare.Id.Rights.{HasRights, new_from_string-HasRights}
use rakoshare.Id.Roles.{reader, storer, new_from_string-IsDerived}
use rakoshare.Id.Sample.{crypto, owner, owner-IsDerived}

new_from_string-IsDerived_example :
    (new_from_string crypto (wrs crypto owner) ≡ ok (owner, none))
    × (new_from_string crypto (rs crypto owner) ≡ ok (reader owner, none))
    × (new_from_string crypto (s crypto owner) ≡ ok (storer owner, none))
new_from_string-IsDerived_example =
    new_from_string-IsDerived crypto (λ b bytes h. refl) (λ b bytes h some_bytes. omega arith) owner
      owner-IsDerived

abbrev stored : List ℕ
stored = 49 ∷ 4 ∷ replicate 32 9

abbrev stored_id : Identity
stored_id = record empty_id { psk = replicate 32 9; infohash = replicate 20 9 }

new_from_string-HasRights_example :
    (false ≡ false) × (false ≡ false)
    ⊎ (decoded : List ℕ) × (some (4 ∷ replicate 32 9) ≡ some decoded) × HasRights decoded stored_id
new_from_string-HasRights_example =
    new_from_string-HasRights crypto stored (stored_id, none)
      (unfold new_from_string of_role store_id with_psk derive_scrypt in refl)
