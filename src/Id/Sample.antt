-- ===== src/Id/Sample.antt =====
-- An identity for the tests. The strings are the bytes after a first one, scrypt repeats the first
-- byte of its input, and a private key is its seed before a public key that repeats the seed's first
-- byte.
use rakoshare.Base.{
  ℕ, ◌≡◌, refl, subst, List, [], ◌∷◌, ◌++◌, length, replicate, get_or, drop, true, Option, none,
  some,
}
use rakoshare.Id.{Crypto, Identity, new_id, derive_from_seed, derive_scrypt}
use rakoshare.Id.Roles.{IsDerived, new_id-IsDerived}

abbrev pub tail_of : List ℕ → Option (List ℕ)
tail_of [] = none
tail_of (x ∷ xs) = some xs

abbrev pub crypto : Crypto
crypto = record {
  generate_key = λ seed.
      some (replicate 32 (get_or seed 0 0), replicate 32 7 ++ replicate 32 (get_or seed 0 0));
  scrypt = λ input. some (replicate 32 (get_or input 0 0));
  encode = λ bytes. 49 ∷ bytes;
  decode = tail_of;
}

abbrev pub IsPair : Option (List ℕ × List ℕ) → Type 0
IsPair none = Unit
IsPair (some (key, priv)) = (length priv ≡ 64) × (length key ≡ 32) × (drop 32 priv ≡ key)

abbrev pub owner : Identity
owner = record {
  priv = replicate 32 7 ++ replicate 32 5;
  can_write = true;
  pub_key = replicate 32 5;
  can_read = true;
  psk = replicate 32 5;
  infohash = replicate 20 5;
}

keys :
    (input key priv : List ℕ)
    → crypto.generate_key input ≡ some (key, priv)
    → (length priv ≡ 64) × (length key ≡ 32) × (drop 32 priv ≡ key)
keys input key priv h = subst (λ (o : Option (List ℕ × List ℕ)). IsPair o) h (refl, refl, refl)

pub owner-IsDerived : IsDerived crypto owner
unfolding new_id derive_from_seed derive_scrypt
owner-IsDerived = new_id-IsDerived crypto (some (replicate 32 5)) owner keys refl
