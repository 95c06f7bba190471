-- ===== src/Id.antt =====
-- pkg/id/id.go: the identities of a share and their strings. ed25519, scrypt and base58 are
-- parameters. An array of bytes is a list, and so is a string.
pub mod Roles
pub mod Rights
pub mod Sample
mod Tests
use rakoshare.Base.{
  ℕ, zero, suc, ◌+◌, ◌-◌, List, [], ◌∷◌, ◌++◌, length, take, drop, replicate, leb, ◌==◌,
  if◌then◌else◌, Bool, true, false, not, Option, none, some, Run, ok, panic,
}

-- The library functions, with `none` for an error. `generate_key` reads its seed from a reader of
-- these bytes and returns the public and the private key; `scrypt` is `scrypt.Key` with the input as
-- password and as salt and the costs of the program.
pub record Crypto : Type 0 where
  pub generate_key : List ℕ → Option (List ℕ × List ℕ)
  pub scrypt : List ℕ → Option (List ℕ)
  pub encode : List ℕ → List ℕ
  pub decode : List ℕ → Option (List ℕ)

abbrev pub public_key_size : ℕ
public_key_size = 32

abbrev pub private_key_size : ℕ
private_key_size = 64

abbrev pub infohash_size : ℕ
infohash_size = 20

abbrev pub role_write_read_store : ℕ
role_write_read_store = 1

abbrev pub role_read_store : ℕ
role_read_store = 2

abbrev pub role_store : ℕ
role_store = 4

pub data IdError : Type 0 where
  invalid_id decode_failed key_failed read_failed : IdError

pub record Identity : Type 0 where
  pub priv : List ℕ
  pub can_write : Bool
  pub pub_key : List ℕ
  pub can_read : Bool
  pub psk : List ℕ
  pub infohash : List ℕ

abbrev pub zeros : ℕ → List ℕ
zeros n = replicate n 0

-- `Identity{}`, where the arrays are zeros and the infohash is nil.
abbrev pub empty_id : Identity
empty_id = record {
  priv = zeros private_key_size;
  can_write = false;
  pub_key = zeros public_key_size;
  can_read = false;
  psk = zeros 32;
  infohash = [];
}

-- `copy(a[:], bytes)` into an array of `n` zeros.
abbrev pub to_array : ℕ → List ℕ → List ℕ
to_array n bytes = take n bytes ++ zeros (n - length bytes)

module _ (c : Crypto) where
  unfoldable pub derive_scrypt : List ℕ → Option (List ℕ)
  derive_scrypt input = elim (c.scrypt input) [ none ↦ none | some out ↦ some (to_array 32 out) ]

  -- The identity that `New` builds of the results of `deriveFromSeed`, and whether that failed.
  unfoldable pub derive_from_seed : List ℕ → Identity × Option IdError
  unfolding derive_scrypt
  derive_from_seed seed =
      let id = record empty_id { can_write = true; can_read = true } in
      elim (c.generate_key (take 32 seed)) [
        | none ↦ (id, some key_failed)
        | some (key, priv) ↦
            let id = record id { priv = priv; pub_key = key } in
            elim (derive_scrypt key) [
              | none ↦ (id, some key_failed)
              | some psk ↦
                  let id = record id { psk = psk } in
                  elim (derive_scrypt psk) [
                    | none ↦ (id, some key_failed)
                    | some out ↦ (record id { infohash = take infohash_size out }, none)
                  ]
            ]
      ]

  -- `New`, where `seed` is what the random reader gives, `none` for an error.
  unfoldable pub new_id : Option (List ℕ) → Identity × Option IdError
  unfolding derive_from_seed
  new_id none = (empty_id, some read_failed)
  new_id (some seed) = derive_from_seed seed

  unfoldable pub wrs : Identity → List ℕ
  wrs id = if not id.can_write then [] else c.encode (role_write_read_store ∷ id.priv)

  unfoldable pub rs : Identity → List ℕ
  rs id = if not id.can_read then [] else c.encode (role_read_store ∷ id.pub_key)

  unfoldable pub s : Identity → List ℕ
  s id = c.encode (role_store ∷ id.psk)

  -- What the cases of `NewFromString` do with a pre-shared key: an error of scrypt is stored in a
  -- variable of the case, and the call returns the empty identity and no error.
  unfoldable pub with_psk : Identity → List ℕ → Identity × Option IdError
  unfolding derive_scrypt
  with_psk id psk = elim (derive_scrypt psk) [
    | none ↦ (empty_id, none)
    | some out ↦ (record id { psk = psk; infohash = take infohash_size out }, none)
  ]

  unfoldable pub with_public_key : Identity → List ℕ → Identity × Option IdError
  unfolding with_psk
  with_public_key id key = elim (derive_scrypt key) [
    | none ↦ (empty_id, none)
    | some psk ↦ with_psk (record id { pub_key = key; can_read = true }) psk
  ]

  unfoldable pub write_read_store_id : List ℕ → Identity × Option IdError
  unfolding with_public_key
  write_read_store_id priv =
      if not (length priv == private_key_size)
      then (empty_id, some invalid_id)
      else with_public_key (record empty_id { priv = priv; can_write = true }) (drop 32 priv)

  unfoldable pub read_store_id : List ℕ → Identity × Option IdError
  unfolding with_public_key
  read_store_id key =
      if not (length key == public_key_size)
      then (empty_id, some invalid_id)
      else with_public_key empty_id key

  unfoldable pub store_id : List ℕ → Identity × Option IdError
  unfolding with_psk
  store_id psk =
      if not (length psk == 32) then (empty_id, some invalid_id) else with_psk empty_id psk

  -- The switch on the role. `decoded[0]` of an empty slice panics.
  unfoldable pub of_role : List ℕ → Run (Identity × Option IdError)
  unfolding write_read_store_id read_store_id store_id
  of_role [] = panic
  of_role (role ∷ decoded) =
      if role == role_write_read_store
      then ok (write_read_store_id decoded)
      else if role == role_read_store
      then ok (read_store_id decoded)
      else if role == role_store
      then ok (store_id decoded)
      else ok (empty_id, some invalid_id)

  unfoldable pub new_from_string : List ℕ → Run (Identity × Option IdError)
  unfolding of_role
  new_from_string input =
      if leb (length input) 1 then ok (empty_id, some invalid_id) else elim (c.decode input) [
        | none ↦ ok (empty_id, some decode_failed)
        | some decoded ↦ of_role decoded
      ]
