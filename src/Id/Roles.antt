-- ===== src/Id/Roles.antt =====
-- The strings of the three roles give back what their role may know.
use rakoshare.Base.{
  take-eq_of_le, append-nil, ℕ, ◌-◌, ◌<◌, ◌≡◌, refl, sym, ap, subst, ◌∙◌, inl, inr, List, ◌∷◌,
  length, take, drop, length-take, length-replicate, length-append, arith, leb, Bool, true, false,
  Option-cases, Option, none, some, ok,
}
use rakoshare.Id.{
  Crypto, Identity, IdError, empty_id, zeros, to_array, private_key_size, public_key_size,
  infohash_size, derive_scrypt, derive_from_seed, new_id, wrs, rs, s, with_psk, with_public_key,
  write_read_store_id, read_store_id, store_id, of_role, new_from_string,
}

-- An identity with every right, whose keys are derived from the private one.
pub record IsDerived (c : Crypto) (id : Identity) : Type 0 where
  pub writes : id.can_write ≡ true
  pub reads : id.can_read ≡ true
  pub size : length id.priv ≡ private_key_size
  pub key_size : length id.pub_key ≡ public_key_size
  pub key : drop 32 id.priv ≡ id.pub_key
  pub shared : derive_scrypt c id.pub_key ≡ some id.psk
  pub shared_size : length id.psk ≡ 32
  pub hash :
      (out : List ℕ) × (derive_scrypt c id.psk ≡ some out) × (id.infohash ≡ take infohash_size out)

length-to_array : (n : ℕ) (bytes : List ℕ) → length (to_array n bytes) ≡ n
length-to_array n bytes = omega (
  arith,
  length-append (take n bytes) (zeros (n - length bytes)),
  length-take n bytes,
  length-replicate {A = ℕ} (n - length bytes) 0,
)

pub to_array-whole : (n : ℕ) (bytes : List ℕ) → length bytes ≡ n → to_array n bytes ≡ bytes
to_array-whole n bytes h =
    let none_left : n - length bytes ≡ 0 = omega arith in
    rw (take-eq_of_le n bytes (omega arith), none_left) (append-nil bytes)

-- What `RS` and `S` of an identity tell.
abbrev pub reader : Identity → Identity
reader id = record empty_id {
  pub_key = id.pub_key;
  can_read = true;
  psk = id.psk;
  infohash = id.infohash;
}

abbrev pub storer : Identity → Identity
storer id = record empty_id { psk = id.psk; infohash = id.infohash }

derive_scrypt-size :
    (c : Crypto) (input out : List ℕ) → derive_scrypt c input ≡ some out → length out ≡ 32
unfolding derive_scrypt
derive_scrypt-size c input out h = elim (Option-cases (c.scrypt input)) [
  | inl e ↦ cc (rw (derive_scrypt, e) at h)
  | inr (raw, e) ↦
      let same : to_array 32 raw ≡ out = cc (rw (derive_scrypt, e) at h) in
      sym (ap (λ (xs : List ℕ). length xs) same) ∙ length-to_array 32 raw
]

abbrev with_rights : Identity → Bool → Bool → Identity × Option IdError
with_rights id writes reads = (record id { can_write = writes; can_read = reads }, none)

with_psk_lem :
    (c : Crypto) (id base : Identity)
    → IsDerived c id
    → with_psk c base id.psk ≡ (record base { psk = id.psk; infohash = id.infohash }, none)
unfolding with_psk
with_psk_lem c id base d = let (out, e, f) = d.hash in rw (with_psk, e, f) refl

module _ (c : Crypto)
    (back : (b : ℕ) (bytes : List ℕ) → 0 < b → c.decode (c.encode (b ∷ bytes)) ≡ some (b ∷ bytes))
    (long : (b : ℕ) (bytes : List ℕ)
      → 0 < b
      → 0 < length bytes
      → 1 < length (c.encode (b ∷ bytes))) where
  encoded :
      (b : ℕ) (bytes : List ℕ)
      → 0 < b
      → 0 < length bytes
      → new_from_string c (c.encode (b ∷ bytes)) ≡ of_role c (b ∷ bytes)
  unfolding new_from_string
  encoded b bytes h some_bytes =
      let l : leb (length (c.encode (b ∷ bytes))) 1 ≡ false =
        ground (arith, long b bytes h some_bytes) in
      rw (new_from_string, l, back b bytes h) refl

  -- Of an identity whose keys are derived, `NewFromString` gives back the whole from `WRS`, what a
  -- reader knows from `RS`, and what a store knows from `S`, without an error.
  pub new_from_string-IsDerived :
      (id : Identity)
      → IsDerived c id
      → (new_from_string c (wrs c id) ≡ ok (id, none))
        × (new_from_string c (rs c id) ≡ ok (reader id, none))
        × (new_from_string c (s c id) ≡ ok (storer id, none))
  unfolding wrs rs s of_role write_read_store_id read_store_id store_id with_public_key
  new_from_string-IsDerived id d =
      let base = record empty_id { priv = id.priv; can_write = true } in
      let known : with_public_key c base id.pub_key ≡ (id, none) =
        rw (with_public_key, d.shared)
          (with_psk_lem c id (record base { pub_key = id.pub_key; can_read = true }) d
            ∙ whole id d.writes d.reads) in
      let checked : write_read_store_id c id.priv ≡ with_public_key c base (drop 32 id.priv) =
        rw (write_read_store_id, d.size) refl in
      let read : rs c id ≡ c.encode (2 ∷ id.pub_key) = rw (rs, d.reads) refl in
      let written : wrs c id ≡ c.encode (1 ∷ id.priv) = rw (wrs, d.writes) refl in
      (
        ap (λ (x : List ℕ). new_from_string c x) written
            ∙ (encoded 1 id.priv (omega arith) (omega (arith, d.size))
                ∙ ap ok (checked ∙ (ap (λ (k : List ℕ). with_public_key c base k) d.key ∙ known))),
        ap (λ (x : List ℕ). new_from_string c x) read
            ∙ (encoded 2 id.pub_key (omega arith) (omega (arith, d.key_size))
                ∙ ap ok (
                    rw (of_role, read_store_id, d.key_size, with_public_key, d.shared)
                      (with_psk_lem c id (record empty_id { pub_key = id.pub_key; can_read = true })
                        d))),
        encoded 4 id.psk (omega arith) (omega (arith, d.shared_size))
            ∙ ap ok (rw (of_role, store_id, d.shared_size) (with_psk_lem c id empty_id d)),
      )
    where
      whole :
          (id : Identity)
          → id.can_write ≡ true
          → id.can_read ≡ true
          → with_rights id true true ≡ (id, none)
      whole id a b =
          ap (λ (w : Bool). with_rights id w true) (sym a)
          ∙ ap (λ (r : Bool). with_rights id id.can_write r) (sym b)

-- What `New` builds without an error has all its keys derived.
pub new_id-IsDerived :
    (c : Crypto) (seed : Option (List ℕ)) (id : Identity)
    → ((input key priv : List ℕ)
        → c.generate_key input ≡ some (key, priv)
        → (length priv ≡ private_key_size) × (length key ≡ public_key_size) × (drop 32 priv ≡ key))
    → new_id c seed ≡ (id, none)
    → IsDerived c id
unfolding new_id derive_from_seed
new_id-IsDerived c none id keys h = absurd (cc h)
new_id-IsDerived c (some seed) id keys h = elim (Option-cases (c.generate_key (take 32 seed))) [
  | inl e ↦ absurd (cc (rw (new_id, derive_from_seed, e) at h))
  | inr ((key, priv), e) ↦ elim (Option-cases (derive_scrypt c key)) [
    | inl f ↦ absurd (cc (rw (new_id, derive_from_seed, e, f) at h))
    | inr (psk, f) ↦ elim (Option-cases (derive_scrypt c psk)) [
      | inl g ↦ absurd (cc (rw (new_id, derive_from_seed, e, f, g) at h))
      | inr (out, g) ↦
          let (size, key_size, tail) = keys (take 32 seed) key priv e in
          let same =
            ap (λ (p : Identity × Option IdError). p.0)
              (rw (new_id, derive_from_seed, e, f, g) at h) in
          subst (λ (i : Identity). IsDerived c i) same
            (record {
              writes = refl;
              reads = refl;
              size = size;
              key_size = key_size;
              key = tail;
              shared = f;
              shared_size = derive_scrypt-size c key psk f;
              hash = (out, g, refl);
            })
    ]
  ]
]
