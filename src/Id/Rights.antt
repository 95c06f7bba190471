-- ===== src/Id/Rights.antt =====
-- No string gives a right that its role does not have.
use rakoshare.Base.{
  ℕ, ◌<◌, ◌≡◌, refl, sym, ap, subst, ◌⊎◌, inl, inr, List, [], ◌∷◌, length, drop, arith, leb, ◌==◌,
  ==_iff, true, false, Bool-cases, Option-cases, Option, none, some, ok,
}
use rakoshare.Id.{
  Crypto, Identity, IdError, empty_id, private_key_size, public_key_size, role_store, derive_scrypt,
  with_psk, with_public_key, write_read_store_id, read_store_id, store_id, of_role, new_from_string,
}

-- What the rights of an identity say of the bytes that its string encodes.
abbrev pub HasRights : List ℕ → Identity → Type 0
HasRights decoded id =
    (id.can_write ≡ true → (decoded ≡ 1 ∷ id.priv) × (length id.priv ≡ private_key_size))
    × (id.can_read ≡ true
        → ((decoded ≡ 1 ∷ id.priv) × (id.pub_key ≡ drop 32 id.priv)) ⊎ (decoded ≡ 2 ∷ id.pub_key))

empty_id-HasRights : (decoded : List ℕ) → HasRights decoded empty_id
empty_id-HasRights decoded = (λ e. cc e, λ e. cc e)

-- The keys and the flags of an identity bear on its rights, not the rest.
with_psk-HasRights :
    (c : Crypto) (base : Identity) (psk decoded : List ℕ)
    → HasRights decoded base
    → HasRights decoded (with_psk c base psk).0
unfolding with_psk
with_psk-HasRights c base psk decoded h = elim (Option-cases (derive_scrypt c psk)) [
  | inl e ↦ rw (with_psk, e) (empty_id-HasRights decoded)
  | inr (out, e) ↦ rw (with_psk, e) h
]

with_public_key-HasRights :
    (c : Crypto) (base : Identity) (key decoded : List ℕ)
    → ((psk : List ℕ) → HasRights decoded (record base { pub_key = key; can_read = true }))
    → HasRights decoded (with_public_key c base key).0
unfolding with_public_key
with_public_key-HasRights c base key decoded h = elim (Option-cases (derive_scrypt c key)) [
  | inl e ↦ rw (with_public_key, e) (empty_id-HasRights decoded)
  | inr (psk, e) ↦
      rw (with_public_key, e)
        (with_psk-HasRights c (record base { pub_key = key; can_read = true }) psk decoded (h psk))
]

of_role-HasRights :
    (c : Crypto) (decoded : List ℕ) (r : Identity × Option IdError)
    → of_role c decoded ≡ ok r
    → HasRights decoded r.0
unfolding of_role write_read_store_id read_store_id store_id
of_role-HasRights c [] r h = absurd (cc h)
of_role-HasRights c (role ∷ bytes) r h = elim (Bool-cases (role == 1)) [
  | inl e ↦
      let one : role ≡ 1 = (==_iff role 1).0 e in
      let same : write_read_store_id c bytes ≡ r = cc (rw (of_role, e) at h) in
      subst (λ (x : Identity × Option IdError). HasRights (role ∷ bytes) x.0) same
        (elim (Bool-cases (length bytes == private_key_size)) [
          | inr f ↦ rw (write_read_store_id, f) (empty_id-HasRights (role ∷ bytes))
          | inl f ↦
              let size : length bytes ≡ private_key_size = (==_iff _ _).0 f in
              rw (write_read_store_id, f)
                (with_public_key-HasRights c (record empty_id { priv = bytes; can_write = true })
                  (drop 32 bytes) (role ∷ bytes)
                  (λ psk. (
                    λ w. (ap (λ (b : ℕ). b ∷ bytes) one, size),
                    λ r. inl (ap (λ (b : ℕ). b ∷ bytes) one, refl),
                  )))
        ])
  | inr e ↦ elim (Bool-cases (role == 2)) [
    | inl f ↦
        let two : role ≡ 2 = (==_iff role 2).0 f in
        let same : read_store_id c bytes ≡ r = cc (rw (of_role, e, f) at h) in
        subst (λ (x : Identity × Option IdError). HasRights (role ∷ bytes) x.0) same
          (elim (Bool-cases (length bytes == public_key_size)) [
            | inr g ↦ rw (read_store_id, g) (empty_id-HasRights (role ∷ bytes))
            | inl g ↦
                rw (read_store_id, g)
                  (with_public_key-HasRights c empty_id bytes (role ∷ bytes)
                    (λ psk. (λ w. cc w, λ r. inr (ap (λ (b : ℕ). b ∷ bytes) two))))
          ])
    | inr f ↦ elim (Bool-cases (role == 4)) [
      | inl g ↦
          let same : store_id c bytes ≡ r = cc (rw (of_role, e, f, g) at h) in
          subst (λ (x : Identity × Option IdError). HasRights (role ∷ bytes) x.0) same
            (elim (Bool-cases (length bytes == 32)) [
              | inr l ↦ rw (store_id, l) (empty_id-HasRights (role ∷ bytes))
              | inl l ↦
                  rw (store_id, l)
                    (with_psk-HasRights c empty_id bytes (role ∷ bytes)
                      (empty_id-HasRights (role ∷ bytes)))
            ])
      | inr g ↦
          let same : (empty_id, some IdError.invalid_id) ≡ r = cc (rw (of_role, e, f, g) at h) in
          subst (λ (x : Identity × Option IdError). HasRights (role ∷ bytes) x.0) same
            (empty_id-HasRights (role ∷ bytes))
    ]
  ]
]

-- No string gives a right that its role does not have: one that lets write is the base58 of the role
-- of a writer before a private key, which is the identity's; one that lets read is that, with the
-- last 32 bytes as the public key, or the base58 of the role of a reader before the public key.
pub new_from_string-HasRights :
    (c : Crypto) (input : List ℕ) (r : Identity × Option IdError)
    → new_from_string c input ≡ ok r
    → (r.0.can_write ≡ false) × (r.0.can_read ≡ false)
      ⊎ (decoded : List ℕ) × (c.decode input ≡ some decoded) × HasRights decoded r.0
unfolding new_from_string
new_from_string-HasRights c input r h = elim (Bool-cases (leb (length input) 1)) [
  | inl e ↦
      let same : (empty_id, some IdError.invalid_id) ≡ r = cc (rw (new_from_string, e) at h) in
      inl (
        ap (λ (x : Identity × Option IdError). x.0.can_write) (sym same),
        ap (λ (x : Identity × Option IdError). x.0.can_read) (sym same),
      )
  | inr e ↦ elim (Option-cases (c.decode input)) [
    | inl f ↦
        let same : (empty_id, some IdError.decode_failed) ≡ r =
          cc (rw (new_from_string, e, f) at h) in
        inl (
          ap (λ (x : Identity × Option IdError). x.0.can_write) (sym same),
          ap (λ (x : Identity × Option IdError). x.0.can_read) (sym same),
        )
    | inr (decoded, f) ↦
        inr (decoded, f, of_role-HasRights c decoded r (rw (new_from_string, e, f) at h))
  ]
]

-- Where scrypt fails for the key of a store, its string gives the empty identity and no error.
new_from_string-silent :
    (c : Crypto) (input psk : List ℕ)
    → 1 < length input
    → c.decode input ≡ some (role_store ∷ psk)
    → length psk ≡ 32
    → c.scrypt psk ≡ none
    → new_from_string c input ≡ ok (empty_id, none)
unfolding new_from_string of_role store_id with_psk derive_scrypt
new_from_string-silent c input psk l d size e =
    let long : leb (length input) 1 ≡ false = ground arith in
    rw (new_from_string, long, d, of_role, store_id, size, with_psk, derive_scrypt, e) refl
