-- ===== src/Bitset/Wire.antt =====
-- `NewFromBytes`, which reads the BITFIELD message of a peer.
use rakoshare.Base.{
  ℕ, ◌+◌, ◌*◌, ◌/◌, ◌%◌, ◌^◌, ◌≤◌, ◌<◌, ◌≡◌, ◌≢◌, ◌↔◌, refl, sym, ap, bit_and, false, not, none,
  some, List, length, get_or, length-replicate, subst, dec_le, arith, ◌==◌, if◌then◌else◌,
}
use rakoshare.Bitset.{Bitset, complement, test, new, new_from_bytes, spare_bits_set, bytes}
use rakoshare.Bitset.Bytes.{probe, probe-tail, apart_of_zero, zero_of_apart}
use rakoshare.Bitset.Valid.{IsShaped, IsValid, test_beyond}

-- The test of `NewFromBytes` on the last byte looks at every bit past the last member.
module _ (s : Bitset) (v : IsShaped s) where
  abbrev last_byte : ℕ
  last_byte = get_or s.b (s.n / 8) 0

  spare_bits_set-bit_and :
      spare_bits_set s
      ≡ (if s.n % 8 == 0 then false else not (bit_and last_byte (255 / 2 ^ (s.n % 8)) == 0))
  unfolding spare_bits_set
  spare_bits_set-bit_and = ground (arith, back)
    where
      back : complement (complement (255 / 2 ^ (s.n % 8))) ≡ 255 / 2 ^ (s.n % 8)
      back = omega arith

  tail_apart : spare_bits_set s ≡ false → s.n % 8 ≢ 0 → bit_and last_byte (255 / 2 ^ (s.n % 8)) ≡ 0
  tail_apart h ne = ground (arith, spare_bits_set-bit_and)

  spare_clear : spare_bits_set s ≡ false → (j : ℕ) → s.n ≤ j → test s j ≡ false
  unfolding test
  spare_clear h j p = elim (dec_le (length s.b) (j / 8)) [
    | yes beyond ↦ test_beyond s j v beyond
    | no within ↦
        let same : j / 8 ≡ s.n / 8 = omega (arith, v.size) in
        let ne : s.n % 8 ≢ 0 = omega (arith, v.size) in
        let apart =
          apart_of_zero last_byte (255 / 2 ^ (s.n % 8)) (v.small (s.n / 8)) (omega arith)
            (tail_apart h ne) (j % 8) (omega arith) in
        rw same (ground (arith, apart, probe-tail (s.n % 8) (j % 8)))
  ]

  clear_spare : ((j : ℕ) → s.n ≤ j → test s j ≡ false) → spare_bits_set s ≡ false
  unfolding test
  clear_spare h =
      let met =
        zero_of_apart last_byte (255 / 2 ^ (s.n % 8)) (v.small (s.n / 8)) (omega arith) λ k hk.
          let j = s.n / 8 * 8 + k in
          let e : j / 8 ≡ s.n / 8 = omega arith in
          let f : j % 8 ≡ k = omega arith in
          let at : s.n % 8 ≤ k → probe last_byte k ≡ false =
            λ past. rw (e, f) at (h j (omega arith)) in
          ground (arith, at, probe-tail (s.n % 8) k) in
      ground (arith, spare_bits_set-bit_and, met)

abbrev filled : ℕ → List ℕ → Bitset
filled n payload = record (new n) { b = payload }

-- A byte stream is a list of numbers below 256.
abbrev pub IsBytes : List ℕ → Type 0
IsBytes payload = (i : ℕ) → get_or payload i 0 < 256

filled-IsShaped :
    (n : ℕ) (payload : List ℕ)
    → IsBytes payload
    → length payload ≡ (n + 7) / 8
    → IsShaped (filled n payload)
unfolding new
filled-IsShaped n payload small size = record {
  size = size;
  end_index = refl;
  end_mask = refl;
  small = small;
}

new_from_bytes-eq :
    (n : ℕ) (payload : List ℕ)
    → new_from_bytes n payload ≡ (
        if (n + 7) / 8 == length payload
        then (if spare_bits_set (filled n payload) then none else some (filled n payload))
        else none)
unfolding new_from_bytes
new_from_bytes-eq n payload = rw length-replicate

accepted :
    (n : ℕ) (payload : List ℕ) (s : Bitset)
    → new_from_bytes n payload ≡ some s
    → (length payload ≡ (n + 7) / 8)
      × (spare_bits_set (filled n payload) ≡ false)
      × (filled n payload ≡ s)
accepted n payload s h = ground (arith, new_from_bytes-eq n payload)

n-filled : (n : ℕ) (payload : List ℕ) (s : Bitset) → filled n payload ≡ s → s.n ≡ n
unfolding new
n-filled n payload s e = sym (ap (λ (t : Bitset). t.n) e)

b-filled : (n : ℕ) (payload : List ℕ) (s : Bitset) → filled n payload ≡ s → s.b ≡ payload
b-filled n payload s e = sym (ap (λ (t : Bitset). t.b) e)

filled-eq :
    (n : ℕ) (payload : List ℕ) (s : Bitset)
    → IsValid s
    → s.n ≡ n
    → s.b ≡ payload
    → filled n payload ≡ s
unfolding new
filled-eq n payload s v e f = ground (arith, v.end_index, v.end_mask)

-- `NewFromBytes` accepts a byte stream exactly when it is the array of a well-formed bitset of
-- that size, and returns that bitset; all else gives nil.
pub new_from_bytes_iff :
    (n : ℕ) (payload : List ℕ) (s : Bitset)
    → IsBytes payload
    → (new_from_bytes n payload ≡ some s) ↔ (IsValid s × (s.n ≡ n) × (s.b ≡ payload))
new_from_bytes_iff n payload s small = (
  λ h.
      let (size, spare, e) = accepted n payload s h in
      let shape = filled-IsShaped n payload small size in
      (
        subst IsValid e
            (record { shape = shape; spare = spare_clear (filled n payload) shape spare }),
        n-filled n payload s e,
        b-filled n payload s e,
      ),
  λ (v, en, eb).
      let e = filled-eq n payload s v en eb in
      let clear : spare_bits_set (filled n payload) ≡ false =
        rw e (clear_spare s v.shape v.spare) in
      ground (arith, new_from_bytes-eq n payload, e, clear, v.size, ap length eb),
)

-- What `Bytes` gives, `NewFromBytes` reads back.
pub new_from_bytes-bytes : (s : Bitset) → IsValid s → new_from_bytes s.n (bytes s) ≡ some s
new_from_bytes-bytes s v = (new_from_bytes_iff s.n s.b s v.small).1 (v, refl, refl)
