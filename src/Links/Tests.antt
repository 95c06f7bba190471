-- ===== src/Links/Tests.antt =====
-- Runs of the parsing of a link, and the theorem at a concrete input.
use rakoshare.Base.{
  ℕ, zero, suc, ◌≡◌, ◌≢◌, refl, [], ◌∷◌, ◌++◌, replicate, arith, All, none, some, ok, inl,
}
use rakoshare.Files.{name_eq}
use rakoshare.Control.{Text}
use rakoshare.Links.{
  MagnetError, KnownMeta, Loaded, Outside, btih, magnet_scheme, split_btih, info_hash_of,
  new_meta_info, raw_info_of,
}
use rakoshare.Links.Magnets.{new_meta_info-magnet}

-- A hash of zeros.
abbrev zeros : Text
zeros = replicate 40 b'0'

-- Every link has the topic of `zeros`, and is taken for its hash.
abbrev one_link : Outside
one_link = record {
  parse = λ s. some (record { xt = some ((btih ++ zeros) ∷ []); dn = none });
  get = λ s. none;
  read_file = λ s. none;
  decode = λ b. none;
  encode = λ i. none;
  sha1 = λ b. [];
  decode_info_hash = λ h. some (replicate 20 0);
}

abbrev known : KnownMeta
known = record {
  info = none;
  announce_list = [];
  encoding = [];
  info_hash = replicate 20 0;
  raw_info = none;
}

no_prefix : info_hash_of zeros ≡ inl MagnetError.no_btih
unfolding info_hash_of split_btih name_eq
no_prefix = refl

short_hash : info_hash_of (btih ++ (b'0' ∷ [])) ≡ inl MagnetError.bad_length
unfolding info_hash_of split_btih name_eq
short_hash = refl

no_file : new_meta_info one_link (b'x' ∷ []) ≡ ok Loaded.failed
unfolding new_meta_info name_eq
no_file = refl

no_raw_info : raw_info_of one_link known ≡ ok ([], known)
unfolding raw_info_of
no_raw_info = refl

no_letter : (n : ℕ) → All (λ (c : ℕ). c ≢ b'u') (replicate n b'0')
no_letter zero = tt
no_letter (suc n) = ((λ e. omega (arith, e)), no_letter n)

new_meta_info-magnet_example :
    new_meta_info one_link (magnet_scheme ++ (b'?' ∷ [])) ≡ ok (Loaded.loaded known)
new_meta_info-magnet_example =
    new_meta_info-magnet one_link (b'?' ∷ []) zeros [] none (replicate 20 0)
      ((refl, no_letter 40), tt) refl refl
