-- ===== src/Links/Magnets.antt =====
-- A magnet link gives the metainfo of its first hash.
use rakoshare.Base.{
  ◌≡◌, ◌≢◌, refl, inr, List, [], ◌∷◌, ◌++◌, length, All, map, arith, false, Option, none, some, ok,
}
use rakoshare.Files.{name_eq}
use rakoshare.Control.{Text}
use rakoshare.Store.{has_prefix}
use rakoshare.Links.{
  Loaded, Outside, btih, magnet_scheme, split_btih, info_hash_of, info_hashes_of, parse_magnet,
  from_magnet, new_meta_info,
}

-- A hash in hexadecimal form, of which `u` is no digit.
abbrev pub IsHexHash : Text → Type 0
IsHexHash h = (length h ≡ 40) × All (λ c. c ≢ b'u') h

split_btih-plain : (h : Text) → All (λ c. c ≢ b'u') h → split_btih 0 h ≡ h ∷ []
unfolding split_btih name_eq
split_btih-plain [] p = refl
split_btih-plain (c ∷ h) (n, p) =
    let other : has_prefix (c ∷ h) btih ≡ false = ground arith in
    rw (split_btih, other, split_btih-plain h p) refl

info_hash_of-btih : (h : Text) → IsHexHash h → info_hash_of (btih ++ h) ≡ inr h
unfolding info_hash_of split_btih name_eq
info_hash_of-btih h (n, p) = rw (info_hash_of, split_btih, split_btih-plain h p, n) refl

info_hashes_of-btih :
    (hs : List Text) → All IsHexHash hs → info_hashes_of (map (λ h. btih ++ h) hs) ≡ inr hs
unfolding info_hashes_of
info_hashes_of-btih [] p = refl
info_hashes_of-btih (h ∷ hs) (n, p) =
    rw (info_hashes_of, info_hash_of-btih h n, info_hashes_of-btih hs p) refl

-- Where the rest of a link `magnet:` parses to topics that are `urn:btih:` with hashes of 40 bytes
-- without the letter u, the link gives the metainfo whose hash is the first of them, decoded.
pub new_meta_info-magnet :
    (out : Outside) (rest : Text) (h : Text) (hs : List Text) (names : Option (List Text))
    (ih : Text)
    → All IsHexHash (h ∷ hs)
    → out.parse (magnet_scheme ++ rest)
      ≡ some (record { xt = some (map (λ x. btih ++ x) (h ∷ hs)); dn = names })
    → out.decode_info_hash h ≡ some ih
    → new_meta_info out (magnet_scheme ++ rest)
      ≡ ok (
          Loaded.loaded (record {
            info = none;
            announce_list = [];
            encoding = [];
            info_hash = ih;
            raw_info = none;
          }))
unfolding new_meta_info from_magnet parse_magnet name_eq
new_meta_info-magnet out rest h hs names ih p e d =
    rw (new_meta_info, from_magnet, parse_magnet, e, info_hashes_of-btih (h ∷ hs) p, d) refl
