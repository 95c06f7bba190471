-- ===== src/Links.antt =====
-- uri.go and metainfo.go: where the metainfo of a torrent comes from (`parseMagnet`, `NewMetaInfo`
-- and what it calls) and the bytes of its dictionary (`RawInfo`). The parser of URLs, the HTTP client,
-- reading a file, bencode and SHA-1 are parameters.
pub mod Magnets
mod Tests
use rakoshare.Base.{
  ℕ, zero, suc, ◌+◌, ◌*◌, List, [], ◌∷◌, ◌++◌, length, ◌==◌, if◌then◌else◌, Bool, true, false, not,
  Option, none, some, ◌⊎◌, inl, inr, Run, ok, panic, map,
}
use rakoshare.Control.{Text}
use rakoshare.Store.{has_prefix}
use rakoshare.Watch.{InfoDict}

pub record Magnet : Type 0 where
  pub info_hashes : List Text
  pub names : List Text

pub data MagnetError : Type 0 where
  bad_url no_topic no_btih bad_length : MagnetError

-- "urn:btih:"
abbrev pub btih : Text
btih = b'u' ∷ b'r' ∷ b'n' ∷ b':' ∷ b'b' ∷ b't' ∷ b'i' ∷ b'h' ∷ b':' ∷ []

-- `strings.Split(s, "urn:btih:")`, where the first bytes of `s` are still of a separator.
unfoldable pub split_btih : ℕ → Text → List Text
split_btih skip [] = [] ∷ []
split_btih (suc skip) (c ∷ s) = split_btih skip s
split_btih zero (c ∷ s) =
    if has_prefix (c ∷ s) btih
    then [] ∷ split_btih 8 s
    else elim (split_btih zero s) [ [] ↦ (c ∷ []) ∷ [] | part ∷ parts ↦ (c ∷ part) ∷ parts ]

-- The body of the loop of `parseMagnet`; a SHA-1 sum has 20 bytes.
unfoldable pub info_hash_of : Text → MagnetError ⊎ Text
unfolding split_btih
info_hash_of topic = elim (split_btih 0 topic) [
  | [] ↦ inl MagnetError.no_btih
  | x ∷ [] ↦ inl MagnetError.no_btih
  | x ∷ h ∷ [] ↦ if length h == 20 * 2 then inr h else inl MagnetError.bad_length
  | x ∷ h ∷ y ∷ more ↦ inl MagnetError.no_btih
]

unfoldable pub info_hashes_of : List Text → MagnetError ⊎ List Text
unfolding info_hash_of
info_hashes_of [] = inr []
info_hashes_of (topic ∷ topics) =
    let rest = info_hashes_of topics in
    elim (info_hash_of topic) [
      | inl e ↦ inl e
      | inr h ↦ elim rest [ inl e ↦ inl e | inr hs ↦ inr (h ∷ hs) ]
    ]

-- The arguments `xt` and `dn` of a link, `none` where it has no such argument.
pub record Query : Type 0 where
  pub xt : Option (List Text)
  pub dn : Option (List Text)

-- `parse` is `url.Parse` with `Query`, `none` for an error.
unfoldable pub parse_magnet : (Text → Option Query) → Text → MagnetError ⊎ Magnet
unfolding info_hashes_of
parse_magnet parse s = elim (parse s) [
  | none ↦ inl MagnetError.bad_url
  | some q ↦ elim q.xt [
    | none ↦ inl MagnetError.no_topic
    | some topics ↦ elim (info_hashes_of topics) [
      | inl e ↦ inl e
      | inr hs ↦ inr (record { info_hashes = hs; names = elim q.dn [ none ↦ [] | some n ↦ n ] })
    ]
  ]
]

-- The fields of `MetaInfo` that the session reads.
pub record KnownMeta : Type 0 where
  pub info : Option InfoDict
  pub announce_list : List (List Text)
  pub encoding : Text
  pub info_hash : Text
  pub raw_info : Option (List ℕ)

-- What a function returns: a metainfo, nil without an error, or an error.
pub data Loaded : Type 0 where
  loaded : KnownMeta → Loaded
  nothing failed : Loaded

-- The libraries, with `none` for an error: `get` is an HTTP request and the reading of its answer,
-- `decode_info_hash` is the DHT's.
pub record Outside : Type 0 where
  pub parse : Text → Option Query
  pub get : Text → Option (List ℕ)
  pub read_file : Text → Option (List ℕ)
  pub decode : List ℕ → Option KnownMeta
  pub encode : Option InfoDict → Option (List ℕ)
  pub sha1 : List ℕ → List ℕ
  pub decode_info_hash : Text → Option Text

-- "http:" and "magnet:"
abbrev pub http_scheme : Text
http_scheme = b'h' ∷ b't' ∷ b't' ∷ b'p' ∷ b':' ∷ []

abbrev pub magnet_scheme : Text
magnet_scheme = b'm' ∷ b'a' ∷ b'g' ∷ b'n' ∷ b'e' ∷ b't' ∷ b':' ∷ []

module _ (out : Outside) where
  unfoldable pub from_content : List ℕ → Loaded
  from_content content = elim (out.decode content) [
    | none ↦ Loaded.failed
    | some m ↦ elim (out.encode m.info) [
      | none ↦ Loaded.nothing
      | some bytes ↦ Loaded.loaded (record m { info_hash = out.sha1 bytes })
    ]
  ]

  unfoldable pub from_http : Text → Loaded
  unfolding from_content
  from_http torrent = elim (out.get torrent) [
    | none ↦ Loaded.failed
    | some content ↦ from_content content
  ]

  unfoldable pub from_file : Text → Loaded
  unfolding from_content
  from_file torrent = elim (out.read_file torrent) [
    | none ↦ Loaded.failed
    | some content ↦ from_content content
  ]

  -- The first of no hashes panics.
  unfoldable pub from_magnet : Text → Run Loaded
  unfolding parse_magnet
  from_magnet torrent = elim (parse_magnet out.parse torrent) [
    | inl e ↦ ok Loaded.failed
    | inr magnet ↦ elim magnet.info_hashes [
      | [] ↦ panic
      | h ∷ hs ↦ elim (out.decode_info_hash h) [
        | none ↦ ok Loaded.failed
        | some ih ↦ ok (
            Loaded.loaded (record {
              info = none;
              announce_list = [];
              encoding = [];
              info_hash = ih;
              raw_info = none;
            }))
      ]
    ]
  ]

  unfoldable pub new_meta_info : Text → Run Loaded
  unfolding from_content from_http from_file from_magnet
  new_meta_info torrent =
      if has_prefix torrent http_scheme
      then ok (from_http torrent)
      else if has_prefix torrent magnet_scheme
      then from_magnet torrent
      else elim (from_content torrent) [ Loaded.failed ↦ ok (from_file torrent) | m ↦ ok m ]

  -- A dictionary that cannot be encoded ends the program.
  unfoldable pub raw_info_of : KnownMeta → Run (List ℕ × KnownMeta)
  raw_info_of m = elim m.raw_info [
    | some bytes ↦ ok (bytes, m)
    | none ↦ elim m.info [
      | none ↦ ok ([], m)
      | some info ↦ elim (out.encode (some info)) [
        | none ↦ panic
        | some bytes ↦ ok (bytes, record m { raw_info = some bytes })
      ]
    ]
  ]
