-- ===== src/Interop/Magnet/Query.antt =====
-- `parse_magnet` and `parse_exact_topic`. `hex_encode` and `hex_decode` are `hex::encode` and
-- `hex::decode`.
use triptorrent.Base.{
  ℕ, ◌+◌, not, ◌&&◌, List, [], ◌∷◌, ◌++◌, map, Option, none, some, length, take, drop, ltb, leb,
  ◌==◌, if◌then◌else◌, Result, ok, err, guard, ok_or, ◌>>=◌, ◌>>◌,
}
use triptorrent.Base.Bytes.{Bytes, bytes_eq}
use triptorrent.Base.Dict
use triptorrent.Base.Dict.{Dict}
use triptorrent.Base.Text.{ascii}
use triptorrent.Interop.{max_magnet_length, max_magnet_parameters}
use triptorrent.Interop.Magnet.{
  MagnetError, too_large, scheme, invalid_exact_topic, missing_exact_topic,
}
use triptorrent.Interop.Magnet.Base32.{decode_base32}
use triptorrent.Interop.Magnet.Percent.{percent_decode}

pub record Magnet : Type 0 where
  pub btih : List Bytes
  pub btmh_sha256 : List Bytes
  pub other_exact_topics : List Bytes
  pub display_names : List Bytes
  pub trackers : List Bytes
  pub explicit_peers : List Bytes
  pub web_seeds : List Bytes
  pub acceptable_sources : List Bytes
  pub exact_sources : List Bytes
  pub other : Dict (List Bytes)

-- `Magnet::default`
abbrev pub no_hints : Magnet
no_hints = record {
  btih = [];
  btmh_sha256 = [];
  other_exact_topics = [];
  display_names = [];
  trackers = [];
  explicit_peers = [];
  web_seeds = [];
  acceptable_sources = [];
  exact_sources = [];
  other = [];
}

unfoldable pub strip_prefix : Bytes → Bytes → Option Bytes
strip_prefix [] text = some text
strip_prefix (p ∷ prefix) [] = none
strip_prefix (p ∷ prefix) (c ∷ text) = if p == c then strip_prefix prefix text else none

-- `split`: the parts between the separators, from the first byte on.
unfoldable pub split : ℕ → Bytes → List Bytes
split separator [] = [] ∷ []
split separator (c ∷ text) = elim (split separator text) [
  | [] ↦ (c ∷ []) ∷ []
  | part ∷ rest ↦ if c == separator then [] ∷ part ∷ rest else (c ∷ part) ∷ rest
]

-- `split_once(..).unwrap_or((parameter, ""))`
unfoldable pub split_once : ℕ → Bytes → Bytes × Bytes
split_once separator [] = ([], [])
split_once separator (c ∷ text) =
    let rest = split_once separator text in
    if c == separator then ([], text) else (c ∷ rest.0, rest.1)

-- `filter(|part| !part.is_empty())`
unfoldable pub nonempty : List Bytes → List Bytes
nonempty [] = []
nonempty ([] ∷ parts) = nonempty parts
nonempty ((c ∷ part) ∷ parts) = (c ∷ part) ∷ nonempty parts

unfoldable pub to_ascii_lowercase : ℕ → ℕ
to_ascii_lowercase c = if leb b'A' c && leb c b'Z' then c + 32 else c

-- `entry(name).or_default().push(value)`
unfoldable pub push_other : Bytes → Bytes → Dict (List Bytes) → Dict (List Bytes)
push_other name value m = elim (Dict.get name m) [
  | none ↦ Dict.insert name (value ∷ []) m
  | some values ↦ Dict.insert name (values ++ value ∷ []) m
]

-- The arms of the `match` but `xt`.
unfoldable pub push_hint : Bytes → Bytes → Magnet → Magnet
unfolding push_other bytes_eq
push_hint name value m =
    if bytes_eq name (ascii "dn")
    then record m { display_names = m.display_names ++ value ∷ [] }
    else if bytes_eq name (ascii "tr")
    then record m { trackers = m.trackers ++ value ∷ [] }
    else if bytes_eq name (ascii "x.pe")
    then record m { explicit_peers = m.explicit_peers ++ value ∷ [] }
    else if bytes_eq name (ascii "ws")
    then record m { web_seeds = m.web_seeds ++ value ∷ [] }
    else if bytes_eq name (ascii "as")
    then record m { acceptable_sources = m.acceptable_sources ++ value ∷ [] }
    else if bytes_eq name (ascii "xs")
    then record m { exact_sources = m.exact_sources ++ value ∷ [] }
    else record m { other = push_other name value m.other }

module _ (hex_encode : Bytes → Bytes) (hex_decode : Bytes → Option Bytes) where
  unfoldable pub btih_bytes : Bytes → Result MagnetError Bytes
  unfolding decode_base32
  btih_bytes encoded =
      if length encoded == 40
      then ok_or (hex_decode encoded) invalid_exact_topic
      else if length encoded == 32
      then decode_base32 encoded
      else err invalid_exact_topic

  -- The two branches of `parse_exact_topic` for a recognised prefix.
  unfoldable pub push_btih : Bytes → Magnet → Result MagnetError Magnet
  unfolding btih_bytes
  push_btih encoded magnet = do
    bytes ← btih_bytes encoded
    guard (length bytes == 20) invalid_exact_topic
    ok (record magnet { btih = magnet.btih ++ hex_encode bytes ∷ [] })

  unfoldable pub push_btmh : Bytes → Magnet → Result MagnetError Magnet
  unfolding bytes_eq
  push_btmh encoded magnet = do
    bytes ← ok_or (hex_decode encoded) invalid_exact_topic
    guard (length bytes == 34 && bytes_eq (take 2 bytes) (0x12 ∷ 0x20 ∷ [])) invalid_exact_topic
    ok (record magnet { btmh_sha256 = magnet.btmh_sha256 ++ hex_encode (drop 2 bytes) ∷ [] })

  unfoldable pub parse_exact_topic : Bytes → Magnet → Result MagnetError Magnet
  unfolding strip_prefix to_ascii_lowercase push_btih push_btmh
  parse_exact_topic value magnet =
      let lower = map to_ascii_lowercase value in
      elim (strip_prefix (ascii "urn:btih:") lower) [
        | some encoded ↦ push_btih encoded magnet
        | none ↦ elim (strip_prefix (ascii "urn:btmh:") lower) [
          | some encoded ↦ push_btmh encoded magnet
          | none ↦
              ok (record magnet { other_exact_topics = magnet.other_exact_topics ++ value ∷ [] })
        ]
      ]

  -- The `match`.
  unfoldable pub parse_parameter : Bytes → Bytes → ℕ → Magnet → Result MagnetError (ℕ × Magnet)
  unfolding parse_exact_topic push_hint
  parse_parameter name value topics magnet =
      if bytes_eq name (ascii "xt")
      then (do m ← parse_exact_topic value magnet; ok (topics + 1, m))
      else ok (topics, push_hint name value magnet)

  -- The loop, with the index and the number of exact topics.
  unfoldable pub parse_parameters : ℕ → ℕ → Magnet → List Bytes → Result MagnetError (ℕ × Magnet)
  unfolding parse_parameter split_once percent_decode
  parse_parameters index topics magnet [] = ok (topics, magnet)
  parse_parameters index topics magnet (parameter ∷ rest) = do
    guard (not (leb max_magnet_parameters index)) too_large
    let raw = split_once b'=' parameter
    name ← percent_decode raw.0
    value ← percent_decode raw.1
    next ← parse_parameter name value topics magnet
    parse_parameters (index + 1) next.0 next.1 rest

  unfoldable pub parse_magnet : Bytes → Result MagnetError Magnet
  unfolding parse_parameters split nonempty strip_prefix
  parse_magnet uri = do
    guard (not (ltb max_magnet_length (length uri))) too_large
    query ← ok_or (strip_prefix (ascii "magnet:?") uri) scheme
    parsed ← parse_parameters 0 0 no_hints (nonempty (split b'&' query))
    guard (not (parsed.0 == 0)) missing_exact_topic
    ok parsed.1
