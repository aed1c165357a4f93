-- ===== src/Interop/Magnet/Hints.antt =====
-- What a parsed magnet link holds.
use triptorrent.Base.{
  ℕ, ◌+◌, ◌≤◌, ◌<◌, ◌≡◌, ◌⊎◌, inl, inr, refl, sym, subst, Bool, true, false, not, List, [], ◌∷◌,
  ◌++◌, map, All, All-snoc, Option, none, some, length, drop, ltb, leb, ◌==◌, if◌then◌else◌, ok,
  ok_or, arith, length-append, length-drop, >>=-eq-ok, ok-injective, guard-eq-ok, Bool-cases,
}
use triptorrent.Base.Bytes.{Bytes, bytes_eq}
use triptorrent.Base.Text.{ascii}
use triptorrent.Interop.{max_magnet_length, max_magnet_parameters}
use triptorrent.Interop.Magnet.{too_large, scheme, invalid_exact_topic, missing_exact_topic}
use triptorrent.Interop.Magnet.Percent.{percent_decode}
use triptorrent.Interop.Magnet.Query.{
  Magnet, no_hints, strip_prefix, split, split_once, nonempty, to_ascii_lowercase, btih_bytes,
  push_btih, push_btmh, parse_exact_topic, push_hint, parse_parameter, parse_parameters,
  parse_magnet,
}

length-snoc : (xs : List Bytes) (x : Bytes) → length (xs ++ x ∷ []) ≡ length xs + 1
length-snoc xs x = length-append xs (x ∷ [])

some_or_none :
    {A : Type 0} {B : Type 0} {b : B} (o : Option A) (f : A → B) (other : B)
    → elim o [ some a ↦ f a | none ↦ other ] ≡ b
    → ((a : A) × (f a ≡ b)) ⊎ (other ≡ b)
some_or_none none f other h = inr h
some_or_none (some a) f other h = inl (a, h)

either : {A : Type 0} {x y : A} (P : A → Type 0) (t : Bool) → P x → P y → P (if t then x else y)
either P true h k = h
either P false h k = k

-- The exact topics of a link, and all of its hints with a name.
abbrev pub topics_of : Magnet → ℕ
topics_of m = length m.btih + length m.btmh_sha256 + length m.other_exact_topics

abbrev pub hints_of : Magnet → ℕ
hints_of m =
    topics_of m
    + length m.display_names
    + length m.trackers
    + length m.explicit_peers
    + length m.web_seeds
    + length m.acceptable_sources
    + length m.exact_sources

-- The canonical text of a digest of `n` bytes.
abbrev pub HexOf : (Bytes → Bytes) → ℕ → Bytes → Type 0
HexOf hex_encode n text = (digest : Bytes) × (length digest ≡ n) × (text ≡ hex_encode digest)

module _ (hex_encode : Bytes → Bytes) (hex_decode : Bytes → Option Bytes) where
  -- The invariant of the loop.
  record Collected (index topics : ℕ) (m : Magnet) : Type 0 where
    sha1 : All (HexOf hex_encode 20) m.btih
    sha256 : All (HexOf hex_encode 32) m.btmh_sha256
    counted : topics_of m ≡ topics
    bounded : hints_of m ≤ index

  push_btih-Collected :
      (index topics : ℕ) (encoded : Bytes) (m m' : Magnet)
      → Collected index topics m
      → push_btih hex_encode hex_decode encoded m ≡ ok m'
      → Collected (index + 1) (topics + 1) m'
  unfolding push_btih
  push_btih-Collected index topics encoded m m' h e =
      let (digest, _, e₁) = >>=-eq-ok (btih_bytes hex_encode hex_decode encoded) _ e in
      let (long, e₂) = guard-eq-ok (length digest == 20) invalid_exact_topic e₁ in
      let grown = length-snoc m.btih (hex_encode digest) in
      subst (Collected (index + 1) (topics + 1)) (ok-injective e₂) (record {
        sha1 =
            All-snoc (HexOf hex_encode 20) m.btih (hex_encode digest) h.sha1
              (digest, ground arith, refl);
        sha256 = h.sha256;
        counted = omega (arith, h.counted, grown);
        bounded = omega (arith, h.bounded, grown);
      })

  push_btmh-Collected :
      (index topics : ℕ) (encoded : Bytes) (m m' : Magnet)
      → Collected index topics m
      → push_btmh hex_encode hex_decode encoded m ≡ ok m'
      → Collected (index + 1) (topics + 1) m'
  unfolding push_btmh
  push_btmh-Collected index topics encoded m m' h e =
      let (digest, _, e₁) = >>=-eq-ok (ok_or (hex_decode encoded) invalid_exact_topic) _ e in
      let (long, e₂) = guard-eq-ok _ invalid_exact_topic e₁ in
      let grown = length-snoc m.btmh_sha256 (hex_encode (drop 2 digest)) in
      let short : length (drop 2 digest) ≡ 32 = ground (arith, length-drop 2 digest) in
      let next : Magnet = record m {
        btmh_sha256 = m.btmh_sha256 ++ hex_encode (drop 2 digest) ∷ [];
      } in
      let held : Collected (index + 1) (topics + 1) next = record {
        sha1 = h.sha1;
        sha256 =
            All-snoc (HexOf hex_encode 32) m.btmh_sha256 (hex_encode (drop 2 digest)) h.sha256
              (drop 2 digest, short, refl);
        counted = omega (arith, h.counted, grown);
        bounded = omega (arith, h.bounded, grown);
      } in
      subst (Collected (index + 1) (topics + 1)) (ok-injective e₂) held

  parse_exact_topic-Collected :
      (index topics : ℕ) (value : Bytes) (m m' : Magnet)
      → Collected index topics m
      → parse_exact_topic hex_encode hex_decode value m ≡ ok m'
      → Collected (index + 1) (topics + 1) m'
  unfolding parse_exact_topic
  parse_exact_topic-Collected index topics value m m' h e =
      let lower = map to_ascii_lowercase value in
      elim (some_or_none (strip_prefix (ascii "urn:btih:") lower)
        (λ encoded. push_btih hex_encode hex_decode encoded m) _ e) [
          | inl (encoded, pushed) ↦ push_btih-Collected index topics encoded m m' h pushed
          | inr e₁ ↦
              elim (some_or_none (strip_prefix (ascii "urn:btmh:") lower)
                (λ encoded. push_btmh hex_encode hex_decode encoded m) _ e₁) [
                  | inl (encoded, pushed) ↦ push_btmh-Collected index topics encoded m m' h pushed
                  | inr e₂ ↦
                      let grown = length-snoc m.other_exact_topics value in
                      subst (Collected (index + 1) (topics + 1)) (ok-injective e₂) (record {
                        sha1 = h.sha1;
                        sha256 = h.sha256;
                        counted = omega (arith, h.counted, grown);
                        bounded = omega (arith, h.bounded, grown);
                      })
                ]
        ]

  -- A link with the same exact topics and at most one hint more.
  Collected-more :
      (index topics : ℕ) (m m' : Magnet)
      → Collected index topics m
      → m'.btih ≡ m.btih
      → m'.btmh_sha256 ≡ m.btmh_sha256
      → m'.other_exact_topics ≡ m.other_exact_topics
      → hints_of m' ≤ hints_of m + 1
      → Collected (index + 1) topics m'
  Collected-more index topics m m' h one two three more = record {
    sha1 = subst (All (HexOf hex_encode 20)) (sym one) h.sha1;
    sha256 = subst (All (HexOf hex_encode 32)) (sym two) h.sha256;
    counted = rw (one, two, three) h.counted;
    bounded = omega (arith, h.bounded, more);
  }

  push_hint-Collected :
      (index topics : ℕ) (name value : Bytes) (m : Magnet)
      → Collected index topics m
      → Collected (index + 1) topics (push_hint name value m)
  unfolding push_hint
  push_hint-Collected index topics name value m h =
      let more = Collected-more index topics m in
      either (Collected (index + 1) topics) (bytes_eq name (ascii "dn"))
        (more _ h refl refl refl (omega (arith, length-snoc m.display_names value)))
        (either (Collected (index + 1) topics) (bytes_eq name (ascii "tr"))
          (more _ h refl refl refl (omega (arith, length-snoc m.trackers value)))
          (either (Collected (index + 1) topics) (bytes_eq name (ascii "x.pe"))
            (more _ h refl refl refl (omega (arith, length-snoc m.explicit_peers value)))
            (either (Collected (index + 1) topics) (bytes_eq name (ascii "ws"))
              (more _ h refl refl refl (omega (arith, length-snoc m.web_seeds value)))
              (either (Collected (index + 1) topics) (bytes_eq name (ascii "as"))
                (more _ h refl refl refl (omega (arith, length-snoc m.acceptable_sources value)))
                (either (Collected (index + 1) topics) (bytes_eq name (ascii "xs"))
                  (more _ h refl refl refl (omega (arith, length-snoc m.exact_sources value)))
                  (more _ h refl refl refl (omega arith)))))))

  parse_parameter-Collected :
      (name value : Bytes) (index topics : ℕ) (m : Magnet) (r : ℕ × Magnet)
      → Collected index topics m
      → parse_parameter hex_encode hex_decode name value topics m ≡ ok r
      → Collected (index + 1) r.0 r.1
  unfolding parse_parameter
  parse_parameter-Collected name value index topics m r h e =
      elim (Bool-cases (bytes_eq name (ascii "xt"))) [
        | inl topic ↦
            let (m', parsed, e₁) =
              >>=-eq-ok (parse_exact_topic hex_encode hex_decode value m) _ (rw topic at e) in
            let same : (topics + 1, m') ≡ r = ok-injective e₁ in
            subst (λ (x : ℕ × Magnet). Collected (index + 1) x.0 x.1) same
              (parse_exact_topic-Collected index topics value m m' h parsed)
        | inr hint ↦
            let same : (topics, push_hint name value m) ≡ r = ok-injective (rw hint at e) in
            subst (λ (x : ℕ × Magnet). Collected (index + 1) x.0 x.1) same
              (push_hint-Collected index topics name value m h)
      ]

  parse_parameters-Collected :
      (index topics : ℕ) (m : Magnet) (parameters : List Bytes) (r : ℕ × Magnet)
      → index ≤ max_magnet_parameters
      → Collected index topics m
      → parse_parameters hex_encode hex_decode index topics m parameters ≡ ok r
      → Collected max_magnet_parameters r.0 r.1
  unfolding parse_parameters
  parse_parameters-Collected index topics m [] r few h e =
      let same : (topics, m) ≡ r = ok-injective e in
      subst (λ (x : ℕ × Magnet). Collected max_magnet_parameters x.0 x.1) same
        (record {
          sha1 = h.sha1;
          sha256 = h.sha256;
          counted = h.counted;
          bounded = omega (arith, h.bounded);
        })
  parse_parameters-Collected index topics m (parameter ∷ rest) r few h e =
      let (below, e₁) = guard-eq-ok (not (leb max_magnet_parameters index)) too_large e in
      let raw = split_once b'=' parameter in
      let (name, _, e₂) = >>=-eq-ok (percent_decode raw.0) _ e₁ in
      let (value, _, e₃) = >>=-eq-ok (percent_decode raw.1) _ e₂ in
      let (next, parsed, e₄) =
        >>=-eq-ok (parse_parameter hex_encode hex_decode name value topics m) _ e₃ in
      parse_parameters-Collected (index + 1) next.0 next.1 rest r (ground arith)
        (parse_parameter-Collected name value index topics m next h parsed) e₄

  -- A link that `parse_magnet` accepts has an exact topic; each of its SHA-1 aliases is the
  -- canonical text of 20 bytes and each of its SHA-256 aliases that of 32 bytes, and the hints that
  -- have a list of their own are no more than the limit on parameters.
  pub parse_magnet_sound :
      (uri : Bytes) (m : Magnet)
      → parse_magnet hex_encode hex_decode uri ≡ ok m
      → (0 < topics_of m)
        × All (HexOf hex_encode 20) m.btih
        × All (HexOf hex_encode 32) m.btmh_sha256
        × (hints_of m ≤ max_magnet_parameters)
  unfolding parse_magnet
  parse_magnet_sound uri m e =
      let (_, e₁) = guard-eq-ok (not (ltb max_magnet_length (length uri))) too_large e in
      let (query, _, e₂) = >>=-eq-ok (ok_or (strip_prefix (ascii "magnet:?") uri) scheme) _ e₁ in
      let (r, parsed, e₃) =
        >>=-eq-ok
          (parse_parameters hex_encode hex_decode 0 0 no_hints (nonempty (split b'&' query))) _
          e₂ in
      let (some_topic, e₄) = guard-eq-ok (not (r.0 == 0)) missing_exact_topic e₃ in
      let empty : Collected 0 0 no_hints = record {
        sha1 = tt;
        sha256 = tt;
        counted = refl;
        bounded = omega arith;
      } in
      let held =
        parse_parameters-Collected 0 0 no_hints (nonempty (split b'&' query)) r (omega arith) empty
          parsed in
      let positive : 0 < topics_of r.1 = ground (arith, held.counted) in
      let same : r.1 ≡ m = ok-injective e₄ in
      subst
        (λ (x : Magnet).
          (0 < topics_of x)
          × All (HexOf hex_encode 20) x.btih
          × All (HexOf hex_encode 32) x.btmh_sha256
          × (hints_of x ≤ max_magnet_parameters))
        same (positive, held.sha1, held.sha256, held.bounded)
