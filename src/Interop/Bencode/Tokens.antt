-- ===== src/Interop/Bencode/Tokens.antt =====
-- What the methods that read a single token have consumed.
use triptorrent.Base.{
  ℕ, zero, suc, ◌+◌, ◌-◌, ◌≤◌, ◌≡◌, refl, sym, ap, ◌∙◌, subst, [], ◌∷◌, ◌++◌, Bool, true, false,
  not, some, length, get_elem?, take, drop, leb, ◌==◌, arith, append_assoc, Option-cases,
  Bool-cases, inl, inr, drop-drop, take-append-drop, length-drop, length-append, leb→le,
}
use triptorrent.Base.Bytes.{Bytes}
use triptorrent.Interop.Bencode.{
  integer, truncated, invalid, Parser, index_of, find_terminator, slice, bad_integer, bad_length,
  parse_integer, parse_bytes,
}
use triptorrent.Interop.Bencode.Decimal.{ℤ, parse_i64, parse_usize, decimal}
use triptorrent.Interop.Bencode.Emit.{emit, print_integer, emit_bytes}
use triptorrent.Interop.Bencode.Canonical.{decimal-canonical, parse_usize-value, print-parse_i64}
use triptorrent.Interop.Bencode.Strict.{
  Returns, accepted, refused, Returns-bind, Returns-guard, Returns-some, Reads,
}

index_of-split :
    (token i : ℕ) (xs : Bytes)
    → index_of token xs ≡ some i
    → (xs ≡ take i xs ++ (token ∷ drop (suc i) xs)) × (length (take i xs) ≡ i)
unfolding index_of take drop
index_of-split token i [] h = cc
index_of-split token i (b ∷ bs) h = elim (Bool-cases (b == token)) [
  | inl here ↦ ground arith
  | inr further ↦ elim (Option-cases (index_of token bs)) [
    | inl absent ↦ ground arith
    | inr (j, found) ↦
        let next : i ≡ suc j = ground arith in
        let rest = index_of-split token j bs found in
        subst
          (λ k.
            (b ∷ bs ≡ take k (b ∷ bs) ++ (token ∷ drop (suc k) (b ∷ bs)))
            × (length (take k (b ∷ bs)) ≡ k))
          (sym next) (ap (λ r. b ∷ r) rest.0, ap suc rest.1)
  ]
]

drop-get_suc : (xs : Bytes) (i a : ℕ) → get_elem? xs i ≡ some a → drop i xs ≡ a ∷ drop (suc i) xs
unfolding drop
drop-get_suc [] i a h = cc
drop-get_suc (x ∷ xs) zero a h = ground arith
drop-get_suc (x ∷ xs) (suc i) a h = drop-get_suc xs i a h

pub drop-get : (xs : Bytes) (i a : ℕ) → get_elem? xs i ≡ some a → drop i xs ≡ a ∷ drop (i + 1) xs
drop-get xs i a h =
    let next : suc i ≡ i + 1 = omega arith in drop-get_suc xs i a h ∙ ap (λ k. a ∷ drop k xs) next

length-take : (n : ℕ) (xs : Bytes) → n ≤ length xs → length (take n xs) ≡ n
unfolding take
length-take zero xs h = refl
length-take (suc n) [] h = absurd (omega arith)
length-take (suc n) (x ∷ xs) h = ap suc (length-take n xs (omega arith))

pub not-true : (b : Bool) → not b ≡ true → b ≡ false
not-true true h = cc
not-true false h = refl

module _ (input : Bytes) where
  -- The token stands behind the slice that ends there.
  abbrev Ends : ℕ → Parser → ℕ → Type 0
  Ends token s stop =
      (drop s.position input ≡ slice input s.position stop ++ (token ∷ drop (stop + 1) input))
      × (stop ≡ s.position + length (slice input s.position stop))

  found-Ends :
      (token : ℕ) (s : Parser) (i : ℕ)
      → index_of token (drop s.position input) ≡ some i
      → Ends token s (s.position + i)
  found-Ends token s i found =
      let p = s.position in
      let split = index_of-split token i (drop p input) found in
      let size : p + i - p ≡ i = omega arith in
      let behind : p + suc i ≡ p + i + 1 = omega arith in
      let next : drop (suc i) (drop p input) ≡ drop (p + i + 1) input =
        drop-drop p (suc i) input ∙ ap (λ k. drop k input) behind in
      let part : slice input p (p + i) ≡ take i (drop p input) =
        ap (λ k. take k (drop p input)) size in
      (
        split.0
            ∙ ap (λ r. take i (drop p input) ++ (token ∷ r)) next
            ∙ ap (λ r. r ++ (token ∷ drop (p + i + 1) input)) (sym part),
        omega (arith, split.1, ap length part),
      )

  find_terminator-Returns :
      (token : ℕ) (s : Parser) → Returns (Ends token s) (find_terminator input token s)
  unfolding find_terminator
  find_terminator-Returns token s = elim (Option-cases (index_of token (drop s.position input))) [
    | inl absent ↦ rw (find_terminator, absent) (refused truncated)
    | inr (i, found) ↦
        rw (find_terminator, found) (accepted (s.position + i) (found-Ends token s i found))
  ]

  integer-Reads :
      (s : Parser) (z : ℤ) (stop : ℕ)
      → get_elem? input s.position ≡ some b'i'
      → Ends b'e' (record s { position = s.position + 1 }) stop
      → bad_integer (slice input (s.position + 1) stop) ≡ false
      → parse_i64 (slice input (s.position + 1) stop) ≡ some z
      → Reads input s (b'i' ∷ (print_integer z ++ b'e' ∷ [])) 0 (record s { position = stop + 1 })
  integer-Reads s z stop opening ends good number =
      let text = slice input (s.position + 1) stop in
      let printed = print-parse_i64 text z good number in
      record {
        rest =
            drop-get input s.position b'i' opening
            ∙ ap (λ r. b'i' ∷ r)
                (ends.0
                  ∙ ap (λ r. r ++ (b'e' ∷ drop (stop + 1) input)) (sym printed)
                  ∙ sym (append_assoc (print_integer z) (b'e' ∷ []) (drop (stop + 1) input)));
        moved =
            omega (arith, ends.1, ap length printed, length-append (print_integer z) (b'e' ∷ []));
        counted = omega arith;
      }

  bytes-Reads :
      (s : Parser) (colon size : ℕ)
      → Ends b':' s colon
      → bad_length (slice input s.position colon) ≡ false
      → parse_usize (slice input s.position colon) ≡ some size
      → colon + 1 + size ≤ length input
      → Reads input s
          (emit_bytes (slice input (colon + 1) (colon + 1 + size)))
          0
          (record s { position = colon + 1 + size })
  bytes-Reads s colon size ends good number fits =
      let text = slice input s.position colon in
      let start = colon + 1 in
      let content = slice input start (start + size) in
      let part : content ≡ take size (drop start input) =
        let width : start + size - start ≡ size = omega arith in
        ap (λ k. take k (drop start input)) width in
      let width : length content ≡ size =
        ap length part
        ∙ length-take size (drop start input) (omega (arith, length-drop start input)) in
      let printed : decimal (length content) ≡ text =
        ap decimal (width ∙ parse_usize-value text size number) ∙ decimal-canonical text good in
      let behind : drop start input ≡ content ++ drop (start + size) input =
        sym (take-append-drop size (drop start input))
        ∙ ap (λ r. take size (drop start input) ++ r) (drop-drop start size input)
        ∙ ap (λ r. r ++ drop (start + size) input) (sym part) in
      record {
        rest =
            ends.0
            ∙ ap (λ r. text ++ (b':' ∷ r)) behind
            ∙ ap (λ r. r ++ ((b':' ∷ content) ++ drop (start + size) input)) (sym printed)
            ∙ sym (
                append_assoc (decimal (length content)) (b':' ∷ content)
                  (drop (start + size) input));
        moved = omega (
          arith,
          ends.1,
          ap length printed,
          width,
          length-append (decimal (length content)) (b':' ∷ content),
        );
        counted = omega arith;
      }

  -- Behind the opening `i`, the text and the closing `e` are consumed.
  pub parse_integer-Returns :
      (s : Parser)
      → get_elem? input s.position ≡ some b'i'
      → Returns
          (λ r. ((z : ℤ) × (r.0 ≡ integer z)) × Reads input s (emit r.0) 0 r.1)
          (parse_integer input s)
  unfolding parse_integer emit
  parse_integer-Returns s opening =
      let start = s.position + 1 in
      Returns-bind (find_terminator-Returns b'e' (record s { position = start })) (λ stop ends.
        Returns-guard (not (bad_integer (slice input start stop))) (invalid start) (λ good.
          Returns-some (parse_i64 (slice input start stop)) (invalid start) (λ z number.
            accepted (integer z, record s { position = stop + 1 })
              ((z, refl), integer-Reads s z stop opening ends (not-true _ good) number))))

  pub parse_bytes-Returns :
      (s : Parser) → Returns (λ r. Reads input s (emit_bytes r.0) 0 r.1) (parse_bytes input s)
  unfolding parse_bytes
  parse_bytes-Returns s = Returns-bind (find_terminator-Returns b':' s) (λ colon ends.
      let encoded = slice input s.position colon in
      Returns-guard (not (bad_length encoded)) (invalid s.position) (λ good.
        Returns-some (parse_usize encoded) (invalid s.position) (λ size number.
          Returns-guard (leb (colon + 1 + size) (length input)) truncated (λ fits.
            accepted
              (slice input (colon + 1) (colon + 1 + size), record s { position = colon + 1 + size })
              (bytes-Reads s colon size ends (not-true _ good) number (leb→le _ _ fits))))))
