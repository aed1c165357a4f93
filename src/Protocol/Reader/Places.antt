-- ===== src/Protocol/Reader/Places.antt =====
-- Reading what was written: rules for parsers that stand in front of a known encoding.
use triptorrent.Base.{
  ℕ, ◌+◌, ◌^◌, ◌≤◌, ◌<◌, ◌≡◌, refl, sym, ap, ◌∙◌, subst, List, [], ◌∷◌, ◌++◌, Bool, true, length,
  take, drop, not, ltb, ◌==◌, Result, ok, err, arith, length-append, take_length, drop_length,
  drop-drop, append_assoc, append-nil, All, ==_refl,
}
use triptorrent.Base.Bytes.{Bytes, be, from_be, from_be-be, length-be, be_one, bytes_eq_refl}
use triptorrent.Base.Utf8.{is_utf8}
use triptorrent.Core.{network_id, protocol_version}
use triptorrent.Protocol.{ProtocolError, unsupported_version}
use triptorrent.Protocol.Writer.{wire_magic}
use triptorrent.Protocol.Reader.{
  Reader, Parser, ◌>>=◌, ◌>>◌, pure, check, take_bytes, array, word, get_u8, get_u16, get_u32,
  get_u64, get_bytes, get_string, repeat, header, end,
}

abbrev pub place : Bytes → ℕ → Reader
place b n = record { bytes = b; offset = n }

-- The cursor stands before `rest`, the end of the input.
pub record IsPlace (b : Bytes) (n : ℕ) (rest : Bytes) : Type 0 where
  pub remaining : drop n b ≡ rest
  pub total : n + length rest ≡ length b
  pub fits : length b < 2 ^ 64

-- In front of the encoding `e`, the parser returns `v` and stops behind `e`.
pub record Reads {ℓ} {A : Type ℓ} (p : Parser A) (e : Bytes) (v : A) : Type ℓ where
  pub at :
      (b : Bytes) (n : ℕ) (rest : Bytes)
      → IsPlace b n (e ++ rest)
      → p (place b n) ≡ ok (v, place b (n + length e))

pub IsPlace-advance :
    (b : Bytes) (n : ℕ) (e rest : Bytes) → IsPlace b n (e ++ rest) → IsPlace b (n + length e) rest
IsPlace-advance b n e rest h = record {
  remaining =
      sym (drop-drop n (length e) b) ∙ ap (drop (length e)) h.remaining ∙ drop_length e rest;
  total = omega (arith, h.total, length-append e rest);
  fits = h.fits;
}

pub Reads-take : (e : Bytes) (k : ℕ) → length e ≡ k → Reads (take_bytes k) e e
unfolding take_bytes
Reads-take e k h = record {
  at = λ b n rest p.
      let read : take k (drop n b) ≡ e = rw (p.remaining, ← h) (take_length e rest) in
      ground (arith, read, p.total, p.fits, length-append e rest, h);
}

pub Reads-array : (e : Bytes) (k : ℕ) → length e ≡ k → Reads (array k) e e
unfolding array
Reads-array e k h = Reads-take e k h

module _ {ℓ κ} {A : Type ℓ} {B : Type κ} where
  pub bind-ok :
      (p : Parser A) (f : A → Parser B) (r : Reader) {v : A} {r' : Reader}
      → p r ≡ ok (v, r')
      → (p >>= f) r ≡ f v r'
  unfolding ◌>>=◌
  bind-ok p f r h =
      ap
        (λ (o : Result ProtocolError (A × Reader)). elim o [
          | ok (a, r'') ↦ f a r''
          | err e ↦ err e
        ])
        h

  pub Reads-bind :
      (p : Parser A) (f : A → Parser B) (e d : Bytes) (v : A) (w : B)
      → Reads p e v
      → Reads (f v) d w
      → Reads (p >>= f) (e ++ d) w
  Reads-bind p f e d v w hp hf = record {
    at = λ b n rest h.
        let h' : IsPlace b n (e ++ (d ++ rest)) = rw append_assoc at h in
        let second = hf.at b (n + length e) rest (IsPlace-advance b n e (d ++ rest) h') in
        let size : n + length e + length d ≡ n + length (e ++ d) =
          omega (arith, length-append e d) in
        bind-ok p f (place b n) (hp.at b n (d ++ rest) h')
        ∙ second
        ∙ ap (λ k. ok (w, place b k)) size;
  }

  -- A parser whose value is only wrapped.
  pub Reads-last :
      (p : Parser A) (g : A → B) (e : Bytes) (v : A)
      → Reads p e v
      → Reads (p >>= λ a. pure (g a)) e (g v)
  Reads-last p g e v hp = record {
    at = λ b n rest h. bind-ok p (λ a. pure (g a)) (place b n) (hp.at b n rest h);
  }

module _ {ℓ} {B : Type ℓ} where
  pub Reads-check :
      (t : Bool) (error : ProtocolError) (q : Parser B) (e : Bytes) (w : B)
      → t ≡ true
      → Reads q e w
      → Reads (check t error >> q) e w
  Reads-check t error q e w h hq = record {
    at = λ b n rest p.
        bind-ok (check t error) (λ _. q) (place b n) (ap (λ t'. check t' error (place b n)) h)
        ∙ hq.at b n rest p;
  }

  -- A value that is tested before it is returned, and one that is only tested.
  pub Reads-guarded :
      (p : Parser B) (t : B → Bool) (error : ProtocolError) (e : Bytes) (v : B)
      → t v ≡ true
      → Reads p e v
      → Reads (p >>= λ a. check (t a) error >> pure a) e v
  Reads-guarded p t error e v h hp = record {
    at = λ b n rest k.
        bind-ok p (λ a. check (t a) error >> pure a) (place b n) (hp.at b n rest k)
        ∙ bind-ok (check (t v) error) (λ _. pure v) (place b (n + length e))
            (ap (λ t'. check t' error (place b (n + length e))) h);
  }

  pub Reads-tested :
      (p : Parser B) (t : B → Bool) (error : ProtocolError) (e : Bytes) (v : B)
      → t v ≡ true
      → Reads p e v
      → Reads (p >>= λ a. check (t a) error) e tt
  Reads-tested p t error e v h hp = record {
    at = λ b n rest k.
        bind-ok p (λ a. check (t a) error) (place b n) (hp.at b n rest k)
        ∙ ap (λ t'. check t' error (place b (n + length e))) h;
  }

  pub Reads-nothing : (v : B) → Reads (pure v) [] v
  Reads-nothing v = record { at = λ b n rest h. ap (λ k. ok (v, place b k)) (omega arith) }

pub Reads-word : (k v : ℕ) → v < 256 ^ k → Reads (word k) (be k v) v
unfolding word
Reads-word k v h =
    subst (λ u. Reads (array k >>= λ e. pure (from_be 0 e)) (be k v) u) (from_be-be k v h)
      (Reads-last (array k) (from_be 0) (be k v) (be k v) (Reads-array (be k v) k (length-be k v)))

pub Reads-u8 : (v : ℕ) → v < 2 ^ 8 → Reads get_u8 (v ∷ []) v
unfolding get_u8
Reads-u8 v h = subst (λ e. Reads (word 1) e v) (be_one v h) (Reads-word 1 v h)

pub Reads-u16 : (v : ℕ) → v < 2 ^ 16 → Reads get_u16 (be 2 v) v
unfolding get_u16
Reads-u16 v h = Reads-word 2 v h

pub Reads-u32 : (v : ℕ) → v < 2 ^ 32 → Reads get_u32 (be 4 v) v
unfolding get_u32
Reads-u32 v h = Reads-word 4 v h

pub Reads-u64 : (v : ℕ) → v < 2 ^ 64 → Reads get_u64 (be 8 v) v
unfolding get_u64
Reads-u64 v h = Reads-word 8 v h

pub within : (maximum n : ℕ) → n ≤ maximum → not (ltb maximum n) ≡ true
within maximum n h = ground arith

pub Reads-bytes :
    (v : Bytes) (maximum : ℕ)
    → length v ≤ maximum
    → length v < 2 ^ 32
    → Reads (get_bytes maximum) (be 4 (length v) ++ v) v
unfolding get_bytes
Reads-bytes v maximum h k =
    Reads-bind get_u32 _ (be 4 (length v)) v (length v) v (Reads-u32 (length v) k)
      (Reads-check _ _ _ v v (within maximum (length v) h) (Reads-take v (length v) refl))

pub Reads-string :
    (v : Bytes) (maximum : ℕ)
    → length v ≤ maximum
    → length v < 2 ^ 16
    → is_utf8 v ≡ true
    → Reads (get_string maximum) (be 2 (length v) ++ v) v
unfolding get_string
Reads-string v maximum h k u =
    Reads-bind get_u16 _ (be 2 (length v)) v (length v) v (Reads-u16 (length v) k) (
      Reads-check _ _ _ v v (within maximum (length v) h)
        (Reads-guarded (take_bytes (length v)) is_utf8 _ v v u (Reads-take v (length v) refl)))

module _ {ℓ} {A : Type ℓ} (item : Parser A) (encoding : A → Bytes) where
  -- The encodings of a list, one after the other.
  abbrev pub encodings : List A → Bytes
  encodings [] = []
  encodings (a ∷ rest) = encoding a ++ encodings rest

  pub Reads-repeat :
      (values : List A)
      → All (λ a. Reads item (encoding a) a) values
      → Reads (repeat (length values) item) (encodings values) values
  unfolding repeat
  Reads-repeat [] h = Reads-nothing []
  Reads-repeat (a ∷ rest) h = Reads-bind item _ (encoding a) (encodings rest) a (a ∷ rest) h.0 (
      Reads-last (repeat (length rest) item) (λ others. a ∷ others) (encodings rest) rest
        (Reads-repeat rest h.1))

-- The header that `Writer::new` writes.
abbrev pub header_bytes : ℕ → Bytes
header_bytes domain =
    wire_magic ++ (be 2 protocol_version ++ (length network_id ∷ (network_id ++ (domain ∷ []))))

network_id-utf8 : is_utf8 network_id ≡ true
unfolding is_utf8
network_id-utf8 = refl

pub Reads-header : (domain : ℕ) → domain < 2 ^ 8 → Reads (header domain) (header_bytes domain) tt
unfolding header
Reads-header domain h =
    Reads-bind (take_bytes 4) _ wire_magic _ wire_magic tt (Reads-take wire_magic 4 refl) (
      Reads-check _ _ _ _ tt (bytes_eq_refl wire_magic) (
        Reads-bind get_u16 _ (be 2 1) _ 1 tt (Reads-u16 1 (omega arith)) (
          Reads-check _ (unsupported_version 1) _ _ tt refl (
            Reads-bind get_u8 _ (21 ∷ []) _ 21 tt (Reads-u8 21 (omega arith)) (
              Reads-bind (take_bytes 21) _ network_id _ network_id tt
                (Reads-take network_id 21 refl)
                (Reads-check _ _ _ _ tt network_id-utf8 (
                  Reads-check _ _ _ _ tt (bytes_eq_refl network_id) (
                    Reads-tested get_u8 (λ found. found == domain) _ (domain ∷ []) domain
                      (==_refl domain) (Reads-u8 domain h)))))))))

pub Reads-end : (b : Bytes) (n : ℕ) → IsPlace b n [] → end (place b n) ≡ ok (tt, place b n)
unfolding end
Reads-end b n h = ground (arith, h.total)

-- A whole record: the header, the kind byte, the fields, and the end of the input.
abbrev pub record_parser {ℓ} : {A : Type ℓ} → ℕ → (ℕ → Parser A) → Parser A
record_parser domain fields =
    header domain >> (get_u8 >>= λ kind. fields kind >>= λ value. end >> pure value)

pub Reads-record {ℓ} :
    {A : Type ℓ} (domain kind : ℕ) (fields : ℕ → Parser A) (e : Bytes) (v : A)
    → domain < 2 ^ 8
    → kind < 2 ^ 8
    → Reads (fields kind) e v
    → length (header_bytes domain ++ (kind ∷ e)) < 2 ^ 64
    → let b = header_bytes domain ++ (kind ∷ e) in
      record_parser domain fields (place b 0) ≡ ok (v, place b (length b))
Reads-record domain kind fields e v hd hk hf fits =
    let b = header_bytes domain ++ (kind ∷ e) in
    let start : IsPlace b 0 (header_bytes domain ++ (kind ∷ e)) = record {
      remaining = unfold drop in refl;
      total = omega arith;
      fits = fits;
    } in
    let n₁ = 0 + length (header_bytes domain) in
    let at_kind = IsPlace-advance b 0 (header_bytes domain) (kind ∷ e) start in
    let at_fields = IsPlace-advance b n₁ (kind ∷ []) e at_kind in
    let at_fields' : IsPlace b (n₁ + 1) (e ++ []) = rw append-nil at_fields in
    let at_end = IsPlace-advance b (n₁ + 1) e [] at_fields' in
    bind-ok (header domain) _ (place b 0) ((Reads-header domain hd).at b 0 (kind ∷ e) start)
    ∙ bind-ok get_u8 _ (place b n₁) ((Reads-u8 kind hk).at b n₁ e at_kind)
    ∙ bind-ok (fields kind) _ (place b (n₁ + 1)) (hf.at b (n₁ + 1) [] at_fields')
    ∙ bind-ok end _ _ (Reads-end b _ at_end)
    ∙ ap (λ k. ok (v, place b k)) (omega (arith, at_end.total))
