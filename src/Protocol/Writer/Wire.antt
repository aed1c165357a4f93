-- ===== src/Protocol/Writer/Wire.antt =====
-- What the methods of `Writer` append: the encoding of each field, as a function of the field.
use triptorrent.Base.{
  ℕ, ◌^◌, ◌≤◌, ◌<◌, ◌≡◌, refl, sym, ap, ◌∙◌, List, [], ◌∷◌, ◌++◌, Option, none, some, Bool, true,
  false, length, ltb, Result, ok, guard, ◌>>=◌, arith, append_assoc, append-nil, >>=-eq-ok,
  ok-injective, ltb→lt,
}
use triptorrent.Base.Bytes.{Bytes, be}
use triptorrent.Core.{Manifest, Chunk}
use triptorrent.Protocol.{RouteAssignment, ProtocolError}
use triptorrent.Protocol.Reader.Places.{header_bytes}
use triptorrent.Protocol.Writer.{
  Writer, raw, put_u8, put_u16, put_u32, put_u64, new, finish, ensure_size, put_bytes, put_string,
  put_ids, put_manifest, put_chunk, put_assignment, put_optional_assignment, put_assignments,
}

abbrev pub wire_bytes : Bytes → Bytes
wire_bytes v = be 4 (length v) ++ v

abbrev pub wire_string : Bytes → Bytes
wire_string v = be 2 (length v) ++ v

abbrev pub wire_ids : List Bytes → Bytes
wire_ids [] = []
wire_ids (id ∷ ids) = id ++ wire_ids ids

abbrev pub wire_manifest : Manifest → Bytes
wire_manifest m =
    m.content_id
    ++ (be 8 m.length ++ (be 4 m.chunk_size ++ (be 4 (length m.chunks) ++ wire_ids m.chunks)))

abbrev pub wire_chunk : Chunk → Bytes
wire_chunk c = be 4 c.index ++ (c.id ++ wire_bytes c.content)

abbrev pub wire_assignment : RouteAssignment → Bytes
wire_assignment a =
    a.provider_id
    ++ (a.provider_public_key
        ++ (wire_string a.relay_id ++ (wire_string a.relay_address ++ wire_string a.route)))

abbrev pub wire_optional : Option RouteAssignment → Bytes
wire_optional none = 0 ∷ []
wire_optional (some a) = 1 ∷ wire_assignment a

abbrev pub wire_assignments : List RouteAssignment → Bytes
wire_assignments [] = []
wire_assignments (a ∷ rest) = wire_assignment a ++ wire_assignments rest

-- A guard that passed, and what follows it.
pub guard-ok {ℓ κ} :
    {E : Type ℓ} {A : Type κ} (t : Bool) (e : E) (r : Result E A) {a : A}
    → (guard t e >>= λ _. r) ≡ ok a
    → (t ≡ true) × (r ≡ ok a)
guard-ok true e r h = (refl, h)
guard-ok false e r h = cc

-- The method returned the buffer with `e` at its end.
abbrev pub Appends : Result ProtocolError Writer → Writer → Bytes → Type 0
Appends r w e = (w' : Writer) → r ≡ ok w' → w' ≡ w ++ e

pub put_bytes-Appends : (v : Bytes) (w : Writer) → Appends (put_bytes v w) w (wire_bytes v)
unfolding put_bytes raw put_u32
put_bytes-Appends v w w' h =
    let done = guard-ok (ltb (length v) (2 ^ 32)) _ _ h in
    cc (done.1, append_assoc w (be 4 (length v)) v)

pub put_string-Appends : (v : Bytes) (w : Writer) → Appends (put_string v w) w (wire_string v)
unfolding put_string raw put_u16
put_string-Appends v w w' h =
    let done = guard-ok (ltb (length v) (2 ^ 16)) _ _ h in
    cc (done.1, append_assoc w (be 2 (length v)) v)

pub put_string-fits : (v : Bytes) (w w' : Writer) → put_string v w ≡ ok w' → length v < 2 ^ 16
unfolding put_string
put_string-fits v w w' h = ltb→lt _ _ ((guard-ok (ltb (length v) (2 ^ 16)) _ _ h).0)

pub put_bytes-fits : (v : Bytes) (w w' : Writer) → put_bytes v w ≡ ok w' → length v < 2 ^ 32
unfolding put_bytes
put_bytes-fits v w w' h = ltb→lt _ _ ((guard-ok (ltb (length v) (2 ^ 32)) _ _ h).0)

pub put_ids-append : (ids : List Bytes) (w : Writer) → put_ids ids w ≡ w ++ wire_ids ids
unfolding put_ids raw
put_ids-append [] w = sym (append-nil w)
put_ids-append (id ∷ ids) w = put_ids-append ids (w ++ id) ∙ append_assoc w id (wire_ids ids)

pub put_manifest-Appends :
    (m : Manifest) (w : Writer) → Appends (put_manifest m w) w (wire_manifest m)
unfolding put_manifest raw put_u32 put_u64
put_manifest-Appends m w w' h =
    let done = guard-ok (ltb (length m.chunks) (2 ^ 32)) _ _ h in
    sym (ok-injective done.1) ∙ put_ids-append m.chunks _ ∙ simp append_assoc

pub put_chunk-Appends : (c : Chunk) (w : Writer) → Appends (put_chunk c w) w (wire_chunk c)
unfolding put_chunk raw put_u32
put_chunk-Appends c w w' h = put_bytes-Appends c.content _ w' h ∙ simp append_assoc

pub put_assignment-Appends :
    (a : RouteAssignment) (w : Writer) → Appends (put_assignment a w) w (wire_assignment a)
unfolding put_assignment raw
put_assignment-Appends a w w' h =
    let (w₁, h₁, k₁) = >>=-eq-ok (put_string a.relay_id _) _ h in
    let (w₂, h₂, k₂) = >>=-eq-ok (put_string a.relay_address w₁) _ k₁ in
    put_string-Appends a.route w₂ w' k₂
    ∙ ap (λ x. x ++ wire_string a.route)
        (put_string-Appends a.relay_address w₁ w₂ h₂
          ∙ ap (λ x. x ++ wire_string a.relay_address) (put_string-Appends a.relay_id _ w₁ h₁))
    ∙ simp append_assoc

pub put_optional_assignment-Appends :
    (o : Option RouteAssignment) (w : Writer)
    → Appends (put_optional_assignment o w) w (wire_optional o)
unfolding put_optional_assignment put_u8
put_optional_assignment-Appends none w w' h = sym (ok-injective h)
put_optional_assignment-Appends (some a) w w' h =
    put_assignment-Appends a _ w' h ∙ append_assoc w (1 ∷ []) (wire_assignment a)

pub put_assignments-Appends :
    (values : List RouteAssignment) (w : Writer)
    → Appends (put_assignments values w) w (wire_assignments values)
unfolding put_assignments
put_assignments-Appends [] w w' h = sym (ok-injective h) ∙ sym (append-nil w)
put_assignments-Appends (a ∷ rest) w w' h =
    let (w₁, h₁, k₁) = >>=-eq-ok (put_assignment a w) _ h in
    put_assignments-Appends rest w₁ w' k₁
    ∙ ap (λ x. x ++ wire_assignments rest) (put_assignment-Appends a w w₁ h₁)
    ∙ append_assoc w (wire_assignment a) (wire_assignments rest)

pub put_assignment-fits :
    (a : RouteAssignment) (w w' : Writer)
    → put_assignment a w ≡ ok w'
    → (length a.relay_id < 2 ^ 16) × (length a.relay_address < 2 ^ 16) × (length a.route < 2 ^ 16)
unfolding put_assignment
put_assignment-fits a w w' h =
    let (w₁, h₁, k₁) = >>=-eq-ok (put_string a.relay_id _) _ h in
    let (w₂, h₂, k₂) = >>=-eq-ok (put_string a.relay_address w₁) _ k₁ in
    (put_string-fits _ _ w₁ h₁, put_string-fits _ w₁ w₂ h₂, put_string-fits _ w₂ w' k₂)

-- A finished record is the buffer, within the limit.
pub finish-ok : (limit : ℕ) (w b : Writer) → finish limit w ≡ ok b → (w ≡ b) × (length b ≤ limit)
unfolding finish ensure_size
finish-ok limit w b h = ground arith

-- A new buffer holds the header.
pub new-header : (domain : ℕ) → new domain ≡ header_bytes domain
unfolding new raw put_u8 put_u16 be
new-header domain = refl
