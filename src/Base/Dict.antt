-- ===== src/Base/Dict.antt =====
-- `BTreeMap` and `HashMap` over byte-string keys, as association lists. A new key goes before the
-- first greater one, so that the entries of a map built from the empty one are in key order.
use triptorrent.Base.Bytes.{Bytes, bytes_eq, bytes_eq-eq, bytes_eq_refl}
use triptorrent.Base.Tests.{ltb, ◌==◌, if◌then◌else◌, Bool-cases}
use triptorrent.Base.Lists.{length, keep_if}
use Prim.Native.Nat.{ℕ, suc, ◌≤◌, ◌<◌}
use mathlib.Core.Path.{◌≡◌, refl}
use mathlib.Core.Logic.{◌⊎◌, inl, inr}
use mathlib.Core.Bool.{Bool, true, false, not, ◌&&◌, ◌||◌}
use mathlib.Core.Option.{Option, none, some}
use mathlib.Core.List.{List, [], ◌∷◌}
use native.Mathlib.Omega.{arith}

unfoldable pub bytes_lt : Bytes → Bytes → Bool
bytes_lt [] [] = false
bytes_lt [] (y ∷ ys) = true
bytes_lt (x ∷ xs) [] = false
bytes_lt (x ∷ xs) (y ∷ ys) = ltb x y || (x == y && bytes_lt xs ys)

abbrev pub Dict {ℓ} : Type ℓ → Type ℓ
Dict V = List (Bytes × V)

module _ {ℓ} {V : Type ℓ} where
  unfoldable pub get : Bytes → Dict V → Option V
  get k [] = none
  get k ((j, v) ∷ m) = if bytes_eq k j then some v else get k m

  unfoldable pub contains_key : Bytes → Dict V → Bool
  contains_key k [] = false
  contains_key k ((j, v) ∷ m) = bytes_eq k j || contains_key k m

  -- The value of a key that is there is changed in place.
  unfoldable pub update : Bytes → (V → V) → Dict V → Dict V
  update k f [] = []
  update k f ((j, v) ∷ m) = if bytes_eq k j then (j, f v) ∷ m else (j, v) ∷ update k f m

  unfoldable pub insert_new : Bytes → V → Dict V → Dict V
  insert_new k v [] = (k, v) ∷ []
  insert_new k v ((j, w) ∷ m) =
      if bytes_lt k j then (k, v) ∷ (j, w) ∷ m else (j, w) ∷ insert_new k v m

  unfoldable pub insert : Bytes → V → Dict V → Dict V
  unfolding contains_key update insert_new
  insert k v m = if contains_key k m then update k (λ _. v) m else insert_new k v m

  unfoldable pub remove : Bytes → Dict V → Dict V
  remove k m = keep_if (λ e. not (bytes_eq k e.0)) m

  pub length-update : (k : Bytes) (f : V → V) (m : Dict V) → length (update k f m) ≡ length m
  unfolding update
  length-update k f [] = refl
  length-update k f ((j, v) ∷ m) = ground (arith, length-update k f m)

  pub length-insert_new :
      (k : Bytes) (v : V) (m : Dict V) → length (insert_new k v m) ≡ suc (length m)
  unfolding insert_new
  length-insert_new k v [] = refl
  length-insert_new k v ((j, w) ∷ m) = ground (arith, length-insert_new k v m)

  -- A predicate that holds of every entry.
  abbrev pub Every {κ} : (Bytes → V → Type κ) → Dict V → Type κ
  Every P [] = Unit {κ}
  Every P ((k, v) ∷ m) = P k v × Every P m

  module _ {κ} (P : Bytes → V → Type κ) where
    pub Every-get : (k : Bytes) (m : Dict V) (v : V) → Every P m → get k m ≡ some v → P k v
    unfolding get
    Every-get k [] v h e = cc
    Every-get k ((j, w) ∷ m) v h e = elim (Bool-cases (bytes_eq k j)) [
      | inl same ↦ ground (arith, bytes_eq-eq k j same)
      | inr other ↦ Every-get k m v h.1 (ground arith)
    ]

    pub Every-update :
        (k : Bytes) (f : V → V) (m : Dict V)
        → ((j : Bytes) (v : V) → P j v → P j (f v))
        → Every P m
        → Every P (update k f m)
    unfolding update
    Every-update k f [] keep h = tt
    Every-update k f ((j, v) ∷ m) keep h = ground (arith, keep j v h.0, Every-update k f m keep h.1)

    pub Every-insert_new :
        (k : Bytes) (v : V) (m : Dict V) → P k v → Every P m → Every P (insert_new k v m)
    unfolding insert_new
    Every-insert_new k v [] p h = (p, tt)
    Every-insert_new k v ((j, w) ∷ m) p h = ground (arith, p, Every-insert_new k v m p h.1)

    pub Every-keep_if :
        (test : Bytes × V → Bool) (m : Dict V) → Every P m → Every P (keep_if test m)
    Every-keep_if test [] h = tt
    Every-keep_if test ((j, v) ∷ m) h = ground (arith, Every-keep_if test m h.1)

  pub get-contains_key :
      (k : Bytes) (m : Dict V) (v : V) → get k m ≡ some v → contains_key k m ≡ true
  unfolding get contains_key
  get-contains_key k [] v h = cc
  get-contains_key k ((j, w) ∷ m) v h = elim (Bool-cases (bytes_eq k j)) [
    | inl same ↦ ground arith
    | inr other ↦ ground (arith, get-contains_key k m v)
  ]

  pub get-update :
      (k : Bytes) (f : V → V) (m : Dict V) (v : V)
      → get k m ≡ some v
      → get k (update k f m) ≡ some (f v)
  unfolding get update
  get-update k f [] v h = cc
  get-update k f ((j, w) ∷ m) v h = elim (Bool-cases (bytes_eq k j)) [
    | inl same ↦ ground arith
    | inr other ↦ ground (arith, get-update k f m v)
  ]

  pub contains_key-remove : (k : Bytes) (m : Dict V) → contains_key k (remove k m) ≡ false
  unfolding contains_key remove
  contains_key-remove k [] = refl
  contains_key-remove k ((j, w) ∷ m) = elim (Bool-cases (bytes_eq k j)) [
    | inl same ↦ ground (arith, contains_key-remove k m)
    | inr other ↦ ground (arith, contains_key-remove k m)
  ]

  -- A key that is there, or a table that is not full.
  pub length-insert-le :
      (k : Bytes) (v : V) (m : Dict V) (bound : ℕ)
      → length m ≤ bound
      → (contains_key k m ≡ true) ⊎ (length m < bound)
      → length (insert k v m) ≤ bound
  unfolding insert
  length-insert-le k v m bound h room =
      ground (arith, length-update k (λ _. v) m, length-insert_new k v m)

  module _ {κ} (P : Bytes → V → Type κ) where
    pub Every-insert :
        (k : Bytes) (v : V) (m : Dict V)
        → ((j : Bytes) → P j v)
        → Every P m
        → Every P (insert k v m)
    unfolding insert
    Every-insert k v m p h = elim (Bool-cases (contains_key k m)) [
      | inl there ↦ ground (arith, Every-update P k (λ _. v) m (λ j w q. p j) h)
      | inr new ↦ ground (arith, Every-insert_new P k v m (p k) h)
    ]

    pub Every-replace :
        (k : Bytes) (v : V) (m : Dict V)
        → ((j : Bytes) → P j v)
        → Every P m
        → Every P (update k (λ _. v) m)
    Every-replace k v m p h = Every-update P k (λ _. v) m (λ j w q. p j) h

  pub get-insert_new :
      (k : Bytes) (v : V) (m : Dict V) → get k m ≡ none → get k (insert_new k v m) ≡ some v
  unfolding get insert_new
  get-insert_new k v [] h = ground (arith, bytes_eq_refl k)
  get-insert_new k v ((j, w) ∷ m) h = ground (arith, bytes_eq_refl k, get-insert_new k v m)

  pub get-none : (k : Bytes) (m : Dict V) → get k m ≡ none → contains_key k m ≡ false
  unfolding get contains_key
  get-none k [] h = refl
  get-none k ((j, w) ∷ m) h = elim (Bool-cases (bytes_eq k j)) [
    | inl same ↦ ground arith
    | inr other ↦ ground (arith, get-none k m)
  ]

  pub get-insert : (k : Bytes) (v : V) (m : Dict V) → get k m ≡ none → get k (insert k v m) ≡ some v
  unfolding insert
  get-insert k v m h = ground (arith, get-none k m h, get-insert_new k v m h)

  pub get-keep_if :
      (test : Bytes × V → Bool) (k : Bytes) (m : Dict V) (v : V)
      → get k m ≡ some v
      → ((j : Bytes) → test (j, v) ≡ true)
      → get k (keep_if test m) ≡ some v
  unfolding get
  get-keep_if test k [] v h kept = cc
  get-keep_if test k ((j, w) ∷ m) v h kept = elim (Bool-cases (bytes_eq k j)) [
    | inl same ↦ let w_is_v : w ≡ v = ground arith in ground (arith, kept j)
    | inr other ↦ ground (arith, get-keep_if test k m v)
  ]
