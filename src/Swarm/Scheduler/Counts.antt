-- ===== src/Swarm/Scheduler/Counts.antt =====
-- How the claims on chunks and the busy flags of providers change together.
use triptorrent.Base.{
  ℕ, zero, suc, ◌+◌, ◌≤◌, ◌≡◌, ◌≢◌, refl, ◌⊎◌, inl, inr, List, [], ◌∷◌, map, Bool, Option, none,
  some, length, get_elem?, set, modify, keep_if, get_elem?-modify_self, get_elem?-modify_ne,
  if◌then◌else◌, arith,
}
use native.Mathlib.Decide.{ℕ_discrete}
use triptorrent.Swarm.Scheduler.{
  ChunkState, missing, in_flight, complete, ProviderState, initial_chunk, is_in_flight_of, claims,
  release,
}

abbrev pub bit : Bool → ℕ
bit b = if b then 1 else 0

-- Replacing one chunk moves the count by what the old and the new state give.
pub claims-set :
    (p : ℕ) (cs : List ChunkState) (i : ℕ) (c d : ChunkState)
    → get_elem? cs i ≡ some c
    → claims p (set cs i d) + bit (is_in_flight_of p c) ≡ claims p cs + bit (is_in_flight_of p d)
unfolding claims
claims-set p [] i c d h = cc
claims-set p (x ∷ cs) zero c d h = ground arith
claims-set p (x ∷ cs) (suc i) c d h = ground (arith, claims-set p cs i c d h)

pub claims-release_self : (p : ℕ) (cs : List ChunkState) → claims p (map (release p) cs) ≡ 0
unfolding claims
claims-release_self p [] = refl
claims-release_self p (c ∷ cs) = ground (arith, claims-release_self p cs)

pub claims-release_ne :
    (p q : ℕ) (cs : List ChunkState) → p ≢ q → claims p (map (release q) cs) ≡ claims p cs
unfolding claims
claims-release_ne p q [] h = refl
claims-release_ne p q (c ∷ cs) h = ground (arith, claims-release_ne p q cs h)

pub claims_pos :
    (p : ℕ) (cs : List ChunkState) (i : ℕ) → get_elem? cs i ≡ some (in_flight p) → 1 ≤ claims p cs
unfolding claims
claims_pos p [] i h = cc
claims_pos p (c ∷ cs) zero h = ground arith
claims_pos p (c ∷ cs) (suc i) h = ground (arith, claims_pos p cs i h)

-- One if there is a provider `p` and it is busy.
unfoldable pub busy_bit : ℕ → List ProviderState → ℕ
busy_bit p ps = elim (get_elem? ps p) [ none ↦ 0 | some state ↦ bit state.busy ]

unfoldable pub active_count : List ProviderState → ℕ
active_count ps = length (keep_if (λ state. state.active) ps)

pub active_count-modify :
    (ps : List ProviderState) (p : ℕ) (f : ProviderState → ProviderState) (state : ProviderState)
    → get_elem? ps p ≡ some state
    → active_count (modify ps p f) + bit state.active ≡ active_count ps + bit (f state).active
unfolding active_count
active_count-modify [] p f state h = cc
active_count-modify (x ∷ ps) zero f state h = ground arith
active_count-modify (x ∷ ps) (suc p) f state h = ground (arith, active_count-modify ps p f state h)

pub busy_bit-modify_ne :
    (ps : List ProviderState) (p q : ℕ) (f : ProviderState → ProviderState)
    → p ≢ q
    → busy_bit q (modify ps p f) ≡ busy_bit q ps
unfolding busy_bit
busy_bit-modify_ne ps p q f h = rw (get_elem?-modify_ne ps p q f h, busy_bit)

pub busy_bit-modify_self :
    (ps : List ProviderState) (p : ℕ) (f : ProviderState → ProviderState) (state : ProviderState)
    → get_elem? ps p ≡ some state
    → busy_bit p (modify ps p f) ≡ bit (f state).busy
unfolding busy_bit
busy_bit-modify_self ps p f state h = rw (get_elem?-modify_self ps p f state h, busy_bit)

pub busy_bit-some :
    (ps : List ProviderState) (p : ℕ) (state : ProviderState)
    → get_elem? ps p ≡ some state
    → busy_bit p ps ≡ bit state.busy
unfolding busy_bit
busy_bit-some ps p state h = rw (h, busy_bit)

pub busy_bit-none : (ps : List ProviderState) (p : ℕ) → get_elem? ps p ≡ none → busy_bit p ps ≡ 0
unfolding busy_bit
busy_bit-none ps p h = rw (h, busy_bit)

pub claims-initial : (p : ℕ) (flags : List Bool) → claims p (map initial_chunk flags) ≡ 0
unfolding claims
claims-initial p [] = refl
claims-initial p (b ∷ flags) = ground (arith, claims-initial p flags)

pub active_count-le : (ps : List ProviderState) → active_count ps ≤ length ps
unfolding active_count
active_count-le [] = omega arith
active_count-le (x ∷ ps) = ground (arith, active_count-le ps)

-- Whether a chunk is claimed by `p`.
pub held_cases :
    (o : Option ChunkState) (p : ℕ) → (o ≡ some (in_flight p)) ⊎ (o ≢ some (in_flight p))
held_cases none p = inr (λ e. cc)
held_cases (some missing) p = inr (λ e. cc)
held_cases (some complete) p = inr (λ e. cc)
held_cases (some (in_flight q)) p = elim (ℕ_discrete q p) [
  | yes same ↦ inl (cc)
  | no other ↦ inr (λ e. other (cc))
]
