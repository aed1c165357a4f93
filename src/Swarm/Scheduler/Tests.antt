-- ===== src/Swarm/Scheduler/Tests.antt =====
-- Runs of the scheduler over two chunks and two providers.
use triptorrent.Base.{
  ℕ, ◌≤◌, ◌≡◌, ◌≢◌, ◌⊎◌, refl, List, [], ◌∷◌, true, false, some, get_elem?, ok, err, arith,
}
use triptorrent.Protocol.Availability.{PieceAvailability, is_valid, contains}
use triptorrent.Swarm.Scheduler.{
  Scheduler, missing, in_flight, complete, new, assign, accept, claim, can_finish, has_in_flight,
  is_complete, initial_provider, provider_stats, source_count, unexpected_chunk,
}
use triptorrent.Swarm.Scheduler.Choice.{Outcome, assign-Outcome}
use triptorrent.Swarm.Scheduler.Invariant.{
  IsScheduled, assigns, accepts, rejects, run, step, finished, new-IsScheduled, run-IsScheduled,
  accept_outcome,
}
use triptorrent.Swarm.Scheduler.Progress.{complete-run, retries-run-le, can_finish_moves}

-- Two chunks; the first provider offers both and the second only the second chunk.
abbrev offers : List PieceAvailability
offers =
    (record { chunk_count = 2; bits = 3 ∷ [] }) ∷ (record { chunk_count = 2; bits = 2 ∷ [] }) ∷ []

abbrev started : Scheduler
started = record {
  chunks = missing ∷ missing ∷ [];
  providers =
      initial_provider (record { chunk_count = 2; bits = 3 ∷ [] })
      ∷ initial_provider (record { chunk_count = 2; bits = 2 ∷ [] })
      ∷ [];
  retries = 0;
}

made : new 2 offers (false ∷ false ∷ []) ≡ ok started
unfolding new is_valid
made = refl

first_chunk : (assign started 0).0 ≡ some 0
unfolding assign contains
first_chunk = refl

second_chunk : (assign started 1).0 ≡ some 1
unfolding assign contains
second_chunk = refl

started-IsScheduled : IsScheduled started
started-IsScheduled = new-IsScheduled 2 offers (false ∷ false ∷ []) started made

assign-Outcome_example : Outcome started 0
assign-Outcome_example = assign-Outcome started 0 (omega arith)

new-IsScheduled_example : IsScheduled started
new-IsScheduled_example = new-IsScheduled 2 offers (false ∷ false ∷ []) started made

-- The first provider holds the first chunk.
abbrev claimed : Scheduler
claimed = claim started 0 0

claimed-IsScheduled : IsScheduled claimed
unfolding run assign contains step
claimed-IsScheduled = run-IsScheduled started (assigns 0 ∷ []) started-IsScheduled

accept_outcome_example :
    ((get_elem? claimed.chunks 0 ≡ some (in_flight 0))
      × (accept claimed 0 0 ≡ (ok tt, finished claimed 0 0)))
    ⊎ ((get_elem? claimed.chunks 0 ≢ some (in_flight 0))
        × (accept claimed 0 0 ≡ (err unexpected_chunk, claimed)))
accept_outcome_example = accept_outcome claimed 0 0 claimed-IsScheduled

run-IsScheduled_example : IsScheduled (run started (assigns 0 ∷ accepts 0 0 ∷ rejects 1 ∷ []))
run-IsScheduled_example =
    run-IsScheduled started (assigns 0 ∷ accepts 0 0 ∷ rejects 1 ∷ []) started-IsScheduled

-- The first chunk has arrived.
abbrev arrived : Scheduler
arrived = finished claimed 0 0

arrived-IsScheduled : IsScheduled arrived
unfolding run step accept claim
arrived-IsScheduled = run-IsScheduled claimed (accepts 0 0 ∷ []) claimed-IsScheduled

first_complete : get_elem? arrived.chunks 0 ≡ some complete
unfolding finished claim
first_complete = refl

complete-run_example : get_elem? (run arrived (assigns 0 ∷ rejects 0 ∷ [])).chunks 0 ≡ some complete
complete-run_example =
    complete-run arrived (assigns 0 ∷ rejects 0 ∷ []) 0 arrived-IsScheduled first_complete

retries-run-le_example : (run started (assigns 0 ∷ rejects 0 ∷ rejects 0 ∷ [])).retries ≤ 2
retries-run-le_example =
    retries-run-le 2 offers (false ∷ false ∷ []) started (assigns 0 ∷ rejects 0 ∷ rejects 0 ∷ [])
      made

finishable : can_finish started ≡ true
unfolding can_finish source_count contains
finishable = refl

idle : has_in_flight started ≡ false
unfolding has_in_flight
idle = refl

unfinished : is_complete started ≡ false
unfolding is_complete
unfinished = refl

can_finish_moves_example : (p : ℕ) × (i : ℕ) × (assign started p ≡ (some i, claim started p i))
can_finish_moves_example = can_finish_moves started started-IsScheduled finishable idle unfinished

counted : provider_stats arrived 0 ≡ some (record { accepted = 1; rejected = 0; active = true })
unfolding provider_stats finished claim
counted = refl
