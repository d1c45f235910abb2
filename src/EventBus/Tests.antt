-- ===== src/EventBus/Tests.antt =====
-- crates/lattice-event-bus/src/lib.rs: the bus on concrete events.
use neon_hearth.Prelude.{ℕ, ◌≡◌, refl, List, [], ◌∷◌, map, Option, none, some, arith}
use neon_hearth.External.Sample.{sample_crates}
use neon_hearth.EventBus.{
  EventBus, Resume, new, publish, trim, resume_after, resume_from, publish_all,
}
use neon_hearth.EventBus.Replay.{Numbered}
use neon_hearth.EventBus.Clients.{payloads, owed, bus_after, resume_after_complete}

abbrev three_events : List (ℕ × ℕ)
three_events = (10, 7) ∷ (11, 8) ∷ (12, 9) ∷ []

-- The payloads that a client gets back, if no snapshot is required.
abbrev payloads_of : Resume sample_crates ℕ → Option (List ℕ)
payloads_of (Resume.events es) = some (map (λ e. e.payload) es)
payloads_of Resume.snapshot_required = none

abbrev resumed : ℕ → Option (EventBus sample_crates ℕ) → Option (List ℕ)
resumed n none = none
resumed n (some bus) = payloads_of (resume_after n bus)

-- A replay of two events serves a client behind the first, not one that has seen none.
two_kept : resumed 1 (bus_after 2 4 three_events) ≡ some (8 ∷ 9 ∷ [])
unfolding new publish trim resume_after resume_from publish_all
two_kept = refl

first_gone : resumed 0 (bus_after 2 4 three_events) ≡ none
unfolding new publish trim resume_after resume_from publish_all
first_gone = refl

resume_after_complete_example :
    (bus : EventBus sample_crates ℕ) × (bus_after 2 4 three_events ≡ some bus)
    × (payloads bus.sent ≡ three_events)
    × Numbered 1 bus.sent
    × (bus.replay_capacity ≡ 2)
    × (resume_after 1 bus ≡ owed 1 bus)
resume_after_complete_example =
    resume_after_complete 2 4 three_events 1 (omega arith) (omega arith) (omega arith) (omega arith)
