-- ===== src/Presence/Tests.antt =====
-- crates/lattice-intelligence/src/presence.rs: runs of the engine, at instants counted in seconds.
use neon_hearth.Prelude.{
  ℕ, ◌≡◌, ◌↔◌, ◌≤◌, ◌⊎◌, refl, Bool, true, false, String, List, [], ◌∷◌, map, Option, none, some,
  Result, ok, err, arith, is_some, is_some_and, ltb, u64_max,
}
use neon_hearth.Prelude.Int.{pos}
use neon_hearth.External.{DeviceId}
use neon_hearth.External.Sample.{sample_crates}
use neon_hearth.Presence.Types.{
  PresenceState, PresenceConfig, PresenceEvidence, PresenceEvidenceKind, DevicePresence,
  PresenceEngine, PresenceError,
}
use neon_hearth.Presence.Config.{
  default_config, is_valid_config, bad_windows, bad_sources, has_zero_bound, refusal,
}
use neon_hearth.Presence.Evidence.{
  is_real_positive, is_positive, semantically_retained, stale_control, stale_control_at,
  apply_flags, support_at, sort_evidence, prune_control_evidence, prune_family, control_family,
  latest, confirmations, distinct_count, control_state, conflicting_controls,
}
use neon_hearth.Presence.Candidates.{
  candidate, gated, has_traffic, has_support, departure_failures, support_end, end_of_support,
}
use neon_hearth.Presence.Absorption.{absorb, correction_for, prior_answer}
use neon_hearth.Presence.Screening.{
  trigger_refusal, transition_refusal, history_walk, correction_refusal, evidence_refusal,
  control_refusal,
}
use neon_hearth.Prelude.Sorting.{sort_by}
use neon_hearth.Presence.Devices.{get, insert, new, new_with_transition_sequence, state}
use neon_hearth.Presence.Engine.{
  evaluate, ingest_authorized, ingest_admitted, ingest_correction, ingest_current, recompute,
}
use neon_hearth.Presence.Histories.{
  domain_events_since, make_transition, take_transition, push_history, shed, changed,
}
use neon_hearth.Presence.Checkpoint.{
  checkpoint, from_checkpoint, restore_devices, screen, device_refusal,
}
use neon_hearth.Presence.Replay.{Call, play, answer, since, domain_events_since_complete}
use neon_hearth.Presence.Moves.{own}
use neon_hearth.Presence.Taken.{Answers}
use neon_hearth.Presence.Answers.{ingest_authorized-Answers}
use neon_hearth.Presence.Bounds.{IsBounded}
use neon_hearth.Presence.Capacity.{ingest_authorized-IsBounded}
use neon_hearth.Presence.Safety.{Departed, Confirmation, gated-Departed, gated-confirmed}
use neon_hearth.Presence.Distinct.{Pieces}
use neon_hearth.Presence.Roundtrip.{from_checkpoint-checkpoint, from_checkpoint-IsBounded}
use neon_hearth.Presence.Resaved.{restored_again}
use neon_hearth.Presence.Timer.{evaluate_not_restored}

abbrev home : PresenceConfig
home = record {
  online_window = pos 60;
  correction_window = pos 120;
  retention = pos 600;
  future_skew = pos 5;
  confirmation_window = pos 300;
  trusted_sources = "sensor" ∷ "presence.timer" ∷ [];
  join_confirmations = 1;
  departure_confirmations = 1;
  max_devices = 2;
  max_evidence_per_device = 4;
  max_history_per_device = 1;
  max_source_len = 32;
}

abbrev started : PresenceEngine sample_crates
started = record { cfg = home; devices = []; next_transition = 1 }

abbrev phone : DeviceId sample_crates
phone = record { uuid = 7 }

abbrev seen : PresenceEvidenceKind → ℕ → Option ℕ → PresenceEvidence sample_crates
seen kind at until = record {
  device_id = phone;
  source = "sensor";
  kind = kind;
  observed_at = at;
  valid_until = until;
}

abbrev arrival : Call sample_crates
arrival = Call.ingesting (seen PresenceEvidenceKind.traffic 100 none) 100 false

abbrev lease : Call sample_crates
lease = Call.ingesting (seen PresenceEvidenceKind.lease 101 (some 300)) 101 false

abbrev silence : Call sample_crates
silence = Call.ingesting (seen PresenceEvidenceKind.confirmation_failure 200 none) 200 false

started_by_new : new sample_crates home ≡ ok started
unfolding new new_with_transition_sequence is_valid_config bad_windows bad_sources has_zero_bound
started_by_new = refl

default_is_valid : is_valid_config (default_config sample_crates) ≡ true
unfolding is_valid_config bad_windows bad_sources has_zero_bound default_config
default_is_valid = refl

-- The device comes and leaves.
comes_and_leaves :
    map (λ t. t.to) (play sample_crates (arrival ∷ silence ∷ []) started).0
    ≡ PresenceState.online ∷ PresenceState.offline ∷ []
unfolding play answer ingest_authorized ingest_admitted ingest_correction ingest_current recompute
    evaluate refusal semantically_retained prior_answer stale_control stale_control_at absorb
    correction_for apply_flags support_at sort_evidence sort_by prune_control_evidence prune_family
    control_family is_real_positive is_positive latest confirmations distinct_count candidate gated
    has_traffic has_support departure_failures support_end end_of_support make_transition
    take_transition push_history shed get neon_hearth.Presence.Devices.insert
    neon_hearth.Prelude.Sorting.insert
comes_and_leaves = refl

abbrev roomy : PresenceConfig
roomy = record home { max_history_per_device = 8 }

abbrev after : List (Call sample_crates) → PresenceEngine sample_crates
after calls = (play sample_crates calls (record started { cfg = roomy })).1

-- What `from_checkpoint` says to the engine's own checkpoint.
abbrev restored_next : Result (PresenceEngine sample_crates) PresenceError → Result ℕ PresenceError
restored_next (ok engine) = ok engine.next_transition
restored_next (err e) = err e

restored_after : List (Call sample_crates) → Result ℕ PresenceError
restored_after calls =
    restored_next (from_checkpoint sample_crates roomy (checkpoint sample_crates (after calls)))

-- A departed device is restored.
departed_restored : restored_after (arrival ∷ silence ∷ []) ≡ ok 3
unfolding restored_after play answer ingest_authorized ingest_admitted ingest_correction
    ingest_current recompute evaluate refusal semantically_retained prior_answer stale_control
    stale_control_at absorb correction_for apply_flags support_at sort_evidence sort_by
    prune_control_evidence prune_family control_family is_real_positive is_positive latest
    confirmations distinct_count candidate gated has_traffic has_support departure_failures
    support_end end_of_support make_transition take_transition push_history shed get
    neon_hearth.Presence.Devices.insert neon_hearth.Prelude.Sorting.insert checkpoint
    from_checkpoint restore_devices screen device_refusal trigger_refusal transition_refusal
    history_walk correction_refusal evidence_refusal control_refusal control_state
    conflicting_controls is_valid_config bad_windows bad_sources has_zero_bound
departed_restored = refl

-- The traffic of a leased device ends: `evaluate` calls it quiet, and the engine is not restored.
abbrev timed_calls : List (Call sample_crates)
timed_calls = arrival ∷ lease ∷ Call.evaluating phone 170 ∷ []

timed_run :
    map (λ t. t.to) (play sample_crates timed_calls started).0
    ≡ PresenceState.online ∷ PresenceState.quiet ∷ []
unfolding play answer ingest_authorized ingest_admitted ingest_correction ingest_current recompute
    evaluate refusal semantically_retained prior_answer stale_control stale_control_at absorb
    correction_for apply_flags support_at sort_evidence sort_by prune_control_evidence prune_family
    control_family is_real_positive is_positive latest confirmations distinct_count candidate gated
    has_traffic has_support departure_failures support_end end_of_support make_transition
    take_transition push_history shed get neon_hearth.Presence.Devices.insert
    neon_hearth.Prelude.Sorting.insert
timed_run = refl

timed_not_restored : restored_after timed_calls ≡ err (PresenceError.invalid_checkpoint "trigger")
unfolding restored_after play answer ingest_authorized ingest_admitted ingest_correction
    ingest_current recompute evaluate refusal semantically_retained prior_answer stale_control
    stale_control_at absorb correction_for apply_flags support_at sort_evidence sort_by
    prune_control_evidence prune_family control_family is_real_positive is_positive latest
    confirmations distinct_count candidate gated has_traffic has_support departure_failures
    support_end end_of_support make_transition take_transition push_history shed get
    neon_hearth.Presence.Devices.insert neon_hearth.Prelude.Sorting.insert checkpoint
    from_checkpoint restore_devices screen device_refusal trigger_refusal transition_refusal
    history_walk correction_refusal evidence_refusal control_refusal control_state
    conflicting_controls is_valid_config bad_windows bad_sources has_zero_bound
timed_not_restored = refl

-- A late traffic report corrects a departure, and the engine is not restored.
corrected_not_restored :
    restored_after (
      arrival
      ∷ silence
      ∷ Call.ingesting (seen PresenceEvidenceKind.traffic 190 none) 210 false
      ∷ [])
    ≡ err (PresenceError.invalid_checkpoint "history")
unfolding restored_after play answer ingest_authorized ingest_admitted ingest_correction
    ingest_current recompute evaluate refusal semantically_retained prior_answer stale_control
    stale_control_at absorb correction_for apply_flags support_at sort_evidence sort_by
    prune_control_evidence prune_family control_family is_real_positive is_positive latest
    confirmations distinct_count candidate gated has_traffic has_support departure_failures
    support_end end_of_support make_transition take_transition push_history shed get
    neon_hearth.Presence.Devices.insert neon_hearth.Prelude.Sorting.insert checkpoint
    from_checkpoint restore_devices screen device_refusal trigger_refusal transition_refusal
    history_walk correction_refusal evidence_refusal control_refusal control_state
    conflicting_controls is_valid_config bad_windows bad_sources has_zero_bound
corrected_not_restored = refl

-- Traffic is observed by a clock that is ahead within the skew, and the engine is not restored.
skewed_not_restored :
    restored_after (Call.ingesting (seen PresenceEvidenceKind.traffic 104 none) 100 false ∷ [])
    ≡ err (PresenceError.invalid_checkpoint "evidence time")
unfolding restored_after play answer ingest_authorized ingest_admitted ingest_correction
    ingest_current recompute evaluate refusal semantically_retained prior_answer stale_control
    stale_control_at absorb correction_for apply_flags support_at sort_evidence sort_by
    prune_control_evidence prune_family control_family is_real_positive is_positive latest
    confirmations distinct_count candidate gated has_traffic has_support departure_failures
    support_end end_of_support make_transition take_transition push_history shed get
    neon_hearth.Presence.Devices.insert neon_hearth.Prelude.Sorting.insert checkpoint
    from_checkpoint restore_devices screen device_refusal trigger_refusal transition_refusal
    history_walk correction_refusal evidence_refusal control_refusal control_state
    conflicting_controls is_valid_config bad_windows bad_sources has_zero_bound
skewed_not_restored = refl

abbrev traffic : PresenceEvidence sample_crates
traffic = seen PresenceEvidenceKind.traffic 100 none

ingest_authorized-Answers_example :
    Answers sample_crates started (ingest_authorized sample_crates traffic 100 false started)
ingest_authorized-Answers_example =
    ingest_authorized-Answers sample_crates traffic 100 false started

started-IsBounded : IsBounded sample_crates started
unfolding get
started-IsBounded = record {
  devices = omega arith;
  each = λ id d there. ground (arith, there);
  history_room = omega arith;
  evidence_room = omega arith;
}

ingest_authorized-IsBounded_example :
    IsBounded sample_crates (ingest_authorized sample_crates traffic 100 false started).1
ingest_authorized-IsBounded_example =
    ingest_authorized-IsBounded sample_crates traffic 100 false started started-IsBounded

domain_events_since_complete_example :
    domain_events_since sample_crates phone 1
      (play sample_crates (arrival ∷ silence ∷ []) started).1
    ≡ ok (
        map (changed sample_crates) (
          since sample_crates 1
            (own phone (play sample_crates (arrival ∷ silence ∷ []) started).0)))
unfolding play answer ingest_authorized ingest_admitted ingest_correction ingest_current recompute
    evaluate refusal semantically_retained prior_answer stale_control stale_control_at absorb
    correction_for apply_flags support_at sort_evidence sort_by prune_control_evidence prune_family
    control_family is_real_positive is_positive latest confirmations distinct_count candidate gated
    has_traffic has_support departure_failures support_end end_of_support make_transition
    take_transition push_history shed get neon_hearth.Presence.Devices.insert
    neon_hearth.Prelude.Sorting.insert
domain_events_since_complete_example =
    domain_events_since_complete sample_crates (arrival ∷ silence ∷ []) started phone 1 _ refl
      (omega arith) refl refl

-- A device of which the traffic has ended, unconfirmed since.
abbrev silent : PresenceState → DevicePresence sample_crates
silent was = record {
  state = was;
  evidence = traffic ∷ seen PresenceEvidenceKind.confirmation_failure 200 none ∷ [];
  history = [];
  last_evaluation = 200;
  ever_supported = true;
  blocked = false;
  impaired = false;
  contradictory = false;
  enforcement_clock = none;
  impairment_clock = none;
  contradiction_clock = none;
  evicted_through = none;
}

gated-Departed_example :
    ((silent PresenceState.online).state ≡ PresenceState.offline)
    ⊎ Departed sample_crates home 200 (silent PresenceState.online)
unfolding play answer ingest_authorized ingest_admitted ingest_correction ingest_current recompute
    evaluate refusal semantically_retained prior_answer stale_control stale_control_at absorb
    correction_for apply_flags support_at sort_evidence sort_by prune_control_evidence prune_family
    control_family is_real_positive is_positive latest confirmations distinct_count candidate gated
    has_traffic has_support departure_failures support_end end_of_support make_transition
    take_transition push_history shed get neon_hearth.Presence.Devices.insert
    neon_hearth.Prelude.Sorting.insert
gated-Departed_example = gated-Departed sample_crates (silent PresenceState.online) 200 home refl

gated-confirmed_example :
    Pieces sample_crates home.join_confirmations
      (Confirmation sample_crates home 120 (silent PresenceState.unknown))
unfolding play answer ingest_authorized ingest_admitted ingest_correction ingest_current recompute
    evaluate refusal semantically_retained prior_answer stale_control stale_control_at absorb
    correction_for apply_flags support_at sort_evidence sort_by prune_control_evidence prune_family
    control_family is_real_positive is_positive latest confirmations distinct_count candidate gated
    has_traffic has_support departure_failures support_end end_of_support make_transition
    take_transition push_history shed get neon_hearth.Presence.Devices.insert
    neon_hearth.Prelude.Sorting.insert
gated-confirmed_example =
    gated-confirmed sample_crates (silent PresenceState.unknown) 120 home refl refl

abbrev departed : PresenceEngine sample_crates
departed = after (arrival ∷ silence ∷ [])

from_checkpoint-checkpoint_example :
    (departed.cfg ≡ roomy)
    × (departed.next_transition ≡ departed.next_transition)
    × (get sample_crates phone departed.devices ≡ get sample_crates phone departed.devices)
unfolding play answer ingest_authorized ingest_admitted ingest_correction ingest_current recompute
    evaluate refusal semantically_retained prior_answer stale_control stale_control_at absorb
    correction_for apply_flags support_at sort_evidence sort_by prune_control_evidence prune_family
    control_family is_real_positive is_positive latest confirmations distinct_count candidate gated
    has_traffic has_support departure_failures support_end end_of_support make_transition
    take_transition push_history shed get neon_hearth.Presence.Devices.insert
    neon_hearth.Prelude.Sorting.insert checkpoint from_checkpoint restore_devices screen
    device_refusal trigger_refusal transition_refusal history_walk correction_refusal
    evidence_refusal control_refusal control_state conflicting_controls is_valid_config bad_windows
    bad_sources has_zero_bound
from_checkpoint-checkpoint_example =
    from_checkpoint-checkpoint sample_crates roomy departed departed phone refl

restored_again_example :
    (new : PresenceEngine sample_crates) × (from_checkpoint sample_crates roomy
        (checkpoint sample_crates departed)
      ≡ ok new)
    × (new.cfg ≡ departed.cfg)
    × (new.next_transition ≡ departed.next_transition)
    × (get sample_crates phone new.devices ≡ get sample_crates phone departed.devices)
unfolding play answer ingest_authorized ingest_admitted ingest_correction ingest_current recompute
    evaluate refusal semantically_retained prior_answer stale_control stale_control_at absorb
    correction_for apply_flags support_at sort_evidence sort_by prune_control_evidence prune_family
    control_family is_real_positive is_positive latest confirmations distinct_count candidate gated
    has_traffic has_support departure_failures support_end end_of_support make_transition
    take_transition push_history shed get neon_hearth.Presence.Devices.insert
    neon_hearth.Prelude.Sorting.insert checkpoint from_checkpoint restore_devices screen
    device_refusal trigger_refusal transition_refusal history_walk correction_refusal
    evidence_refusal control_refusal control_state conflicting_controls is_valid_config bad_windows
    bad_sources has_zero_bound
restored_again_example =
    restored_again sample_crates roomy (checkpoint sample_crates departed) departed phone refl

from_checkpoint-IsBounded_example : IsBounded sample_crates departed
unfolding play answer ingest_authorized ingest_admitted ingest_correction ingest_current recompute
    evaluate refusal semantically_retained prior_answer stale_control stale_control_at absorb
    correction_for apply_flags support_at sort_evidence sort_by prune_control_evidence prune_family
    control_family is_real_positive is_positive latest confirmations distinct_count candidate gated
    has_traffic has_support departure_failures support_end end_of_support make_transition
    take_transition push_history shed get neon_hearth.Presence.Devices.insert
    neon_hearth.Prelude.Sorting.insert checkpoint from_checkpoint restore_devices screen
    device_refusal trigger_refusal transition_refusal history_walk correction_refusal
    evidence_refusal control_refusal control_state conflicting_controls is_valid_config bad_windows
    bad_sources has_zero_bound
from_checkpoint-IsBounded_example =
    from_checkpoint-IsBounded sample_crates roomy (checkpoint sample_crates departed) departed refl

evaluate_not_restored_example : ¬ (
    from_checkpoint sample_crates roomy (checkpoint sample_crates (after timed_calls)) ≡ ok started)
unfolding play answer ingest_authorized ingest_admitted ingest_correction ingest_current recompute
    evaluate refusal semantically_retained prior_answer stale_control stale_control_at absorb
    correction_for apply_flags support_at sort_evidence sort_by prune_control_evidence prune_family
    control_family is_real_positive is_positive latest confirmations distinct_count candidate gated
    has_traffic has_support departure_failures support_end end_of_support make_transition
    take_transition push_history shed get neon_hearth.Presence.Devices.insert
    neon_hearth.Prelude.Sorting.insert checkpoint from_checkpoint restore_devices screen
    device_refusal trigger_refusal transition_refusal history_walk correction_refusal
    evidence_refusal control_refusal control_state conflicting_controls is_valid_config bad_windows
    bad_sources has_zero_bound
evaluate_not_restored_example =
    evaluate_not_restored sample_crates phone 170 roomy (after (arrival ∷ lease ∷ []))
      (after timed_calls) started _ _ refl
