-- ===== src/Presence/Config.antt =====
-- crates/lattice-intelligence/src/presence.rs: which configurations and which evidence the engine takes.
use neon_hearth.Prelude.{
  Bool, ◌&&◌, ◌||◌, not, [], ◌∷◌, length, any, is_empty, Option, none, some, ltb, ◌==◌,
  if◌then◌else◌, is_some, is_some_and,
}
use neon_hearth.Prelude.Int.{ℤ, pos, leb_ℤ, ltb_ℤ}
use neon_hearth.Text.{same_text, is_blank, byte_len}
use neon_hearth.External.{Crates, before, seconds, minutes, hours}
use neon_hearth.Presence.Types.{
  PresenceConfig, PresenceEvidenceKind, PresenceEvidence, PresenceError, same_evidence_kind,
}
use neon_hearth.Presence.Evidence.{is_enforcement}

-- `PresenceConfig::validate`: whether the configuration is refused.
abbrev zero_duration : ℤ
zero_duration = pos 0

unfoldable pub bad_sources : PresenceConfig → Bool
bad_sources cfg =
    is_empty cfg.trusted_sources
    || ltb 256 (length cfg.trusted_sources)
    || any (λ s. is_blank s || ltb cfg.max_source_len (byte_len s)) cfg.trusted_sources

unfoldable pub bad_windows : PresenceConfig → Bool
bad_windows cfg =
    leb_ℤ cfg.online_window zero_duration
    || leb_ℤ cfg.correction_window zero_duration
    || ltb_ℤ cfg.retention cfg.correction_window
    || ltb_ℤ cfg.retention cfg.online_window
    || ltb_ℤ cfg.retention cfg.confirmation_window
    || leb_ℤ cfg.confirmation_window zero_duration
    || ltb_ℤ cfg.future_skew zero_duration

unfoldable pub has_zero_bound : PresenceConfig → Bool
has_zero_bound cfg =
    any (λ n. n == 0)
      (cfg.join_confirmations ∷ cfg.departure_confirmations ∷ cfg.max_devices
        ∷ cfg.max_evidence_per_device ∷ cfg.max_history_per_device ∷ cfg.max_source_len ∷ [])

unfoldable pub is_valid_config : PresenceConfig → Bool
is_valid_config cfg = not (bad_windows cfg || bad_sources cfg || has_zero_bound cfg)

module _ (c : Crates) where
  open c use {DateTime, checked_add_signed}

  -- `PresenceConfig::default`.
  unfoldable pub default_config : PresenceConfig
  default_config = record {
    online_window = seconds c 30;
    correction_window = minutes c 5;
    retention = hours c 24;
    future_skew = seconds c 5;
    confirmation_window = minutes c 2;
    trusted_sources = "sensor-a" ∷ [];
    join_confirmations = 2;
    departure_confirmations = 2;
    max_devices = 4096;
    max_evidence_per_device = 256;
    max_history_per_device = 128;
    max_source_len = 128;
  }

  -- `PresenceEngine::validate`: the reason to refuse a piece of evidence.
  unfoldable pub refusal :
      PresenceConfig → PresenceEvidence c → DateTime → Bool → Option PresenceError
  refusal cfg e arrival enforcement_authorized =
      if not (any (λ s. same_text s e.source) cfg.trusted_sources)
      then some PresenceError.untrusted
      else if is_blank e.source || ltb cfg.max_source_len (byte_len e.source)
      then some (PresenceError.invalid_evidence "source")
      else elim (checked_add_signed arrival cfg.future_skew) [
        | none ↦ some (PresenceError.invalid_evidence "time overflow")
        | some future_limit ↦
            if before c future_limit e.observed_at
            then some (PresenceError.invalid_evidence "future skew")
            else if is_some_and e.valid_until (λ x. before c x e.observed_at)
            then some (PresenceError.invalid_evidence "validity")
            else if same_evidence_kind e.kind PresenceEvidenceKind.neighbor_cache
                && not (is_some e.valid_until)
            then some (PresenceError.invalid_evidence "validity")
            else if same_evidence_kind e.kind PresenceEvidenceKind.traffic
                && not (is_some (checked_add_signed e.observed_at cfg.online_window))
            then some (PresenceError.invalid_evidence "time overflow")
            else if is_enforcement e.kind && not enforcement_authorized
            then some (PresenceError.invalid_evidence "reserved enforcement")
            else if same_evidence_kind e.kind PresenceEvidenceKind.evaluation
            then some (PresenceError.invalid_evidence "reserved kind")
            else none
      ]
