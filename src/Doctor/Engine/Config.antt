-- ===== src/Doctor/Engine/Config.antt =====
-- crates/lattice-doctor/src/engine.rs: the configuration of a diagnostic run and its validation.
use neon_hearth.Prelude.{
  ℕ, Bool, ◌&&◌, ◌||◌, not, String, List, length, is_empty, Result, ok, err, ltb, ◌==◌, ◌≤◌, ◌≡◌,
  arith, if◌then◌else◌,
}
use neon_hearth.Prelude.Int.{ℤ}
use neon_hearth.Text.{is_blank}
use neon_hearth.External.{Host}
use neon_hearth.Doctor.Check.{DoctorError}

abbrev pub ping_payload_bytes : ℕ
ping_payload_bytes = 56

abbrev pub max_ping_count : ℕ
max_ping_count = 16

abbrev pub max_mtu_probe_sizes : ℕ
max_mtu_probe_sizes = 8

abbrev pub max_resolvers : ℕ
max_resolvers = 8

pub record Thresholds (h : Host) : Type 0 where
  pub degraded_loss_percent : h.Float
  pub degraded_median_rtt_ms : h.Float
  pub weak_rssi_dbm : ℤ

pub record DoctorConfig (h : Host) : Type 0 where
  pub interface : String
  pub gateway : String
  pub configured_resolvers : List String
  pub independent_resolver : String
  pub internet_probe_address : String
  pub internet_probe_port : ℕ
  pub dns_probe_name : String
  pub ping_count : ℕ
  pub mtu_probe_sizes : List ℕ
  pub thresholds : Thresholds h

-- The test of the thresholds at the end of `DoctorConfig::validate`.
unfoldable pub bad_thresholds : {h : Host} → Thresholds h → Bool
bad_thresholds {h} t =
    not (is_finite t.degraded_loss_percent)
    || not (le (from_ℕ 0) t.degraded_loss_percent && le t.degraded_loss_percent (from_ℕ 100))
    || not (is_finite t.degraded_median_rtt_ms)
    || le t.degraded_median_rtt_ms (from_ℕ 0)
  where
    open h.f64 use {is_finite, le, from_ℕ}

abbrev invalid {ℓ} : {A : Type ℓ} → String → Result A DoctorError
invalid why = err (DoctorError.invalid_config why)

-- `DoctorConfig::validate`, which hands the configuration back.
unfoldable pub validate : {h : Host} → DoctorConfig h → Result (DoctorConfig h) DoctorError
validate config =
    if is_blank config.interface
    then invalid "interface must not be empty"
    else if is_blank config.gateway
    then invalid "gateway must not be empty"
    else if is_empty config.configured_resolvers
    then invalid "at least one configured resolver is required"
    else if ltb max_resolvers (length config.configured_resolvers)
    then invalid "too many configured resolvers (max 8)"
    else if is_blank config.independent_resolver
    then invalid "independent_resolver must not be empty"
    else if is_blank config.internet_probe_address
    then invalid "internet_probe_address must not be empty"
    else if is_blank config.dns_probe_name
    then invalid "dns_probe_name must not be empty"
    else if config.ping_count == 0 || ltb max_ping_count config.ping_count
    then invalid "ping_count must be in 1..=16"
    else if is_empty config.mtu_probe_sizes
        || ltb max_mtu_probe_sizes (length config.mtu_probe_sizes)
    then invalid "mtu_probe_sizes must contain 1..=8 sizes"
    else if bad_thresholds config.thresholds
    then invalid "thresholds are out of range"
    else ok config

-- The sizes that a validated configuration keeps to.
pub record IsBounded (h : Host) (config : DoctorConfig h) : Type 0 where
  pub pings : (1 ≤ config.ping_count) × (config.ping_count ≤ max_ping_count)
  pub resolvers : length config.configured_resolvers ≤ max_resolvers
  pub sizes : length config.mtu_probe_sizes ≤ max_mtu_probe_sizes

pub validate-IsBounded :
    {h : Host} (config valid : DoctorConfig h)
    → validate config ≡ ok valid
    → (valid ≡ config) × IsBounded h valid
unfolding validate
validate-IsBounded config valid e = (ground arith, ground arith)
