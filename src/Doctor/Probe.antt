-- ===== src/Doctor/Probe.antt =====
-- crates/lattice-doctor/src/probe.rs: the observations that the engine asks for, and their answers.
use neon_hearth.Prelude.{ℕ, ◌++◌, Bool, String, List, [], ◌∷◌, Option, Result}
use neon_hearth.Prelude.Int.{ℤ}
use neon_hearth.Text.{concat}
use neon_hearth.External.{Host}

abbrev pub max_probe_timeout_ms : ℕ
max_probe_timeout_ms = 10000

pub data ProbeRequest : Type 0 where
  collector_status : ProbeRequest
  link_status : (interface : String) → ProbeRequest
  ip_config : (interface : String) → ProbeRequest
  arp_probe : (interface address : String) → ProbeRequest
  wifi_metrics : (interface : String) → ProbeRequest
  ping : (target : String) (payload_bytes : ℕ) (dont_fragment : Bool) → ProbeRequest
  dns_query : (resolver name : String) → ProbeRequest
  route_table : ProbeRequest
  router_status : ProbeRequest
  reach_ip : (address : String) (port : ℕ) → ProbeRequest

pub data LeaseState : Type 0 where
  static valid expired missing : LeaseState

pub data DnsFailureReason : Type 0 where
  timeout refused serv_fail no_answer : DnsFailureReason

pub record RouteEntry : Type 0 where
  pub interface : String
  pub gateway : String
  pub is_vpn : Bool
  pub metric : ℕ

pub data ProbeResponse (h : Host) : Type 0 where
  collector_status : (privileged capture_ok worker_running : Bool) → ProbeResponse h
  link_status : (up : Bool) (speed_mbps : Option ℕ) → ProbeResponse h
  ip_config : (address : Option String) (lease : LeaseState) → ProbeResponse h
  arp_probe : (responding_macs : List String) → ProbeResponse h
  wifi_metrics :
      (wireless : Bool) (rssi_dbm : Option ℤ) (retry_percent : Option h.Float) → ProbeResponse h
  ping_reply : (rtt_ms : h.Float) → ProbeResponse h
  ping_timeout : ProbeResponse h
  fragmentation_needed : (next_hop_mtu : ℕ) → ProbeResponse h
  dns_answer : (addresses : List String) (latency_ms : h.Float) → ProbeResponse h
  dns_failure : (reason : DnsFailureReason) → ProbeResponse h
  route_table : (default_routes : List RouteEntry) → ProbeResponse h
  router_status : (responsive : Bool) (uptime_seconds : Option ℕ) → ProbeResponse h
  reachable : (latency_ms : h.Float) → ProbeResponse h
  unreachable : ProbeResponse h

pub data ProbeError : Type 0 where
  timeout unsupported : ProbeError
  transport : String → ProbeError

-- The `Display` of `ProbeError`.
pub probe_error_text : ProbeError → String
probe_error_text ProbeError.timeout = "probe timed out at the transport layer"
probe_error_text ProbeError.unsupported = "probe kind is unsupported on this platform"
probe_error_text (ProbeError.transport detail) = concat "probe transport failed: " detail

pub record Probe : Type 0 where
  pub request : ProbeRequest
  pub timeout_ms : ℕ

-- `ProbeTransport`, over the state `W` of what lies behind it, with the engine's clock.
pub record ProbeTransport (h : Host) (W : Type 0) : Type 0 where
  pub probe : Probe → W → Result (ProbeResponse h) ProbeError × W
  pub now : W → h.DateTime × W

-- `FakeProbeTransport`: answers from a handler and logs every probe. Its handler may be any
-- transport.
pub record Logged (W : Type 0) : Type 0 where
  pub world : W
  pub log : List Probe

module _ {h : Host} {W : Type 0} where
  abbrev pub logged : ProbeTransport h W → ProbeTransport h (Logged W)
  logged t = record {
    probe = λ p s.
        let answer = t.probe p s.world in
        (answer.0, record { world = answer.1; log = s.log ++ p ∷ [] });
    now = λ s. let time = t.now s.world in (time.0, record s { world = time.1 });
  }
