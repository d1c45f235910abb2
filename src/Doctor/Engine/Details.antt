-- ===== src/Doctor/Engine/Details.antt =====
-- crates/lattice-doctor/src/engine.rs: what the detail of a check and the thresholds say of its status.
use neon_hearth.Prelude.{
  ℕ, zero, suc, ◌<◌, ◌/◌, ◌≡◌, refl, ap, any, ◌⊎◌, inl, inr, Bool, true, false, ◌&&◌, not, List, [],
  ◌∷◌, length, Option, none, some, arith, ltb, leb, ◌==◌, is_some, is_some_and, is_none_or, as_u32,
  if◌then◌else◌,
}
use neon_hearth.Prelude.Int.{leb_ℤ}
use neon_hearth.Prelude.Sorting.{get_elem?, sort_by, length-sort_by}
use neon_hearth.External.{Host}
use neon_hearth.Doctor.Check.{CheckKind, CheckStatus, CheckDetail, CheckResult}
use neon_hearth.Doctor.Engine.Config.{Thresholds}
use neon_hearth.Doctor.Engine.Results.{loss_percent, median}
use neon_hearth.Doctor.Engine.HostChecks.{lease_ok}
use neon_hearth.Doctor.Engine.Resolvers.{has_answer}

abbrev pub passes : Bool → CheckStatus
passes b = if b then CheckStatus.passed else CheckStatus.failed

-- The pings are lost, too slow or not answered at all.
abbrev pub Degraded : (h : Host) → Thresholds h → h.Float → Option h.Float → Type 0
Degraded h thresholds loss rtt =
    (h.f64.le loss thresholds.degraded_loss_percent ≡ false)
    ⊎ ((is_some_and rtt (λ m. not (h.f64.le m thresholds.degraded_median_rtt_ms)) ≡ true)
        ⊎ ((sent : ℕ) × (loss ≡ loss_percent h.f64 sent 0)))

-- Some ping was answered, and enough and fast enough.
abbrev pub Healthy : (h : Host) → Thresholds h → h.Float → Option h.Float → Type 0
Healthy h thresholds loss rtt =
    (h.f64.le loss thresholds.degraded_loss_percent ≡ true)
    × (is_some_and rtt (λ m. h.f64.le m thresholds.degraded_median_rtt_ms) ≡ true)

module _ (h : Host) (thresholds : Thresholds h) where
  -- What a detail and the thresholds say of the status of a check of a kind. A detail of another kind says that
  -- there is no such result.
  abbrev pub Accounts : CheckKind → CheckDetail h → CheckStatus → Type 0
  Accounts kind (CheckDetail.probe_failure error) status = status ≡ CheckStatus.failed
  Accounts CheckKind.collector_health (CheckDetail.collector p c w) status =
      status ≡ passes (p && c && w)
  Accounts CheckKind.adapter_link (CheckDetail.link up) status = status ≡ passes up
  Accounts CheckKind.address_dhcp (CheckDetail.address address lease) status =
      status ≡ passes (is_some address && lease_ok lease)
  Accounts CheckKind.duplicate_ip (CheckDetail.duplicate_ip address macs) status =
      status ≡ passes (leb (length macs) 1)
  Accounts CheckKind.wifi_quality (CheckDetail.wifi false rssi retry) status =
      status ≡ CheckStatus.passed
  Accounts CheckKind.wifi_quality (CheckDetail.wifi true (some rssi) retry) status =
      status ≡ passes (leb_ℤ thresholds.weak_rssi_dbm rssi)
  Accounts CheckKind.gateway (CheckDetail.gateway_ping sent received) status =
      status ≡ passes (leb 1 received)
  Accounts CheckKind.router_health (CheckDetail.router responsive) status =
      status ≡ passes responsive
  Accounts CheckKind.loss_latency (CheckDetail.loss_latency loss rtt) status =
      ((status ≡ CheckStatus.passed) × Healthy h thresholds loss rtt)
      ⊎ ((status ≡ CheckStatus.failed) × Degraded h thresholds loss rtt)
  Accounts CheckKind.mtu (CheckDetail.mtu largest smallest) status =
      status ≡ (if is_some smallest then CheckStatus.failed else CheckStatus.passed)
  Accounts CheckKind.dns (CheckDetail.dns resolvers) status =
      status ≡ passes (any has_answer resolvers)
  Accounts CheckKind.route_vpn (CheckDetail.route routes conflict) status =
      (status ≡ passes (length routes == 1)) × (conflict ≡ ltb 1 (length routes))
  Accounts CheckKind.internet_reachability (CheckDetail.internet reachable lan_ok) status =
      status ≡ passes reachable
  Accounts _ _ _ = ⊥

  abbrev pub DetailAccounts : CheckKind → Option (CheckDetail h) → CheckStatus → Type 0
  DetailAccounts kind none status = ⊥
  DetailAccounts kind (some detail) status = Accounts kind detail status

  -- The result of a check that ran.
  pub record Explained (kind : CheckKind) (r : CheckResult h) : Type 0 where
    pub own_kind : r.kind ≡ kind
    pub accounted : DetailAccounts kind r.detail r.status

get_elem-is_some :
    {A : Type 0} (xs : List A) (i : ℕ) → i < length xs → is_some (get_elem? xs i) ≡ true
get_elem-is_some [] i lt = absurd (omega (arith, lt))
get_elem-is_some (x ∷ xs) zero lt = refl
get_elem-is_some (x ∷ xs) (suc i) lt = get_elem-is_some xs i (omega (arith, lt))

-- A sample that is not empty has a median.
median-is_some :
    (h : Host) (sample : List h.Float) → 0 < length sample → is_some (median h.f64 sample) ≡ true
unfolding median
median-is_some h sample some_answer =
    get_elem-is_some (sort_by h.f64.total_le sample) (length sample / 2)
      (omega (arith, length-sort_by h.f64.total_le sample, some_answer))

abbrev Judged : (h : Host) → Thresholds h → h.Float → Option h.Float → CheckStatus → Type 0
Judged h thresholds loss rtt status =
    ((status ≡ CheckStatus.passed) × Healthy h thresholds loss rtt)
    ⊎ ((status ≡ CheckStatus.failed) × Degraded h thresholds loss rtt)

both_decide :
    (a b e : Bool)
    → e ≡ true
    → ((passes (a && b && e) ≡ CheckStatus.passed) × (a ≡ true) × (b ≡ true))
      ⊎ ((passes (a && b && e) ≡ CheckStatus.failed) × ((a ≡ false) ⊎ (b ≡ false)))
both_decide false b e h = inr (refl, inl refl)
both_decide true false e h = inr (refl, inr refl)
both_decide true true e h = inl (ap passes h, refl, refl)

never_passes : (a b : Bool) → passes (a && b && false) ≡ CheckStatus.failed
never_passes a b = ground arith

judged :
    (h : Host) (thresholds : Thresholds h) (loss : h.Float) (rtt : Option h.Float)
    (sent received : ℕ)
    → loss ≡ loss_percent h.f64 sent received
    → (0 < received → is_some rtt ≡ true)
    → Judged h thresholds loss rtt (
        passes (
          h.f64.le loss thresholds.degraded_loss_percent
          && is_none_or rtt (λ m. h.f64.le m thresholds.degraded_median_rtt_ms)
          && leb 1 received))
judged h thresholds loss rtt sent zero counted answered = inr (
  never_passes (h.f64.le loss thresholds.degraded_loss_percent)
      (is_none_or rtt (λ m. h.f64.le m thresholds.degraded_median_rtt_ms)),
  inr (inr (sent, counted)),
)
judged h thresholds loss none sent (suc n) counted answered = absurd (cc (answered (omega arith)))
judged h thresholds loss (some m) sent (suc n) counted answered =
    elim (both_decide (h.f64.le loss thresholds.degraded_loss_percent)
      (h.f64.le m thresholds.degraded_median_rtt_ms) (leb 1 (suc n)) (ground arith)) [
        | inl pass ↦ inl (pass.0, (pass.1, pass.2))
        | inr (fails, inl lost) ↦ inr (fails, inl lost)
        | inr (fails, inr slow) ↦ inr (fails, inr (inl (ap not slow)))
      ]

-- The status of `check_loss_latency` for a sample of pings.
pub loss_latency_accounted :
    (h : Host) (thresholds : Thresholds h) (sent : ℕ) (sample : List h.Float)
    → Accounts h thresholds CheckKind.loss_latency
        (CheckDetail.loss_latency
          (loss_percent h.f64 sent (as_u32 (length sample)))
          (median h.f64 sample))
        (passes (
          h.f64.le
            (loss_percent h.f64 sent (as_u32 (length sample)))
            thresholds.degraded_loss_percent
          && is_none_or (median h.f64 sample) (λ m. h.f64.le m thresholds.degraded_median_rtt_ms)
          && leb 1 (as_u32 (length sample))))
loss_latency_accounted h thresholds sent sample =
    judged h thresholds _ _ sent (as_u32 (length sample)) refl
      (λ counted. median-is_some h sample (omega (arith, counted)))
