-- ===== src/External.antt =====
-- What the code takes from elsewhere: chrono's instants (`chrono::DateTime<Utc>`,
-- `chrono::Duration`), uuid's identifiers and the f64 type, as interfaces with the documented
-- behaviour that the models rely on. `External/Sample.antt` has an instance of each.
pub mod Sample
use neon_hearth.Prelude.{
  ℕ, ◌+◌, ◌*◌, ◌<◌, ◌≡◌, ◌⊎◌, ◌↔◌, Bool, true, false, String, Option, none, some, ltb, leb, ◌==◌,
}
use neon_hearth.Prelude.Int.{ℤ, pos, pos_part, neg_part}

-- Identifiers and instants. A `Duration` is its signed number of ticks, and `ticks` is an instant's place in the
-- calendar, counted from the calendar's first instant: chrono orders instants by it.
pub record Crates : Type 1 where
  pub Uuid : Type 0
  pub uuid_eq : Uuid → Uuid → Bool
  pub uuid_text : Uuid → String
  pub uuid_eq_iff : (a b : Uuid) → (uuid_eq a b ≡ true) ↔ (a ≡ b)
  pub DateTime : Type 0
  pub ticks : DateTime → ℕ
  pub ticks_per_second : ℕ
  pub last_tick : ℕ
  pub checked_add_signed : DateTime → ℤ → Option DateTime
  pub signed_duration_since : DateTime → DateTime → ℤ
  -- Equal places are equal instants.
  pub ticks_injective : (a b : DateTime) → ticks a ≡ ticks b → a ≡ b
  -- A sum that is there lies the duration later; one that is not would leave the calendar.
  pub add_ticks :
      (t : DateTime) (d : ℤ) (u : DateTime)
      → checked_add_signed t d ≡ some u
      → ticks u + neg_part d ≡ ticks t + pos_part d
  pub add_out_of_range :
      (t : DateTime) (d : ℤ)
      → checked_add_signed t d ≡ none
      → (last_tick + neg_part d < ticks t + pos_part d) ⊎ (ticks t + pos_part d < neg_part d)
  -- The distance from `b` to `a`.
  pub since_ticks :
      (a b : DateTime)
      → ticks a + neg_part (signed_duration_since a b)
        ≡ ticks b + pos_part (signed_duration_since a b)

-- `lattice_domain::DeviceId`: a new type over `Uuid`.
pub record DeviceId (c : Crates) : Type 0 where
  pub uuid : c.Uuid

module _ {c : Crates} where
  open c use {uuid_eq}

  abbrev pub same_device : DeviceId c → DeviceId c → Bool
  same_device a b = uuid_eq a.uuid b.uuid

-- Of the order of instants, the tests that the code makes.
module _ (c : Crates) where
  open c use {DateTime, ticks}

  abbrev pub same_time : DateTime → DateTime → Bool
  same_time a b = ticks a == ticks b

  abbrev pub before : DateTime → DateTime → Bool
  before a b = ltb (ticks a) (ticks b)

  abbrev pub not_after : DateTime → DateTime → Bool
  not_after a b = leb (ticks a) (ticks b)

  abbrev pub same_time? : Option DateTime → Option DateTime → Bool
  same_time? none none = true
  same_time? (some a) (some b) = same_time a b
  same_time? _ _ = false

-- `Duration::seconds`, `Duration::minutes` and `Duration::hours`.
module _ (c : Crates) where
  open c use {ticks_per_second}

  abbrev pub seconds : ℕ → ℤ
  seconds n = pos (n * ticks_per_second)

  abbrev pub minutes : ℕ → ℤ
  minutes n = pos (n * 60 * ticks_per_second)

  abbrev pub hours : ℕ → ℤ
  hours n = pos (n * 3600 * ticks_per_second)

-- The f64 type: the operations that the doctor applies to measured values. `le` is `<=` (false
-- where a side is NaN) and `total_le` is the order of `f64::total_cmp`.
pub record F64 : Type 1 where
  pub Float : Type 0
  pub from_ℕ : ℕ → Float
  pub from_ℤ : ℤ → Float
  pub sub : Float → Float → Float
  pub mul : Float → Float → Float
  pub div : Float → Float → Float
  pub neg : Float → Float
  pub le : Float → Float → Bool
  pub is_finite : Float → Bool
  pub total_le : Float → Float → Bool
  pub display : Float → String
  pub total_le_total : (a b : Float) → (total_le a b ≡ true) ⊎ (total_le b a ≡ true)
  pub total_le_trans :
      (a b c : Float) → total_le a b ≡ true → total_le b c ≡ true → total_le a c ≡ true

-- Both, for the parts that measure at instants.
pub record Host : Type 1 where
  pub crates : Crates
  pub open crates use {DateTime}
  pub f64 : F64
  pub open f64 use {Float}
