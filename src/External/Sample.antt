-- ===== src/External/Sample.antt =====
-- Instances of the interfaces: instants counted in seconds, and whole numbers for f64.
use neon_hearth.Prelude.{
  ℕ, ◌+◌, ◌-◌, ◌*◌, ◌/◌, ◌<◌, ◌≡◌, ◌⊎◌, true, Option, none, some, arith, ltb, leb, ◌==◌, ==_iff,
  if◌then◌else◌, ◌||◌,
}
use neon_hearth.Prelude.Int.{ℤ, pos_part, neg_part, sub_ℕ}
use neon_hearth.Text.{display_ℕ}
use neon_hearth.External.{Crates, F64, Host}

abbrev last_second : ℕ
last_second = 1000000

-- The sum of a second and a signed number of seconds, if it lies in the calendar.
abbrev add_seconds : ℕ → ℤ → Option ℕ
add_seconds t d =
    if ltb (last_second + neg_part d) (t + pos_part d) || ltb (t + pos_part d) (neg_part d)
    then none
    else some (t + pos_part d - neg_part d)

pub add_seconds_sum :
    (t : ℕ) (d : ℤ) (u : ℕ) → add_seconds t d ≡ some u → u + neg_part d ≡ t + pos_part d
add_seconds_sum t d u h = ground arith

pub add_seconds_range :
    (t : ℕ) (d : ℤ)
    → add_seconds t d ≡ none
    → (last_second + neg_part d < t + pos_part d) ⊎ (t + pos_part d < neg_part d)
add_seconds_range t d h = ground arith

pub sub_parts : (a b : ℕ) → a + neg_part (sub_ℕ a b) ≡ b + pos_part (sub_ℕ a b)
sub_parts a b = ground arith

abbrev pub sample_crates : Crates
sample_crates = record {
  Uuid = ℕ;
  uuid_eq = ◌==◌;
  uuid_text = display_ℕ;
  uuid_eq_iff = ==_iff;
  DateTime = ℕ;
  ticks = λ t. t;
  ticks_per_second = 1;
  last_tick = last_second;
  checked_add_signed = add_seconds;
  signed_duration_since = sub_ℕ;
  ticks_injective = λ a b e. e;
  add_ticks = add_seconds_sum;
  add_out_of_range = add_seconds_range;
  since_ticks = sub_parts;
}

pub leb_total : (a b : ℕ) → (leb a b ≡ true) ⊎ (leb b a ≡ true)
leb_total a b = ground arith

pub leb_trans : (a b c : ℕ) → leb a b ≡ true → leb b c ≡ true → leb a c ≡ true
leb_trans a b c h k = ground arith

-- Floats are whole numbers from -1000 up, counted from there; those past 99000 are infinite.
abbrev pub whole_float : F64
whole_float = record {
  Float = ℕ;
  from_ℕ = λ n. 1000 + n;
  from_ℤ = λ z. 1000 + pos_part z - neg_part z;
  sub = λ a b. 1000 + a - b;
  mul = λ a b. 1000 + (a - 1000) * (b - 1000);
  div = λ a b. 1000 + (a - 1000) / (b - 1000);
  neg = λ a. 2000 - a;
  le = leb;
  is_finite = λ a. ltb a 100000;
  total_le = leb;
  display = λ a. "float";
  total_le_total = leb_total;
  total_le_trans = leb_trans;
}

abbrev pub sample_host : Host
sample_host = record { crates = sample_crates; f64 = whole_float }
