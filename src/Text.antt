-- ===== src/Text.antt =====
-- Rust's `str` methods that the code tests texts with: equality, emptiness, length in bytes, `trim` and
-- `char::is_control`, over the code points of a text.
use Prim.Native.Char.{code}
use Prim.Native.String.{len, ◌++◌}
use text.Mathlib.Text.{◌==◌ as ◌=s=◌}
use mathlib.Core.List.{reverse}
use neon_hearth.Prelude.{
  ℕ, zero, suc, ltb, ◌/◌, ◌%◌, String, Bool, List, [], ◌∷◌, leb, ◌==◌, ◌||◌, ◌&&◌, if◌then◌else◌,
  is_empty, any,
}

abbrev pub codes : String → List ℕ
codes String.[] = []
codes (String.◌∷◌ c s) = code c ∷ codes s

-- The equality of texts.
abbrev pub same_text : String → String → Bool
same_text s t = s =s= t

-- `str::is_empty` and `str::len`.
abbrev pub is_blank : String → Bool
is_blank s = is_empty (codes s)

abbrev pub byte_len : String → ℕ
byte_len = len

abbrev within : ℕ → ℕ → ℕ → Bool
within lo hi c = leb lo c && leb c hi

-- `char::is_whitespace`: the code points with the property White_Space.
abbrev pub is_whitespace : ℕ → Bool
is_whitespace c =
    within 0x9 0xd c
    || c == 0x20
    || c == 0x85
    || c == 0xa0
    || c == 0x1680
    || within 0x2000 0x200a c
    || within 0x2028 0x2029 c
    || c == 0x202f
    || c == 0x205f
    || c == 0x3000

-- `char::is_control`: the category Cc.
abbrev pub is_control : ℕ → Bool
is_control c = within 0 0x1f c || within 0x7f 0x9f c

trim_start : List ℕ → List ℕ
trim_start [] = []
trim_start (c ∷ cs) = if is_whitespace c then trim_start cs else c ∷ cs

-- `str::trim`, on the code points.
unfoldable pub trim : List ℕ → List ℕ
unfolding trim_start
trim cs = reverse (trim_start (reverse (trim_start cs)))

-- `char::is_control` of some character.
abbrev pub has_control : String → Bool
has_control s = any is_control (codes s)

-- `+` of `String`, as `format!` joins its parts.
abbrev pub concat : String → String → String
concat = ◌++◌

digit : ℕ → String
digit n =
    if n == 0
    then "0"
    else if n == 1
    then "1"
    else if n == 2
    then "2"
    else if n == 3
    then "3"
    else if n == 4
    then "4"
    else if n == 5
    then "5"
    else if n == 6
    then "6"
    else if n == 7
    then "7"
    else if n == 8
    then "8"
    else "9"

-- The decimal digits of a number, the last twenty at most: enough for any word of 64 bits.
decimal : ℕ → ℕ → String
decimal zero n = ""
decimal (suc places) n =
    let front = decimal places (n / 10) in
    if ltb n 10 then digit n else concat front (digit (n % 10))

-- `Display` of the unsigned integers.
pub display_ℕ : ℕ → String
unfolding decimal digit
display_ℕ n = decimal 20 n

-- `join` of a slice of texts.
pub join : String → List String → String
join separator [] = ""
join separator (s ∷ []) = s
join separator (s ∷ t ∷ ts) = concat s (concat separator (join separator (t ∷ ts)))
