-- ===== src/Words.antt =====
-- Go's 64-bit integers. A value of `int`, `int64` or `time.Duration` is its bit pattern, a number
-- below 2 ^ 64, so that additions wrap around as the machine's do and comparisons are signed.
-- Times are nanoseconds since an origin before every time of the program.
use gude_agents.Prelude.{
  ℕ, ◌+◌, ◌-◌, ◌*◌, ◌%◌, ◌^◌, ◌<◌, ◌≤◌, ◌≡◌, Bool, true, false, arith, ltb, leb, if◌then◌else◌,
}
use Prim.Native.Nat.{min}

abbrev pub Int64 : Type 0
Int64 = ℕ

abbrev pub two64 : ℕ
two64 = 2 ^ 64

abbrev pub two63 : ℕ
two63 = 2 ^ 63

pub minus_one : Int64
minus_one = two64 - 1

pub add64 : Int64 → Int64 → Int64
add64 a b = (a + b) % two64

unfoldable pub sub64 : Int64 → Int64 → Int64
sub64 a b = (a + two64 - b) % two64

unfoldable pub mul64 : Int64 → Int64 → Int64
mul64 a b = a * b % two64

-- `a < 0`
unfoldable pub is_neg : Int64 → Bool
is_neg a = leb two63 a

-- `a < b` and `a <= b` of signed integers
unfoldable pub slt : Int64 → Int64 → Bool
slt a b = ltb ((a + two63) % two64) ((b + two63) % two64)

unfoldable pub sle : Int64 → Int64 → Bool
sle a b = leb ((a + two63) % two64) ((b + two63) % two64)

-- `t.Add(d)`
unfoldable pub add_time : ℕ → Int64 → ℕ
unfolding is_neg
add_time t d = if is_neg d then t - (two64 - d) else t + d

-- `t.Sub(u)`, which saturates
pub sub_time : ℕ → ℕ → Int64
sub_time t u = if leb u t then min (t - u) (two63 - 1) else two64 - min (u - t) two63

-- On values that are not negative the signed tests are those of the numbers.
module _ (a b : Int64) (ha : a < two63) (hb : b < two63) where
  pub slt_pos : slt a b ≡ ltb a b
  unfolding slt
  slt_pos = ground arith

  pub sle_pos : sle a b ≡ leb a b
  unfolding sle
  sle_pos = ground arith

  pub add64_exact : a + b < two63 → add64 a b ≡ a + b
  unfolding add64
  add64_exact h = omega arith

  pub sub64_exact : b ≤ a → sub64 a b ≡ a - b
  unfolding sub64
  sub64_exact h = omega arith

  pub sub64_negative : a < b → is_neg (sub64 a b) ≡ true
  unfolding sub64 is_neg
  sub64_negative h = ground arith

pub is_neg_pos : (a : Int64) → a < two63 → is_neg a ≡ false
unfolding is_neg
is_neg_pos a h = ground arith
