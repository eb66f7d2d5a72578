-- ===== src/Text/Ascii.antt =====
-- The tables of a `CharDb` at ASCII alone: they meet its laws, and run.
use n8n_production_systems.Common.{ℕ, ◌<◌, ◌≡◌, refl, true, ◌&&◌, ◌||◌, some, map, arith, leb}
use n8n_production_systems.Text.{
  CharDb, ascii_space, ascii_decimal, ascii_alpha, ascii_upper, ascii_lower,
}

pub decimal_range_lem : (c d : ℕ) → ascii_decimal c ≡ some d → d < 10
decimal_range_lem c d h = ground arith

pub decimal-is_digit_lem : (c d : ℕ) → ascii_decimal c ≡ some d → (leb b'0' c && leb c b'9') ≡ true
decimal-is_digit_lem c d h = ground arith

abbrev pub ascii : CharDb
ascii = record {
  is_space = ascii_space;
  decimal = ascii_decimal;
  is_digit = λ c. leb b'0' c && leb c b'9';
  is_alpha = ascii_alpha;
  is_alnum = λ c. ascii_alpha c || (leb b'0' c && leb c b'9');
  upper = map ascii_upper;
  lower = map ascii_lower;
  decimal_range = decimal_range_lem;
  decimal-is_digit = decimal-is_digit_lem;
  space_ascii = λ c h. refl;
  decimal_ascii = λ c h. refl;
  digit_ascii = λ c h. refl;
  alpha_ascii = λ c h. refl;
  alnum_ascii = λ c h. refl;
  upper_ascii = λ s h. refl;
  lower_ascii = λ s h. refl;
}
