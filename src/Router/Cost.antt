-- ===== src/Router/Cost.antt =====
-- Prices and costs in micro-dollars, packages/llm-router/src/usage/cost.ts. A bigint that is never
-- negative is a natural number.
pub mod Rounding
use Prim.Native.Char.{Char, code}
use mathlib.Core.Option.{get_or}
use open_rush.Prelude.{
  ℕ, zero, suc, ◌+◌, ◌-◌, ◌*◌, ◌/◌, ◌^◌, ◌≤◌, ◌<◌, String, Bool, true, false, ◌&&◌, ◌||◌, Option,
  none, some, leb, nat_beq, if◌then◌else◌, arith,
}

abbrev is_digit : Char → Bool
is_digit c = leb 48 (code c) && leb (code c) 57

abbrev all_digits : String → Bool
all_digits String.[] = true
all_digits (String.◌∷◌ c s) = is_digit c && all_digits s

abbrev is_number : String → Bool
is_number String.[] = false
is_number (String.◌∷◌ c s) = is_digit c && all_digits s

-- Before the first point, and after it.
abbrev int_part : String → String
int_part String.[] = String.[]
int_part (String.◌∷◌ c s) =
    let rest = int_part s in if nat_beq (code c) 46 then String.[] else String.◌∷◌ c rest

abbrev frac_part : String → Option String
frac_part String.[] = none
frac_part (String.◌∷◌ c s) = let rest = frac_part s in if nat_beq (code c) 46 then some s else rest

-- `/^\d+(\.\d+)?$/`
abbrev is_price : String → Bool
is_price text =
    is_number (int_part text) && elim (frac_part text) [ none ↦ true | some f ↦ is_number f ]

-- `BigInt(digits)`, after a value that stands before them.
abbrev digits_value : ℕ → String → ℕ
digits_value acc String.[] = acc
digits_value acc (String.◌∷◌ c s) = digits_value (acc * 10 + (code c - 48)) s

-- So many places of a fraction, filled up by zeros, and 1 more if the next digit is 5 or above.
abbrev frac_value : ℕ → String → ℕ
frac_value zero String.[] = 0
frac_value zero (String.◌∷◌ c s) = if leb 53 (code c) && leb (code c) 57 then 1 else 0
frac_value (suc places) String.[] = 0
frac_value (suc places) (String.◌∷◌ c s) = (code c - 48) * 10 ^ places + frac_value places s

abbrev pub micro : ℕ
micro = 1000000

-- White space and line ends of JavaScript.
abbrev is_space : Char → Bool
is_space c =
    let n = code c in
    (leb 9 n && leb n 13)
    || nat_beq n 32
    || nat_beq n 160
    || nat_beq n 5760
    || (leb 8192 n && leb n 8202)
    || nat_beq n 8232
    || nat_beq n 8233
    || nat_beq n 8239
    || nat_beq n 8287
    || nat_beq n 12288
    || nat_beq n 65279

abbrev trim_start : String → String
trim_start String.[] = String.[]
trim_start (String.◌∷◌ c s) = let rest = trim_start s in if is_space c then rest else String.◌∷◌ c s

abbrev blank_or : Char → String → String
blank_or c String.[] = if is_space c then String.[] else String.◌∷◌ c String.[]
blank_or c (String.◌∷◌ d s) = String.◌∷◌ c (String.◌∷◌ d s)

abbrev trim_end : String → String
trim_end String.[] = String.[]
trim_end (String.◌∷◌ c s) = blank_or c (trim_end s)

-- The value of a text without white space around it.
abbrev price_value : String → ℕ
price_value text =
    if is_price text
    then digits_value 0 (int_part text) * micro + frac_value 6 (get_or (frac_part text) "")
    else 0

unfoldable pub parse_price_to_micros : Option String → ℕ
parse_price_to_micros none = 0
parse_price_to_micros (some raw) = price_value (trim_end (trim_start raw))

pub record WireUsage : Type 0 where
  pub tokens_in : ℕ
  pub tokens_out : ℕ
  pub tokens_cache_write : ℕ
  pub tokens_cache_read : ℕ
  pub tokens_reasoning : ℕ

-- Each price as its column has it.
pub record ModelPricing : Type 0 where
  pub price_input_per_mtok : Option String
  pub price_output_per_mtok : Option String
  pub price_cache_write_per_mtok : Option String
  pub price_cache_read_per_mtok : Option String
  pub price_reasoning_per_mtok : Option String

-- Tokens times micro-dollars per million tokens.
unfoldable pub scaled_cost : WireUsage → ModelPricing → ℕ
unfolding parse_price_to_micros
scaled_cost usage model =
    usage.tokens_in * parse_price_to_micros model.price_input_per_mtok
    + usage.tokens_out * parse_price_to_micros model.price_output_per_mtok
    + usage.tokens_cache_write * parse_price_to_micros model.price_cache_write_per_mtok
    + usage.tokens_cache_read * parse_price_to_micros model.price_cache_read_per_mtok
    + usage.tokens_reasoning * parse_price_to_micros model.price_reasoning_per_mtok

-- `computeCostUsd` before its `formatMicrosUsd`.
unfoldable pub compute_cost_micros : WireUsage → ModelPricing → ℕ
unfolding scaled_cost
compute_cost_micros usage model = (scaled_cost usage model + micro / 2) / micro

-- The cost of a call, with each price in micro-dollars per million tokens: input, output, cache
-- write, cache read and reasoning tokens each at the price of its own column, and their sum rounded
-- once, to the nearest micro-dollar, a half upwards.
pub compute_cost_micros_lem :
    (usage : WireUsage) (model : ModelPricing)
    → let cost = compute_cost_micros usage model in
      let exact =
        usage.tokens_in * parse_price_to_micros model.price_input_per_mtok
        + usage.tokens_out * parse_price_to_micros model.price_output_per_mtok
        + usage.tokens_cache_write * parse_price_to_micros model.price_cache_write_per_mtok
        + usage.tokens_cache_read * parse_price_to_micros model.price_cache_read_per_mtok
        + usage.tokens_reasoning * parse_price_to_micros model.price_reasoning_per_mtok in
      (cost * 1000000 ≤ exact + 500000) × (exact + 500000 < cost * 1000000 + 1000000)
unfolding compute_cost_micros
compute_cost_micros_lem usage model = (omega arith, omega arith)
