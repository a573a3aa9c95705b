-- ===== src/Router/Cost/Rounding.antt =====
-- What `parsePriceToMicros` makes of the text of a price (packages/llm-router/src/usage/cost.ts).
use Prim.Native.Char.{Char, char, code}
use native.Mathlib.Nat.{pow-suc, mul-le-mul_right}
use open_rush.Prelude.{
  ℕ, zero, suc, ◌+◌, ◌-◌, ◌*◌, ◌^◌, ◌≤◌, ◌<◌, String, Bool, true, false, not, ◌&&◌, some, leb,
  nat_beq, ◌≡◌, refl, ap, ◌∙◌, Bool-cases, inl, inr, arith,
}
use open_rush.Router.Cost.{
  is_digit, all_digits, is_number, int_part, frac_part, digits_value, frac_value, micro, is_space,
  trim_start, trim_end, blank_or, price_value, parse_price_to_micros,
}

-- How many digits a text has.
abbrev pub places : String → ℕ
places String.[] = 0
places (String.◌∷◌ c s) = suc (places s)

digit_space : (c : Char) → is_digit c ≡ true → is_space c ≡ false
digit_space c h = ground arith

digit_point : (c : Char) → is_digit c ≡ true → nat_beq (code c) 46 ≡ false
digit_point c h = ground arith

digits_value-acc : (a : ℕ) (s : String) → digits_value a s ≡ a * 10 ^ places s + digits_value 0 s
digits_value-acc a String.[] = omega arith
digits_value-acc a (String.◌∷◌ c s) =
    let d = code c - 48 in
    let left = digits_value-acc (a * 10 + d) s in
    let right = digits_value-acc (0 * 10 + d) s in
    let grown = ap (λ (t : ℕ). a * t) (pow-suc 10 (places s)) in omega (arith, left, right, grown)

-- The value of a text of digits, by its first digit.
digits_value-cons :
    (c : Char) (s : String)
    → digits_value 0 (String.◌∷◌ c s) ≡ (code c - 48) * 10 ^ places s + digits_value 0 s
digits_value-cons c s = let e = digits_value-acc (0 * 10 + (code c - 48)) s in omega (arith, e)

digit_le : (c : Char) → is_digit c ≡ true → code c - 48 ≤ 9
digit_le c h = ground arith

scaled_le : (d p : ℕ) → d ≤ 9 → d * p ≤ 9 * p
scaled_le d p h = mul-le-mul_right p h

near_step :
    (d n p f v w n' p' : ℕ)
    → w ≡ d * p + v
    → n' ≡ n * 10
    → p' ≡ p * 10
    → 2 * (f * p) ≤ 2 * (v * n) + p
    → 2 * (v * n) < 2 * (f * p) + p
    → (2 * ((d * n + f) * p') ≤ 2 * (w * n') + p') × (2 * (w * n') < 2 * ((d * n + f) * p') + p')
near_step d n p f v w n' p' ew en ep low high = rw (ew, en, ep) (omega arith, omega arith)

digits_value-lt : (s : String) → all_digits s ≡ true → digits_value 0 s < 10 ^ places s
digits_value-lt String.[] h = omega arith
digits_value-lt (String.◌∷◌ c s) h =
    let here : is_digit c ≡ true = ground arith in
    let later : all_digits s ≡ true = ground arith in
    let less = digits_value-lt s later in
    let e = digits_value-cons c s in
    let d = digit_le c here in
    let p = scaled_le (code c - 48) (10 ^ places s) d in
    omega (arith, p, less, e, pow-suc 10 (places s))

round_up :
    (d p v w p' : ℕ)
    → w ≡ d * p + v
    → p' ≡ p * 10
    → v < p
    → 5 ≤ d
    → d ≤ 9
    → (2 * (1 * p') ≤ 2 * (w * 1) + p') × (2 * (w * 1) < 2 * (1 * p') + p')
round_up d p v w p' ew ep less above most =
    let low : 5 * p ≤ d * p = mul-le-mul_right p above in
    let high : d * p ≤ 9 * p = mul-le-mul_right p most in
    (omega (arith, ew, ep, less, low, high), omega (arith, ew, ep, less, low, high))

round_down :
    (d p v w p' : ℕ)
    → w ≡ d * p + v
    → p' ≡ p * 10
    → v < p
    → d ≤ 4
    → (2 * (0 * p') ≤ 2 * (w * 1) + p') × (2 * (w * 1) < 2 * (0 * p') + p')
round_down d p v w p' ew ep less below =
    let high : d * p ≤ 4 * p = mul-le-mul_right p below in
    (omega (arith, ew, ep, less, high), omega (arith, ew, ep, less, high))

-- A fraction that is cut to so many places, the next digit rounding it: it differs from the whole
-- fraction by half of its last place at most, and a half goes up.
frac_value-near :
    (n : ℕ) (s : String)
    → all_digits s ≡ true
    → (2 * (frac_value n s * 10 ^ places s) ≤ 2 * (digits_value 0 s * 10 ^ n) + 10 ^ places s)
      × (2 * (digits_value 0 s * 10 ^ n) < 2 * (frac_value n s * 10 ^ places s) + 10 ^ places s)
frac_value-near zero String.[] h = (omega arith, omega arith)
frac_value-near (suc n) String.[] h = (omega arith, omega arith)
frac_value-near zero (String.◌∷◌ c s) h = elim (Bool-cases (leb 53 (code c) && leb (code c) 57)) [
  | inl up ↦
      let later : all_digits s ≡ true = ground arith in
      let above : 5 ≤ code c - 48 = ground arith in
      let most : code c - 48 ≤ 9 = digit_le c (ground arith) in
      rw up (
        round_up (code c - 48) (10 ^ places s) (digits_value 0 s) _ _ (digits_value-cons c s)
          (pow-suc 10 (places s)) (digits_value-lt s later) above most)
  | inr down ↦
      let later : all_digits s ≡ true = ground arith in
      let below : code c - 48 ≤ 4 = ground arith in
      rw down (
        round_down (code c - 48) (10 ^ places s) (digits_value 0 s) _ _ (digits_value-cons c s)
          (pow-suc 10 (places s)) (digits_value-lt s later) below)
]
frac_value-near (suc n) (String.◌∷◌ c s) h =
    let later : all_digits s ≡ true = ground arith in
    let (low, high) = frac_value-near n s later in
    let e = digits_value-cons c s in
    let d = code c - 48 in
    near_step d (10 ^ n) (10 ^ places s) (frac_value n s) (digits_value 0 s)
      (digits_value 0 (String.◌∷◌ c s)) (10 ^ suc n) (10 ^ suc (places s)) e (pow-suc 10 n)
      (pow-suc 10 (places s)) low high

-- Nothing of a text is white space.
abbrev is_solid : String → Bool
is_solid String.[] = true
is_solid (String.◌∷◌ c s) = not (is_space c) && is_solid s

solid_head : (c : Char) (s : String) → is_space c ≡ false → blank_or c s ≡ String.◌∷◌ c s
solid_head c String.[] h = rw h refl
solid_head c (String.◌∷◌ d s) h = refl

trim_end-solid : (s : String) → is_solid s ≡ true → trim_end s ≡ s
trim_end-solid String.[] h = refl
trim_end-solid (String.◌∷◌ c s) h =
    let here : is_space c ≡ false = ground arith in
    let later : is_solid s ≡ true = ground arith in
    ap (blank_or c) (trim_end-solid s later) ∙ solid_head c s here

-- A whole part, a point and a fraction.
abbrev pub pointed : String → String → String
pointed String.[] frac = String.◌∷◌ (char 46 tt) frac
pointed (String.◌∷◌ c s) frac = String.◌∷◌ c (pointed s frac)

digits-solid : (s : String) → all_digits s ≡ true → is_solid s ≡ true
digits-solid String.[] h = refl
digits-solid (String.◌∷◌ c s) h =
    let here : is_digit c ≡ true = ground arith in
    let later : all_digits s ≡ true = ground arith in
    rw (digit_space c here, digits-solid s later) refl

pointed-solid :
    (whole frac : String)
    → all_digits whole ≡ true
    → all_digits frac ≡ true
    → is_solid (pointed whole frac) ≡ true
pointed-solid String.[] frac h k = digits-solid frac k
pointed-solid (String.◌∷◌ c s) frac h k =
    let here : is_digit c ≡ true = ground arith in
    let later : all_digits s ≡ true = ground arith in
    rw (digit_space c here, pointed-solid s frac later k) refl

int_part-pointed :
    (whole frac : String) → all_digits whole ≡ true → int_part (pointed whole frac) ≡ whole
int_part-pointed String.[] frac h = refl
int_part-pointed (String.◌∷◌ c s) frac h =
    let here : is_digit c ≡ true = ground arith in
    let later : all_digits s ≡ true = ground arith in
    rw (digit_point c here, int_part-pointed s frac later) refl

frac_part-pointed :
    (whole frac : String) → all_digits whole ≡ true → frac_part (pointed whole frac) ≡ some frac
frac_part-pointed String.[] frac h = refl
frac_part-pointed (String.◌∷◌ c s) frac h =
    let here : is_digit c ≡ true = ground arith in
    let later : all_digits s ≡ true = ground arith in
    rw (digit_point c here) (frac_part-pointed s frac later)

is_number-digits : (s : String) → is_number s ≡ true → all_digits s ≡ true
is_number-digits String.[] h = refl
is_number-digits (String.◌∷◌ c s) h = h

trim_start-pointed :
    (whole frac : String)
    → is_number whole ≡ true
    → trim_start (pointed whole frac) ≡ pointed whole frac
trim_start-pointed String.[] frac h = ground arith
trim_start-pointed (String.◌∷◌ c s) frac h =
    let here : is_digit c ≡ true = ground arith in rw (digit_space c here) refl

-- The value that is read.
price_value-pointed :
    (whole frac : String)
    → is_number whole ≡ true
    → is_number frac ≡ true
    → price_value (pointed whole frac) ≡ digits_value 0 whole * micro + frac_value 6 frac
price_value-pointed whole frac h k =
    let w = is_number-digits whole h in
    rw (int_part-pointed whole frac w, frac_part-pointed whole frac w, h, k) refl

parsed-pointed :
    (whole frac : String)
    → is_number whole ≡ true
    → is_number frac ≡ true
    → parse_price_to_micros (some (pointed whole frac))
      ≡ digits_value 0 whole * micro + frac_value 6 frac
unfolding parse_price_to_micros
parsed-pointed whole frac h k =
    let solid = pointed-solid whole frac (is_number-digits whole h) (is_number-digits frac k) in
    ap (λ t. price_value (trim_end t)) (trim_start-pointed whole frac h)
    ∙ ap price_value (trim_end-solid (pointed whole frac) solid)
    ∙ price_value-pointed whole frac h k

near_sum :
    (w f v p : ℕ)
    → 2 * (f * p) ≤ 2 * (v * 1000000) + p
    → 2 * (v * 1000000) < 2 * (f * p) + p
    → (2 * ((w * 1000000 + f) * p) ≤ 2 * ((w * p + v) * 1000000) + p)
      × (2 * ((w * p + v) * 1000000) < 2 * ((w * 1000000 + f) * p) + p)
near_sum w f v p low high = (omega (arith, low), omega (arith, high))

-- A price that is written as digits, a point and digits is read as the nearest number of
-- micro-dollars, a half upwards: with k digits behind the point, the number that is read, times
-- 10^k, differs from the price times 1000000 times 10^k, which is whole, by half of 10^k at most.
pub parse_price_to_micros_lem :
    (whole frac : String)
    → is_number whole ≡ true
    → is_number frac ≡ true
    → let micros = parse_price_to_micros (some (pointed whole frac)) in
      let scale = 10 ^ places frac in
      let exact = digits_value 0 whole * scale + digits_value 0 frac in
      (2 * (micros * scale) ≤ 2 * (exact * 1000000) + scale)
      × (2 * (exact * 1000000) < 2 * (micros * scale) + scale)
parse_price_to_micros_lem whole frac h k =
    let (low, high) = frac_value-near 6 frac (is_number-digits frac k) in
    rw (parsed-pointed whole frac h k) (
      near_sum (digits_value 0 whole) (frac_value 6 frac) (digits_value 0 frac) (10 ^ places frac)
        low high)
