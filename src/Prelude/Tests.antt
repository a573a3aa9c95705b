-- ===== src/Prelude/Tests.antt =====
-- Boolean tests on numbers and texts, the conditional, and case splits that keep an equation.
use Prim.Native.Nat.{ℕ, ◌≤◌, ◌<◌, compare, Ordering}
use Prim.Native.String.{String}
use mathlib.Core.Path.{◌≡◌, refl, sym, ap, ◌∙◌}
use mathlib.Core.Logic.{◌↔◌, ◌⊎◌, inl, inr}
use mathlib.Core.Bool.{Bool, true, false}
use mathlib.Core.Option.{Option, none, some}
use native.Mathlib.Omega.{arith}
use text.Mathlib.Text.{◌==◌ as str_beq}
use text.Mathlib.TextEquality.{eq_iff}

abbrev pub ltb : ℕ → ℕ → Bool
ltb a b = elim (compare a b) [ Ordering.lt ↦ true | _ ↦ false ]

abbrev pub leb : ℕ → ℕ → Bool
leb a b = elim (compare a b) [ Ordering.gt ↦ false | _ ↦ true ]

abbrev pub nat_beq : ℕ → ℕ → Bool
nat_beq a b = elim (compare a b) [ Ordering.eq ↦ true | _ ↦ false ]

infix 1 if◌then◌else◌
abbrev pub if◌then◌else◌ {ℓ} : {A : Type ℓ} → Bool → A → A → A
if true then x else y = x
if false then x else y = y

pub ltb→lt : (a b : ℕ) → ltb a b ≡ true → a < b
ltb→lt a b h = ground arith

pub lt→ltb : (a b : ℕ) → a < b → ltb a b ≡ true
lt→ltb a b h = ground arith

pub leb→le : (a b : ℕ) → leb a b ≡ true → a ≤ b
leb→le a b h = ground arith

pub nat_beq_iff : (a b : ℕ) → (nat_beq a b ≡ true) ↔ (a ≡ b)
nat_beq_iff a b = ground arith

pub ruleset tests = (arith, ltb→lt, lt→ltb, leb→le)

pub Bool-cases : (b : Bool) → (b ≡ true) ⊎ (b ≡ false)
Bool-cases true = inl refl
Bool-cases false = inr refl

pub Option-cases {ℓ} : {A : Type ℓ} (o : Option A) → (o ≡ none) ⊎ ((a : A) × (o ≡ some a))
Option-cases none = inl refl
Option-cases (some a) = inr (a, refl)

-- `===` at each type that the program compares.
pub record Equal {ℓ} (T : Type ℓ) : Type ℓ where
  pub test : T → T → Bool
  pub agrees : (x y : T) → (test x y ≡ true) ↔ (x ≡ y)

-- A nullable value against a nullable value.
abbrev pub option_beq {ℓ} : {A : Type ℓ} → (A → A → Bool) → Option A → Option A → Bool
option_beq f none none = true
option_beq f (some a) (some b) = f a b
option_beq f _ _ = false

pub option_beq_iff {ℓ} :
    {A : Type ℓ} (f : A → A → Bool)
    → ((a b : A) → (f a b ≡ true) ↔ (a ≡ b))
    → (x y : Option A) → (option_beq f x y ≡ true) ↔ (x ≡ y)
option_beq_iff f h none none = ground arith
option_beq_iff f h none (some b) = ground arith
option_beq_iff f h (some a) none = ground arith
option_beq_iff f h (some a) (some b) = ground (arith, h a b)

instance abbrev pub string_eq : Equal String
string_eq = record { agrees = eq_iff; test = str_beq }

infix 50 ◌==◌
abbrev pub ◌==◌ {κ} : {T : Type κ} ⦃same : Equal T⦄ → T → T → Bool
◌==◌ ⦃same⦄ x y = same.test x y

instance abbrev pub option_eq {ℓ} : {A : Type ℓ} ⦃e : Equal A⦄ → Equal (Option A)
option_eq ⦃e⦄ = record { test = option_beq e.test; agrees = option_beq_iff e.test e.agrees }

instance abbrev pub nat_eq : Equal ℕ
nat_eq = record { agrees = nat_beq_iff; test = nat_beq }

module _ {ℓ} {A : Type ℓ} ⦃e : Equal A⦄ where
  pub ==-eq : (a b : A) → (a == b) ≡ true → a ≡ b
  ==-eq a b = (e.agrees a b).0

-- Equality of an enumeration whose members a list numbers.
pub code_beq_iff {ℓ} :
    {A : Type ℓ} (code : A → ℕ) (back : ℕ → A)
    → ((a : A) → back (code a) ≡ a)
    → (a b : A) → (nat_beq (code a) (code b) ≡ true) ↔ (a ≡ b)
code_beq_iff code back h a b = (
  λ e. sym (h a) ∙ ap back ((nat_beq_iff (code a) (code b)).0 e) ∙ h b,
  λ e. (nat_beq_iff (code a) (code b)).1 (ap code e),
)
