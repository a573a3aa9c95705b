-- ===== src/Orchestrator/Keeps.antt =====
-- Invariants of the state that a computation keeps, whether it returns or throws.
use open_rush.Prelude.{String, Bool, true, false, Option, none, some, if◌then◌else◌, ◌≡◌, refl}
use open_rush.Orchestrator.World.{
  Outcome, returned, thrown, has_returned, State, M, and_then, ◌>>=◌, pure, throw, or_catch, catch,
  when, attempt, given,
}

-- The state that a computation leaves on a result satisfies `I`, if the one before it does.
unfoldable pub Keeps {ℓ} : {W : Type 0} → (State W → Type 0) → {A : Type ℓ} → M W A → Type 0
Keeps I m = (s : State _) → I s → I ((m s).1)

module _ {W : Type 0} (I : State W → Type 0) where
  pub Keeps-pure {ℓ} : {A : Type ℓ} (a : A) → Keeps I (pure a)
  unfolding pure Keeps
  Keeps-pure a s h = h

  pub Keeps-throw {ℓ} : (A : Type ℓ) (e : String) → Keeps I (throw {A = A} e)
  unfolding throw Keeps
  Keeps-throw A e s h = h

  Keeps-and_then {ℓ κ} :
      {A : Type ℓ} {B : Type κ} (f : A → M W B)
      → ((a : A) → Keeps I (f a))
      → (r : Outcome A) → Keeps I (and_then f r)
  unfolding and_then Keeps
  Keeps-and_then f k (returned a) s h = k a s h
  Keeps-and_then f k (thrown e) s h = h

  pub Keeps-bind {ℓ κ} :
      {A : Type ℓ} {B : Type κ} (m : M W A) (f : A → M W B)
      → Keeps I m
      → ((a : A) → Keeps I (f a))
      → Keeps I (m >>= f)
  unfolding ◌>>=◌ Keeps
  Keeps-bind m f km kf s h = Keeps-and_then f kf ((m s).0) ((m s).1) (km s h)

  Keeps-or_catch {ℓ} :
      {A : Type ℓ} (f : String → M W A)
      → ((e : String) → Keeps I (f e))
      → (r : Outcome A) → Keeps I (or_catch f r)
  unfolding or_catch Keeps
  Keeps-or_catch f k (returned a) s h = h
  Keeps-or_catch f k (thrown e) s h = k e s h

  pub Keeps-catch {ℓ} :
      {A : Type ℓ} (m : M W A) (f : String → M W A)
      → Keeps I m
      → ((e : String) → Keeps I (f e))
      → Keeps I (catch m f)
  unfolding catch Keeps
  Keeps-catch m f km kf s h = Keeps-or_catch f kf ((m s).0) ((m s).1) (km s h)

  pub Keeps-when : (b : Bool) (m : M W (Unit {0})) → Keeps I m → Keeps I (when b m)
  Keeps-when true m k = k
  Keeps-when false m k = Keeps-pure tt

  pub Keeps-given {ℓ κ} :
      {A : Type ℓ} {B : Type κ} (o : Option A) (m : M W B) (f : A → M W B)
      → Keeps I m
      → ((a : A) → Keeps I (f a))
      → Keeps I (given o m f)
  Keeps-given none m f km kf = km
  Keeps-given (some a) m f km kf = kf a

  pub Keeps-if {ℓ} :
      {A : Type ℓ} (b : Bool) (m n : M W A) → Keeps I m → Keeps I n → Keeps I (if b then m else n)
  Keeps-if true m n km kn = km
  Keeps-if false m n km kn = kn

-- Where a computation ends: at `Q` if it returned, at `R` if it threw.
unfoldable pub Ends {ℓ} :
    {W : Type 0}
    → (State W → Type 0)
    → (State W → Type 0)
    → {A : Type ℓ} → Outcome A
    → State W
    → Type 0
Ends Q R (returned a) s = Q s
Ends Q R (thrown e) s = R s

-- From `P`, a computation returns at `Q` or throws at `R`.
unfoldable pub Leads {ℓ} :
    {W : Type 0}
    → (State W → Type 0)
    → (State W → Type 0)
    → (State W → Type 0)
    → {A : Type ℓ} → M W A
    → Type 0
unfolding Ends
Leads P Q R m = (s : State _) → P s → Ends Q R ((m s).0) ((m s).1)

module _ {W : Type 0} (P Q R : State W → Type 0) where
  Ends-same {ℓ} :
      {A : Type ℓ} (r : Outcome A) (s : State W) → P s → ((t : State W) → P t → R t) → Ends P R r s
  unfolding Ends
  Ends-same (returned a) s h k = h
  Ends-same (thrown e) s h k = k s h

  pub Leads-Keeps {ℓ} :
      {A : Type ℓ} (m : M W A) → ((t : State W) → P t → R t) → Keeps P m → Leads P P R m
  unfolding Keeps Leads
  Leads-Keeps m k h s p = Ends-same ((m s).0) ((m s).1) (h s p) k

  Ends-and_then {ℓ κ} :
      {A : Type ℓ} {B : Type κ} (f : A → M W B) (Q' : State W → Type 0) (r : Outcome A)
      (s : State W)
      → ((a : A) → Leads Q Q' R (f a))
      → Ends Q R r s
      → Ends Q' R ((and_then f r s).0) ((and_then f r s).1)
  unfolding Ends Leads and_then
  Ends-and_then f Q' (returned a) s k h = k a s h
  Ends-and_then f Q' (thrown e) s k h = h

  pub Leads-bind {ℓ κ} :
      {A : Type ℓ} {B : Type κ} (m : M W A) (f : A → M W B) (Q' : State W → Type 0)
      → Leads P Q R m
      → ((a : A) → Leads Q Q' R (f a))
      → Leads P Q' R (m >>= f)
  unfolding ◌>>=◌ Leads
  Leads-bind m f Q' h k s p = Ends-and_then f Q' ((m s).0) ((m s).1) k (h s p)

  Ends-or_catch {ℓ} :
      {A : Type ℓ} (f : String → M W A) (R' : State W → Type 0) (r : Outcome A) (s : State W)
      → ((e : String) → Leads R Q R' (f e))
      → Ends Q R r s
      → Ends Q R' ((or_catch f r s).0) ((or_catch f r s).1)
  unfolding Ends Leads or_catch
  Ends-or_catch f R' (returned a) s k h = h
  Ends-or_catch f R' (thrown e) s k h = k e s h

  pub Leads-catch {ℓ} :
      {A : Type ℓ} (m : M W A) (f : String → M W A) (R' : State W → Type 0)
      → Leads P Q R m
      → ((e : String) → Leads R Q R' (f e))
      → Leads P Q R' (catch m f)
  unfolding catch Leads
  Leads-catch m f R' h k s p = Ends-or_catch f R' ((m s).0) ((m s).1) k (h s p)

-- A computation that ends at `P` either way leaves `P`.
pub Ends-both {ℓ} :
    {W : Type 0} (P : State W → Type 0) {A : Type ℓ} (r : Outcome A) (s : State W)
    → Ends P P r s
    → P s
unfolding Ends
Ends-both P (returned a) s h = h
Ends-both P (thrown e) s h = h

module _ {W : Type 0} (P Q R : State W → Type 0) where
  pub Leads-when :
      (b : Bool) (m : M W (Unit {0}))
      → (b ≡ true → Leads P Q R m)
      → (b ≡ false → Leads P Q R (pure (tt {0})))
      → Leads P Q R (when b m)
  Leads-when true m k n = k refl
  Leads-when false m k n = n refl

module _ {W : Type 0} (P R : State W → Type 0) where
  pub Leads-pure {ℓ} : {A : Type ℓ} (a : A) → Leads P P R (pure a)
  unfolding Leads pure Ends
  Leads-pure a s h = h

  -- An attempt does not throw.
  pub Leads-attempt : (m : M W (Unit {0})) → Keeps P m → Leads P P R (attempt m)
  Leads-attempt m k =
      Leads-catch P P P m _ R (Leads-Keeps P P P m (λ s h. h) k) (λ e. Leads-pure tt)

  pub Leads-given {ℓ κ} :
      {A : Type ℓ} {B : Type κ} (o : Option A) (m : M W B) (f : A → M W B)
      → Leads P P R m
      → ((a : A) → Leads P P R (f a))
      → Leads P P R (given o m f)
  Leads-given none m f km kf = km
  Leads-given (some a) m f km kf = kf a

-- What no state satisfies: where a computation that does not throw ends by throwing.
abbrev pub Never : {W : Type 0} → State W → Type 0
Never s = ⊥

pub Ends-returned {ℓ} :
    {W : Type 0} (Q : State W → Type 0) {A : Type ℓ} (r : Outcome A) (s : State W)
    → Ends Q Never r s
    → (has_returned r ≡ true) × Q s
unfolding Ends
Ends-returned Q (returned a) s h = (refl, h)
Ends-returned Q (thrown e) s h = elim h [ ]
