-- ===== src/Prelude/Results.antt =====
-- Rust's `Result`, and methods on `&mut self` that return one.
use mathlib.Core.Path.{◌≡◌, refl}
use mathlib.Core.Bool.{Bool, true, false}
use mathlib.Core.Option.{Option, none, some}
use mathlib.Core.Logic.{◌⊎◌, inl, inr}

pub data Result {ℓ κ} (E : Type ℓ) (A : Type κ) : Type (ℓ ⊔ κ) where
  ok : A → Result E A
  err : E → Result E A

-- A method takes the state and returns its result with the state that it leaves, errors included.
abbrev pub Method {ℓ κ μ} : Type ℓ → Type κ → Type μ → Type (ℓ ⊔ κ ⊔ μ)
Method S E A = S → Result E A × S

module _ {ℓ κ μ} {S : Type ℓ} {E : Type κ} {A : Type μ} where
  abbrev pub pure : A → Method S E A
  pure a s = (ok a, s)

  abbrev pub fail_with : E → Method S E A
  fail_with e s = (err e, s)

module _ {ℓ κ} {S : Type ℓ} {E : Type κ} where
  abbrev pub get : Method S E S
  get s = (ok s, s)

  abbrev pub put : S → Method S E (Unit {0})
  put t s = (ok tt, t)

  abbrev pub ensure : Bool → E → Method S E (Unit {0})
  ensure true e s = (ok tt, s)
  ensure false e s = (err e, s)

  -- `.ok_or(e)?`
  abbrev pub ok_or {μ} : {A : Type μ} → Option A → E → Method S E A
  ok_or (some a) e s = (ok a, s)
  ok_or none e s = (err e, s)

infixl 5 ◌>>=◌ ◌>>◌
abbrev pub ◌>>=◌ {ℓ κ μ ν} :
    {S : Type ℓ} {E : Type κ} {A : Type μ} {B : Type ν}
    → Method S E A
    → (A → Method S E B)
    → Method S E B
◌>>=◌ m f s = let (r, t) = m s in elim r [ ok a ↦ f a t | err e ↦ (err e, t) ]

abbrev pub ◌>>◌ {ℓ κ μ} :
    {S : Type ℓ} {E : Type κ} {B : Type μ} → Method S E (Unit {0}) → Method S E B → Method S E B
m >> k = m >>= λ _. k

pub Result-cases {ℓ κ} :
    {E : Type ℓ} {A : Type κ} (r : Result E A) → ((a : A) × (r ≡ ok a)) ⊎ ((e : E) × (r ≡ err e))
Result-cases (ok a) = inl (a, refl)
Result-cases (err e) = inr (e, refl)

-- The predicate that a call was refused.
abbrev pub IsErr {ℓ κ} : {E : Type ℓ} {A : Type κ} → Result E A → Type 0
IsErr (ok a) = ⊥
IsErr (err e) = Unit

abbrev pub IsOk {ℓ κ} : {E : Type ℓ} {A : Type κ} → Result E A → Type 0
IsOk (ok a) = Unit
IsOk (err e) = ⊥

-- `.map_err(f)?`
abbrev pub map_err {ℓ κ μ ν} :
    {S : Type ℓ} {E : Type κ} {F : Type μ} {A : Type ν} → (E → F) → Method S E A → Method S F A
map_err f m s = let (r, t) = m s in elim r [ ok a ↦ (ok a, t) | err e ↦ (err (f e), t) ]

-- A call whose result is matched on, in place of `?`.
abbrev pub attempt {ℓ κ μ ν} :
    {S : Type ℓ} {E : Type κ} {F : Type μ} {A : Type ν} → Method S E A → Method S F (Result E A)
attempt m s = let (r, t) = m s in (ok r, t)

abbrev pub of_result {ℓ κ μ} : {S : Type ℓ} {E : Type κ} {A : Type μ} → Result E A → Method S E A
of_result r s = (r, s)

abbrev pub IsSome {ℓ} : {A : Type ℓ} → Option A → Type 0
IsSome none = ⊥
IsSome (some a) = Unit

-- `?` on a result.
unfoldable pub and_then {ℓ κ μ} :
    {E : Type ℓ} {A : Type κ} {B : Type μ} → Result E A → (A → Result E B) → Result E B
and_then (ok a) f = f a
and_then (err e) f = err e

-- `.ok_or(e)`, outside a method.
abbrev pub ok_or_err {ℓ κ} : {E : Type ℓ} {A : Type κ} → E → Option A → Result E A
ok_or_err e none = err e
ok_or_err e (some a) = ok a

abbrev pub is_some {ℓ} : {A : Type ℓ} → Option A → Bool
is_some none = false
is_some (some a) = true

-- `.map(Some)`
abbrev pub some_ok {ℓ κ} : {E : Type ℓ} {A : Type κ} → Result E A → Result E (Option A)
some_ok (ok a) = ok (some a)
some_ok (err e) = err e

-- `.map(f).transpose()`
abbrev pub transpose {ℓ κ μ} :
    {E : Type ℓ} {A : Type κ} {B : Type μ} → (A → Result E B) → Option A → Result E (Option B)
transpose f none = ok none
transpose f (some a) = some_ok (f a)

pub and_then-ok {ℓ κ μ} :
    {E : Type ℓ} {A : Type κ} {B : Type μ} (r : Result E A) (f : A → Result E B) (b : B)
    → and_then r f ≡ ok b
    → (a : A) × (r ≡ ok a) × (f a ≡ ok b)
unfolding and_then
and_then-ok (ok a) f b h = (a, refl, h)
and_then-ok (err e) f b h = cc

pub ok_or_err-ok {ℓ κ} :
    {E : Type ℓ} {A : Type κ} (e : E) (o : Option A) (a : A) → ok_or_err e o ≡ ok a → o ≡ some a
ok_or_err-ok e none a h = cc
ok_or_err-ok e (some b) a h = cc

-- A step that succeeds goes on with its value.
pub and_then_into {ℓ κ μ} :
    {E : Type ℓ} {A : Type κ} {B : Type μ} {r : Result E A} {a : A} {c : Result E B}
    (f : A → Result E B)
    → r ≡ ok a
    → f a ≡ c
    → and_then r f ≡ c
unfolding and_then
and_then_into {r = ok b} f h k = cc
and_then_into {r = err e} f h k = cc

pub some_ok-ok {ℓ κ} :
    {E : Type ℓ} {A : Type κ} (r : Result E A) (o : Option A)
    → some_ok r ≡ ok o
    → (a : A) × (r ≡ ok a) × (o ≡ some a)
some_ok-ok (ok a) o h = (a, refl, cc)
some_ok-ok (err e) o h = cc

-- The same, for a proof that goes on with the value.
pub and_then_bound {ℓ κ μ ν} :
    {E : Type ℓ} {A : Type κ} {B : Type μ} {P : Type ν} {r : Result E A} {f : A → Result E B}
    {b : B}
    → and_then r f ≡ ok b
    → ((a : A) → r ≡ ok a → f a ≡ ok b → P)
    → P
and_then_bound {r = r} {f = f} {b = b} h k = let (a, e, t) = and_then-ok r f b h in k a e t

pub ok_injective {ℓ κ} :
    {E : Type ℓ} {A : Type κ} (a b : A) → ◌≡◌ {A = Result E A} (ok a) (ok b) → a ≡ b
ok_injective a b h = cc
