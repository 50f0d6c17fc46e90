-- ===== src/Prelude/Results.antt =====
-- What a fallible call of the program comes to: a value, an error of the call's error type, or a
-- panic, which no `?` and no `map_err` catches; and calls that also change a state.

use mathlib.Core.Path.{◌≡◌, refl, sym, ap, subst}
use mathlib.Core.Logic.{◌≢◌, ◌⊎◌, inl, inr}
use mathlib.Core.Option.{Option, none, some}

pub data Outcome {ℓ} (E A : Type ℓ) : Type ℓ where
  ok : A → Outcome E A
  err : E → Outcome E A
  panic : Outcome E A

module _ {ℓ} {E A B : Type ℓ} where
  abbrev pub and_then : Outcome E A → (A → Outcome E B) → Outcome E B
  and_then (ok a) f = f a
  and_then (err e) f = err e
  and_then panic f = panic

-- `Result::map_err`
abbrev pub map_err {ℓ} : {E F A : Type ℓ} → (E → F) → Outcome E A → Outcome F A
map_err f (ok a) = ok a
map_err f (err e) = err (f e)
map_err f panic = panic

error_or {ℓ} : {E A : Type ℓ} → E → Outcome E A → E
error_or x (ok a) = x
error_or x (err e) = e
error_or x panic = x

pub err-injective {ℓ} : {E A : Type ℓ} {x y : E} → ◌≡◌ {A = Outcome E A} (err x) (err y) → x ≡ y
unfolding error_or
err-injective {x} h = ap (error_or x) h

value_or {ℓ} : {E A : Type ℓ} → A → Outcome E A → A
value_or x (ok a) = a
value_or x (err e) = x
value_or x panic = x

pub ok-injective {ℓ} : {E A : Type ℓ} {x y : A} → ◌≡◌ {A = Outcome E A} (ok x) (ok y) → x ≡ y
unfolding value_or
ok-injective {x} h = ap (value_or x) h

-- A call that works on a state `S`.
abbrev pub Exec {ℓ} : Type ℓ → Type ℓ → Type ℓ → Type ℓ
Exec S E A = S → Outcome E A × S

module _ {ℓ} {S E A B : Type ℓ} where
  -- The `?` operator, on the outcome of a call that left the state `s`.
  abbrev pub continue : Outcome E A → (A → Exec S E B) → Exec S E B
  continue (ok a) f s = f a s
  continue (err e) f s = (err e, s)
  continue panic f s = (panic, s)

  infixl 5 ◌>>=◌ ◌>>◌
  abbrev pub ◌>>=◌ : Exec S E A → (A → Exec S E B) → Exec S E B
  ◌>>=◌ m f s = continue (m s).0 f (m s).1

  abbrev pub ◌>>◌ : Exec S E A → Exec S E B → Exec S E B
  ◌>>◌ m k s = continue (m s).0 (λ _. k) (m s).1

module _ {ℓ} {S E A : Type ℓ} where
  abbrev pub pure : A → Exec S E A
  pure a s = (ok a, s)

  abbrev pub raise : E → Exec S E A
  raise e s = (err e, s)

  abbrev pub lift : Outcome E A → Exec S E A
  lift r s = (r, s)

-- `m.await.map_err(f)`
abbrev pub mapping_err {ℓ} : {S E F A : Type ℓ} → (E → F) → Exec S E A → Exec S F A
mapping_err f m s = (map_err f (m s).0, (m s).1)

-- `Option::ok_or`
abbrev pub ok_or {ℓ} : {E A : Type ℓ} → E → Option A → Outcome E A
ok_or e none = err e
ok_or e (some a) = ok a

-- What a step that fails leaves behind: nothing that was not there when it began.
pub continue_keeps {ℓ} :
    {W E A B : Type ℓ} (r : Outcome E A) (f : A → Exec W E B) (w w' : W) (e : E)
    → ((a : A) → f a w ≡ (err e, w') → w' ≡ w)
    → continue r f w ≡ (err e, w')
    → w' ≡ w
continue_keeps (ok a) f w w' e step h = step a h
continue_keeps (err x) f w w' e step h = sym (ap (λ p. p.1) h)
continue_keeps panic f w w' e step h = sym (ap (λ p. p.1) h)

-- Where the error of two steps comes from.
pub continue-err {ℓ} :
    {W E A B : Type ℓ} (Q : E → Type 0) (r : Outcome E A) (f : A → Exec W E B) (w : W)
    → ((e : E) → r ≡ err e → Q e)
    → ((a : A) (e : E) → (f a w).0 ≡ err e → Q e)
    → (e : E) → (continue r f w).0 ≡ err e
    → Q e
continue-err Q (ok a) f w first second e h = second a e h
continue-err Q (err x) f w first second e h = first e (ap (λ t. err t) (err-injective h))
continue-err Q panic f w first second e h = cc

pub and_then-err {ℓ} :
    {E A B : Type ℓ} (Q : E → Type 0) (r : Outcome E A) (f : A → Outcome E B)
    → ((e : E) → r ≡ err e → Q e)
    → ((a : A) (e : E) → f a ≡ err e → Q e)
    → (e : E) → and_then r f ≡ err e
    → Q e
and_then-err Q (ok a) f first second e h = second a e h
and_then-err Q (err x) f first second e h = first e (ap (λ t. err t) (err-injective h))
and_then-err Q panic f first second e h = cc

-- An error that has been mapped is the image of one.
pub map_err-err {ℓ} :
    {E F A : Type ℓ} (Q : F → Type 0) (g : E → F) (r : Outcome E A)
    → ((x : E) → r ≡ err x → Q (g x))
    → (e : F) → map_err g r ≡ err e
    → Q e
map_err-err Q g (ok a) each e h = cc
map_err-err Q g (err x) each e h = subst Q (err-injective h) (each x refl)
map_err-err Q g panic each e h = cc

-- Where the value of a step comes from.
pub map_err-ok {ℓ} :
    {E F A : Type ℓ} (g : E → F) (r : Outcome E A) (a : A) → map_err g r ≡ ok a → r ≡ ok a
map_err-ok g (ok x) a h = ap (λ t. ok t) (ok-injective h)
map_err-ok g (err e) a h = cc
map_err-ok g panic a h = cc

pub and_then-ok {ℓ} :
    {E A B : Type ℓ} (r : Outcome E A) (f : A → Outcome E B) (b : B)
    → and_then r f ≡ ok b
    → (a : A) × (r ≡ ok a) × (f a ≡ ok b)
and_then-ok (ok a) f b h = (a, refl, h)
and_then-ok (err e) f b h = cc
and_then-ok panic f b h = cc

pub continue-value {ℓ} :
    {W E A B : Type ℓ} (r : Outcome E A) (f : A → Exec W E B) (w : W) (b : B)
    → (continue r f w).0 ≡ ok b
    → (a : A) × (r ≡ ok a) × ((f a w).0 ≡ ok b)
continue-value (ok a) f w b h = (a, refl, h)
continue-value (err e) f w b h = cc
continue-value panic f w b h = cc

pub continue-both {ℓ} :
    {W E A B : Type ℓ} (r : Outcome E A) (f : A → Exec W E B) (w w' : W) (b : B)
    → continue r f w ≡ (ok b, w')
    → (a : A) × (r ≡ ok a) × (f a w ≡ (ok b, w'))
continue-both (ok a) f w w' b h = (a, refl, h)
continue-both (err e) f w w' b h = cc
continue-both panic f w w' b h = cc

-- A chain of steps that do not panic does not panic.
pub map_err_total {ℓ} :
    {E F A : Type ℓ} (g : E → F) (r : Outcome E A)
    → ◌≢◌ {A = Outcome E A} r panic
    → ◌≢◌ {A = Outcome F A} (map_err g r) panic
map_err_total g (ok a) total e = cc
map_err_total g (err x) total e = cc
map_err_total g panic total e = total refl

pub and_then_total {ℓ} :
    {E A B : Type ℓ} (r : Outcome E A) (f : A → Outcome E B)
    → ◌≢◌ {A = Outcome E A} r panic
    → ((a : A) → ◌≢◌ {A = Outcome E B} (f a) panic)
    → ◌≢◌ {A = Outcome E B} (and_then r f) panic
and_then_total (ok a) f total each e = each a e
and_then_total (err x) f total each e = cc
and_then_total panic f total each e = total refl

-- A chain that succeeds did so step by step.
pub continue-ok {ℓ} :
    {W E F A B : Type ℓ} (g : E → F) (r : Outcome E A) (f : A → Exec W F B) (w w' : W) (b : B)
    → continue (map_err g r) f w ≡ (ok b, w')
    → (a : A) × (r ≡ ok a) × (f a w ≡ (ok b, w'))
continue-ok g (ok a) f w w' b h = (a, refl, h)
continue-ok g (err e) f w w' b h = cc
continue-ok g panic f w w' b h = cc

-- To split on a computed outcome and keep the equation.
pub Outcome-cases {ℓ} :
    {E A : Type ℓ} (r : Outcome E A)
    → ((a : A) × (r ≡ ok a)) ⊎ (((e : E) × (r ≡ err e)) ⊎ (r ≡ panic))
Outcome-cases (ok a) = inl (a, refl)
Outcome-cases (err e) = inr (inl (e, refl))
Outcome-cases panic = inr (inr refl)
