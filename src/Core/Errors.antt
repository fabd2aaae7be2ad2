-- ===== src/Core/Errors.antt =====
-- What a Python function does that may raise: its value, or the exception. `recursion_error` is the
-- end of a model's fuel, which stands for no exception of the program.
use c4harness.Base.{◌⊎◌, inl, inr, Bool, true, false, String, List, [], ◌∷◌, ◌≡◌, refl}

pub data Error : Type 0 where
  value_error : String → Error
  key_error : String → Error
  compile_error : String → Error
  recursion_error : Error

pub data Result {ℓ} (V : Type ℓ) : Type ℓ where
  err : Error → Result V
  ok : V → Result V

infixl 10 ◌>>=◌
abbrev pub ◌>>=◌ {ℓ κ} : {V : Type ℓ} {W : Type κ} → Result V → (V → Result W) → Result W
err raised >>= next = err raised
ok value >>= next = next value

-- A statement that has no value, then what follows it.
infixl 10 ◌>>◌
abbrev pub ◌>>◌ {κ} : {W : Type κ} → Result (Unit {0}) → Result W → Result W
done >> next = done >>= λ _. next

-- `if test: raise error`
abbrev pub raise_if : Bool → Error → Result (Unit {0})
raise_if true e = err e
raise_if false e = ok tt

-- `for x in xs: s = step(x, s)`, where a step may raise
unfoldable pub for_each {ℓ κ} :
    {A : Type ℓ} {S : Type κ} → (A → S → Result S) → List A → S → Result S
for_each step [] s = ok s
for_each step (x ∷ xs) s = elim (step x s) [ err e ↦ err e | ok s' ↦ for_each step xs s' ]

pub >>=-eq-ok {ℓ κ} :
    {V : Type ℓ} {W : Type κ} (first : Result V) (next : V → Result W) {w : W}
    → (first >>= next) ≡ ok w
    → (v : V) × (first ≡ ok v) × (next v ≡ ok w)
>>=-eq-ok (err raised) next returns = cc
>>=-eq-ok (ok v) next returns = (v, refl, returns)

pub Result-cases {ℓ} :
    {A : Type ℓ} (r : Result A) → ((a : A) × (r ≡ ok a)) ⊎ ((e : Error) × (r ≡ err e))
Result-cases (ok a) = inl (a, refl)
Result-cases (err e) = inr (e, refl)

pub for_each-ok {ℓ κ} :
    {A : Type ℓ} {S : Type κ} (step : A → S → Result S) (x : A) (xs : List A) (s : S) {t : S}
    {r : Result S}
    → step x s ≡ ok t
    → for_each step xs t ≡ r
    → for_each step (x ∷ xs) s ≡ r
unfolding for_each
for_each-ok step x xs s h k = rw (for_each, h) k
