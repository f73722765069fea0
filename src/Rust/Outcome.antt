-- ===== src/Rust/Outcome.antt =====
-- Panics and `Result` as values.
use artos_nautilus_server.Prelude.{◌≡◌, ◌≢◌, refl, ◌⊎◌, inl, inr}

-- A computation that returns, or panics.
pub data Outcome {ℓ} (A : Type ℓ) : Type ℓ where
  done : A → Outcome A
  panicked : Outcome A

pub data Result {ℓ κ} (E : Type κ) (A : Type ℓ) : Type (ℓ ⊔ κ) where
  ok : A → Result E A
  err : E → Result E A

-- `e?` in a function that returns a `Result` and may panic.
abbrev pub Fallible {ℓ κ} : Type κ → Type ℓ → Type (ℓ ⊔ κ)
Fallible E A = Outcome (Result E A)

infixl 5 ◌>>=◌
abbrev pub ◌>>=◌ {ℓ κ} : {A : Type ℓ} {B : Type κ} → Outcome A → (A → Outcome B) → Outcome B
done a >>= f = f a
panicked >>= f = panicked

infixl 5 ◌>>=?◌
abbrev pub ◌>>=?◌ {ℓ κ μ} :
    {E : Type μ} {A : Type ℓ} {B : Type κ} → Fallible E A → (A → Fallible E B) → Fallible E B
done (ok a) >>=? f = f a
done (err e) >>=? f = done (err e)
panicked >>=? f = panicked

-- `Result::map_err` on the value of a computation.
abbrev pub map_err {ℓ κ μ} :
    {E : Type κ} {F : Type μ} {A : Type ℓ} → (E → F) → Fallible E A → Fallible F A
map_err f (done (ok a)) = done (ok a)
map_err f (done (err e)) = done (err (f e))
map_err f panicked = panicked

-- `Result::expect` and `Option::expect`.
abbrev pub expect {ℓ κ} : {E : Type κ} {A : Type ℓ} → Result E A → Outcome A
expect (ok a) = done a
expect (err e) = panicked

abbrev pub map_result_err {ℓ κ μ} :
    {E : Type κ} {F : Type μ} {A : Type ℓ} → (E → F) → Result E A → Result F A
map_result_err f (ok a) = ok a
map_result_err f (err e) = err (f e)

pub Result-cases {ℓ κ} :
    {E : Type κ} {A : Type ℓ} (r : Result E A) → ((a : A) × (r ≡ ok a)) ⊎ ((e : E) × (r ≡ err e))
Result-cases (ok a) = inl (a, refl)
Result-cases (err e) = inr (e, refl)

-- Inversion of a successful step.
pub >>=?-eq-ok {ℓ κ μ} :
    {E : Type μ} {A : Type ℓ} {B : Type κ} (m : Fallible E A) (f : A → Fallible E B) {b : B}
    → (m >>=? f) ≡ done (ok b)
    → (a : A) × (m ≡ done (ok a)) × (f a ≡ done (ok b))
>>=?-eq-ok (done (ok a)) f h = (a, refl, h)
>>=?-eq-ok (done (err e)) f h = cc
>>=?-eq-ok panicked f h = cc

pub >>=-eq-done {ℓ κ} :
    {A : Type ℓ} {B : Type κ} (m : Outcome A) (f : A → Outcome B) {b : B}
    → (m >>= f) ≡ done b
    → (a : A) × (m ≡ done a) × (f a ≡ done b)
>>=-eq-done (done a) f h = (a, refl, h)
>>=-eq-done panicked f h = cc

-- Inversion of three fallible values that a fourth computation takes.
pub three-eq-ok {ℓ κ μ ν} :
    {E : Type μ} {A : Type ℓ} {B : Type κ} {C : Type ν} (x y z : Fallible E A) (f g h : E → B)
    (k : A → A → A → Fallible B C) {c : C}
    → (map_err f x >>=? λ a. map_err g y >>=? λ b. map_err h z >>=? λ d. k a b d) ≡ done (ok c)
    → (a : A) × (b : A) × (d : A) × (x ≡ done (ok a))
      × (y ≡ done (ok b))
      × (z ≡ done (ok d))
      × (k a b d ≡ done (ok c))
three-eq-ok (done (ok a)) (done (ok b)) (done (ok d)) f g h k e = (a, b, d, refl, refl, refl, e)
three-eq-ok (done (ok a)) (done (ok b)) (done (err d)) f g h k e = cc
three-eq-ok (done (ok a)) (done (ok b)) panicked f g h k e = cc
three-eq-ok (done (ok a)) (done (err b)) z f g h k e = cc
three-eq-ok (done (ok a)) panicked z f g h k e = cc
three-eq-ok (done (err a)) y z f g h k e = cc
three-eq-ok panicked y z f g h k e = cc

-- Where no step panics, the chain does not.
pub >>=?-ne-panicked {ℓ κ μ} :
    {E : Type μ} {A : Type ℓ} {B : Type κ} (m : Fallible E A) (f : A → Fallible E B)
    → m ≢ panicked
    → ((a : A) → f a ≢ panicked)
    → (m >>=? f) ≢ panicked
>>=?-ne-panicked (done (ok a)) f h k = k a
>>=?-ne-panicked (done (err e)) f h k = λ p. cc
>>=?-ne-panicked panicked f h k = λ p. h refl

pub map_err-ne-panicked {ℓ κ μ} :
    {E : Type κ} {F : Type μ} {A : Type ℓ} (f : E → F) (m : Fallible E A)
    → m ≢ panicked
    → map_err f m ≢ panicked
map_err-ne-panicked f (done (ok a)) h = λ p. cc
map_err-ne-panicked f (done (err e)) h = λ p. cc
map_err-ne-panicked f panicked h = λ p. h refl

pub Outcome-cases {ℓ} : {A : Type ℓ} (m : Outcome A) → ((a : A) × (m ≡ done a)) ⊎ (m ≡ panicked)
Outcome-cases (done a) = inl (a, refl)
Outcome-cases panicked = inr refl
