-- ===== src/Base/Result.antt =====
-- Go's `error`, results, and code that talks to a cluster: a state is passed along, what was
-- written before an error stays written, and the state comes back beside the error too.
use mathlib.Core.Bool.{Bool, true, false}
use mathlib.Core.Path.{◌≡◌, refl, ap, ◌∙◌}
use mathlib.Core.Logic.{◌⊎◌, inl, inr}
use mathlib.Core.Option.{Option, none, some}
use Prim.Native.String.{String}

-- The status reasons that the program asks an API error for.
pub data Reason : Type 0 where
  not_found already_exists no_match other : Reason

-- `wrap` is `fmt.Errorf` with `%w`; texts are the constant part of a message.
pub data Error : Type 0 where
  api : Reason → Error
  msg : String → Error
  wrap : String → Error → Error

-- `apierrors.IsNotFound` and its like look through wrapped errors.
abbrev pub reason : Error → Option Reason
reason (api r) = some r
reason (msg s) = none
reason (wrap s e) = reason e

abbrev pub is_not_found : Error → Bool
is_not_found e = elim (reason e) [ some not_found ↦ true | _ ↦ false ]

abbrev pub is_already_exists : Error → Bool
is_already_exists e = elim (reason e) [ some already_exists ↦ true | _ ↦ false ]

abbrev pub is_no_match : Error → Bool
is_no_match e = elim (reason e) [ some no_match ↦ true | _ ↦ false ]

pub data Result {ℓ} (A : Type ℓ) : Type ℓ where
  ok : A → Result A
  err : Error → Result A

abbrev pub M {ℓ} : Type ℓ → Type ℓ → Type ℓ
M W A = W → Result A × W

-- `if err != nil { return ..., fmt.Errorf("text: %w", err) }`
abbrev pub wrapped {ℓ} : {A : Type ℓ} → String → Result A → Result A
wrapped s (ok a) = ok a
wrapped s (err e) = err (wrap s e)

module _ {ℓ} {W A : Type ℓ} where
  abbrev pub pure : A → M W A
  pure a w = (ok a, w)

  abbrev pub raise : Error → M W A
  raise e w = (err e, w)

  -- a result that is there already, as a call that changes nothing
  abbrev pub lift : Result A → M W A
  lift r w = (r, w)

  abbrev pub wrapping : String → M W A → M W A
  wrapping s m w = let (r, w') = m w in (wrapped s r, w')

  -- Go on with the result of a call, whether it is an error or not.
  abbrev pub inspect {κ} : {B : Type κ} → M W A → (Result A → W → B) → W → B
  inspect m f w = let (r, w') = m w in f r w'

module _ {ℓ} {W A B : Type ℓ} where
  abbrev pub continue : Result A → (A → M W B) → M W B
  continue (ok a) f w = f a w
  continue (err e) f w = (err e, w)

  infixl 5 ◌>>=◌ ◌>>◌
  abbrev pub ◌>>=◌ : M W A → (A → M W B) → M W B
  ◌>>=◌ m f w = let (r, w') = m w in continue r f w'

  abbrev pub ◌>>◌ : M W A → M W B → M W B
  m >> n = m >>= λ _. n

pub Result-cases {ℓ} :
    {A : Type ℓ} (r : Result A) → ((a : A) × (r ≡ ok a)) ⊎ ((e : Error) × (r ≡ err e))
Result-cases (ok a) = inl (a, refl)
Result-cases (err e) = inr (e, refl)

-- Inversion of calls that succeeded.
module _ {ℓ} {W A B : Type ℓ} where
  continue-ok :
      (p : Result A × W) (f : A → M W B) {b : B} {w' : W}
      → continue p.0 f p.1 ≡ (ok b, w')
      → (a : A) × (v : W) × (p ≡ (ok a, v)) × (f a v ≡ (ok b, w'))
  continue-ok (ok a, v) f h = (a, v, refl, h)
  continue-ok (err e, v) f h = cc

  pub >>=-ok :
      (m : M W A) (f : A → M W B) (w : W) {b : B} {w' : W}
      → (m >>= f) w ≡ (ok b, w')
      → (a : A) × (v : W) × (m w ≡ (ok a, v)) × (f a v ≡ (ok b, w'))
  >>=-ok m f w h = continue-ok (m w) f h

module _ {ℓ} {W A : Type ℓ} where
  wrapped-ok :
      (s : String) (p : Result A × W) {a : A} {w' : W}
      → ◌≡◌ {A = Result A × W} (wrapped s p.0, p.1) (ok a, w')
      → p ≡ (ok a, w')
  wrapped-ok s (ok a, v) h = h
  wrapped-ok s (err e, v) h = cc

  pub wrapping-ok :
      (s : String) (m : M W A) (w : W) {a : A} {w' : W}
      → wrapping s m w ≡ (ok a, w')
      → m w ≡ (ok a, w')
  wrapping-ok s m w h = wrapped-ok s (m w) h

pub pure-ok {ℓ} : {W A : Type ℓ} (a : A) (w : W) {b : A} {w' : W} → pure a w ≡ (ok b, w') → a ≡ b
pure-ok a w h = cc

pub lift-ok {ℓ} :
    {W A : Type ℓ} (r : Result A) (w : W) {a : A} {w' : W}
    → lift r w ≡ (ok a, w')
    → (r ≡ ok a) × (w ≡ w')
lift-ok (ok a) w h = (cc, cc)
lift-ok (err e) w h = cc

pub >>=-lift {ℓ} :
    {W A B : Type ℓ} (r : Result A) (f : A → M W B) (w : W) {b : B} {w' : W}
    → (lift r >>= f) w ≡ (ok b, w')
    → (a : A) × (r ≡ ok a) × (f a w ≡ (ok b, w'))
>>=-lift (ok a) f w h = (a, refl, h)
>>=-lift (err e) f w h = cc

-- A call followed by a check of its result that changes nothing.
pub >>=-check {ℓ} :
    {W A B : Type ℓ} (m : M W A) (check : A → Result B) (w : W) {b : B} {w' : W}
    → (m >>= λ a. lift (check a)) w ≡ (ok b, w')
    → (a : A) × (m w ≡ (ok a, w')) × (check a ≡ ok b)
>>=-check m check w h =
    let (a, v, called, checked) = >>=-ok m (λ a. lift (check a)) w h in
    let (passed, same) = lift-ok (check a) v checked in
    (a, called ∙ ap (λ u. (ok a, u)) same, passed)
