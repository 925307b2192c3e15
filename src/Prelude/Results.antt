-- ===== src/Prelude/Results.antt =====
-- A Go result `(T, error)`, and concatenation of texts.
use Prim.Native.String
use Prim.Native.String.{String}
use text.Mathlib.TextLemmas.{append_cancel_left, cons-append, head-eq_of_cons-eq}
use mathlib.Core.Path.{◌≡◌, refl, sym, ap, ◌∙◌}
use mathlib.Core.Logic.{◌≢◌, ◌⊎◌, inl, inr}
use Prim.Native.Char.{Char, code}

pub data Result {ℓ} (E : Type 0) (A : Type ℓ) : Type ℓ where
  ok : A → Result E A
  err : E → Result E A

infixl 5 ◌>>=◌
abbrev pub ◌>>=◌ {ℓ κ} :
    {E : Type 0} {A : Type ℓ} {B : Type κ} → Result E A → (A → Result E B) → Result E B
ok a >>= f = f a
err e >>= f = err e

-- `s + t`
abbrev pub concat : String → String → String
concat s t = String.◌++◌ s t

pub concat_cancel : (p s t : String) → concat p s ≡ concat p t → s ≡ t
concat_cancel p s t e = append_cancel_left p s t e

pub concat_ne :
    (c d : Char) (p q s t : String)
    → code c ≢ code d
    → concat (String.◌∷◌ c p) s ≢ concat (String.◌∷◌ d q) t
concat_ne c d p q s t h e =
    h (ap code (head-eq_of_cons-eq (sym (cons-append c p s) ∙ e ∙ cons-append d q t)))

pub Result-cases {ℓ} :
    {E : Type 0} {A : Type ℓ} (r : Result E A) → ((e : E) × (r ≡ err e)) ⊎ ((a : A) × (r ≡ ok a))
Result-cases (ok a) = inr (a, refl)
Result-cases (err e) = inl (e, refl)
