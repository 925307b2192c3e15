-- ===== src/Prelude/Booleans.antt =====
-- Boolean tests put together.
use mathlib.Core.Path.{◌≡◌, refl}
use mathlib.Core.Bool.{Bool, true, false, not, ◌&&◌, ◌||◌}
use mathlib.Core.List.{List, [], ◌∷◌, ◌++◌}
use native.Mathlib.Omega.{arith}
use gude_agents.Prelude.Lists.{any}

pub and_split : (a b : Bool) → (a && b) ≡ true → (a ≡ true) × (b ≡ true)
and_split true b e = (refl, e)
and_split false b e = absurd (ground arith)

pub or_none : (a b : Bool) → (a || b) ≡ false → (a ≡ false) × (b ≡ false)
or_none true b e = absurd (ground arith)
or_none false b e = (refl, e)

pub or_right : (a b : Bool) → b ≡ true → (a || b) ≡ true
or_right true b e = refl
or_right false b e = e

pub clash : (b : Bool) → b ≡ true → b ≡ false → ⊥
clash true e f = ground arith
clash false e f = ground arith

pub clash_not : (b : Bool) → not b ≡ true → b ≡ true → ⊥
clash_not true e f = ground arith
clash_not false e f = ground arith

pub any-append :
    {A : Type 0} (q : A → Bool) (xs ys : List A)
    → any q xs ≡ false
    → any q ys ≡ false
    → any q (xs ++ ys) ≡ false
any-append q [] ys e f = f
any-append q (x ∷ xs) ys e f =
    let (here, later) = or_none (q x) (any q xs) e in rw here (any-append q xs ys later f)
