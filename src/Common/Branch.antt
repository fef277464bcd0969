-- ===== src/Common/Branch.antt =====
-- What holds of each branch holds of the whole: a property of a program is proved along its tests.
use mathlib.Core.Path.{◌≡◌, refl}
use mathlib.Core.Bool.{Bool, true, false}
use mathlib.Core.Option.{Option, none, some}
use ppo_os.Common.Tests.{if◌then◌else◌, option_case}

pub if_elim {ℓ κ} :
    {A : Type ℓ} (P : A → Type κ) (b : Bool) {x y : A}
    → (b ≡ true → P x)
    → (b ≡ false → P y)
    → P (if b then x else y)
if_elim P true hx hy = hx refl
if_elim P false hx hy = hy refl

pub option_elim {ℓ κ μ} :
    {A : Type ℓ} {B : Type κ} (P : B → Type μ) (o : Option A) {d : B} {f : A → B}
    → P d
    → ((a : A) → o ≡ some a → P (f a))
    → P (option_case o d f)
option_elim P none hd hf = hd
option_elim P (some a) hd hf = hf a refl
