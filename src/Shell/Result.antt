-- ===== src/Shell/Result.antt =====
-- The outcome of a run of the parser of user/sh.c, and postconditions on it.
use cs_3224_operating_system.Base.{◌≡◌, refl, ◌≢◌, subst, Bool, true, false, if◌then◌else◌}

-- The calls of `panic`, by their messages.
pub data Message : Type 0 where
  syntax missing_file parseblock missing_paren too_many_args : Message

-- `panic` ends the shell's child; `out_of_fuel` has no counterpart in the program.
pub data Result {ℓ} (A : Type ℓ) : Type ℓ where
  ok : A → Result A
  panic : Message → Result A
  out_of_fuel : Result A

infixl 5 ◌>>=◌
abbrev pub ◌>>=◌ {ℓ κ} : {A : Type ℓ} {B : Type κ} → Result A → (A → Result B) → Result B
ok a >>= f = f a
panic e >>= f = panic e
out_of_fuel >>= f = out_of_fuel

-- The run kept within its fuel, and a value that it has satisfies `P`.
pub data Settles {ℓ κ} {A : Type ℓ} (P : A → Type κ) : Result A → Type (ℓ ⊔ κ) where
  value : {a : A} → P a → Settles P (ok a)
  stopped : {e : Message} → Settles P (panic e)

module _ {ℓ κ} {A : Type ℓ} {P : A → Type κ} where
  pub Settles-ok : {r : Result A} {a : A} → Settles P r → r ≡ ok a → P a
  Settles-ok (Settles.value h) e = subst P (cc) h
  Settles-ok Settles.stopped e = absurd (cc)

  pub Settles-ne : {r : Result A} → Settles P r → r ≢ out_of_fuel
  Settles-ne (Settles.value h) e = cc
  Settles-ne Settles.stopped e = cc

  pub Settles-if :
      (b : Bool) {x y : Result A}
      → (b ≡ true → Settles P x)
      → (b ≡ false → Settles P y)
      → Settles P (if b then x else y)
  Settles-if true hx hy = hx refl
  Settles-if false hx hy = hy refl

  pub Settles-bind {ℓ' κ'} :
      {B : Type ℓ'} {Q : B → Type κ'} {r : Result A} {f : A → Result B}
      → Settles P r
      → ((a : A) → P a → Settles Q (f a))
      → Settles Q (r >>= f)
  Settles-bind (Settles.value {a} h) k = k a h
  Settles-bind Settles.stopped k = Settles.stopped
