-- ===== src/Base/Errors.antt =====
-- What a call that may throw returns. The constructors of `Error` are the exception types of
-- l4lb/src that reach main (l4lb/src/app/main.cpp); `null_pointer` stands for the undefined
-- behaviour of a pointer that points at nothing, and `assertion_failed` for the end of the program
-- by an assert, and `int_overflow` for the undefined behaviour of an int that is too large.
use Prim.Native.Nat.{ℕ}
use mathlib.Core.Path.{ap, refl, ◌≡◌}

pub data Error : Type 0 where
  out_of_range invalid_argument logic_error length_error : Error
  null_pointer assertion_failed int_overflow : Error
  system_error : ℕ → Error

pub data Result {ℓ} (A : Type ℓ) : Type ℓ where
  err : Error → Result A
  ok : A → Result A

-- An exception passes over what follows it.
infixl 5 ◌>>◌ ◌>>=◌
abbrev pub ◌>>=◌ {ℓ κ} : {A : Type ℓ} {B : Type κ} → Result A → (A → Result B) → Result B
err thrown >>= next = err thrown
ok value >>= next = next value

abbrev pub ◌>>◌ {ℓ} : {B : Type ℓ} → Result (Unit {0}) → Result B → Result B
first >> second = first >>= λ done. second

pub ok_same {ℓ} : {A : Type ℓ} {a b : A} → ok a ≡ ok b → a ≡ b
ok_same {A} {a} h = ap (λ r. elim r [ ok x ↦ x | err e ↦ a ]) h

pub bind-ok {ℓ} : {A : Type ℓ} (r : Result A) → (r >>= ok) ≡ r
bind-ok (ok a) = refl
bind-ok (err e) = refl
