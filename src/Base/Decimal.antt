-- ===== src/Base/Decimal.antt =====
-- `std::to_string` of an integer of at most 64 bits, which has at most 20 digits.
use Prim.Native.Nat.{ℕ, zero, suc, ◌+◌, ◌*◌, ◌/◌, ◌%◌, ◌^◌, ◌<◌}
use mathlib.Core.Path.{◌≡◌, refl, ap, sym, ◌∙◌}
use mathlib.Core.Bool.{true, false}
use mathlib.Core.Logic.{inl, inr}
use mathlib.Core.List.{[], ◌∷◌, ◌++◌, append_assoc, append-nil}
use native.Mathlib.Omega.{arith}
use native.Mathlib.Numerals.{unary_clauses}
use l.Base.Tests.{if◌then◌else◌, ltb, Bool-cases, lt→ltb, ltb→lt}
use l.Base.Int.{negsuc, pos, ℤ}
use l.Base.Text.{Bytes, atoi, digits_value, isdigit, negated, signed}

-- The last `k` digits of a number, without leading zeros.
unfoldable pub decimal : ℕ → ℕ → Bytes
decimal zero n = []
decimal (suc k) n =
    let front = decimal k (n / 10) in
    if ltb n 10 then (b'0' + n) ∷ [] else front ++ (b'0' + n % 10) ∷ []

unfoldable pub to_string : ℤ → Bytes
to_string (pos n) = decimal 20 n
to_string (negsuc n) = b'-' ∷ decimal 20 (n + 1)

pub tenth_below : (k n : ℕ) → n < 10 ^ suc k → n / 10 < 10 ^ k
tenth_below k n h = let h' = simp unary_clauses at h in omega arith

is_digit : (d : ℕ) → d < 10 → isdigit (b'0' + d) ≡ true
is_digit d h = ground arith

digits_value-cons :
    (a d : ℕ) (rest : Bytes)
    → d < 10
    → digits_value a ((b'0' + d) ∷ rest) ≡ digits_value (a * 10 + d) rest
unfolding digits_value
digits_value-cons a d rest h =
    rw (is_digit d h) (ap (λ m. digits_value (a * 10 + m) rest) (omega arith))

pub decimal-IsShort : (k n : ℕ) → ltb n 10 ≡ true → decimal (suc k) n ≡ (b'0' + n) ∷ []
unfolding decimal
decimal-IsShort k n h = rw h refl

pub decimal-IsLong :
    (k n : ℕ) → ltb n 10 ≡ false → decimal (suc k) n ≡ decimal k (n / 10) ++ (b'0' + n % 10) ∷ []
unfolding decimal
decimal-IsLong k n h = rw h refl

-- The digits are read back as the number, whatever follows them.
pub digits_value-decimal :
    (k n : ℕ) (rest : Bytes)
    → n < 10 ^ suc k
    → digits_value 0 (decimal (suc k) n ++ rest) ≡ digits_value n rest
digits_value-decimal zero n rest h =
    rw (decimal-IsShort 0 n (lt→ltb n 10 (omega arith)))
      (digits_value-cons 0 n rest (omega arith) ∙ ap (λ m. digits_value m rest) (omega arith))
digits_value-decimal (suc k) n rest h = elim (Bool-cases (ltb n 10)) [
  | inl short ↦
      rw (decimal-IsShort (suc k) n short) (
        digits_value-cons 0 n rest (ltb→lt n 10 short)
        ∙ ap (λ m. digits_value m rest) (omega arith))
  | inr long ↦
      rw
        (
          decimal-IsLong (suc k) n long,
          append_assoc (decimal (suc k) (n / 10)) ((b'0' + n % 10) ∷ []) rest,
          digits_value-decimal k (n / 10) ((b'0' + n % 10) ∷ rest) (tenth_below (suc k) n h),
        )
        (digits_value-cons (n / 10) (n % 10) rest (omega arith)
          ∙ ap (λ m. digits_value m rest) (omega arith))
]

pub decimal-cons :
    (k n : ℕ) → (d : ℕ) × (s : Bytes) × (decimal (suc k) n ≡ (b'0' + d) ∷ s) × (d < 10)
decimal-cons zero n = elim (Bool-cases (ltb n 10)) [
  | inl short ↦ (n, [], decimal-IsShort 0 n short, ltb→lt n 10 short)
  | inr long ↦ (n % 10, [], unfold decimal in rw long refl, omega arith)
]
decimal-cons (suc k) n = elim (Bool-cases (ltb n 10)) [
  | inl short ↦ (n, [], decimal-IsShort (suc k) n short, ltb→lt n 10 short)
  | inr long ↦
      let (d, s, e, h) = decimal-cons k (n / 10) in
      (d, s ++ (b'0' + n % 10) ∷ [], decimal-IsLong (suc k) n long ∙ rw e refl, h)
]

atoi-digit :
    (d : ℕ) (s : Bytes) → d < 10 → atoi ((b'0' + d) ∷ s) ≡ pos (digits_value 0 ((b'0' + d) ∷ s))
unfolding atoi signed
atoi-digit d s h = ground arith

digits_value_whole : (k n : ℕ) → n < 10 ^ suc k → digits_value 0 (decimal (suc k) n) ≡ n
unfolding digits_value
digits_value_whole k n h =
    ap (digits_value 0) (sym (append-nil (decimal (suc k) n))) ∙ digits_value-decimal k n [] h

add_one : (n : ℕ) → n + 1 ≡ suc n
add_one n = omega arith

-- An integer of at most 20 digits, printed and read back, is the same integer.
pub atoi-to_string :
    (n : ℕ)
    → n + 1 < 10 ^ 20
    → (atoi (to_string (pos n)) ≡ pos n) × (atoi (to_string (negsuc n)) ≡ negsuc n)
unfolding to_string
atoi-to_string n h =
    let (d, s, e, l) = decimal-cons 19 n in
    (
      ap atoi e
          ∙ atoi-digit d s l
          ∙ ap pos (ap (digits_value 0) (sym e) ∙ digits_value_whole 19 n (omega arith)),
      unfold atoi signed negated in ap negated (digits_value_whole 19 (n + 1) h ∙ add_one n),
    )
