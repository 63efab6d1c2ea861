-- ===== src/Log/LogStream/Digits.antt =====
-- What `formatInteger` writes: the decimal digits of a number that is not negative, and for a
-- negative one its digits turned over, without a sign.
use mathlib.Core.List.{reverse, reverse-cons, map-append}
use Prim.Native.Nat.{zero}
use l.Base.{
  Bool, Bool-cases, Bytes, [], ap, append-nil, arith, decimal, decimal-IsLong, decimal-IsShort,
  false, inl, inr, leb, ltb, ltb→lt, lt→ltb, map, negated, negsuc, pos, refl, subst, suc,
  tenth_below, to_string, true, zero, ℕ, ℤ, ◌%◌, ◌+◌, ◌-◌, ◌/◌, ◌<◌, ◌==◌, ◌^◌, ◌∙◌, ◌∷◌, ◌≡◌, ◌≤◌,
}
use l.Log.LogStream.{
  LogStream, digit_char, digits_loop, format_integer, is_zero, k_max_numeric_size, sign_char, tenth,
}
use l.Log.FixedBuffer.{add, avail}

-- The number of this sign and magnitude.
abbrev signed_as : Bool → ℕ → ℤ
signed_as true m = negated m
signed_as false m = pos m

-- What stands for a digit's character in a number of this sign.
abbrev pub shown_as : Bool → ℕ → ℕ
shown_as true c = b'0' + b'0' - c
shown_as false c = c

digit_char-signed_as : (b : Bool) (m : ℕ) → digit_char (signed_as b m) ≡ shown_as b (b'0' + m % 10)
unfolding negated
digit_char-signed_as true zero = refl
digit_char-signed_as true (suc m) = omega arith
digit_char-signed_as false m = refl

tenth-signed_as : (b : Bool) (m : ℕ) → tenth (signed_as b m) ≡ signed_as b (m / 10)
unfolding tenth negated
tenth-signed_as true zero = refl
tenth-signed_as true (suc m) = ap negated {x = (m + 1) / 10} (omega arith)
tenth-signed_as false m = refl

is_zero-signed_as : (b : Bool) (m : ℕ) → is_zero (signed_as b m) ≡ (m == 0)
unfolding negated
is_zero-signed_as true zero = refl
is_zero-signed_as true (suc m) = ground arith
is_zero-signed_as false m = refl

signed_as_zero : (b : Bool) (m : ℕ) → m ≡ 0 → signed_as b m ≡ pos 0
unfolding negated
signed_as_zero true m h = ap negated h
signed_as_zero false m h = ap pos h

is_zero-tenth : (b : Bool) (m : ℕ) → is_zero (tenth (signed_as b m)) ≡ ltb m 10
is_zero-tenth b m = rw (tenth-signed_as b m, is_zero-signed_as b (m / 10)) (ground arith)

last_round :
    (k : ℕ) (v : ℤ)
    → is_zero (tenth v) ≡ true
    → digits_loop (suc k) v ≡ (digit_char v ∷ [], tenth v)
unfolding digits_loop
last_round k v h = rw h refl

next_round :
    (k : ℕ) (v : ℤ)
    → is_zero (tenth v) ≡ false
    → digits_loop (suc k) v
      ≡ (digit_char v ∷ (digits_loop k (tenth v)).0, (digits_loop k (tenth v)).1)
unfolding digits_loop
next_round k v h = rw h refl

-- The loop comes to zero, having written the digits in reverse.
abbrev Writes : Bool → ℕ → ℕ → Type 0
Writes b k m =
    (reverse (digits_loop k (signed_as b m)).0 ≡ map (shown_as b) (decimal k m))
    × ((digits_loop k (signed_as b m)).1 ≡ pos 0)

short-Writes : (b : Bool) (k m : ℕ) → ltb m 10 ≡ true → Writes b (suc k) m
short-Writes b k m h =
    let small : m < 10 = ltb→lt m 10 h in
    rw (last_round k (signed_as b m) (is_zero-tenth b m ∙ h), decimal-IsShort k m h)
      (
        ap (λ c. c ∷ []) (digit_char-signed_as b m ∙ ap (λ n. shown_as b (b'0' + n)) (omega arith)),
        tenth-signed_as b m ∙ signed_as_zero b (m / 10) (omega arith),
      )

long-Writes : (b : Bool) (k m : ℕ) → ltb m 10 ≡ false → Writes b k (m / 10) → Writes b (suc k) m
long-Writes b k m h (w, z) =
    rw
      (
        next_round k (signed_as b m) (is_zero-tenth b m ∙ h),
        decimal-IsLong k m h,
        tenth-signed_as b m,
        map-append (shown_as b) (decimal k (m / 10)) ((b'0' + m % 10) ∷ []),
        reverse-cons (digit_char (signed_as b m)) (digits_loop k (signed_as b (m / 10))).0,
        w,
        digit_char-signed_as b m,
      )
      (refl, z)

digits_loop-decimal : (b : Bool) (k m : ℕ) → m < 10 ^ suc k → Writes b (suc k) m
digits_loop-decimal b zero m h = short-Writes b 0 m (lt→ltb m 10 (omega arith))
digits_loop-decimal b (suc k) m h = elim (Bool-cases (ltb m 10)) [
  | inl few ↦ short-Writes b (suc k) m few
  | inr many ↦
      long-Writes b (suc k) m many (digits_loop-decimal b k (m / 10) (tenth_below (suc k) m h))
]

negative_writes :
    (n : ℕ)
    → n + 1 < 10 ^ 20
    → (reverse (digits_loop 20 (negsuc n)).0 ≡ map (shown_as true) (decimal 20 (n + 1)))
      × ((digits_loop 20 (negsuc n)).1 ≡ pos 0)
unfolding negated
negative_writes n h =
    let same : negated (n + 1) ≡ negsuc n = ap negated {y = suc n} (omega arith) in
    subst
      (λ v.
        (reverse (digits_loop 20 v).0 ≡ map (shown_as true) (decimal 20 (n + 1)))
        × ((digits_loop 20 v).1 ≡ pos 0))
      same (digits_loop-decimal true 19 (n + 1) h)

map-shown_as : (xs : Bytes) → map (shown_as false) xs ≡ xs
map-shown_as [] = refl
map-shown_as (x ∷ xs) = ap (◌∷◌ x) (map-shown_as xs)

-- With room for 48 bytes, a number of at most 20 digits that is not negative is written as
-- `std::to_string` prints it; a negative one is written as its digits, each turned over around '0'
-- in the character code, with no sign before them.
pub format_integer_writes :
    (n : ℕ) (s : LogStream)
    → n + 1 < 10 ^ 20
    → k_max_numeric_size ≤ avail s.buffer
    → (format_integer (pos n) s ≡ record s { buffer = add (to_string (pos n)) s.buffer })
      × (format_integer (negsuc n) s
          ≡ record s { buffer = add (map (shown_as true) (decimal 20 (n + 1))) s.buffer })
unfolding format_integer to_string sign_char
format_integer_writes n s h room =
    let (w, z) = digits_loop-decimal false 19 n (omega arith) in
    let (w', z') = negative_writes n h in
    let wide : leb k_max_numeric_size (avail s.buffer) ≡ true = ground arith in
    (
      rw (wide, z, append-nil (digits_loop 20 (pos n)).0, w, map-shown_as (decimal 20 n)) refl,
      rw (wide, z', append-nil (digits_loop 20 (negsuc n)).0, w') refl,
    )
