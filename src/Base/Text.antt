-- ===== src/Base/Text.antt =====
-- Strings as lists of bytes, with the comparisons of std::string, the character tests of <cctype>
-- in the "C" locale, and atoi.
use Prim.Native.Char.{code}
use Prim.Native.String.{String}
use Prim.Native.Nat.{ℕ, zero, suc, ◌+◌, ◌-◌, ◌*◌}
use mathlib.Core.Path.{◌≡◌}
use mathlib.Core.Logic.{◌↔◌}
use mathlib.Core.Bool.{Bool, true, false, ◌&&◌, ◌||◌}
use mathlib.Core.List.{List, [], ◌∷◌, ◌++◌}
use native.Mathlib.Omega.{arith}
use l.Base.Tests.{if◌then◌else◌, leb, ltb, ◌==◌}
use l.Base.Int.{negsuc, pos, ℤ}

abbrev pub Bytes : Type 0
Bytes = List ℕ

-- The code points of a literal: its bytes, if it is ASCII.
abbrev pub codes : String → Bytes
codes String.[] = []
codes (String.◌∷◌ c s) = code c ∷ codes s

module _ {ℓ κ} {A : Type ℓ} (P : A → Type κ) where
  abbrev pub All : List A → Type κ
  All [] = Unit
  All (x ∷ xs) = P x × All xs

  pub All-append : (xs ys : List A) → All xs → All ys → All (xs ++ ys)
  All-append [] ys hx hy = hy
  All-append (x ∷ xs) ys (px, hx) hy = (px, All-append xs ys hx hy)

-- `operator==` of std::string
unfoldable pub equal : Bytes → Bytes → Bool
equal [] [] = true
equal [] (b ∷ bs) = false
equal (a ∷ as') [] = false
equal (a ∷ as') (b ∷ bs) = if a == b then equal as' bs else false

-- `operator<` of std::string: bytes compared as unsigned, a prefix is less
unfoldable pub less : Bytes → Bytes → Bool
less s [] = false
less [] (b ∷ bs) = true
less (a ∷ as') (b ∷ bs) =
    let rest = less as' bs in if ltb a b then true else if a == b then rest else false

abbrev pub isblank : ℕ → Bool
isblank c = c == b' ' || c == b'\t'

abbrev pub isupper : ℕ → Bool
isupper c = leb b'A' c && leb c b'Z'

abbrev pub isdigit : ℕ → Bool
isdigit c = leb b'0' c && leb c b'9'

-- blank, line feed, vertical tab, form feed or carriage return
abbrev pub isspace : ℕ → Bool
isspace c = c == b' ' || leb b'\t' c && leb c b'\r'

unfoldable pub digits_value : ℕ → Bytes → ℕ
digits_value n [] = n
digits_value n (c ∷ s) =
    let rest = digits_value (n * 10 + (c - b'0')) s in if isdigit c then rest else n

unfoldable pub negated : ℕ → ℤ
negated zero = pos 0
negated (suc n) = negsuc n

unfoldable pub signed : Bytes → ℤ
signed [] = pos 0
signed (c ∷ s) =
    if c == b'-'
    then negated (digits_value 0 s)
    else if c == b'+'
    then pos (digits_value 0 s)
    else pos (digits_value 0 (c ∷ s))

-- `atoi`: the exact number, which C leaves undefined where it is no int.
unfoldable pub atoi : Bytes → ℤ
unfolding signed negated digits_value
atoi [] = pos 0
atoi (c ∷ s) = let rest = atoi s in if isspace c then rest else signed (c ∷ s)

pub equal_iff : (s t : Bytes) → (equal s t ≡ true) ↔ (s ≡ t)
unfolding equal
equal_iff [] [] = ground arith
equal_iff [] (b ∷ t) = ground arith
equal_iff (a ∷ s) [] = ground arith
equal_iff (a ∷ s) (b ∷ t) = ground (arith, equal_iff s t)
