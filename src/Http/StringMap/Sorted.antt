-- ===== src/Http/StringMap/Sorted.antt =====
-- What a map promises: a value is found under the key it was assigned to, the others stay, and the
-- keys stay in strictly increasing order.
use l.Base.{
  Bool-cases, Bytes, [], arith, equal, equal_iff, false, if◌then◌else◌, inl, inr, less, none, refl,
  some, true, ◌∷◌, ◌≡◌,
}
use l.Http.StringMap.{StringMap, assign, count, find}

-- Every key of the map comes behind `key`.
abbrev pub Behind : Bytes → StringMap → Type 0
Behind key [] = Unit
Behind key ((k, v) ∷ m) = less key k ≡ true

-- The keys are strictly increasing.
abbrev pub IsSorted : StringMap → Type 0
IsSorted [] = Unit
IsSorted ((k, v) ∷ m) = Behind k m × IsSorted m

pub find-assign :
    (key other value : Bytes) (m : StringMap)
    → find other (assign key value m) ≡ (if equal key other then some value else find other m)
unfolding find assign
find-assign key other value [] = refl
find-assign key other value ((k, v) ∷ m) =
    ground (
      arith,
      equal_iff k key,
      equal_iff k other,
      equal_iff key other,
      find-assign key other value m,
    )

pub less_or_equal : (s t : Bytes) → less s t ≡ false → equal t s ≡ false → less t s ≡ true
unfolding less equal
less_or_equal [] [] h d = ground arith
less_or_equal [] (b ∷ t) h d = ground arith
less_or_equal (a ∷ s) [] h d = refl
less_or_equal (a ∷ s) (b ∷ t) h d = ground (arith, less_or_equal s t)

Behind-assign :
    (bound key value : Bytes) (m : StringMap)
    → Behind bound m
    → less bound key ≡ true
    → Behind bound (assign key value m)
unfolding assign
Behind-assign bound key value [] h l = l
Behind-assign bound key value ((k, v) ∷ m) h l = elim (Bool-cases (equal k key)) [
  | inl e ↦ rw e h
  | inr e ↦ elim (Bool-cases (less key k)) [ inl f ↦ rw (e, f) l | inr f ↦ rw (e, f) h ]
]

pub assign-IsSorted :
    (key value : Bytes) (m : StringMap) → IsSorted m → IsSorted (assign key value m)
unfolding assign
assign-IsSorted key value [] h = (tt, tt)
assign-IsSorted key value ((k, v) ∷ m) (b, s) = elim (Bool-cases (equal k key)) [
  | inl e ↦ rw e (b, s)
  | inr e ↦ elim (Bool-cases (less key k)) [
    | inl f ↦ rw (e, f) (f, (b, s))
    | inr f ↦
        rw (e, f)
          (Behind-assign k key value m b (less_or_equal key k f e), assign-IsSorted key value m s)
  ]
]

pub count-find :
    (key : Bytes) (m : StringMap)
    → count key m ≡ (elim (find key m) [ some v ↦ true | none ↦ false ])
unfolding count find
count-find key [] = refl
count-find key ((k, v) ∷ m) = ground (arith, count-find key m)
