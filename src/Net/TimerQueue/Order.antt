-- ===== src/Net/TimerQueue/Order.antt =====
-- TimerQueue.cpp: the order of the map, and the part of it that has expired.
use l.Net.TimerQueue.{Key, TimerEntry, Timers, before, emplace, expire}
use l.Base.{
  Bool-cases, [], ap, arith, false, inl, inr, refl, true, ℕ, ◌++◌, ◌-◌, ◌<◌, ◌^◌, ◌∷◌, ◌≡◌, ◌≤◌,
  ◌⊎◌,
}

-- `a` is before all keys of the list.
abbrev Leads : Key → Timers → Type 0
Leads a [] = Unit
Leads a ((key, entry) ∷ m) = (before a key ≡ true) × Leads a m

abbrev pub Sorted : Timers → Type 0
Sorted [] = Unit
Sorted ((key, entry) ∷ m) = Leads key m × Sorted m

-- No sequence number is above `n`.
abbrev pub UpTo : ℕ → Timers → Type 0
UpTo n [] = Unit
UpTo n ((key, entry) ∷ m) = (key.sequence ≤ n) × UpTo n m

before_trans : (a b c : Key) → before a b ≡ true → before b c ≡ true → before a c ≡ true
unfolding before
before_trans a b c h k = ground (arith, h, k)

before_other : (a b : Key) → before a b ≡ false → b.sequence < a.sequence → before b a ≡ true
unfolding before
before_other a b h k = ground (arith, h, k)

Leads-trans : (a b : Key) (m : Timers) → before a b ≡ true → Leads b m → Leads a m
Leads-trans a b [] h k = tt
Leads-trans a b ((key, entry) ∷ m) h k = (before_trans a b key h k.0, Leads-trans a b m h k.1)

emplace-Leads :
    (a key : Key) (entry : TimerEntry) (m : Timers)
    → before a key ≡ true
    → Leads a m
    → Leads a (emplace key entry m)
unfolding emplace
emplace-Leads a key entry [] h k = (h, tt)
emplace-Leads a key entry ((key', entry') ∷ m) h k = elim (Bool-cases (before key key')) [
  | inl t ↦ rw t (h, k)
  | inr f ↦ rw f (elim (Bool-cases (before key' key)) [
    | inl t ↦ rw t (k.0, emplace-Leads a key entry m h k.1)
    | inr g ↦ rw g k
  ])
]

-- A timer with a new sequence number goes to its place.
pub emplace-Sorted :
    (n : ℕ) (key : Key) (entry : TimerEntry) (m : Timers)
    → UpTo n m
    → n < key.sequence
    → Sorted m
    → Sorted (emplace key entry m)
unfolding emplace
emplace-Sorted n key entry [] u h s = (tt, tt)
emplace-Sorted n key entry ((key', entry') ∷ m) u h s = elim (Bool-cases (before key key')) [
  | inl t ↦ rw t ((t, Leads-trans key key' m t s.0), s)
  | inr f ↦
      let g : before key' key ≡ true = before_other key key' f (omega (arith, u.0)) in
      rw (f, g) (emplace-Leads key' key entry m g s.0, emplace-Sorted n key entry m u.1 h s.1)
]

pub UpTo-more : (n n' : ℕ) (m : Timers) → n ≤ n' → UpTo n m → UpTo n' m
UpTo-more n n' [] h u = tt
UpTo-more n n' ((key, entry) ∷ m) h u = (omega (arith, h, u.0), UpTo-more n n' m h u.1)

pub emplace-UpTo :
    (n : ℕ) (key : Key) (entry : TimerEntry) (m : Timers)
    → UpTo n m
    → key.sequence ≤ n
    → UpTo n (emplace key entry m)
unfolding emplace
emplace-UpTo n key entry [] u h = (h, tt)
emplace-UpTo n key entry ((key', entry') ∷ m) u h = elim (Bool-cases (before key key')) [
  | inl t ↦ rw t (h, u)
  | inr f ↦ rw f (elim (Bool-cases (before key' key)) [
    | inl t ↦ rw t (u.0, emplace-UpTo n key entry m u.1 h)
    | inr g ↦ rw g u
  ])
]

-- The timer is in the list.
abbrev pub Holds : Key → TimerEntry → Timers → Type 0
Holds key entry [] = ⊥
Holds key entry ((key', entry') ∷ m) = ((key' ≡ key) × (entry' ≡ entry)) ⊎ Holds key entry m

pub emplace-Holds :
    (n : ℕ) (key : Key) (entry : TimerEntry) (m : Timers)
    → UpTo n m
    → n < key.sequence
    → Holds key entry (emplace key entry m)
unfolding emplace
emplace-Holds n key entry [] u h = inl (refl, refl)
emplace-Holds n key entry ((key', entry') ∷ m) u h = elim (Bool-cases (before key key')) [
  | inl t ↦ rw t (inl (refl, refl))
  | inr f ↦
      let g : before key' key ≡ true = before_other key key' f (omega (arith, u.0)) in
      rw (f, g) (inr (emplace-Holds n key entry m u.1 h))
]

-- All expire at `now` or before it, and all later.
abbrev pub AllDue : ℕ → Timers → Type 0
AllDue now [] = Unit
AllDue now ((key, entry) ∷ m) = (key.expiration ≤ now) × AllDue now m

abbrev pub AllLater : ℕ → Timers → Type 0
AllLater now [] = Unit
AllLater now ((key, entry) ∷ m) = (now < key.expiration) × AllLater now m

upper : ℕ → Key
upper now = record { expiration = now; sequence = 2 ^ 64 - 1 }

Leads-AllLater : (now : ℕ) (a : Key) (m : Timers) → now < a.expiration → Leads a m → AllLater now m
unfolding before
Leads-AllLater now a [] h k = tt
Leads-AllLater now a ((key, entry) ∷ m) h k = (ground (arith, h, k.0), Leads-AllLater now a m h k.1)

-- Of timers in order, with 64-bit sequence numbers, HandleRead takes those from the front that
-- expire by the time that it reads from the clock, and leaves those that expire later.
pub expire-splits :
    (now : ℕ) (m : Timers)
    → Sorted m
    → UpTo (2 ^ 64 - 1) m
    → ((expire (record { expiration = now; sequence = 2 ^ 64 - 1 }) m).0
          ++ (expire (record { expiration = now; sequence = 2 ^ 64 - 1 }) m).1
        ≡ m)
      × AllDue now (expire (record { expiration = now; sequence = 2 ^ 64 - 1 }) m).0
      × AllLater now (expire (record { expiration = now; sequence = 2 ^ 64 - 1 }) m).1
unfolding expire upper before
expire-splits now [] s u = (refl, tt, tt)
expire-splits now ((key, entry) ∷ m) s u = elim (Bool-cases (before (upper now) key)) [
  | inl t ↦
      let late : now < key.expiration = ground (arith, t, u.0) in
      rw t (refl, tt, (late, Leads-AllLater now key m late s.0))
  | inr f ↦
      let (p, d, l) = expire-splits now m s.1 u.1 in
      let due : key.expiration ≤ now = ground (arith, f) in
      rw f (ap (◌∷◌ (key, entry)) p, (due, d), l)
]
