-- ===== src/Timers/TimerQueue/Order.antt =====
-- The order of the timers of the tutorial's queue, and what `HandleRead` takes out of it.
use l.Base.{
  All, Bool-cases, List, [], ap, arith, inl, inr, leb, refl, true, ℕ, ◌++◌, ◌<◌, ◌∷◌, ◌≡◌, ◌≤◌,
}
use l.Timers.{Timer}
use l.Timers.TimerQueue.{before, due, emplace, later}

-- Every timer comes behind `t`.
abbrev pub Leads : Timer → List Timer → Type 0
Leads t [] = Unit
Leads t (u ∷ us) = before t u ≡ true

-- The timers are in the order of expiration and address, each of them once.
abbrev pub IsOrdered : List Timer → Type 0
IsOrdered [] = Unit
IsOrdered (t ∷ ts) = Leads t ts × IsOrdered ts

Leads-emplace :
    (a t : Timer) (ts : List Timer) → before a t ≡ true → Leads a ts → Leads a (emplace t ts)
unfolding emplace
Leads-emplace a t [] h l = h
Leads-emplace a t (u ∷ us) h l = elim (Bool-cases (before t u)) [
  | inl e ↦ rw e h
  | inr e ↦ elim (Bool-cases (before u t)) [ inl f ↦ rw (e, f) l | inr f ↦ rw (e, f) l ]
]

pub emplace-IsOrdered : (t : Timer) (ts : List Timer) → IsOrdered ts → IsOrdered (emplace t ts)
unfolding emplace
emplace-IsOrdered t [] h = (tt, tt)
emplace-IsOrdered t (u ∷ us) (l, h) = elim (Bool-cases (before t u)) [
  | inl e ↦ rw e (e, (l, h))
  | inr e ↦ elim (Bool-cases (before u t)) [
    | inl f ↦ rw (e, f) (Leads-emplace u t us f l, emplace-IsOrdered t us h)
    | inr f ↦ rw (e, f) (l, h)
  ]
]

before-le : (t u : Timer) → before t u ≡ true → t.expiration ≤ u.expiration
unfolding before
before-le t u h = ground arith

Leads-later :
    (now : ℕ) (t : Timer) (ts : List Timer)
    → IsOrdered (t ∷ ts)
    → now < t.expiration
    → All (λ u. now < u.expiration) ts
Leads-later now t [] h l = tt
Leads-later now t (u ∷ us) (b, h) l =
    let m : now < u.expiration = omega (arith, before-le t u b) in (m, Leads-later now u us h m)

-- In an ordered queue `HandleRead` takes the timers that have expired, all of them and in their
-- order, and leaves those that have not.
pub due-later :
    (now : ℕ) (ts : List Timer)
    → IsOrdered ts
    → (due now ts ++ later now ts ≡ ts)
      × All (λ t. t.expiration ≤ now) (due now ts)
      × All (λ t. now < t.expiration) (later now ts)
      × IsOrdered (later now ts)
unfolding due later
due-later now [] h = (refl, tt, tt, tt)
due-later now (t ∷ ts) (l, h) = elim (Bool-cases (leb t.expiration now)) [
  | inl e ↦
      let (split, past, left, order) = due-later now ts h in
      rw e (ap (◌∷◌ t) split, (ground arith, past), left, order)
  | inr e ↦
      let m : now < t.expiration = ground arith in
      rw e (refl, tt, (m, Leads-later now t ts (l, h) m), (l, h))
]
