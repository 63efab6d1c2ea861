-- ===== src/Lb/LoadBalancer.antt =====
-- l4lb/src/lb/LoadBalancer.h and LoadBalancer.cpp: the owner of all sessions, which deals the
-- clients out to the backends in turn.
pub mod Turns
pub mod Keeps
pub mod Admits
pub mod Accepting
mod Tests
use l.Base.{
  Error, List, Option, Result, [], err, get_elem?, if◌then◌else◌, invalid_argument, length, none,
  ok, out_of_range, some, suc, zero, ℕ, ◌%◌, ◌+◌, ◌==◌, ◌>>=◌, ◌>>◌, ◌∷◌,
}
use l.Net.System.{Context, Reply, assert_in_loop_thread}
use l.Net.Socket
use l.Lb.ProxySession.{ProxySession}
use l.Lb.ProxySession
use l.Lb.ProxySession.Step.{Event, Started, start, step}

-- A session, with the backend's address that it was made with.
pub record Session {ℓ} (A : Type ℓ) : Type ℓ where
  pub address : A
  pub proxy : ProxySession

-- `sessions_`, by the client's descriptor.
abbrev pub Sessions {ℓ} : Type ℓ → Type ℓ
Sessions A = List (ℕ × Session A)

-- The acceptor is not part of it: it calls OnNewConnection with each socket that it accepts.
pub record LoadBalancer {ℓ} (A : Type ℓ) : Type ℓ where
  pub backends : List A
  pub next_backend : ℕ
  pub sessions : Sessions A

-- `LoadBalancer::LoadBalancer`
unfoldable pub create {ℓ} : {A : Type ℓ} → List A → Result (LoadBalancer A)
create [] = err invalid_argument
create (a ∷ backends) = ok (record { backends = a ∷ backends; next_backend = 0; sessions = [] })

unfoldable pub find {ℓ} : {A : Type ℓ} → ℕ → Sessions A → Option (Session A)
find fd [] = none
find fd ((key, session) ∷ m) = let rest = find fd m in if key == fd then some session else rest

-- `unordered_map::erase`
pub erase {ℓ} : {A : Type ℓ} → ℕ → Sessions A → Sessions A
erase fd [] = []
erase fd ((key, session) ∷ m) =
    let rest = erase fd m in if key == fd then m else (key, session) ∷ rest

-- `unordered_map::emplace`, which keeps an entry that is there.
pub emplace {ℓ} : {A : Type ℓ} → ℕ → Session A → Sessions A → Sessions A
emplace fd session m = elim (find fd m) [ none ↦ (fd, session) ∷ m | some old ↦ m ]

-- The session object behind an entry has changed.
pub replace {ℓ} : {A : Type ℓ} → ℕ → ProxySession → Sessions A → Sessions A
replace fd proxy [] = []
replace fd proxy ((key, session) ∷ m) =
    let rest = replace fd proxy m in
    if key == fd then (key, record session { proxy = proxy }) ∷ m else (key, session) ∷ rest

-- The object goes from one state to another; the close callback, if it was called on the way,
-- erases its entry.
pub settle {ℓ} : {A : Type ℓ} → ℕ → ProxySession → ProxySession → Sessions A → Sessions A
settle fd before after m =
    if after.on_close_calls == before.on_close_calls then replace fd after m else erase fd m

after_start {ℓ} :
    {A : Type ℓ} → LoadBalancer A → ℕ → ProxySession → Started → LoadBalancer A × Option Error
after_start lb fd s (err e) = (lb, some e)
after_start lb fd s (ok (s', thrown)) =
    (record lb { sessions = settle fd s s' lb.sessions }, thrown)

admit {ℓ} :
    {A : Type ℓ}
    → Context
    → LoadBalancer A
    → ℕ
    → A
    → Reply ℕ
    → Option ℕ
    → Result ProxySession
    → LoadBalancer A × Option Error
admit {A = A} k lb fd address socket connect (err e) = (lb, some e)
admit {A = A} k lb fd address socket connect (ok s) =
    let entry : Session A = record { address = address; proxy = s } in
    after_start (record lb { sessions = emplace fd entry lb.sessions }) fd s
      (start k s socket connect)

-- `address = backends_[next_backend_]`
unfoldable pub chosen {ℓ} : {A : Type ℓ} → LoadBalancer A → Option A
chosen lb = get_elem? lb.backends lb.next_backend

-- `next_backend_ = (next_backend_ + 1) % backends_.size()`
pub advance {ℓ} : {A : Type ℓ} → LoadBalancer A → LoadBalancer A
advance lb = record lb { next_backend = (lb.next_backend + 1) % length lb.backends }

connect_to {ℓ} :
    {A : Type ℓ}
    → Context
    → LoadBalancer A
    → ℕ
    → Reply ℕ
    → Option ℕ
    → Option A
    → LoadBalancer A × Option Error
connect_to k lb fd socket connect none = (lb, some out_of_range)
connect_to k lb fd socket connect (some address) =
    admit k (advance lb) fd address socket connect (ProxySession.create k (Socket.opened fd))

-- `OnNewConnection`, for the accepted descriptor `fd`, with the reply of the connector's socket()
-- and what its connect() answers. The result is the state that it leaves, and an exception.
pub on_new_connection {ℓ} :
    {A : Type ℓ} → Context → LoadBalancer A → ℕ → Reply ℕ → Option ℕ → LoadBalancer A × Option Error
on_new_connection k lb fd socket connect = connect_to k lb fd socket connect (chosen lb)

deliver_to {ℓ} :
    {A : Type ℓ}
    → Context
    → LoadBalancer A
    → ℕ
    → Event
    → Option (Session A)
    → Result (LoadBalancer A)
deliver_to k lb fd e none = ok lb
deliver_to k lb fd e (some session) = do
  s' ← step k session.proxy e
  ok (record lb { sessions = settle fd session.proxy s' lb.sessions })

-- The loop brings an event to the session of descriptor `fd`.
pub deliver {ℓ} : {A : Type ℓ} → Context → LoadBalancer A → ℕ → Event → Result (LoadBalancer A)
deliver k lb fd e = deliver_to k lb fd e (find fd lb.sessions)

-- The loop of `Stop`, which closes the first session until there is none. It needs one turn for
-- each session, and here it is given that many; `none` is a loop that goes on.
close_all {ℓ} : {A : Type ℓ} → Context → ℕ → Sessions A → Result (Option (Sessions A))
close_all k fuel [] = ok (some [])
close_all k zero (entry ∷ m) = ok none
close_all k (suc fuel) ((fd, session) ∷ m) = do
  s' ← ProxySession.close k session.proxy
  close_all k fuel (settle fd session.proxy s' ((fd, session) ∷ m))

-- `Stop`, behind the acceptor's own.
pub stop {ℓ} : {A : Type ℓ} → Context → LoadBalancer A → Result (Option (LoadBalancer A))
stop k lb = do
  assert_in_loop_thread k
  m ← close_all k (length lb.sessions) lb.sessions
  ok (elim m [ none ↦ none | some sessions ↦ some (record lb { sessions = sessions }) ])
