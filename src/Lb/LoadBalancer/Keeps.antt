-- ===== src/Lb/LoadBalancer/Keeps.antt =====
-- LoadBalancer.cpp: which sessions the map holds, and Stop.
use l.Lb.LoadBalancer.{
  LoadBalancer, Session, Sessions, close_all, deliver, deliver_to, erase, find, replace, settle,
  stop,
}
use l.Lb.ProxySession.Step.{Event, SoundEvent}
use l.Lb.ProxySession
use l.Base.{
  ==_refl, Bool, Bool-cases, Option, [], ap, arith, false, if◌then◌else◌, inl, inr, length, none,
  ok, refl, some, some_same, subst, true, ℕ, ◌==◌, ◌∙◌, ◌∷◌, ◌≡◌,
}
use l.Lb.ProxySession.{ProxySession}
use l.Lb.ProxySession.Invariant.{Phase}
use l.Lb.ProxySession.Release.{close-Ended}
use l.Lb.ProxySession.Finish.{Phase-Closable}
use l.Lb.ProxySession.Step.Every.{step-Reaches}
use l.Lb.ProxySession.Step.Promises.{Phase-told}
use l.Net.System.{Context, Works, assert-Works}

-- Each session in the map waits for its backend or relays; none is closed.
pub record Open (s : ProxySession) : Type 0 where
  pub phase : Phase s
  pub unclosed : s.closed ≡ false

abbrev pub AllOpen {ℓ} : {A : Type ℓ} → Sessions A → Type 0
AllOpen [] = Unit
AllOpen ((fd, session) ∷ m) = Open session.proxy × AllOpen m

module _ {ℓ} {A : Type ℓ} where
  erase-AllOpen : (fd : ℕ) (m : Sessions A) → AllOpen m → AllOpen (erase fd m)
  unfolding erase
  erase-AllOpen fd [] h = tt
  erase-AllOpen fd ((key, session) ∷ m) h = elim (Bool-cases (key == fd)) [
    | inl t ↦ rw t h.1
    | inr f ↦ rw f (h.0, erase-AllOpen fd m h.1)
  ]

  replace-AllOpen :
      (fd : ℕ) (s : ProxySession) (m : Sessions A) → Open s → AllOpen m → AllOpen (replace fd s m)
  unfolding replace
  replace-AllOpen fd s [] o h = tt
  replace-AllOpen fd s ((key, session) ∷ m) o h = elim (Bool-cases (key == fd)) [
    | inl t ↦ rw t (o, h.1)
    | inr f ↦ rw f (h.0, replace-AllOpen fd s m o h.1)
  ]

  find-Open :
      (fd : ℕ) (m : Sessions A) {session : Session A}
      → AllOpen m
      → find fd m ≡ some session
      → Open session.proxy
  unfolding find
  find-Open fd [] h e = cc
  find-Open fd ((key, first) ∷ m) {session} h e = pick (key == fd) (find-Open fd m h.1) e
    where
      pick :
          (b : Bool)
          → (find fd m ≡ some session → Open session.proxy)
          → (if b then some first else find fd m) ≡ some session
          → Open session.proxy
      pick true rest q = subst (λ (x : Session A). Open x.proxy) (some_same q) h.0
      pick false rest q = rest q

  -- A step ends with the session in the map, still open, or out of it.
  settle-AllOpen :
      (fd : ℕ) {s s' : ProxySession} (m : Sessions A)
      → Open s
      → Phase s'
      → AllOpen m
      → AllOpen (settle fd s s' m)
  unfolding settle
  settle-AllOpen fd {s} {s'} m o p h = elim (Bool-cases (s'.on_close_calls == s.on_close_calls)) [
    | inl t ↦ rw t (replace-AllOpen fd s' m (record { phase = p; unclosed = still_open t }) h)
    | inr f ↦ rw f (erase-AllOpen fd m h)
  ]
    where
      still_open : (s'.on_close_calls == s.on_close_calls) ≡ true → s'.closed ≡ false
      still_open t = ground (arith, t, Phase-told p, Phase-told o.phase, o.unclosed)

  -- A session that its callback has reported goes out of the map.
  pub settle-reported :
      (fd : ℕ) (session : Session A) (s' : ProxySession) (m : Sessions A)
      → (s'.on_close_calls == session.proxy.on_close_calls) ≡ false
      → settle fd session.proxy s' ((fd, session) ∷ m) ≡ m
  unfolding settle erase
  settle-reported fd session s' m h = rw (h, ==_refl fd) refl

-- Closing an open session tells its owner.
close-Open :
    (k : Context)
    → Works k
    → (s : ProxySession) → Open s
    → (s' : ProxySession) × (ProxySession.close k s ≡ ok s')
      × ((s'.on_close_calls == s.on_close_calls) ≡ false)
close-Open k works s o =
    let (s', p, d, n) = close-Ended k works s (Phase-Closable o.phase o.unclosed) in
    (s', p, ground (arith, d.once, Phase-told o.phase, o.unclosed))

module _ {ℓ} {A : Type ℓ} (k : Context) (works : Works k) where
  deliver_to-AllOpen :
      (lb : LoadBalancer A) (fd : ℕ) (e : Event)
      → SoundEvent e
      → AllOpen lb.sessions
      → (found : Option (Session A)) → find fd lb.sessions ≡ found
      → (lb' : LoadBalancer A) × (deliver_to k lb fd e found ≡ ok lb') × AllOpen lb'.sessions
  unfolding deliver_to
  deliver_to-AllOpen lb fd e sound h none q = (lb, refl, h)
  deliver_to-AllOpen lb fd e sound h (some session) q =
      let o = find-Open fd lb.sessions h q in
      let (s', p, phase) = step-Reaches k works session.proxy o.phase e sound in
      (
        record lb { sessions = settle fd session.proxy s' lb.sessions },
        rw p refl,
        settle-AllOpen fd lb.sessions o phase h,
      )

  -- If the map holds open sessions only, no event throws, with getsockopt(), epoll_ctl() and
  -- shutdown() that succeed, and the map still holds open sessions only: a session that closes is
  -- erased.
  pub deliver-AllOpen :
      (lb : LoadBalancer A) (fd : ℕ) (e : Event)
      → SoundEvent e
      → AllOpen lb.sessions
      → (lb' : LoadBalancer A) × (deliver k lb fd e ≡ ok lb') × AllOpen lb'.sessions
  unfolding deliver
  deliver-AllOpen lb fd e sound h = deliver_to-AllOpen lb fd e sound h (find fd lb.sessions) refl

  close_all-empties : (m : Sessions A) → AllOpen m → close_all k (length m) m ≡ ok (some [])
  unfolding close_all
  close_all-empties [] h = refl
  close_all-empties ((fd, session) ∷ m) h =
      let (s', p, changed) = close-Open k works session.proxy h.0 in
      rw p (
        ap (close_all k (length m)) (settle-reported fd session s' m changed)
        ∙ close_all-empties m h.1)

  -- If the map holds open sessions only, the loop of Stop ends after at most one turn for each,
  -- throws nothing if epoll_ctl() and shutdown() succeed, and leaves the map empty.
  pub stop-empties :
      (lb : LoadBalancer A)
      → AllOpen lb.sessions
      → stop k lb ≡ ok (some (record lb { sessions = [] }))
  unfolding stop
  stop-empties lb h = rw (assert-Works k works, close_all-empties lb.sessions h) refl
