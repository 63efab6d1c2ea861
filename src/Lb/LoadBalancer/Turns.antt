-- ===== src/Lb/LoadBalancer/Turns.antt =====
-- LoadBalancer.cpp: the turns of the backends.
use l.Lb.LoadBalancer.{
  LoadBalancer, admit, advance, after_start, chosen, connect_to, create, emplace, on_new_connection,
}
use l.Base.{
  List, Option, Result, [], ap, ap₂, arith, err, get_elem?, get_elem?-some, length, mod-add-mod,
  mod-eq_of_lt, mod-lt, ok, ok_same, refl, some, subst, sym, ℕ, ◌%◌, ◌+◌, ◌<◌, ◌∙◌, ◌∷◌, ◌≡◌,
}
use l.Net.System.{Context, Reply}
use l.Net.Socket
use l.Lb.ProxySession.{ProxySession}
use l.Lb.ProxySession
use l.Lb.ProxySession.Step.{Started, start}

-- A connection: its descriptor, the reply of socket(), and what connect() answers.
pub record Arrival : Type 0 where
  pub fd : ℕ
  pub socket : Reply ℕ
  pub connect : Option ℕ

-- Connections one after another; the acceptor goes on after an exception.
pub arrive {ℓ} : {A : Type ℓ} → Context → LoadBalancer A → List Arrival → LoadBalancer A
arrive k lb [] = lb
arrive k lb (a ∷ arrivals) = arrive k (on_new_connection k lb a.fd a.socket a.connect).0 arrivals

abbrev SameTurn {ℓ} : {A : Type ℓ} → LoadBalancer A → LoadBalancer A → Type ℓ
SameTurn lb lb' = (lb'.backends ≡ lb.backends) × (lb'.next_backend ≡ lb.next_backend)

module _ {ℓ} {A : Type ℓ} (k : Context) where
  after_start-SameTurn :
      (lb : LoadBalancer A) (fd : ℕ) (s : ProxySession) (r : Started)
      → SameTurn lb (after_start lb fd s r).0
  unfolding after_start
  after_start-SameTurn lb fd s (err e) = (refl, refl)
  after_start-SameTurn lb fd s (ok (s', thrown)) = (refl, refl)

  admit-SameTurn :
      (lb : LoadBalancer A) (fd : ℕ) (address : A) (socket : Reply ℕ) (connect : Option ℕ)
      (r : Result ProxySession)
      → SameTurn lb (admit k lb fd address socket connect r).0
  unfolding admit
  admit-SameTurn lb fd address socket connect (err e) = (refl, refl)
  admit-SameTurn lb fd address socket connect (ok s) =
      after_start-SameTurn
        (record lb { sessions = emplace fd (record { address = address; proxy = s }) lb.sessions })
        fd s (start k s socket connect)

  -- Whatever becomes of the connection, the turn passes on.
  pub on_new_connection-advances :
      (lb : LoadBalancer A) (a : Arrival)
      → lb.next_backend < length lb.backends
      → SameTurn (advance lb) (on_new_connection k lb a.fd a.socket a.connect).0
  unfolding on_new_connection connect_to chosen
  on_new_connection-advances lb a h =
      let (address, e) = get_elem?-some lb.backends lb.next_backend h in
      rw e (
        admit-SameTurn (advance lb) a.fd address a.socket a.connect
          (ProxySession.create k (Socket.opened a.fd)))

  arrive-next :
      (lb : LoadBalancer A) (arrivals : List Arrival)
      → lb.next_backend < length lb.backends
      → ((arrive k lb arrivals).backends ≡ lb.backends)
        × ((arrive k lb arrivals).next_backend
            ≡ (lb.next_backend + length arrivals) % length lb.backends)
  unfolding arrive advance
  arrive-next lb [] h =
      (refl, sym (ap (λ i. i % length lb.backends) (omega arith) ∙ mod-eq_of_lt h))
  arrive-next lb (a ∷ arrivals) h =
      let lb' = (on_new_connection k lb a.fd a.socket a.connect).0 in
      let (p, q) = on_new_connection-advances lb a h in
      let wrapped : lb'.next_backend < length lb.backends =
        rw q (mod-lt (lb.next_backend + 1) (omega arith)) in
      let below : lb'.next_backend < length lb'.backends = rw p wrapped in
      let (p', q') = arrive-next lb' arrivals below in
      (
        p' ∙ p,
        q'
            ∙ ap₂ (λ i (backends : List A). (i + length arrivals) % length backends) q p
            ∙ mod-add-mod (lb.next_backend + 1) (length lb.backends) (length arrivals)
            ∙ ap (λ i. i % length lb.backends) (omega arith),
      )

-- A load balancer that has been made with n backends has a backend for the next connection after
-- any number m of them, whatever became of those: the one at index m mod n.
pub dealt_in_turn {ℓ} :
    {A : Type ℓ} (k : Context) (backends : List A) {lb : LoadBalancer A} (arrivals : List Arrival)
    → create backends ≡ ok lb
    → (address : A) × (chosen (arrive k lb arrivals) ≡ some address)
      × (get_elem? backends (length arrivals % length backends) ≡ some address)
unfolding create chosen
dealt_in_turn k [] arrivals h = cc
dealt_in_turn k (b ∷ bs) {lb} arrivals h =
    let e : record { backends = b ∷ bs; next_backend = 0; sessions = [] } ≡ lb = ok_same h in
    let (p, q) =
      arrive-next k (record { backends = b ∷ bs; next_backend = 0; sessions = [] }) arrivals
        (omega arith) in
    let (address, found) =
      get_elem?-some (b ∷ bs) (length arrivals % length (b ∷ bs))
        (mod-lt (length arrivals) (omega arith)) in
    (
      address,
      subst
          (λ x.
            get_elem? (arrive k x arrivals).backends (arrive k x arrivals).next_backend
            ≡ some address)
          e (ap₂ get_elem? p (q ∙ ap (λ i. i % length (b ∷ bs)) (omega arith)) ∙ found),
      found,
    )
