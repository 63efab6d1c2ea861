-- ===== src/Net/Acceptor/Accepts.antt =====
-- Acceptor.cpp: which connections HandleRead hands over, and which it drops.
use l.Net.Acceptor.{Acceptor, accept_loop, caught, drop_one, give_up, handed, handle_read}
use l.Base.{
  Bool, Error, List, Option, [], ap, append-nil, arith, false, inl, inr, none, refl, some, sym,
  system_error, ℕ, ◌++◌, ◌+◌, ◌==◌, ◌∙◌, ◌∷◌, ◌≡◌, ◌≢◌, ◌⊎◌,
}
use l.Net.System.{
  Context, Reply, Works, eintr, emfile, enfile, failed, in_loop_thread-Works, returned,
}

-- The descriptors among answers of accept().
abbrev pub connections : List (Reply ℕ) → List ℕ
connections [] = []
connections (returned fd ∷ rest) = fd ∷ connections rest
connections (failed e ∷ rest) = connections rest

-- Connections and interruptions only.
abbrev pub Undisturbed : List (Reply ℕ) → Type 0
Undisturbed [] = Unit
Undisturbed (returned fd ∷ rest) = Undisturbed rest
Undisturbed (failed e ∷ rest) = (e ≡ eintr) × Undisturbed rest

module _ {ℓ} {S : Type ℓ} (call : S → ℕ → S × Option Error)
    (calm : (s : S) (fd : ℕ) → (call s fd).1 ≡ none) where
  -- The owner after the callback for each of the descriptors in turn.
  abbrev pub hand_over : S → List ℕ → S
  hand_over s [] = s
  hand_over s (fd ∷ fds) = hand_over (call s fd).0 fds

  accept_loop-append :
      (a : Acceptor) (reopened : Bool) (answers more : List (Reply ℕ)) (s : S)
      → Undisturbed answers
      → accept_loop call a reopened (answers ++ more) s
        ≡ accept_loop call a reopened more (hand_over s (connections answers))
  unfolding accept_loop handed caught
  accept_loop-append a reopened [] more s u = refl
  accept_loop-append a reopened (returned fd ∷ rest) more s u =
      rw (calm s fd) (accept_loop-append a reopened rest more (call s fd).0 u)
  accept_loop-append a reopened (failed e ∷ rest) more s u =
      rw u.0 (accept_loop-append a reopened rest more s u.1)

  -- HandleRead on the loop's thread, with a callback that never throws and answers of accept() that
  -- are connections and interruptions up to EAGAIN, hands every connection over, in order, and
  -- leaves the acceptor as it was.
  pub handle_read-hand_over :
      (k : Context)
      → Works k
      → (a : Acceptor) (reopened : Bool) (answers : List (Reply ℕ)) (s : S) → Undisturbed answers
      → handle_read call k a reopened answers s ≡ (a, hand_over s (connections answers), none)
  unfolding handle_read accept_loop
  handle_read-hand_over k works a reopened answers s u = rw (in_loop_thread-Works k works) (
      ap (λ l. accept_loop call a reopened l s) (sym (append-nil answers))
      ∙ accept_loop-append a reopened answers [] s u)

  give_up-exhausted :
      (a : Acceptor) (reopened : Bool) (e fd : ℕ) (rest : List (Reply ℕ))
      → (e ≡ emfile) ⊎ (e ≡ enfile)
      → give_up a e (returned fd ∷ rest) reopened
        ≡ record a { idle = reopened; dropped = a.dropped + 1; errors = e ∷ a.errors }
  unfolding give_up drop_one
  give_up-exhausted a reopened e fd rest (inl h) = rw h refl
  give_up-exhausted a reopened e fd rest (inr h) = rw h refl

  exhausted-loop :
      (a : Acceptor) (reopened : Bool) (e : ℕ) (rest : List (Reply ℕ)) (s : S)
      → (e ≡ emfile) ⊎ (e ≡ enfile)
      → accept_loop call a reopened (failed e ∷ rest) s ≡ (give_up a e rest reopened, s, none)
  unfolding accept_loop caught
  exhausted-loop a reopened e rest s (inl h) = rw h refl
  exhausted-loop a reopened e rest s (inr h) = rw h refl

  -- If accept() runs out of descriptors after connections and interruptions, and then, with the
  -- idle descriptor closed, takes a connection, HandleRead on the loop's thread hands over the ones
  -- before, drops that one, reports the error and stops; the idle descriptor is open again if
  -- open() succeeds. The callback never throws.
  pub handle_read-exhausted :
      (k : Context)
      → Works k
      → (a : Acceptor) (reopened : Bool) (answers : List (Reply ℕ)) (e fd : ℕ)
        (rest : List (Reply ℕ)) (s : S)
      → Undisturbed answers
      → (e ≡ emfile) ⊎ (e ≡ enfile)
      → handle_read call k a reopened (answers ++ (failed e ∷ returned fd ∷ rest)) s ≡ (
        record a { idle = reopened; dropped = a.dropped + 1; errors = e ∷ a.errors },
        hand_over s (connections answers),
        none,
      )
  unfolding handle_read
  handle_read-exhausted k works a reopened answers e fd rest s u h =
      rw (in_loop_thread-Works k works) (
        accept_loop-append a reopened answers (failed e ∷ returned fd ∷ rest) s u
        ∙ exhausted-loop a reopened e (returned fd ∷ rest) (hand_over s (connections answers)) h
        ∙ ap (λ x. (x, hand_over s (connections answers), none))
            (give_up-exhausted a reopened e fd rest h))

-- An exception of the callback is taken for a failed accept().
pub handle_read-thrown {ℓ} :
    {S : Type ℓ} (call : S → ℕ → S × Option Error) (k : Context)
    → Works k
    → (a : Acceptor) (reopened : Bool) (fd e : ℕ) (rest : List (Reply ℕ)) (s : S) {s' : S}
    → call s fd ≡ (s', some (system_error e))
    → e ≢ eintr
    → handle_read call k a reopened (returned fd ∷ rest) s ≡ (give_up a e rest reopened, s', none)
unfolding handle_read accept_loop handed caught
handle_read-thrown call k works a reopened fd e rest s h n =
    let other : (e == eintr) ≡ false = ground (arith, n) in
    rw (in_loop_thread-Works k works, h, other) refl
