-- ===== src/Tcp/TcpServer/Turns.antt =====
-- The turns of the tutorial server's loops and ids, over connections that come and go.
use l.Base.{
  ==_iff, Bool-cases, List, Option, [], ap, arith, assertion_failed, err, get_elem?, if◌then◌else◌,
  inl, inr, length, mod-add-mod, mod-eq_of_lt, mod-lt, none, ok, pos, refl, some, suc, sym, ℕ, ◌%◌,
  ◌+◌, ◌<◌, ◌==◌, ◌∙◌, ◌++◌, ◌∷◌, ◌≡◌, length-append, true, false, ok_same, subst, zero,
}
use native.Mathlib.Nat.{mod_self}
use l.Net.System.{returned}
use l.Tcp.TcpServer.{
  Connection, TcpServer, erase_connection, accept_connection, admit_to, find_connection,
  handle_close_in_loop, handle_new_connection, new_pool, new_server, next_id, nextloop,
  set_connection, set_thread_nums, start, start_pool, start_threads,
}

-- A counter that starts anew at n.
wraps : (m n : ℕ) → 0 < n → (if m % n + 1 == n then 0 else m % n + 1) ≡ (m + 1) % n
wraps m n h = elim (Bool-cases (m % n + 1 == n)) [
  | inl t ↦ rw t (sym (mod_self n) ∙ sym (ap (λ k. k % n) (e t)) ∙ mod-add-mod m n 1)
  | inr f ↦ rw f (sym (mod-eq_of_lt (below f)) ∙ mod-add-mod m n 1)
]
  where
    e : (m % n + 1 == n) ≡ true → m % n + 1 ≡ n
    e t = (==_iff (m % n + 1) n).0 t

    below : (m % n + 1 == n) ≡ false → m % n + 1 < n
    below f = ground (arith, mod-lt m h)

module _ {ℓ} {A : Type ℓ} where
  get_elem?-before :
      (xs ys : List A) (i : ℕ) → i < length xs → get_elem? (xs ++ ys) i ≡ get_elem? xs i
  get_elem?-before [] ys i h = absurd (omega arith)
  get_elem?-before (x ∷ xs) ys zero h = refl
  get_elem?-before (x ∷ xs) ys (suc i) h = get_elem?-before xs ys i (omega arith)

  get_elem?-last : (xs : List A) (x : A) → get_elem? (xs ++ x ∷ []) (length xs) ≡ some x
  get_elem?-last [] x = refl
  get_elem?-last (y ∷ xs) x = get_elem?-last xs x

-- Each loop is at the index that is its number.
abbrev Counted : List ℕ → Type 0
Counted loops = (i : ℕ) → i < length loops → get_elem? loops i ≡ some i

one_more : (loops : List ℕ) → Counted loops → Counted (loops ++ length loops ∷ [])
one_more loops h i k = elim (Bool-cases (i == length loops)) [
  | inl t ↦
      let e : i ≡ length loops = (==_iff i (length loops)).0 t in
      ap (get_elem? (loops ++ length loops ∷ [])) e
      ∙ get_elem?-last loops (length loops)
      ∙ ap some (sym e)
  | inr f ↦ get_elem?-before loops (length loops ∷ []) i (below f) ∙ h i (below f)
]
  where
    below : (i == length loops) ≡ false → i < length loops
    below f = ground (arith, k, length-append loops (length loops ∷ []))

start_threads-Counted :
    (n : ℕ) (loops : List ℕ)
    → Counted loops
    → Counted (start_threads n loops) × (length (start_threads n loops) ≡ n + length loops)
unfolding start_threads
start_threads-Counted zero loops h = (h, omega arith)
start_threads-Counted (suc n) loops h =
    let (c, e) = start_threads-Counted n (loops ++ length loops ∷ []) (one_more loops h) in
    (c, omega (arith, e, length-append loops (length loops ∷ [])))

-- What a server has come to that was started with n threads and has accepted m connections, of
-- which any have been closed.
pub data Reached (main n : ℕ) : ℕ → TcpServer → Type 0 where
  begun :
      Reached main n 0
        (start_pool (record (new_server main) { thread_pool = set_thread_nums n (new_pool main) }))
  accepted :
      {m : ℕ} (fd : ℕ) {s s' : TcpServer}
      → Reached main n m s
      → handle_new_connection (pos fd) s ≡ ok s'
      → Reached main n (m + 1) s'
  ended :
      {m : ℕ} (fd : ℕ) {s s' : TcpServer}
      → Reached main n m s
      → handle_close_in_loop fd s ≡ ok s'
      → Reached main n m s'

record Turn (n m : ℕ) (s : TcpServer) : Type 0 where
  counted : Counted s.thread_pool.loops
  threads : length s.thread_pool.loops ≡ n
  next_loop : s.thread_pool.next ≡ m % n
  next_number : s.next_conn_id ≡ m % 999 + 1

module _ (n : ℕ) (some_threads : 0 < n) where
  next_id-Turn : (m : ℕ) → next_id (m % 999 + 1) ≡ (m + 1) % 999 + 1
  unfolding next_id
  next_id-Turn m = ground (arith, wraps m 999 (omega arith))

  nextloop-Turn :
      (m : ℕ) (s : TcpServer)
      → Turn n m s
      → nextloop s.thread_pool ≡ some (m % n, record (s.thread_pool) { next = (m + 1) % n })
  unfolding nextloop
  nextloop-Turn m s t =
      let busy : (length s.thread_pool.loops == 0) ≡ false = ground (arith, t.threads) in
      let here : get_elem? s.thread_pool.loops (m % n) ≡ some (m % n) =
        t.counted (m % n) (omega (arith, mod-lt m some_threads, t.threads)) in
      rw (busy, t.next_loop, here, t.threads)
        (ap (λ k. some (m % n, record (s.thread_pool) { next = k }))
          (ap (λ k. if k + 1 == n then 0 else k + 1) t.next_loop ∙ wraps m n some_threads))

  -- The connection that is made, and the turn behind it.
  handle_new_connection-Turn :
      (m fd : ℕ) (s : TcpServer)
      → Turn n m s
      → (s' : TcpServer) × (handle_new_connection (pos fd) s ≡ ok s')
        × (find_connection fd s'.connections_map ≡ some (record { id = m % 999 + 1; loop = m % n }))
        × Turn n (m + 1) s'
  unfolding handle_new_connection admit_to set_connection find_connection
  handle_new_connection-Turn m fd s t =
      let same : (fd == fd) ≡ true = (==_iff fd fd).1 refl in
      (
        record {
          thread_pool = record (s.thread_pool) { next = (m + 1) % n };
          next_conn_id = next_id s.next_conn_id;
          connections_map =
              set_connection fd (record { id = s.next_conn_id; loop = m % n }) s.connections_map;
        },
        ap (admit_to fd s) (nextloop-Turn m s t),
        rw (same, t.next_number) refl,
        record {
          counted = t.counted;
          threads = t.threads;
          next_loop = refl;
          next_number = ap next_id t.next_number ∙ next_id-Turn m;
        },
      )

  close_keeps :
      (m fd : ℕ) (s s' : TcpServer) → Turn n m s → handle_close_in_loop fd s ≡ ok s' → Turn n m s'
  unfolding handle_close_in_loop
  close_keeps m fd s s' t h = same_turn (find_connection fd s.connections_map) h
    where
      same_turn :
          (found : Option Connection)
          → (elim found [
            | none ↦ err assertion_failed
            | some conn ↦ ok (record s { connections_map = erase_connection fd s.connections_map })
          ])
            ≡ ok s'
          → Turn n m s'
      same_turn none e = absurd (cc)
      same_turn (some conn) e = subst (Turn n m) (ok_same e) (record {
        counted = t.counted;
        threads = t.threads;
        next_loop = t.next_loop;
        next_number = t.next_number;
      })

module _ (main n : ℕ) (some_threads : 0 < n) where
  Reached-Turn : {m : ℕ} {s : TcpServer} → Reached main n m s → Turn n m s
  unfolding start_pool new_server new_pool start set_thread_nums
  Reached-Turn begun =
      let (c, e) = start_threads-Counted n [] (λ i h. absurd (omega arith)) in
      record {
        counted = c;
        threads = omega (arith, e);
        next_loop = omega arith;
        next_number = omega arith;
      }
  Reached-Turn (accepted {m} fd {s} r e) =
      let (s'', p, q, t) = handle_new_connection-Turn n some_threads m fd s (Reached-Turn r) in
      subst (Turn n (m + 1)) (ok_same (sym p ∙ e)) t
  Reached-Turn (ended {m} fd {s} {s'} r e) = close_keeps n some_threads m fd s s' (Reached-Turn r) e

  -- A server that was started with n threads, n positive, and has accepted m connections since, of
  -- which any have been closed, accepts the next one: it is entered into the map, in place of what
  -- stood there under its descriptor, with the id m mod 999 + 1, and on the loop of the thread of
  -- index m mod n.
  pub handle_new_connection-turns :
      {m : ℕ} {s : TcpServer}
      → Reached main n m s
      → (fd : ℕ)
      → (s' : TcpServer) × (accept_connection (returned fd) s ≡ ok s')
        × (find_connection fd s'.connections_map ≡ some (record { id = m % 999 + 1; loop = m % n }))
  unfolding accept_connection
  handle_new_connection-turns {m} {s} r fd =
      let (s', p, q, t) = handle_new_connection-Turn n some_threads m fd s (Reached-Turn r) in
      (s', p, q)
