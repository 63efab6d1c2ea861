-- ===== src/Lb/LoadBalancer/Accepting.antt =====
-- LoadBalancer.cpp and Acceptor.cpp: the acceptor hands connections to OnNewConnection.
use l.Lb.LoadBalancer.{LoadBalancer, advance, chosen, find, on_new_connection}
use l.Lb.LoadBalancer.Admits.{entry, on_new_connection-strands, stranded}
use l.Base.{Bool, List, Option, none, some, ℕ, ◌∷◌, ◌≡◌, ◌≢◌}
use l.Net.System.{Context, Reply, Works, eintr, returned}
use l.Net.Acceptor.{Acceptor, give_up}
use l.Net.Acceptor
use l.Net.Acceptor.Accepts.{handle_read-thrown}

-- A connection that the acceptor takes while the connector's socket() fails, with an error other
-- than EINTR: HandleRead throws nothing, reports the error as one of accept() and stops, and the
-- map keeps a session that is not closed, has no backend, an idle connector and a client whose
-- channel is not in epoll's set.
pub accepts-strands {ℓ} :
    {A : Type ℓ} (k : Context)
    → Works k
    → (lb : LoadBalancer A) (a : Acceptor) (reopened : Bool) (fd e : ℕ) (answer : Option ℕ)
      (rest : List (Reply ℕ)) {address : A}
    → chosen lb ≡ some address
    → find fd lb.sessions ≡ none
    → e ≢ eintr
    → Acceptor.handle_read
        (λ lb fd. on_new_connection k lb fd (Reply.failed e) answer)
        k
        a
        reopened
        (returned fd ∷ rest)
        lb
      ≡ (
        give_up a e rest reopened,
        record (advance lb) { sessions = (fd, entry address (stranded fd)) ∷ lb.sessions },
        none,
      )
accepts-strands k works lb a reopened fd e answer rest next new other =
    handle_read-thrown (λ lb fd. on_new_connection k lb fd (Reply.failed e) answer) k works a
      reopened fd e rest lb (on_new_connection-strands k works lb fd next new e answer) other
