-- ===== src/Lb/LoadBalancer/Tests.antt =====
-- Runs of l4lb/src/lb/LoadBalancer.cpp on concrete inputs.
use l.Net.Acceptor.{Acceptor, give_up}
use l.Net.Acceptor
use l.Net.Channel
use l.Lb.LoadBalancer.Accepting.{accepts-strands}
use l.Lb.ProxySession.Step.{connecting}
use l.Base.{
  false, true, arith, List, [], get_elem?, none, ok, refl, some, system_error, ℕ, ◌%◌, ◌+◌, ◌∷◌,
  ◌≡◌,
}
use l.Net.System.{Reply, einprogress, emfile, returned, sound_context, sound_context-Works}
use l.Lb.Connector.Once.{writable}
use l.Lb.LoadBalancer.{
  create, LoadBalancer, advance, chosen, deliver, find, on_new_connection, stop,
}
use l.Lb.LoadBalancer.Admits.{
  Adds, Adds-AllOpen, entry, on_new_connection-Adds, on_new_connection-strands, stranded,
}
use l.Lb.LoadBalancer.Turns.{Arrival, arrive, dealt_in_turn}
use l.Lb.LoadBalancer.Keeps.{AllOpen, deliver-AllOpen, stop-empties}

-- Three connections, the second without a socket for its backend.
abbrev arrivals : List Arrival
arrivals =
    record { fd = 5; socket = returned 6; connect = none }
    ∷ record { fd = 7; socket = Reply.failed emfile; connect = none }
    ∷ record { fd = 8; socket = returned 9; connect = some einprogress }
    ∷ []

abbrev ports : List ℕ
ports = 9001 ∷ 9002 ∷ []

abbrev balancer : LoadBalancer ℕ
balancer = record { backends = ports; next_backend = 0; sessions = [] }

created : create ports ≡ ok balancer
unfolding create
created = refl

dealt_in_turn_example :
    (port : ℕ) × (chosen (arrive sound_context balancer arrivals) ≡ some port)
    × (get_elem? ports (3 % 2) ≡ some port)
dealt_in_turn_example = dealt_in_turn sound_context ports arrivals created

first : chosen balancer ≡ some 9001
unfolding chosen
first = refl

unused : find 5 balancer.sessions ≡ none
unfolding find
unused = refl

on_new_connection-strands_example :
    on_new_connection sound_context balancer 5 (Reply.failed emfile) none ≡ (
      record (advance balancer) { sessions = (5, entry 9001 (stranded 5)) ∷ [] },
      some (system_error emfile),
    )
on_new_connection-strands_example =
    on_new_connection-strands sound_context sound_context-Works balancer 5 first unused emfile none

-- The load balancer once it has taken on a client.
abbrev taking :
    (lb : LoadBalancer ℕ) × (on_new_connection sound_context balancer 5
        (returned 6)
        (some einprogress)
      ≡ (lb, none))
    × (lb.next_backend ≡ (0 + 1) % 2)
    × Adds 5 9001 [] lb.sessions
taking =
    on_new_connection-Adds sound_context sound_context-Works balancer 5 first unused 6
      (some einprogress)

abbrev taken : LoadBalancer ℕ
taken = taking.0

taken-AllOpen : AllOpen taken.sessions
taken-AllOpen = Adds-AllOpen 5 9001 taking.3 tt

deliver-AllOpen_example :
    (lb : LoadBalancer ℕ) × (deliver sound_context taken 5 (connecting (writable (returned 0)))
      ≡ ok lb)
    × AllOpen lb.sessions
deliver-AllOpen_example =
    deliver-AllOpen sound_context sound_context-Works taken 5 (connecting (writable (returned 0)))
      tt taken-AllOpen

stop-empties_example : stop sound_context taken ≡ ok (some (record taken { sessions = [] }))
stop-empties_example = stop-empties sound_context sound_context-Works taken taken-AllOpen

abbrev acceptor : Acceptor
acceptor = record {
  channel = Channel.create 3;
  listening = true;
  edge_triggered = false;
  idle = true;
  dropped = 0;
  errors = [];
}

accepts-strands_example :
    Acceptor.handle_read
      (λ lb fd. on_new_connection sound_context lb fd (Reply.failed emfile) none)
      sound_context
      acceptor
      true
      (returned 5 ∷ [])
      balancer
    ≡ (
      give_up acceptor emfile [] true,
      record (advance balancer) { sessions = (5, entry 9001 (stranded 5)) ∷ [] },
      none,
    )
accepts-strands_example =
    accepts-strands sound_context sound_context-Works balancer acceptor true 5 emfile none [] first
      unused (λ e. omega (arith, e))
