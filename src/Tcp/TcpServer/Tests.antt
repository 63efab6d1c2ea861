-- ===== src/Tcp/TcpServer/Tests.antt =====
-- The tutorial's server with two threads.
use l.Base.{[], arith, assertion_failed, err, ok, pos, refl, some, ◌∷◌, ◌≡◌}
use l.Net.System.{eagain, failed, returned}
use l.Tcp.TcpServer.{
  TcpServer, accept_connection, admit_to, erase_connection, find_connection, handle_close_in_loop,
  handle_new_connection, new_pool, new_server, next_id, nextloop, set_connection, set_thread_nums,
  start, start_pool, start_threads,
}
use l.Tcp.TcpServer.Turns.{accepted, begun, ended, handle_new_connection-turns}

abbrev two_threads : TcpServer
two_threads = start_pool (record (new_server 9) { thread_pool = set_thread_nums 2 (new_pool 9) })

abbrev after_one : TcpServer
after_one = record {
  thread_pool = record { main_reactor = 9; thread_nums = 2; loops = 0 ∷ 1 ∷ []; next = 1 };
  next_conn_id = 2;
  connections_map = (5, record { id = 1; loop = 0 }) ∷ [];
}

abbrev after_close : TcpServer
after_close = record after_one { connections_map = [] }

first_accepted : handle_new_connection (pos 5) two_threads ≡ ok after_one
unfolding handle_new_connection admit_to nextloop next_id set_connection erase_connection start_pool
    start start_threads new_server new_pool set_thread_nums
first_accepted = refl

first_closed : handle_close_in_loop 5 after_one ≡ ok after_close
unfolding handle_close_in_loop find_connection erase_connection
first_closed = refl

handle_new_connection-turns_example :
    (s' : TcpServer) × (accept_connection (returned 6) after_close ≡ ok s')
    × (find_connection 6 s'.connections_map ≡ some (record { id = 2; loop = 1 }))
handle_new_connection-turns_example =
    handle_new_connection-turns 9 2 (omega arith)
      (ended 5 (accepted 5 begun first_accepted) first_closed) 6

-- An accept4() that finds no client ends the program.
none_accepted : accept_connection (failed eagain) after_close ≡ err assertion_failed
unfolding accept_connection handle_new_connection
none_accepted = refl
