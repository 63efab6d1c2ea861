-- ===== src/Tcp/TcpServer.antt =====
-- code/day29/tcp/TcpServer.h and TcpServer.cpp with EventLoopThreadPool.h and
-- EventLoopThreadPool.cpp, and the listening half of Acceptor.cpp. A loop is known by a number:
-- the threads' loops by their index, in the order in which they were started. A connection is its
-- id and its loop, and the map is the list of its entries.
pub mod Turns
mod Tests
use l.Base.{
  Bool, List, Option, Result, [], assertion_failed, err, get_elem?, if◌then◌else◌, length, none, ok,
  out_of_range, some, ℕ, ◌+◌, ◌==◌, ◌>>=◌, ◌∷◌, ◌++◌, ℤ, suc, zero, pos, negsuc,
}
use l.Net.System.{Reply, failed, returned}

pub record EventLoopThreadPool : Type 0 where
  pub main_reactor : ℕ
  pub thread_nums : ℕ
  pub loops : List ℕ
  pub next : ℕ

-- The constructor.
unfoldable pub new_pool : ℕ → EventLoopThreadPool
new_pool loop = record { main_reactor = loop; thread_nums = 0; loops = []; next = 0 }

unfoldable pub set_thread_nums : ℕ → EventLoopThreadPool → EventLoopThreadPool
set_thread_nums thread_nums p = record p { thread_nums = thread_nums }

-- The loop of `start`: one new thread with its loop for each turn.
unfoldable pub start_threads : ℕ → List ℕ → List ℕ
start_threads zero loops = loops
start_threads (suc n) loops = start_threads n (loops ++ length loops ∷ [])

-- `start`
unfoldable pub start : EventLoopThreadPool → EventLoopThreadPool
start p = record p { loops = start_threads p.thread_nums p.loops }

-- `nextloop`; an index behind the last loop is an error of the model.
unfoldable pub nextloop : EventLoopThreadPool → Option (ℕ × EventLoopThreadPool)
nextloop p =
    if length p.loops == 0 then some (p.main_reactor, p) else elim (get_elem? p.loops p.next) [
      | none ↦ none
      | some loop ↦
          some (loop, record p { next = if p.next + 1 == length p.loops then 0 else p.next + 1 })
    ]

-- What the map holds of a connection.
pub record Connection : Type 0 where
  pub id : ℕ
  pub loop : ℕ

pub record TcpServer : Type 0 where
  pub thread_pool : EventLoopThreadPool
  pub next_conn_id : ℕ
  pub connections_map : List (ℕ × Connection)

-- The constructor, and the part of `Start` before the loop.
unfoldable pub new_server : ℕ → TcpServer
new_server loop = record { thread_pool = new_pool loop; next_conn_id = 1; connections_map = [] }

unfoldable pub start_pool : TcpServer → TcpServer
start_pool s = record s { thread_pool = start s.thread_pool }

unfoldable pub find_connection : ℕ → List (ℕ × Connection) → Option Connection
find_connection fd [] = none
find_connection fd ((key, conn) ∷ m) =
    let more = find_connection fd m in if key == fd then some conn else more

unfoldable pub erase_connection : ℕ → List (ℕ × Connection) → List (ℕ × Connection)
erase_connection fd [] = []
erase_connection fd ((key, conn) ∷ m) =
    let more = erase_connection fd m in if key == fd then more else (key, conn) ∷ more

-- `connectionsMap_[fd] = conn`
unfoldable pub set_connection : ℕ → Connection → List (ℕ × Connection) → List (ℕ × Connection)
set_connection fd conn m = (fd, conn) ∷ erase_connection fd m

-- The id behind one.
unfoldable pub next_id : ℕ → ℕ
next_id id = if id + 1 == 1000 then 1 else id + 1

-- The part of `HandleNewConnection` behind `nextloop`.
admit_to : ℕ → TcpServer → Option (ℕ × EventLoopThreadPool) → Result TcpServer
admit_to fd s none = err out_of_range
admit_to fd s (some (loop, pool)) = ok (record {
  thread_pool = pool;
  next_conn_id = next_id s.next_conn_id;
  connections_map =
      set_connection fd (record { id = s.next_conn_id; loop = loop }) s.connections_map;
})

-- `HandleNewConnection`; a descriptor that is negative is -1.
unfoldable pub handle_new_connection : ℤ → TcpServer → Result TcpServer
unfolding admit_to
handle_new_connection (negsuc n) s = err assertion_failed
handle_new_connection (pos fd) s = admit_to fd s (nextloop s.thread_pool)

-- `Acceptor::AcceptConnection` with the answer of accept4(): an error, which is only logged, is the
-- descriptor -1.
unfoldable pub accept_connection : Reply ℕ → TcpServer → Result TcpServer
accept_connection (returned fd) s = handle_new_connection (pos fd) s
accept_connection (failed e) s = handle_new_connection (negsuc 0) s

-- `HandleCloseInLoop`
unfoldable pub handle_close_in_loop : ℕ → TcpServer → Result TcpServer
handle_close_in_loop fd s = elim (find_connection fd s.connections_map) [
  | none ↦ err assertion_failed
  | some conn ↦ ok (record s { connections_map = erase_connection fd s.connections_map })
]
