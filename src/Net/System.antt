-- ===== src/Net/System.antt =====
-- What l4lb/src/net asks of the operating system: the answers of a call, errno values, and the
-- context in which a handler runs. The answers are inputs of the model.
use l.Base.{
  ==_iff, Bool, Option, Result, err, if◌then◌else◌, logic_error, none, ok, refl, system_error, true,
  ℕ, ◌==◌, ◌≡◌,
}

-- What a call answers in the end: a value, or an errno.
pub data Reply {ℓ} (A : Type ℓ) : Type ℓ where
  returned : A → Reply A
  failed : ℕ → Reply A

-- The answers to the tries of one call: EINTR any number of times, and then another reply.
pub data Answer {ℓ} (A : Type ℓ) : Type ℓ where
  interrupted : Answer A → Answer A
  replied : Reply A → Answer A

-- `do { ... } while (count < 0 && errno == EINTR);`
unfoldable pub retry {ℓ} : {A : Type ℓ} → Answer A → Reply A
retry (interrupted a) = retry a
retry (replied r) = r

-- The values that Linux gives these names; EWOULDBLOCK is EAGAIN.
abbrev pub enoent : ℕ
enoent = 2

abbrev pub eintr : ℕ
eintr = 4

abbrev pub ebadf : ℕ
ebadf = 9

abbrev pub eagain : ℕ
eagain = 11

abbrev pub enfile : ℕ
enfile = 23

abbrev pub emfile : ℕ
emfile = 24

abbrev pub econnaborted : ℕ
econnaborted = 103

abbrev pub eisconn : ℕ
eisconn = 106

abbrev pub enotconn : ℕ
enotconn = 107

abbrev pub etimedout : ℕ
etimedout = 110

abbrev pub ealready : ℕ
ealready = 114

abbrev pub einprogress : ℕ
einprogress = 115

abbrev pub ecanceled : ℕ
ecanceled = 125

-- The value of a call whose failure throws std::system_error.
unfoldable pub or_throw {ℓ} : {A : Type ℓ} → Reply A → Result A
or_throw (returned x) = ok x
or_throw (failed e) = err (system_error e)

pub data Op : Type 0 where
  ctl_add ctl_mod ctl_del : Op

-- `epoll_ctl` and `shutdown` answer `none` for success and otherwise an errno.
pub record Context : Type 0 where
  pub caller : ℕ
  pub loop_thread : ℕ
  pub epoll_ctl : Op → ℕ → ℕ → Option ℕ
  pub shutdown : ℕ → Option ℕ

-- `EventLoop::IsInLoopThread`
unfoldable pub is_in_loop_thread : Context → Bool
is_in_loop_thread k = k.loop_thread == k.caller

-- `EventLoop::AssertInLoopThread`
pub assert_in_loop_thread : Context → Result (Unit {0})
assert_in_loop_thread k = if is_in_loop_thread k then ok tt else err logic_error

-- The handler runs on the loop's thread, and epoll and shutdown do what they are asked.
pub record Works (k : Context) : Type 0 where
  pub on_thread : k.loop_thread ≡ k.caller
  pub ctl : (op : Op) (fd events : ℕ) → k.epoll_ctl op fd events ≡ none
  pub shut : (fd : ℕ) → k.shutdown fd ≡ none

pub assert-Works : (k : Context) → Works k → assert_in_loop_thread k ≡ ok tt
unfolding assert_in_loop_thread is_in_loop_thread
assert-Works k w = rw ((==_iff k.loop_thread k.caller).1 w.on_thread) refl

pub in_loop_thread-Works : (k : Context) → Works k → is_in_loop_thread k ≡ true
unfolding is_in_loop_thread
in_loop_thread-Works k w = (==_iff k.loop_thread k.caller).1 w.on_thread

-- A context that works.
abbrev pub sound_context : Context
sound_context = record {
  caller = 1;
  loop_thread = 1;
  epoll_ctl = λ op fd events. none;
  shutdown = λ fd. none;
}

pub sound_context-Works : Works sound_context
sound_context-Works = record { on_thread = refl; ctl = λ op fd events. refl; shut = λ fd. refl }
