-- ===== src/Lb/Connector.antt =====
-- l4lb/src/lb/Connector.h and Connector.cpp: one non-blocking connect with a timeout.
pub mod Once
pub mod Run
use l.Base.{
  Bool, Option, Result, bit_or, err, false, if◌then◌else◌, invalid_argument, is_negative,
  logic_error, none, not, ok, some, system_error, true, ℕ, ℤ, ◌==◌, ◌>>=◌, ◌>>◌, ◌||◌,
}
use l.Net.System.{
  Context, Reply, assert_in_loop_thread, ealready, ecanceled, econnaborted, einprogress, eintr,
  eisconn, etimedout, is_in_loop_thread, or_throw, returned,
}
use l.Net.Epoller.{Channel}
use l.Net.Channel
use l.Net.Socket.{Socket}
use l.Net.Socket

pub data State : Type 0 where
  idle connecting succeeded failed cancelled : State

-- The address does not matter here. A `TimerId` is empty or shares the flag that cancels its timer.
pub record Connector : Type 0 where
  pub timeout : ℤ
  pub state : State
  pub socket : Socket
  pub channel : Option Channel
  pub timeout_timer : Option Bool

-- The callback that a method calls, as the last thing that it does: the connected socket, or the
-- error number.
pub data Callback : Type 0 where
  success : Socket → Callback
  failure : ℕ → Callback

abbrev pub Outcome : Type 0
Outcome = Result (Connector × Option Callback)

-- `Connector::Connector`; the timeout is in milliseconds.
unfoldable pub create : ℤ → Result Connector
create timeout =
    if is_negative timeout
    then err invalid_argument
    else ok (record {
      timeout = timeout;
      state = idle;
      socket = Socket.empty;
      channel = none;
      timeout_timer = none;
    })

-- `TimerId::Cancel`
abbrev pub cancel_timer : Option Bool → Option Bool
cancel_timer none = none
cancel_timer (some flag) = some true

drop_channel : Context → Option Channel → Result (Option Channel)
drop_channel k none = ok none
drop_channel k (some ch) =
    if ch.added then (do ch' ← Channel.remove k ch; ok (some ch')) else ok (some ch)

-- `Connector::RemoveChannel`
pub remove_channel : Context → Connector → Result Connector
remove_channel k c = do channel ← drop_channel k c.channel; ok (record c { channel = channel })

-- The socket is moved out to the callback.
pub complete_success : Context → Connector → Outcome
complete_success k c = do
  c' ← remove_channel k c
  ok (
    record c' {
      timeout_timer = cancel_timer c'.timeout_timer;
      state = succeeded;
      socket = Socket.empty;
    },
    some (success c'.socket),
  )

pub complete_failure : Context → Connector → ℕ → State → Outcome
complete_failure k c error terminal = do
  c' ← remove_channel k c
  ok (
    record c' {
      timeout_timer = cancel_timer c'.timeout_timer;
      state = terminal;
      socket = Socket.close c'.socket;
    },
    some (failure error),
  )

-- A call that may throw half way: the state it leaves, and the callback or the exception.
abbrev pub Attempt : Type 0
Attempt = Connector × Result (Option Callback)

attempt : Connector → Outcome → Attempt
attempt before (ok (c, callback)) = (c, ok callback)
attempt before (err e) = (before, err e)

-- `BeginWaiting`; RunAfter sets the timer that calls HandleTimeout.
begin_waiting : Context → Connector → ℕ → Attempt
begin_waiting k c fd =
    let fresh = Channel.tie (Channel.create fd) in
    elim (Channel.enable_writing k fresh) [
      | ok ch ↦ (record c { channel = some ch; timeout_timer = some false }, ok none)
      | err e ↦ (
        record c {
          channel = some (record fresh { events = bit_or fresh.events Channel.epollout });
        },
        err e,
      )
    ]

-- The part of `Start` behind socket(): `none` is a connect() that returned 0.
after_connect : Context → Connector → ℕ → Option ℕ → Attempt
after_connect k c fd none = attempt c (complete_success k c)
after_connect k c fd (some error) =
    if error == einprogress || error == eintr || error == ealready
    then begin_waiting k c fd
    else if error == eisconn
    then attempt c (complete_success k c)
    else attempt c (complete_failure k c error failed)

-- `Start` of an idle connector: the reply of socket(), and what connect() then answers.
after_socket : Context → Connector → Reply ℕ → Option ℕ → Attempt
after_socket k c (Reply.failed e) connect = (c, err (system_error e))
after_socket k c (returned fd) connect =
    after_connect k (record c { socket = Socket.opened fd; state = connecting }) fd connect

start_in : Context → Connector → Reply ℕ → Option ℕ → State → Attempt
start_in k c socket connect idle = after_socket k c socket connect
start_in k c socket connect connecting = (c, err logic_error)
start_in k c socket connect succeeded = (c, err logic_error)
start_in k c socket connect failed = (c, err logic_error)
start_in k c socket connect cancelled = (c, err logic_error)

pub start : Context → Connector → Reply ℕ → Option ℕ → Attempt
start k c socket connect =
    if is_in_loop_thread k then start_in k c socket connect c.state else (c, err logic_error)

cancel_in : Context → Connector → State → Outcome
cancel_in k c idle = ok (record c { state = cancelled }, none)
cancel_in k c connecting = complete_failure k c ecanceled cancelled
cancel_in k c succeeded = ok (c, none)
cancel_in k c failed = ok (c, none)
cancel_in k c cancelled = ok (c, none)

pub cancel : Context → Connector → Outcome
cancel k c = do assert_in_loop_thread k; cancel_in k c c.state

abbrev pub is_connecting : State → Bool
is_connecting connecting = true
is_connecting idle = false
is_connecting succeeded = false
is_connecting failed = false
is_connecting cancelled = false

-- The reply is that of getsockopt(SO_ERROR), which GetSocketError throws if it fails.
pub handle_write : Context → Connector → Reply ℕ → Outcome
handle_write k c reply = if not (is_connecting c.state) then ok (c, none) else do
  error ← or_throw reply
  if error == 0 then complete_success k c else complete_failure k c error failed

pub handle_error : Context → Connector → Reply ℕ → Outcome
handle_error k c reply = if not (is_connecting c.state) then ok (c, none) else do
  error ← or_throw reply
  complete_failure k c (if error == 0 then econnaborted else error) failed

pub handle_timeout : Context → Connector → Outcome
handle_timeout k c =
    if is_connecting c.state then complete_failure k c etimedout failed else ok (c, none)
