-- ===== src/Net/Channel.antt =====
-- l4lb/src/net/Channel.h and Channel.cpp: interest in events, and the dispatch of ready events.
pub mod Interest
pub mod Dispatch
use l.Base.{
  Bool, List, Result, [], bit_and, bit_or, false, if◌then◌else◌, not, true, ℕ, ◌&&◌, ◌++◌, ◌-◌,
  ◌==◌, ◌>>◌, ◌^◌, ◌∷◌,
}
use l.Net.System.{Context, assert_in_loop_thread}
use l.Net.Epoller.{Channel, remove_channel, update_channel}

abbrev pub epollin : ℕ
epollin = 0x1

abbrev pub epollpri : ℕ
epollpri = 0x2

abbrev pub epollout : ℕ
epollout = 0x4

abbrev pub epollerr : ℕ
epollerr = 0x8

abbrev pub epollhup : ℕ
epollhup = 0x10

abbrev pub epollrdhup : ℕ
epollrdhup = 0x2000

abbrev pub epollet : ℕ
epollet = 0x8000_0000

-- EPOLLIN | EPOLLPRI | EPOLLRDHUP
abbrev pub read_events : ℕ
read_events = 0x2003

-- `events & ~mask` on uint32_t.
abbrev pub clear_bits : ℕ → ℕ → ℕ
clear_bits events mask = bit_and events (2 ^ 32 - 1 - mask)

abbrev pub has_bits : ℕ → ℕ → Bool
has_bits events mask = not (bit_and events mask == 0)

unfoldable pub create : ℕ → Channel
create fd = record { fd = fd; events = 0; ready_events = 0; added = false; tied = false }

unfoldable pub tie : Channel → Channel
tie ch = record ch { tied = true }

-- `Channel::Update` and `EventLoop::UpdateChannel`
pub update : Context → Channel → Result Channel
update k ch = do assert_in_loop_thread k; update_channel k ch

-- `Channel::Remove` and `EventLoop::RemoveChannel`
pub remove : Context → Channel → Result Channel
remove k ch = do assert_in_loop_thread k; remove_channel k ch

pub enable_reading : Context → Channel → Result Channel
enable_reading k ch = update k (record ch { events = bit_or ch.events read_events })

pub disable_reading : Context → Channel → Result Channel
disable_reading k ch = update k (record ch { events = clear_bits ch.events read_events })

pub enable_writing : Context → Channel → Result Channel
enable_writing k ch = update k (record ch { events = bit_or ch.events epollout })

pub disable_writing : Context → Channel → Result Channel
disable_writing k ch = update k (record ch { events = clear_bits ch.events epollout })

pub disable_all : Context → Channel → Result Channel
disable_all k ch = update k (record ch { events = 0 })

pub enable_edge_triggered : Context → Channel → Result Channel
enable_edge_triggered k ch = update k (record ch { events = bit_or ch.events epollet })

pub is_writing : Channel → Bool
is_writing ch = has_bits ch.events epollout

pub is_reading : Channel → Bool
is_reading ch = has_bits ch.events epollin

pub data Callback : Type 0 where
  on_close on_error on_read on_write : Callback

abbrev pub when : Bool → Callback → List Callback
when true c = c ∷ []
when false c = []

-- `Channel::HandleEventWithGuard`: the callbacks that it calls, in order. The ready events are
-- read again before each call, and no callback changes them.
pub handle_event_with_guard : Channel → List Callback
handle_event_with_guard ch =
    when (has_bits ready epollhup && not (has_bits ready epollin)) on_close
    ++ (when (has_bits ready epollerr) on_error
        ++ (when (has_bits ready read_events) on_read ++ when (has_bits ready epollout) on_write))
  where
    ready : ℕ
    ready = ch.ready_events

-- `Channel::HandleEvent`: `alive` says whether the owner still exists.
pub handle_event : Channel → Bool → List Callback
handle_event ch alive =
    if not ch.tied
    then handle_event_with_guard ch
    else if alive
    then handle_event_with_guard ch
    else []
