-- ===== src/Net/Epoller.antt =====
-- l4lb/src/net/Epoller.h and Epoller.cpp, with the fields of Channel.h that it reads and writes.
use l.Base.{
  Bool, List, Result, [], arith, err, false, if◌then◌else◌, length, none, not, ok, some,
  system_error, true, ℕ, ◌*◌, ◌==◌, ◌||◌, ◌≡◌,
}
use l.Net.System.{
  Context, Reply, Works, ctl_add, ctl_del, ctl_mod, ebadf, eintr, enoent, failed, returned,
}

-- `Channel`. The callbacks and the owner are those of the object that holds the channel.
pub record Channel : Type 0 where
  pub fd : ℕ
  pub events : ℕ
  pub ready_events : ℕ
  pub added : Bool
  pub tied : Bool

-- `Epoller::RemoveChannel`
pub remove_channel : Context → Channel → Result Channel
remove_channel k ch =
    if ch.added
    then (elim (k.epoll_ctl ctl_del ch.fd 0) [
      | none ↦ ok (record ch { added = false })
      | some e ↦
          if e == enoent || e == ebadf
          then ok (record ch { added = false })
          else err (system_error e)
    ])
    else ok ch

-- `Epoller::UpdateChannel`
pub update_channel : Context → Channel → Result Channel
update_channel k ch =
    if ch.events == 0
    then remove_channel k ch
    else (elim (k.epoll_ctl (if ch.added then ctl_mod else ctl_add) ch.fd ch.events) [
      | none ↦ ok (record ch { added = true })
      | some e ↦ err (system_error e)
    ])

-- The size of the array that `epoll_wait` fills.
pub record Epoller : Type 0 where
  pub capacity : ℕ

abbrev pub initial_event_count : ℕ
initial_event_count = 64

pub create : Epoller
create = record { capacity = initial_event_count }

-- `Epoller::Poll`: the reply of `epoll_wait` lists channels by number with their events. An
-- interrupted wait finds nothing, and a full array is doubled.
pub poll : Epoller → Reply (List (ℕ × ℕ)) → Result (List (ℕ × ℕ) × Epoller)
poll p (failed e) = if e == eintr then ok ([], p) else err (system_error e)
poll p (returned active) =
    ok (active, (if length active == p.capacity then record p { capacity = p.capacity * 2 } else p))

module _ (k : Context) (w : Works k) where
  pub remove_channel-Works : (ch : Channel) → remove_channel k ch ≡ ok (record ch { added = false })
  unfolding remove_channel
  remove_channel-Works ch = rw (w.ctl ctl_del ch.fd 0) (ground arith)

  pub update_channel-Works :
      (ch : Channel) → update_channel k ch ≡ ok (record ch { added = not (ch.events == 0) })
  unfolding update_channel
  update_channel-Works ch =
      rw (w.ctl (if ch.added then ctl_mod else ctl_add) ch.fd ch.events, remove_channel-Works ch)
        (ground arith)
