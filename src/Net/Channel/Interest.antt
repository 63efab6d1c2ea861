-- ===== src/Net/Channel/Interest.antt =====
-- Channel.cpp: what each Enable and Disable call leaves registered with epoll.
use l.Base.{Bool, ap, bit_or, false, if◌then◌else◌, not, ok, refl, true, ℕ, ◌+◌, ◌==◌, ◌||◌, ◌≡◌}
use l.Net.System.{Context, Works, assert-Works}
use l.Net.Epoller.{Channel, remove_channel-Works, update_channel-Works}
use l.Net.Channel.{
  clear_bits, disable_reading, disable_writing, enable_reading, enable_writing, epollout,
  read_events, remove, update,
}

-- The events of a level-triggered channel that waits for input (`r`) and for room to write (`w`).
abbrev pub mask : Bool → Bool → ℕ
mask r w = (if r then read_events else 0) + (if w then epollout else 0)

-- The channel waits for exactly these events, and is in epoll's set exactly if there are any.
pub record Waits (r w : Bool) (ch : Channel) : Type 0 where
  pub wanted : ch.events ≡ mask r w
  pub registered : ch.added ≡ (r || w)

mask-zero : (r w : Bool) → not (mask r w == 0) ≡ (r || w)
mask-zero true true = refl
mask-zero true false = refl
mask-zero false true = refl
mask-zero false false = refl

or-read : (r w : Bool) → bit_or (mask r w) read_events ≡ mask true w
or-read true true = refl
or-read true false = refl
or-read false true = refl
or-read false false = refl

or-write : (r w : Bool) → bit_or (mask r w) epollout ≡ mask r true
or-write true true = refl
or-write true false = refl
or-write false true = refl
or-write false false = refl

clear-read : (r w : Bool) → clear_bits (mask r w) read_events ≡ mask false w
clear-read true true = refl
clear-read true false = refl
clear-read false true = refl
clear-read false false = refl

clear-write : (r w : Bool) → clear_bits (mask r w) epollout ≡ mask r false
clear-write true true = refl
clear-write true false = refl
clear-write false true = refl
clear-write false false = refl

-- The channel that a call leaves: the events `r` and `w`, and the rest as it was.
abbrev pub waiting : Bool → Bool → Channel → Channel
waiting r w ch = record ch { events = mask r w; added = r || w }

pub waiting-Waits : (r w : Bool) (ch : Channel) → Waits r w (waiting r w ch)
waiting-Waits r w ch = record { wanted = refl; registered = refl }

module _ (k : Context) (works : Works k) where
  update-waiting :
      (r w : Bool) (ch : Channel) → update k (record ch { events = mask r w }) ≡ ok (waiting r w ch)
  unfolding update
  update-waiting r w ch =
      rw (assert-Works k works, update_channel-Works k works (record ch { events = mask r w }))
        (ap (λ (b : Bool). ok (record ch { events = mask r w; added = b })) (mask-zero r w))

  module _ (r w : Bool) (ch : Channel) (h : Waits r w ch) where
    pub enable_reading-waiting : enable_reading k ch ≡ ok (waiting true w ch)
    unfolding enable_reading
    enable_reading-waiting = rw (h.wanted, or-read r w) (update-waiting true w ch)

    pub disable_reading-waiting : disable_reading k ch ≡ ok (waiting false w ch)
    unfolding disable_reading
    disable_reading-waiting = rw (h.wanted, clear-read r w) (update-waiting false w ch)

    pub enable_writing-waiting : enable_writing k ch ≡ ok (waiting r true ch)
    unfolding enable_writing
    enable_writing-waiting = rw (h.wanted, or-write r w) (update-waiting r true ch)

    pub disable_writing-waiting : disable_writing k ch ≡ ok (waiting r false ch)
    unfolding disable_writing
    disable_writing-waiting = rw (h.wanted, clear-write r w) (update-waiting r false ch)

  pub remove-Works : (ch : Channel) → remove k ch ≡ ok (record ch { added = false })
  unfolding remove
  remove-Works ch = rw (assert-Works k works) (remove_channel-Works k works ch)
