-- ===== src/Log/AsyncLogging/Rounds.antt =====
-- A round of `AsyncLogging::ThreadFunc` puts all that is in the log into its files.
use l.Base.{
  All, Bool, Bool-cases, Bytes, List, Option, Result, [], ap, append-nil, append_assoc, arith, inl,
  inr, leb, none, ok, refl, some, sym, true, ℕ, ◌++◌, ◌+◌, ◌||◌, ◌∙◌, ◌∷◌, ◌≡◌, ◌≢◌,
}
use l.Log.FixedBuffer.{FixedBuffer, bzero}
use l.Log.LogFile.{LogFile, new_log_file}
use l.Log.LogFile.Written.{IsCounted, Progress, write-IsCounted}
use l.Log.AsyncLogging.{
  AsyncLogging, Thread, active_buffers, at_test, file_maximum_size, finish_round, left_over,
  or_else, pop_back, recycle, refill, rotate, swap_in, write_buffers,
}
use l.Log.AsyncLogging.Sound.{
  HoldsSpare, IsLarge, IsSound, IsSpare, contents, contents-append, files_written, logged, on_disk,
  sound,
}

write_buffers-IsCounted :
    (fwrite clock : ℕ → ℕ) (i : ℕ) (bs : List FixedBuffer) (f : LogFile)
    → Progress fwrite
    → IsCounted f
    → (g : LogFile) × (write_buffers fwrite clock i bs f ≡ ok g)
      × (g.written ≡ f.written ++ contents bs)
      × IsCounted g
unfolding write_buffers
write_buffers-IsCounted fwrite clock i [] f p h = (f, refl, sym (append-nil f.written), h)
write_buffers-IsCounted fwrite clock i (b ∷ bs) f p h =
    let (g, e, w, h') = write-IsCounted fwrite (clock i) b.content f p h in
    let (g', e', w', h'') = write_buffers-IsCounted fwrite clock (i + 1) bs g p h' in
    (
      g',
      rw e e',
      w' ∙ ap (λ x. x ++ contents bs) w ∙ append_assoc f.written b.content (contents bs),
      h'',
    )

-- The state in which the spare buffers have taken their places.
abbrev swapped :
    Bool
    → Thread
    → FixedBuffer
    → FixedBuffer
    → Option FixedBuffer
    → LogFile
    → List LogFile
    → AsyncLogging
swapped run th nc nn nx f fs = record {
  running = run;
  thread = th;
  current = some nc;
  next = or_else nx (some nn);
  buffers = [];
  new_current = none;
  new_next = left_over nx (some nn);
  file = f;
  closed = fs;
}

-- Enough buffers are written for the spare ones that are missing, and those taken are emptied.
recycle_spares :
    (bs : List FixedBuffer) (run : Bool) (th : Thread) (c nc nn : FixedBuffer)
    (nx : Option FixedBuffer) (f : LogFile) (fs : List LogFile)
    → All IsLarge bs
    → IsLarge c
    → IsSpare nn
    → (nx ≡ none → bs ≢ [])
    → (a : FixedBuffer) × (b : FixedBuffer) × (recycle (bs ++ c ∷ []) (swapped run th nc nn nx f fs)
        ≡ ok (record (swapped run th nc nn nx f fs) {
          new_current = some a;
          new_next = some b;
          thread = at_test;
        }))
      × IsSpare a
      × IsSpare b
unfolding recycle refill pop_back left_over
recycle_spares [] run th c nc nn none f fs hb hc hn taken = absurd (taken refl refl)
recycle_spares [] run th c nc nn (some x) f fs hb hc hn taken = (bzero c, nn, refl, (refl, hc), hn)
recycle_spares (b1 ∷ []) run th c nc nn none f fs (h1, hb) hc hn taken =
    (bzero c, bzero b1, refl, (refl, hc), (refl, h1))
recycle_spares (b1 ∷ []) run th c nc nn (some x) f fs hb hc hn taken =
    (bzero c, nn, refl, (refl, hc), hn)
recycle_spares (b1 ∷ b2 ∷ bs) run th c nc nn none f fs (h1, (h2, hb)) hc hn taken =
    (bzero b2, bzero b1, refl, (refl, h2), (refl, h1))
recycle_spares (b1 ∷ b2 ∷ bs) run th c nc nn (some x) f fs (h1, (h2, hb)) hc hn taken =
    (bzero b2, nn, refl, (refl, h2), hn)

-- The front end's spare buffer is there, and it is empty.
or_else-HoldsSpare :
    (nx : Option FixedBuffer) (nn : FixedBuffer)
    → HoldsSpare nx
    → IsSpare nn
    → HoldsSpare (or_else nx (some nn))
      × (or_else nx (some nn) ≡ none → ◌≢◌ {A = List FixedBuffer} [] [])
unfolding or_else
or_else-HoldsSpare none nn hx hn = (hn, λ e. cc)
or_else-HoldsSpare (some x) nn hx hn = (hx, λ e. cc)

-- What a round leaves: all is in the files, and the buffers are empty.
Settles : Result AsyncLogging → Bytes → Type 0
Settles r bytes =
    (t : AsyncLogging) × (r ≡ ok t) × IsSound t × (on_disk t ≡ bytes) × (logged t ≡ bytes)

recycle-Settles :
    (bs : List FixedBuffer) (run : Bool) (th : Thread) (c nc nn : FixedBuffer)
    (nx : Option FixedBuffer) (f : LogFile) (fs : List LogFile) (bytes : Bytes)
    → IsSound (record {
      running = run;
      thread = th;
      current = some c;
      next = nx;
      buffers = bs;
      new_current = some nc;
      new_next = some nn;
      file = f;
      closed = fs;
    })
    → files_written fs ++ f.written ≡ bytes
    → Settles (recycle (bs ++ c ∷ []) (swapped run th nc nn nx f fs)) bytes
unfolding Settles
recycle-Settles bs run th c nc nn nx f fs bytes (sound zc hx taken hb hc hn hf) e =
    let (a, b, r, ha, hb') = recycle_spares bs run th c nc nn nx f fs hb zc hn taken in
    let (hx', taken') = or_else-HoldsSpare nx nn hx hn in
    (
      record (swapped run th nc nn nx f fs) {
        new_current = some a;
        new_next = some b;
        thread = at_test;
      },
      r,
      sound hc.1 hx' taken' tt ha hb' hf,
      e,
      rw hc.0 (append-nil _ ∙ append-nil _ ∙ e),
    )

files_written-append :
    (fs : List LogFile) (f : LogFile) → files_written (fs ++ f ∷ []) ≡ files_written fs ++ f.written
files_written-append [] f = append-nil f.written
files_written-append (g ∷ fs) f = simp (append_assoc, files_written-append fs f)

new_log_file-IsCounted :
    (opened default_opened : Bool)
    → opened || default_opened ≡ true
    → IsCounted (new_log_file opened default_opened)
unfolding new_log_file
new_log_file-IsCounted opened default_opened h = record {
  opened = ground arith;
  counted = refl;
  flushed_behind = omega arith;
}

all_written :
    (bs : List FixedBuffer) (c : FixedBuffer) (f : LogFile) (fs : List LogFile)
    → files_written fs ++ (f.written ++ contents (bs ++ c ∷ []))
      ≡ files_written fs ++ f.written ++ contents bs ++ c.content
all_written bs c f fs = simp (append_assoc, contents-append, append-nil)

-- On sound buffers, where fwrite makes progress and a new file could be opened, a round is defined
-- behind its wait: no empty list of buffers is asked for its last, the buffers stay sound, and what
-- the log held is in the files, whole and in order.
pub finish_round-IsSound :
    (fwrite clock : ℕ → ℕ) (opened default_opened : Bool) (s : AsyncLogging)
    → Progress fwrite
    → opened || default_opened ≡ true
    → IsSound s
    → (t : AsyncLogging) × (finish_round fwrite clock opened default_opened s ≡ ok t)
      × IsSound t
      × (on_disk t ≡ logged s)
      × (logged t ≡ logged s)
unfolding finish_round Settles rotate swap_in active_buffers new_log_file
finish_round-IsSound fwrite clock opened default_opened s p o
      (sound {run} {th} {c} {nc} {nn} {nx} {bs} {f} {fs} zc hx taken hb hc hn hf) =
    let (g, e, w, hg) = write_buffers-IsCounted fwrite clock 0 (bs ++ c ∷ []) f p hf in
    let all : files_written fs ++ g.written ≡ logged s = rw w (all_written bs c f fs) in
    let new = new_log_file opened default_opened in
    elim (Bool-cases (leb file_maximum_size g.written_bytes)) [
      | inl full ↦
          rw (e, full)
            (recycle-Settles bs run th c nc nn nx new (fs ++ g ∷ []) (logged s)
              (sound zc hx taken hb hc hn (new_log_file-IsCounted opened default_opened o))
              (append-nil (files_written (fs ++ g ∷ [])) ∙ files_written-append fs g ∙ all))
      | inr room ↦
          rw (e, room)
            (recycle-Settles bs run th c nc nn nx g fs (logged s) (sound zc hx taken hb hc hn hg)
              all)
    ]
