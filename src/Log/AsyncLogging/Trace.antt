-- ===== src/Log/AsyncLogging/Trace.antt =====
-- Any interleaving of `Append`, `Stop` and the parts of `ThreadFunc`, each under the mutex.
mod Tests
use l.Base.{
  Bool, Bytes, [], ap, append-nil, append_assoc, ok, ok_same, subst, sym, true, ℕ, ◌++◌, ◌||◌, ◌∙◌,
  ◌≡◌,
}
use l.Log.LogFile.{LogFile}
use l.Log.LogFile.Written.{IsCounted, Progress}
use l.Log.AsyncLogging.{AsyncLogging, append, at_test, enter, finish_round, in_round, started, stop}
use l.Log.AsyncLogging.Sound.{
  IsSound, contents, current_content, logged, on_disk, sound, started-IsSound,
}
use l.Log.AsyncLogging.Appends.{append-IsSound, kept_in}
use l.Log.AsyncLogging.Rounds.{finish_round-IsSound}

-- One step, with what of its text is kept.
pub data Step : AsyncLogging → Bytes → AsyncLogging → Type 0 where
  appended :
      {s t : AsyncLogging} (bytes : Bytes) → append bytes s ≡ ok t → Step s (kept_in bytes s) t
  stopped : {s : AsyncLogging} → Step s [] (stop s)
  entered : {s : AsyncLogging} → s.thread ≡ at_test → Step s [] (enter s)
  finished :
      {s t : AsyncLogging} (fwrite clock : ℕ → ℕ) (opened default_opened : Bool)
      → s.thread ≡ in_round
      → Progress fwrite
      → opened || default_opened ≡ true
      → finish_round fwrite clock opened default_opened s ≡ ok t
      → Step s [] t

-- The texts that a run of steps keeps, one behind the other.
pub data Trace (s : AsyncLogging) : Bytes → AsyncLogging → Type 0 where
  begun : Trace s [] s
  stepped :
      {t u : AsyncLogging} {texts text : Bytes}
      → Trace s texts t
      → Step t text u
      → Trace s (texts ++ text) u

abbrev Grows : AsyncLogging → Bytes → AsyncLogging → Type 0
Grows s bytes t = IsSound t × (logged t ≡ logged s ++ bytes)

step-Grows : {s t : AsyncLogging} {bytes : Bytes} → Step s bytes t → IsSound s → Grows s bytes t
unfolding enter
step-Grows {s} {t} (appended bytes e) h =
    let (t', e', h', l) = append-IsSound bytes s h in
    subst (λ u. Grows s (kept_in bytes s) u) (ok_same (sym e' ∙ e)) (h', l)
step-Grows stopped (sound zc hx taken hb hc hn hf) =
    (sound zc hx taken hb hc hn hf, sym (append-nil _))
step-Grows (entered at) (sound zc hx taken hb hc hn hf) =
    (sound zc hx taken hb hc hn hf, sym (append-nil _))
step-Grows {s} {t} (finished fwrite clock opened default_opened at p o e) h =
    let (t', e', h', d, l) = finish_round-IsSound fwrite clock opened default_opened s p o h in
    subst (λ u. Grows s [] u) (ok_same (sym e' ∙ e)) (h', l ∙ sym (append-nil (logged s)))

trace-Grows : {s t : AsyncLogging} {texts : Bytes} → Trace s texts t → IsSound s → Grows s texts t
trace-Grows {s} begun h = (h, sym (append-nil (logged s)))
trace-Grows {s} (stepped {t} {u} {texts} {text} run st) h =
    let (h', l) = trace-Grows run h in
    let (h'', l') = step-Grows st h' in
    (h'', l' ∙ ap (λ x. x ++ text) l ∙ append_assoc (logged s) texts text)

-- However the calls and the rounds interleave, the log, from its start with an open file, holds the
-- texts that were kept, whole and in the order of the calls: first those in the files, then those
-- still in the buffers; and its buffers are sound.
pub Trace-logged :
    {f : LogFile} {t : AsyncLogging} {texts : Bytes}
    → IsCounted f
    → f.written ≡ []
    → Trace (started f) texts t
    → IsSound t × (on_disk t ++ (contents t.buffers ++ current_content t.current) ≡ texts)
unfolding started
Trace-logged {f} {t} {texts} hf e run =
    let (h, l) = trace-Grows run (started-IsSound f hf) in
    (
      h,
      sym (append_assoc (on_disk t) (contents t.buffers) (current_content t.current))
          ∙ l
          ∙ ap (λ x. x ++ [] ++ [] ++ texts) e,
    )
