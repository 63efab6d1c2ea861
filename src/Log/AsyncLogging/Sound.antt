-- ===== src/Log/AsyncLogging/Sound.antt =====
-- What the front end and the back end of the log keep true of their buffers, and the bytes that
-- they hold, in the order in which they were appended.
use l.Base.{
  All, Bool, Bool-cases, Bytes, List, Option, [], append-nil, append_assoc, if◌then◌else◌, inl, inr,
  leb, length, ltb, none, refl, some, ◌++◌, ◌==◌, ◌||◌, ◌∷◌, ◌≡◌, ◌≢◌,
}
use l.Log.FixedBuffer.{FixedBuffer, avail}
use l.Log.FixedBuffer
use l.Log.LogFile.{LogFile}
use l.Log.LogFile.Written.{IsCounted}
use l.Log.AsyncLogging.{AsyncLogging, Thread, fixed_large_buffer_size, started}

abbrev pub IsLarge : FixedBuffer → Type 0
IsLarge b = b.size ≡ fixed_large_buffer_size

-- An empty buffer of the large size.
abbrev pub IsSpare : FixedBuffer → Type 0
IsSpare b = (b.content ≡ []) × (b.size ≡ fixed_large_buffer_size)

abbrev pub HoldsSpare : Option FixedBuffer → Type 0
HoldsSpare none = Unit
HoldsSpare (some b) = IsSpare b

abbrev pub contents : List FixedBuffer → Bytes
contents [] = []
contents (b ∷ bs) = b.content ++ contents bs

abbrev pub files_written : List LogFile → Bytes
files_written [] = []
files_written (f ∷ fs) = f.written ++ files_written fs

-- What the files have been given.
abbrev pub on_disk : AsyncLogging → Bytes
on_disk s = files_written s.closed ++ s.file.written

abbrev pub current_content : Option FixedBuffer → Bytes
current_content none = []
current_content (some b) = b.content

-- All that is in the log, in the files or in the buffers.
abbrev pub logged : AsyncLogging → Bytes
logged s = on_disk s ++ contents s.buffers ++ current_content s.current

-- There is a current buffer, all are of the large size, and there are two spare ones for the back
-- end; the front end's spare buffer is gone only while a full one waits; the file is open.
pub data IsSound : AsyncLogging → Type 0 where
  sound :
      {run : Bool} {th : Thread} {c nc nn : FixedBuffer} {nx : Option FixedBuffer}
      {bs : List FixedBuffer} {f : LogFile} {fs : List LogFile}
      → c.size ≡ fixed_large_buffer_size
      → HoldsSpare nx
      → (nx ≡ none → bs ≢ [])
      → All IsLarge bs
      → IsSpare nc
      → IsSpare nn
      → IsCounted f
      → IsSound (record {
        running = run;
        thread = th;
        current = some c;
        next = nx;
        buffers = bs;
        new_current = some nc;
        new_next = some nn;
        file = f;
        closed = fs;
      })

-- What of a text is kept: all of it, but nothing if it would fill the current buffer to the last
-- byte or is as large as a whole buffer.
abbrev pub kept : Bytes → FixedBuffer → Bytes
kept bytes b =
    if length bytes == avail b || leb fixed_large_buffer_size (length bytes) then [] else bytes

pub started-IsSound : (f : LogFile) → IsCounted f → IsSound (started f)
unfolding started
started-IsSound f h = sound refl (refl, refl) (λ e. cc) tt (refl, refl) (refl, refl) h

pub contents-append :
    (as' bs : List FixedBuffer) → contents (as' ++ bs) ≡ contents as' ++ contents bs
contents-append [] bs = refl
contents-append (a ∷ as') bs = simp (append_assoc, contents-append as' bs)

pub append_content :
    (bytes : Bytes) (b : FixedBuffer)
    → (FixedBuffer.append bytes b).content
      ≡ b.content ++ (if ltb (length bytes) (avail b) then bytes else [])
unfolding FixedBuffer.append
append_content bytes b = elim (Bool-cases (ltb (length bytes) (avail b))) [
  | inl h ↦ rw h refl
  | inr h ↦ rw (h, append-nil b.content) refl
]

pub append_size : (bytes : Bytes) (b : FixedBuffer) → (FixedBuffer.append bytes b).size ≡ b.size
unfolding FixedBuffer.append
append_size bytes b = elim (Bool-cases (ltb (length bytes) (avail b))) [
  | inl h ↦ rw h refl
  | inr h ↦ rw h refl
]
