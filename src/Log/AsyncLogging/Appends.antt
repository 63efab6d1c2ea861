-- ===== src/Log/AsyncLogging/Appends.antt =====
-- `AsyncLogging::Append` keeps the buffers in order and the text behind what is there.
use l.Base.{
  All-append, Bool-cases, Bytes, List, Option, [], ap, append-nil, append_assoc, arith, false,
  if◌then◌else◌, inl, inr, leb, length, ltb, none, ok, refl, some, sym, true, ◌++◌, ◌∙◌, ◌∷◌, ◌≡◌,
  ◌≢◌,
}
use l.Log.FixedBuffer.{FixedBuffer, avail}
use l.Log.FixedBuffer
use l.Log.AsyncLogging.{AsyncLogging, append, append_to, fixed_large_buffer_size, or_new}
use l.Log.AsyncLogging.Sound.{
  HoldsSpare, IsLarge, IsSound, IsSpare, append_content, append_size, contents, contents-append,
  files_written, kept, logged, sound,
}

-- What `kept` leaves of the text in the current buffer.
abbrev pub kept_in : Bytes → AsyncLogging → Bytes
kept_in bytes s = elim s.current [ none ↦ [] | some b ↦ kept bytes b ]

kept_here :
    (bytes : Bytes) (b : FixedBuffer)
    → b.size ≡ fixed_large_buffer_size
    → leb (length bytes) (avail b) ≡ true
    → (if ltb (length bytes) (avail b) then bytes else []) ≡ kept bytes b
unfolding avail
kept_here bytes b z h = ground arith

kept_next :
    (bytes : Bytes) (b n : FixedBuffer)
    → b.size ≡ fixed_large_buffer_size
    → IsSpare n
    → leb (length bytes) (avail b) ≡ false
    → (FixedBuffer.append bytes n).content ≡ kept bytes b
unfolding avail
kept_next bytes b n z (e, zn) h = append_content bytes n ∙ rw (e, zn) (ground arith)

or_new-IsSpare : (nx : Option FixedBuffer) → HoldsSpare nx → IsSpare (or_new nx)
unfolding or_new
or_new-IsSpare none h = (refl, refl)
or_new-IsSpare (some b) h = h

append-cons-ne-nil {ℓ} : {A : Type ℓ} (xs : List A) (x : A) → xs ++ x ∷ [] ≢ []
append-cons-ne-nil [] x h = cc
append-cons-ne-nil (y ∷ xs) x h = cc

-- On sound buffers `Append` is defined, the buffers stay sound, and the log holds what it held and
-- behind that what is kept of the text.
pub append-IsSound :
    (bytes : Bytes) (s : AsyncLogging)
    → IsSound s
    → (t : AsyncLogging) × (append bytes s ≡ ok t)
      × IsSound t
      × (logged t ≡ logged s ++ kept_in bytes s)
unfolding append append_to
append-IsSound bytes s (sound {run} {th} {c} {nc} {nn} {nx} {bs} {f} {fs} zc hx taken hb hc hn hf) =
    let disk = files_written fs ++ f.written in
    elim (Bool-cases (leb (length bytes) (avail c))) [
      | inl h ↦ (
        record s { current = some (FixedBuffer.append bytes c) },
        rw h refl,
        sound (append_size bytes c ∙ zc) hx taken hb hc hn hf,
        rw (append_content bytes c, kept_here bytes c zc h)
            (sym (append_assoc (disk ++ contents bs) c.content (kept bytes c))),
      )
      | inr h ↦ (
        record s {
          buffers = bs ++ c ∷ [];
          current = some (FixedBuffer.append bytes (or_new nx));
          next = none;
        },
        rw h refl,
        sound (append_size bytes (or_new nx) ∙ (or_new-IsSpare nx hx).1) tt
            (λ e. append-cons-ne-nil bs c) (All-append IsLarge bs (c ∷ []) hb (zc, tt)) hc hn hf,
        rw
            (
              kept_next bytes c (or_new nx) zc (or_new-IsSpare nx hx) h,
              contents-append bs (c ∷ []),
              append-nil c.content,
            )
            (ap (λ x. x ++ kept bytes c) (sym (append_assoc disk (contents bs) c.content))),
      )
    ]
