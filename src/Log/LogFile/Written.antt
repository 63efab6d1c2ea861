-- ===== src/Log/LogFile/Written.antt =====
-- What `LogFile::Write` leaves in the file.
use l.Base.{
  Bool-cases, Bytes, [], ap, append-nil, append_assoc, arith, drop, eq_nil, false, inl, inr, length,
  length-append, length-drop, ltb, not, ok, refl, suc, take, take-append-drop, true, zero, ℕ, ◌++◌,
  ◌+◌, ◌==◌, ◌∙◌, ◌∷◌, ◌≡◌, ◌≤◌,
}
use l.Log.LogFile.{LogFile, flush, flush_due, flush_interval, noted, write, write_loop}

-- What fwrite promises on a stream without error: it writes at least one byte and at most as many
-- as it is given.
abbrev pub Progress : (ℕ → ℕ) → Type 0
Progress fwrite = (n : ℕ) → 1 ≤ n → (1 ≤ fwrite n) × (fwrite n ≤ n)

pub write_loop_whole :
    (fwrite : ℕ → ℕ) (k : ℕ) (stream rest : Bytes)
    → Progress fwrite
    → length rest ≤ k
    → write_loop fwrite k stream rest ≡ (stream ++ rest, [])
unfolding write_loop
write_loop_whole fwrite zero stream rest p h =
    rw (eq_nil rest (omega arith), append-nil stream) refl
write_loop_whole fwrite (suc k) stream [] p h = rw (append-nil stream) refl
write_loop_whole fwrite (suc k) stream (b ∷ bytes) p h =
    let n = fwrite (length (b ∷ bytes)) in
    let (more, most) = p (length (b ∷ bytes)) (omega arith) in
    write_loop_whole fwrite k (stream ++ take n (b ∷ bytes)) (drop n (b ∷ bytes)) p
      (omega (arith, length-drop n (b ∷ bytes)))
    ∙ ap (λ s. (s, []))
        (append_assoc stream (take n (b ∷ bytes)) (drop n (b ∷ bytes))
          ∙ ap (λ t. stream ++ t) (take-append-drop n (b ∷ bytes)))

-- The count of the bytes is the length of what the stream was given, and no more is flushed.
pub record IsCounted (f : LogFile) : Type 0 where
  pub opened : f.fp ≡ true
  pub counted : f.written_bytes ≡ length f.written
  pub flushed_behind : f.flushed ≤ length f.written

flush_due-IsCounted :
    (now : ℕ) (f : LogFile)
    → IsCounted f
    → IsCounted (flush_due now f) × ((flush_due now f).written ≡ f.written)
unfolding flush_due flush
flush_due-IsCounted now f h = elim (Bool-cases (ltb (f.lastflush + flush_interval) f.lastwrite)) [
  | inl due ↦
      rw due (record { opened = h.opened; counted = h.counted; flushed_behind = omega arith }, refl)
  | inr early ↦ rw early (h, refl)
]

-- The stream has grown by `bytes`, and its status says so.
noted-IsCounted :
    (now : ℕ) (bytes : Bytes) (f : LogFile)
    → IsCounted f
    → IsCounted (noted now (length bytes) (record f { written = f.written ++ bytes }))
      × ((noted now (length bytes) (record f { written = f.written ++ bytes })).written
          ≡ f.written ++ bytes)
unfolding noted
noted-IsCounted now bytes f h = elim (Bool-cases (length bytes == 0)) [
  | inl e ↦ rw e (
    record {
      opened = h.opened;
      counted = ground (arith, length-append f.written bytes);
      flushed_behind = omega (arith, length-append f.written bytes, h.flushed_behind);
    },
    refl,
  )
  | inr e ↦ rw e (
    record {
      opened = h.opened;
      counted = omega (arith, length-append f.written bytes, h.counted);
      flushed_behind = omega (arith, length-append f.written bytes, h.flushed_behind);
    },
    refl,
  )
]

-- A write to an open stream whose fwrite makes progress ends with the whole text in the file, in
-- one piece behind what was there, and the counts stay right.
pub write-IsCounted :
    (fwrite : ℕ → ℕ) (now : ℕ) (bytes : Bytes) (f : LogFile)
    → Progress fwrite
    → IsCounted f
    → (g : LogFile) × (write fwrite now bytes f ≡ ok g)
      × (g.written ≡ f.written ++ bytes)
      × IsCounted g
unfolding write
write-IsCounted fwrite now bytes f p h =
    let g = noted now (length bytes) (record f { written = f.written ++ bytes }) in
    let (counts, grown) = noted-IsCounted now bytes f h in
    let (counts', same) = flush_due-IsCounted now g counts in
    let shut : not f.fp ≡ false = ap not h.opened in
    let whole = write_loop_whole fwrite (length bytes) f.written bytes p (omega arith) in
    (flush_due now g, rw (shut, whole) refl, same ∙ grown, counts')
