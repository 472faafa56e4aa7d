-- ===== src/Backup/Cap/Limit.antt =====
-- A capped reader passes on what fits, and fails exactly when there is more.
use simpledeploy.Prelude.{
  ℕ, ◌+◌, ◌-◌, ◌≤◌, ◌<◌, true, false, ◌≡◌, ◌≢◌, ◌∙◌, sym, ap, refl, arith, Option, none, some, List,
  [], ◌∷◌, ◌++◌, append_assoc, append-nil, ltb, length, length-append, Bool-cases, inl, inr,
}
use simpledeploy.Backup.Cap.{
  ReadError, eof, archive_too_large, ReadResult, CapReader, new_cap_reader, fit, probe, pass_on,
  cap_read,
}

-- A reader as `io.Reader` documents it: the bytes it gets are the next ones, they fit in the buffer,
-- and at the end nothing is left. The error of the cap is not its own.
abbrev pub IsReader : (S : Type 0) → (ℕ → S → ReadResult S) → (S → List ℕ) → Type 0
IsReader S read rest =
    (len : ℕ) (s : S)
    → (rest s ≡ (read len s).bytes ++ rest (read len s).next)
      × (length (read len s).bytes ≤ len)
      × ((read len s).error ≡ some eof → rest (read len s).next ≡ [])
      × ((read len s).error ≢ some archive_too_large)

abbrev pub stop_at :
    List ℕ → Option ReadError → List ℕ × Option ReadError → List ℕ × Option ReadError
stop_at bytes none (more, error) = (bytes ++ more, error)
stop_at bytes (some e) after = (bytes, some e)

-- What a copy through the reader gets with buffers of these lengths, until the first error.
unfoldable pub read_until :
    {S : Type 0} → (ℕ → S → ReadResult S) → List ℕ → CapReader S → List ℕ × Option ReadError
unfolding cap_read
read_until read [] c = ([], none)
read_until read (len ∷ lens) c =
    let got = cap_read read len c in stop_at got.bytes got.error (read_until read lens got.next)

-- The copy of the source so far, within what remains of the cap.
abbrev pub IsCopy : List ℕ → ℕ → List ℕ × Option ReadError → Type 0
IsCopy source room (bytes, error) =
    (length bytes ≤ room)
    × ((more : List ℕ) × (source ≡ bytes ++ more))
    × (error ≡ some eof → source ≡ bytes)
    × (error ≡ some archive_too_large → room < length source)

IsCopy-step :
    (source bytes left : List ℕ) (room kept : ℕ) (error : Option ReadError)
    (after : List ℕ × Option ReadError)
    → source ≡ bytes ++ left
    → length bytes ≤ room
    → (error ≡ some eof → left ≡ [])
    → error ≢ some archive_too_large
    → kept + length bytes ≡ room
    → IsCopy left kept after
    → IsCopy source room (stop_at bytes error after)
IsCopy-step source bytes left room kept none (more, e) split fits at_end fine same
      (less, (tail, rest), all, over) =
    let whole = split ∙ ap (λ l. bytes ++ l) rest in
    (
      omega (arith, length-append bytes more, less),
      (tail, whole ∙ sym (append_assoc bytes more tail)),
      λ end. split ∙ ap (λ l. bytes ++ l) (all end),
      λ end. omega (arith, over end, ap length split, length-append bytes left),
    )
IsCopy-step source bytes left room kept (some e) (more, e') split fits at_end fine same copy = (
  fits,
  (left, split),
  λ end. split ∙ ap (λ l. bytes ++ l) (at_end end) ∙ append-nil bytes,
  λ end. absurd (fine end),
)

no_bytes : (bytes : List ℕ) → ltb 0 (length bytes) ≡ false → bytes ≡ []
no_bytes [] e = refl
no_bytes (b ∷ bytes) e = ground arith

some_bytes : (bytes : List ℕ) → ltb 0 (length bytes) ≡ true → 0 < length bytes
some_bytes [] e = ground arith
some_bytes (b ∷ bytes) e = omega arith

module _ {S : Type 0} (read : ℕ → S → ReadResult S) (rest : S → List ℕ)
    (reads : IsReader S read rest) where
  pass_on-IsCopy :
      (c : CapReader S) (len : ℕ) (after : List ℕ × Option ReadError)
      → len ≤ c.remaining
      → IsCopy (rest (read len c.r).next) (c.remaining - length (read len c.r).bytes) after
      → IsCopy (rest c.r) c.remaining (stop_at (read len c.r).bytes (read len c.r).error after)
  pass_on-IsCopy c len after short copy =
      let (split, fits, at_end, fine) = reads len c.r in
      IsCopy-step (rest c.r) (read len c.r).bytes (rest (read len c.r).next) c.remaining
        (c.remaining - length (read len c.r).bytes) (read len c.r).error after split
        (omega (arith, fits, short)) at_end fine (omega (arith, fits, short)) copy

  probe-IsCopy :
      (c : CapReader S) (after : List ℕ × Option ReadError)
      → c.remaining ≡ 0
      → IsCopy (rest (read 1 c.r).next) c.remaining after
      → IsCopy (rest c.r) c.remaining (stop_at [] (probe read c (read 1 c.r)).error after)
  probe-IsCopy c after full copy = elim (Bool-cases (ltb 0 (length (read 1 c.r).bytes))) [
    | inl more ↦ rw more (
      omega arith,
      (rest c.r, refl),
      λ end. cc,
      λ end. omega (
        arith,
        full,
        ap length (reads 1 c.r).0,
        length-append (read 1 c.r).bytes (rest (read 1 c.r).next),
        some_bytes (read 1 c.r).bytes more,
      ),
    )
    | inr empty ↦ rw empty (
        let (split, _, at_end, fine) = reads 1 c.r in
        let none_got = no_bytes (read 1 c.r).bytes empty in
        IsCopy-step (rest c.r) [] (rest (read 1 c.r).next) c.remaining c.remaining
          (read 1 c.r).error after (split ∙ ap (λ l. l ++ rest (read 1 c.r).next) none_got)
          (omega arith) at_end fine (omega arith) copy)
  ]

  loop-IsCopy :
      (lens : List ℕ) (c : CapReader S) → IsCopy (rest c.r) c.remaining (read_until read lens c)
  unfolding read_until cap_read
  loop-IsCopy [] c = (omega arith, (rest c.r, refl), λ end. cc, λ end. cc)
  loop-IsCopy (len ∷ lens) c = elim (Bool-cases (ltb 0 c.remaining)) [
    | inl room ↦
        (let short = fit c.remaining len in
          rw room (
            pass_on-IsCopy c short _ (ground arith)
              (loop-IsCopy lens (pass_on read c (read short c.r)).next)))
    | inr full ↦
        rw full
          (probe-IsCopy c _ (ground arith) (loop-IsCopy lens (probe read c (read 1 c.r)).next))
  ]

  -- A copy through a new capped reader never gets more than the cap, and what it gets is the start of
  -- the source. If it ends it has all of the source, and if the cap stops it the source has more
  -- than the cap; if the reader below does what `io.Reader` documents.
  pub read_until-IsCopy :
      (lens : List ℕ) (s : S) (max : ℕ)
      → IsCopy (rest s) max (read_until read lens (new_cap_reader s max))
  read_until-IsCopy lens s max = loop-IsCopy lens (new_cap_reader s max)
