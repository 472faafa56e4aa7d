-- ===== src/LogBuf/History.antt =====
-- The ring against the list of all lines written.
use mathlib.Core.List.{reverse, reverse_aux, reverse-append}
use Prim.Native.Nat.{min}
use simpledeploy.Prelude.{
  ℕ, zero, suc, ◌+◌, ◌-◌, ◌≤◌, ◌<◌, ◌≡◌, ◌≢◌, refl, ◌∙◌, arith, true, false, Option, some, List, [],
  ◌∷◌, ◌++◌, ltb, leb, if◌then◌else◌, length, get_elem?, set, take, length-set, length-replicate,
  get_elem?-set_self, get_elem?-set_ne, ◌>>=◌,
}
use simpledeploy.LogBuf.{
  offer_all, Entry, Buffer, new, write, index, collect, stored, recent, clear,
}

-- Where the line stands that was written `j` lines before the last.
abbrev slot : Buffer → ℕ → ℕ
slot b j = if ltb j b.pos then b.pos - 1 - j else b.pos + b.max_size - 1 - j

-- The ring holds the latest lines of `h`, which has the newest in front.
pub record Holds (b : Buffer) (h : List Entry) : Type 0 where
  pub sized : length b.entries ≡ b.max_size
  pub inside : b.pos < b.max_size
  pub count : stored b ≡ (if ltb (length h) b.max_size then length h else b.max_size)
  pub lines :
      (j : ℕ) → j < length h → j < b.max_size → get_elem? b.entries (slot b j) ≡ get_elem? h j

pub new-Holds : (size : ℕ) → Holds (new size) []
unfolding new
new-Holds size = record {
  sized = length-replicate _ _;
  inside = ground arith;
  count = ground arith;
  lines = λ j h k. elim h [ ];
}

pub clear-Holds : (b : Buffer) (h : List Entry) → Holds b h → Holds (clear b) []
unfolding clear
clear-Holds b h v = record {
  sized = length-replicate _ _;
  inside = omega (arith, v.inside);
  count = let i = v.inside in ground arith;
  lines = λ j p q. elim p [ ];
}

abbrev written : Buffer → Entry → Buffer
written b e = record b {
  entries = set b.entries b.pos e;
  pos = if leb b.max_size (b.pos + 1) then 0 else b.pos + 1;
  full = if leb b.max_size (b.pos + 1) then true else b.full;
  subs = offer_all e b.subs;
}

written-lines :
    (b : Buffer) (h : List Entry) (e : Entry)
    → Holds b h
    → (j : ℕ) → j < length (e ∷ h)
    → j < b.max_size
    → get_elem? (set b.entries b.pos e) (slot (written b e) j) ≡ get_elem? (e ∷ h) j
written-lines b h e v zero p q =
    let at_pos : slot (written b e) 0 ≡ b.pos = let i = v.inside in ground arith in
    rw at_pos (get_elem?-set_self b.entries b.pos e (omega (arith, v.inside, v.sized)))
written-lines b h e v (suc j) p q =
    let i = v.inside in
    let moved : slot (written b e) (suc j) ≡ slot b j = ground arith in
    let apart : b.pos ≢ slot b j = ground arith in
    rw moved
      (get_elem?-set_ne b.entries b.pos (slot b j) e apart ∙ v.lines j (omega arith) (omega arith))

-- A write never panics, and adds its line to what the ring holds.
pub write-Holds :
    (b : Buffer) (h : List Entry) (e : Entry)
    → Holds b h
    → (b' : Buffer) × (write b e ≡ some b') × Holds b' (e ∷ h)
unfolding write
write-Holds b h e v =
    let i = v.inside in
    let s = v.sized in
    let c = v.count in
    (
      written b e,
      ground arith,
      record {
        sized = length-set b.entries b.pos e ∙ s;
        inside = ground arith;
        count = ground arith;
        lines = written-lines b h e v;
      },
    )

-- The `n` lines before the last, oldest first.
newest : ℕ → List Entry → Option (List Entry)
newest zero h = some []
newest (suc n) h = do e ← get_elem? h n; rest ← newest n h; some (e ∷ rest)

collect-newest :
    (b : Buffer) (h : List Entry) (limit i n : ℕ)
    → Holds b h
    → i + n ≡ limit
    → limit ≤ length h
    → limit ≤ b.max_size
    → collect b limit i n ≡ newest n h
unfolding collect newest
collect-newest b h limit i zero v e p q = refl
collect-newest b h limit i (suc n) v e p q =
    let inside = v.inside in
    let at_slot : index b limit i ≡ slot b n = ground arith in
    rw
      (
        at_slot,
        v.lines n (omega arith) (omega arith),
        collect-newest b h limit (i + 1) n v (omega arith) p q,
      )
      refl

take-suc :
    (n : ℕ) (h : List Entry) (e : Entry)
    → get_elem? h n ≡ some e
    → take (suc n) h ≡ take n h ++ e ∷ []
take-suc zero [] e g = cc
take-suc zero (x ∷ h) e g = ground arith
take-suc (suc n) [] e g = cc
take-suc (suc n) (x ∷ h) e g = rw (take-suc n h e g)

get_elem?-lt : (n : ℕ) (h : List Entry) → n < length h → (e : Entry) × (get_elem? h n ≡ some e)
get_elem?-lt n [] p = elim p [ ]
get_elem?-lt zero (x ∷ h) p = (x, refl)
get_elem?-lt (suc n) (x ∷ h) p = get_elem?-lt n h (omega arith)

newest-take : (n : ℕ) (h : List Entry) → n ≤ length h → newest n h ≡ some (reverse (take n h))
unfolding newest
newest-take zero h p = refl
newest-take (suc n) h p =
    let (e, g) = get_elem?-lt n h p in
    rw (g, newest-take n h (omega arith), take-suc n h e g, reverse-append) refl

take-take :
    (a m n : ℕ) (h : List Entry) → n ≡ min a (min m (length h)) → take a (take m h) ≡ take n h
take-take zero m n h e = rw e (ground arith)
take-take (suc a) zero n h e = rw e (ground arith)
take-take (suc a) (suc m) n [] e = rw e (ground arith)
take-take (suc a) (suc m) zero (x ∷ h) e = absurd (omega arith)
take-take (suc a) (suc m) (suc n) (x ∷ h) e = rw (take-take a m n h (omega arith))

clipped :
    (b : Buffer) (h : List Entry) (n : ℕ)
    → Holds b h
    → n ≤ length h
    → n ≤ b.max_size
    → (if leb n 0 then some [] else collect b n 0 n) ≡ some (reverse (take n h))
clipped b h zero v p q = refl
clipped b h (suc n) v p q =
    let on : leb (suc n) 0 ≡ false = ground arith in
    rw on (collect-newest b h (suc n) 0 (suc n) v (omega arith) p q ∙ newest-take (suc n) h p)

-- `Recent` never panics: it returns the last lines written, oldest first, as many as are asked
-- for, up to the size of the ring.
pub recent-Holds :
    (b : Buffer) (h : List Entry) (limit : ℕ)
    → Holds b h
    → recent b limit ≡ some (reverse (take limit (take b.max_size h)))
unfolding recent
recent-Holds b h limit v =
    let n = if ltb (stored b) limit then stored b else limit in
    let c = v.count in
    let short : n ≤ length h = ground arith in
    let fits : n ≤ b.max_size = ground arith in
    let exact : n ≡ min limit (min b.max_size (length h)) = ground arith in
    rw (take-take limit b.max_size n h exact) (clipped b h n v short fits)

size-write : (b : Buffer) (e : Entry) (b' : Buffer) → write b e ≡ some b' → b'.max_size ≡ b.max_size
unfolding write
size-write b e b' h = ground arith

-- All the lines of `h`, oldest first, written one after another.
unfoldable pub write_all : Buffer → List Entry → Option Buffer
write_all b [] = some b
write_all b (e ∷ es) = do b' ← write b e; write_all b' es

write_all-Holds :
    (b : Buffer) (h es : List Entry)
    → Holds b h
    → (b' : Buffer) × (write_all b es ≡ some b')
      × Holds b' (reverse_aux es h)
      × (b'.max_size ≡ b.max_size)
unfolding write_all
write_all-Holds b h [] v = (b, refl, v, refl)
write_all-Holds b h (e ∷ es) v =
    let (b', w, v') = write-Holds b h e v in
    let (c, ws, vc, size) = write_all-Holds b' (e ∷ h) es v' in
    (c, rw w ws, vc, size ∙ size-write b e b' w)

-- After any writes to a new buffer, none of which panics, `Recent` returns the last lines written,
-- oldest first, as many as are asked for, up to the size of the ring.
pub recent-write_all :
    (size : ℕ) (es : List Entry) (limit : ℕ)
    → (b : Buffer) × (write_all (new size) es ≡ some b)
      × (recent b limit ≡ some (reverse (take limit (take (new size).max_size (reverse es)))))
recent-write_all size es limit =
    let (b, w, v, same) = write_all-Holds (new size) [] es (new-Holds size) in
    (b, w, rw (← same) (recent-Holds b (reverse es) limit v))
