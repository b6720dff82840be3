-- ===== src/Fortune/Queue.antt =====
-- lab_04/part2: fortune.c and seqfile.c as queues of fortunes, as long as a reader does not read
-- more than has been written.
use os6_bmstu_iu.Common.{
  ℕ, ◌+◌, ◌≤◌, ◌<◌, ◌≡◌, refl, ap, sym, ◌∙◌, Option, some, List, [], ◌∷◌, ◌++◌, pos, append_assoc,
  arith, false, length, length-append, replicate, length-replicate, ◌>>=◌,
}
use os6_bmstu_iu.Fortune.Buffer.{page_size, NonZero}
use os6_bmstu_iu.Fortune.Cookie.{Fortune, fresh, write_fortune, read_fortune}
use os6_bmstu_iu.Fortune.Cookie.Shape.{encode, encode-append, Holds, fresh-Holds}
use os6_bmstu_iu.Fortune.Cookie.Write.{cookie, write_fortune-Holds}
use os6_bmstu_iu.Fortune.Cookie.Read.{length-encode, read_fortune-next}
use os6_bmstu_iu.Fortune.Cookie.Session.{Message, bytes, lines}
use os6_bmstu_iu.Fortune.Seqfile.{SeqFortune, seq_write, show_fortune, plain, Plain, PrintsPlain}
use os6_bmstu_iu.Fortune.Seqfile.Show.{seq_write-seen, show_fortune-next}

-- What users do: one writes a message, or one reads, from the start of the file.
pub data Event : Type 0 where
  writes : Message → Event
  reads : Event

-- The fortunes that the readers of fortune.c get.
unfoldable pub run_cookie : List Event → Fortune → Option (List (List ℕ))
run_cookie [] s = some []
run_cookie (writes m ∷ es) s = do r ← write_fortune 0 (bytes m) s; run_cookie es (r.1)
run_cookie (reads ∷ es) s = do
  r ← read_fortune false 0 s
  rest ← run_cookie es r.state
  some (r.sent ∷ rest)

-- Those of seqfile.c.
unfoldable pub run_seq :
    (seq_printf : List ℕ → Option (List ℕ)) → List Event → SeqFortune → Option (List (List ℕ))
run_seq seq_printf [] s = some []
run_seq seq_printf (writes m ∷ es) s = do r ← seq_write 0 (bytes m) s; run_seq seq_printf es (r.1)
run_seq seq_printf (reads ∷ es) s = do
  r ← show_fortune seq_printf s
  rest ← run_seq seq_printf es (r.1)
  some (r.0 ∷ rest)

abbrev pub seq_fresh : SeqFortune
seq_fresh = record { buffer = replicate page_size 0; read_ind = 0; write_ind = 0 }

-- The specification: a queue.
abbrev pub run_queue : List Event → List (List ℕ) → List (List ℕ)
run_queue [] q = []
run_queue (writes m ∷ es) q = run_queue es (q ++ (cookie (m.0) ∷ []))
run_queue (reads ∷ es) [] = run_queue es []
run_queue (reads ∷ es) (c ∷ q) = c ∷ run_queue es q

-- No read comes before the message that it gets, and messages have no zero and no `%` before their
-- last byte.
abbrev pub AreTimely : List Event → List (List ℕ) → Type 0
AreTimely [] q = Unit {0}
AreTimely (writes m ∷ es) q = NonZero (m.0) × Plain (m.0) × AreTimely es (q ++ (cookie (m.0) ∷ []))
AreTimely (reads ∷ es) [] = ⊥
AreTimely (reads ∷ es) (c ∷ q) = AreTimely es q

-- The bytes that the messages take with their zeros.
abbrev pub to_write : List Event → ℕ
to_write [] = 0
to_write (writes m ∷ es) = length (bytes m) + 1 + to_write es
to_write (reads ∷ es) = to_write es

Plain-append : (xs ys : List ℕ) → Plain xs → Plain ys → Plain (xs ++ ys)
Plain-append [] ys hx hy = hy
Plain-append (x ∷ xs) ys hx hy = (hx.0, Plain-append xs ys (hx.1) hy)

-- A fortune that is not empty, and prints as it is.
ArePrintable : List (List ℕ) → Type 0
ArePrintable [] = Unit {0}
ArePrintable (c ∷ cs) = (0 < length c) × Plain c × ArePrintable cs

ArePrintable-snoc :
    (cs : List (List ℕ)) (body : List ℕ)
    → Plain body
    → ArePrintable cs
    → ArePrintable (cs ++ (cookie body ∷ []))
unfolding ArePrintable
ArePrintable-snoc [] body p h = (
  omega (arith, length-append body (b'\n' ∷ [])),
  Plain-append body (b'\n' ∷ []) p (omega arith, tt),
  tt,
)
ArePrintable-snoc (c ∷ cs) body p h = (h.0, h.1, ArePrintable-snoc cs body p (h.2))

-- A fortune that is to be read is shorter than what has been written.
length-next :
    (s : Fortune) (before : List (List ℕ)) (c : List ℕ) (after : List (List ℕ))
    → Holds s before (c ∷ after)
    → length c + 1 ≤ s.write_ind
length-next s before c after h = omega (arith, h.wrote, length-encode before c after)

write_ind-snoc :
    (s s' : Fortune) (before q : List (List ℕ)) (m : Message)
    → Holds s before q
    → Holds s' before (q ++ (cookie (m.0) ∷ []))
    → s'.write_ind ≡ s.write_ind + length (bytes m) + 1
write_ind-snoc s s' before q m h h' = omega (
  arith,
  h.wrote,
  h'.wrote,
  ap (λ l. length (encode l)) (append_assoc before q (cookie (m.0) ∷ [])),
  ap length (encode-append (before ++ q) (cookie (m.0) ∷ [])),
  length-append (encode (before ++ q)) (encode (cookie (m.0) ∷ [])),
  length-append (cookie (m.0)) (0 ∷ []),
  length-append (m.0) (b'\n' ∷ []),
  length-append (m.0) (m.1 ∷ []),
)

run_cookie-queue :
    (es : List Event) (s : Fortune) (before q : List (List ℕ))
    → Holds s before q
    → AreTimely es q
    → s.write_ind + to_write es < page_size
    → run_cookie es s ≡ some (lines (run_queue es q))
unfolding run_cookie
run_cookie-queue [] s before q h timely fits = refl
run_cookie-queue (writes m ∷ es) s before q h timely fits =
    let (s', wrote, h') = write_fortune-Holds s before q h (m.0) (m.1) (timely.0) (omega arith) in
    let used = write_ind-snoc s s' before q m h h' in
    rw wrote
      (run_cookie-queue es s' before (q ++ (cookie (m.0) ∷ [])) h' (timely.2) (omega (arith, used)))
run_cookie-queue (reads ∷ es) s before [] h timely fits = absurd timely
run_cookie-queue (reads ∷ es) s before (c ∷ q) h timely fits =
    let short = length-next s before c q h in
    let (s', gives, h') = read_fortune-next s before c q h (omega arith) in
    let same : s'.write_ind ≡ s.write_ind =
      h'.wrote ∙ ap (λ l. length (encode l)) (append_assoc before (c ∷ []) q) ∙ sym h.wrote in
    rw gives (rw (run_cookie-queue es s' (before ++ (c ∷ [])) q h' timely (omega (arith, same))))

-- The state of seqfile.c that has the buffer and the indices of a state of fortune.c.
abbrev of_cookie : Fortune → SeqFortune
of_cookie s = record { buffer = s.cookie_buffer; read_ind = s.read_ind; write_ind = s.write_ind }

Holds-plain :
    (s : Fortune) (before after : List (List ℕ))
    → Holds s before after
    → Holds (plain (of_cookie s)) before after
Holds-plain s before after h = record {
  free = h.free;
  layout = h.layout;
  wrote = h.wrote;
  next = h.next;
  page = h.page;
  scratch = length-replicate {A = ℕ} page_size 0;
  strings = h.strings;
}

seq_write-Holds :
    (s : SeqFortune) (before q : List (List ℕ)) (m : Message)
    → Holds (plain s) before q
    → NonZero (m.0)
    → s.write_ind + length (bytes m) < page_size
    → (s' : SeqFortune) × (seq_write 0 (bytes m) s ≡ some (pos (length (bytes m)), s'))
      × Holds (plain s') before (q ++ (cookie (m.0) ∷ []))
seq_write-Holds s before q m h text fits =
    let (s', wrote, h') = write_fortune-Holds (plain s) before q h (m.0) (m.1) text fits in
    (
      of_cookie s',
      rw (seq_write-seen 0 (bytes m) s, wrote),
      Holds-plain s' before (q ++ (cookie (m.0) ∷ [])) h',
    )

module _ (seq_printf : List ℕ → Option (List ℕ)) (prints : PrintsPlain seq_printf) where
  run_seq-queue :
      (es : List Event) (s : SeqFortune) (before q : List (List ℕ))
      → Holds (plain s) before q
      → ArePrintable q
      → AreTimely es q
      → s.write_ind + to_write es < page_size
      → run_seq seq_printf es s ≡ some (run_queue es q)
  unfolding run_seq ArePrintable
  run_seq-queue [] s before q h good timely fits = refl
  run_seq-queue (writes m ∷ es) s before q h good timely fits =
      let (s', wrote, h') = seq_write-Holds s before q m h (timely.0) (omega arith) in
      let used = write_ind-snoc (plain s) (plain s') before q m h h' in
      rw wrote (
        run_seq-queue es s' before (q ++ (cookie (m.0) ∷ [])) h'
          (ArePrintable-snoc q (m.0) (timely.1) good) (timely.2) (omega (arith, used)))
  run_seq-queue (reads ∷ es) s before [] h good timely fits = absurd timely
  run_seq-queue (reads ∷ es) s before (c ∷ q) h good timely fits =
      let (s', gives, h') = show_fortune-next seq_printf prints s before c q h (good.0) (good.1) in
      let same : s'.write_ind ≡ s.write_ind =
        h'.wrote ∙ ap (λ l. length (encode l)) (append_assoc before (c ∷ []) q) ∙ sym h.wrote in
      rw gives
        (rw (run_seq-queue es s' (before ++ (c ∷ [])) q h' (good.2) timely (omega (arith, same))))

  -- Whatever is written and read, and in whatever order: as long as no read comes before the message
  -- that it gets, the messages have no zero and no `%` before their last byte and fit in the page
  -- with their zeros and a byte more, and seq_printf prints a text without `%` as it is, both
  -- modules are a queue. seqfile.c shows the oldest fortune that was not read, and fortune.c the
  -- same one with a line end more.
  pub run-queue :
      (es : List Event)
      → AreTimely es []
      → to_write es < page_size
      → (run_seq seq_printf es seq_fresh ≡ some (run_queue es []))
        × (run_cookie es fresh ≡ some (lines (run_queue es [])))
  unfolding ArePrintable
  run-queue es timely fits = (
    run_seq-queue es seq_fresh [] [] (Holds-plain fresh [] [] fresh-Holds) tt timely (omega arith),
    run_cookie-queue es fresh [] [] fresh-Holds timely (omega arith),
  )
