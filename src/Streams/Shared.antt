-- ===== src/Streams/Shared.antt =====
-- lab_05/src/app1.c: no byte of the file is lost or printed twice, though their order is not kept.
use os6_bmstu_iu.Common.{
  ℕ, zero, suc, ◌+◌, ◌≤◌, ◌<◌, ◌≡◌, refl, ap, ◌∙◌, Bool, true, false, ◌||◌, Option, none, some,
  List, [], ◌∷◌, ◌++◌, arith, length, length-append, take, drop, times, times-append,
  take-append-drop, Bool-cases, inl, inr,
}
use os6_bmstu_iu.Streams.{Streams, buff_size, refill, scan, printed, is_some, round, loop, main}

-- What a call prints and leaves is what there was.
refill-times :
    (c : ℕ) (buf unread : List ℕ)
    → times c (printed ((refill buf unread).0))
        + times c ((refill buf unread).1)
        + times c ((refill buf unread).2)
      ≡ times c buf + times c unread
refill-times c [] unread = omega arith
refill-times c (b ∷ buf) unread = ground arith

scan-times :
    (c : ℕ) (buf unread : List ℕ)
    → times c (printed ((scan buf unread).0))
        + times c ((scan buf unread).1)
        + times c ((scan buf unread).2)
      ≡ times c buf + times c unread
scan-times c [] unread = omega (
  arith,
  refill-times c (take buff_size unread) (drop buff_size unread),
  times-append c (take buff_size unread) (drop buff_size unread),
  ap (times c) (take-append-drop buff_size unread),
)
scan-times c (b ∷ buf) unread = ground arith

-- A call that reads a byte leaves one less, and one that does not finds nothing left.
refill-length :
    (buf unread : List ℕ)
    → length (printed ((refill buf unread).0))
        + length ((refill buf unread).1)
        + length ((refill buf unread).2)
      ≡ length buf + length unread
refill-length [] unread = omega arith
refill-length (b ∷ buf) unread = omega arith

whole :
    (unread : List ℕ)
    → length (take buff_size unread) + length (drop buff_size unread) ≡ length unread
whole unread = omega (
  arith,
  length-append (take buff_size unread) (drop buff_size unread),
  ap length (take-append-drop buff_size unread),
)

scan-length :
    (buf unread : List ℕ)
    → length (printed ((scan buf unread).0))
        + length ((scan buf unread).1)
        + length ((scan buf unread).2)
      ≡ length buf + length unread
scan-length [] unread =
    omega (arith, refill-length (take buff_size unread) (drop buff_size unread), whole unread)
scan-length (b ∷ buf) unread = omega arith

scan-some :
    (buf unread : List ℕ)
    → is_some ((scan buf unread).0) ≡ true
    → length (printed ((scan buf unread).0)) ≡ 1
scan-some buf unread e = one ((scan buf unread).0) e
  where
    one : (o : Option ℕ) → is_some o ≡ true → length (printed o) ≡ 1
    one none e = cc
    one (some c) e = refl

scan-none :
    (buf unread : List ℕ) → is_some ((scan buf unread).0) ≡ false → (buf ≡ []) × (unread ≡ [])
scan-none [] [] e = (refl, refl)
scan-none [] (u ∷ unread) e = cc
scan-none (b ∷ buf) unread e = cc

-- How often a byte is printed, buffered or unread, and how many bytes are still to be printed.
abbrev account : ℕ → Streams → ℕ
account c s = times c s.out + times c s.buf1 + times c s.buf2 + times c s.unread

abbrev to_print : Streams → ℕ
to_print s = length s.buf1 + length s.buf2 + length s.unread

round-account : (c : ℕ) (s : Streams) → account c ((round s).1) ≡ account c s
unfolding round
round-account c s =
    let r1 = scan s.buf1 s.unread in
    let r2 = scan s.buf2 (r1.2) in
    omega (
      arith,
      scan-times c s.buf1 s.unread,
      scan-times c s.buf2 (r1.2),
      times-append c (s.out ++ printed (r1.0)) (printed (r2.0)),
      times-append c s.out (printed (r1.0)),
    )

-- A round that goes on prints something.
round-less : (s : Streams) → (round s).0 ≡ true → to_print ((round s).1) < to_print s
unfolding round
round-less s goes_on =
    let r1 = scan s.buf1 s.unread in
    let l1 = scan-length s.buf1 s.unread in
    let l2 = scan-length s.buf2 (r1.2) in
    elim (Bool-cases (is_some (r1.0))) [
      | inl e ↦ omega (arith, l1, l2, scan-some s.buf1 s.unread e)
      | inr e ↦ omega (arith, l1, l2, scan-some s.buf2 (r1.2) (rw e at goes_on))
    ]

neither : (a b : Bool) → (a || b) ≡ false → (a ≡ false) × (b ≡ false)
neither true b e = cc
neither false b e = (refl, e)

-- A round that does not leaves nothing.
round-last : (s : Streams) → (round s).0 ≡ false → to_print ((round s).1) ≡ 0
unfolding round
round-last s ends =
    let r1 = scan s.buf1 s.unread in
    let r2 = scan s.buf2 (r1.2) in
    let (none1, none2) = neither (is_some (r1.0)) (is_some (r2.0)) ends in
    let (empty1, all_read) = scan-none s.buf1 s.unread none1 in
    let (empty2, left) = scan-none s.buf2 (r1.2) none2 in
    omega (
      arith,
      scan-length s.buf1 s.unread,
      scan-length s.buf2 (r1.2),
      ap length empty1,
      ap length all_read,
      ap length empty2,
      ap length left,
    )

times-le : (c : ℕ) (l : List ℕ) → times c l ≤ length l
times-le c [] = omega arith
times-le c (x ∷ l) = ground (arith, times-le c l)

-- With a round for each byte that is left and one more, the loop ends with nothing left.
loop-ends :
    (k : ℕ) (s : Streams)
    → to_print s < k
    → (s' : Streams) × (loop k s ≡ some s')
      × ((c : ℕ) → account c s' ≡ account c s)
      × (to_print s' ≡ 0)
unfolding loop
loop-ends zero s few = absurd (omega arith)
loop-ends (suc k) s few = elim (Bool-cases ((round s).0)) [
  | inl e ↦
      let (s', done, same, nothing) = loop-ends k ((round s).1) (omega (arith, round-less s e)) in
      (s', rw e done, λ c. same c ∙ round-account c s, nothing)
  | inr e ↦ ((round s).1, rw e, λ c. round-account c s, round-last s e)
]

-- With a round for each byte of the file and one more, the program ends, and every byte has been
-- printed as often as it is in the file, whichever stream has read it.
pub main-times :
    (file : List ℕ)
    → (s : Streams) × (main (length file + 1) file ≡ some s)
      × ((c : ℕ) → times c s.out ≡ times c file)
unfolding main
main-times file =
    let begin : Streams = record { unread = file; buf1 = []; buf2 = []; out = [] } in
    let (s, done, same, nothing) = loop-ends (length file + 1) begin (omega arith) in
    (
      s,
      done,
      λ c.
          omega (arith, same c, times-le c s.buf1, times-le c s.buf2, times-le c s.unread, nothing),
    )
