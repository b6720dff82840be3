-- ===== src/Alphabet/Tests.antt =====
-- The theorems on two threads that print a file of two bytes in turn.
use os6_bmstu_iu.Common.{◌≡◌, refl, true, false, codes}
use os6_bmstu_iu.Alphabet.{
  first, second, System, lock, lseek, read, write, at_end, unlock, Reach, begin, next,
}
use os6_bmstu_iu.Alphabet.Fine.{bytes}
use os6_bmstu_iu.Alphabet.Printed.{bytes-stopped}

-- Each thread prints a byte, and then each finds the end of the file.
abbrev finished : (s : System) × Reach (codes "AB") s
finished = (
  _,
  next
      (next
        (next
          (next
            (next
              (next
                (next
                  (next
                    (next
                      (next
                        (next
                          (next
                            (next
                              (next
                                (next
                                  (next
                                    (next
                                      (next
                                        (next (next begin (lock first refl refl))
                                          (lseek first refl))
                                        (read first refl))
                                      (write first b'A' refl))
                                    (unlock first true refl))
                                  (lock second refl refl))
                                (lseek second refl))
                              (read second refl))
                            (write second b'B' refl))
                          (unlock second true refl))
                        (lock first refl refl))
                      (lseek first refl))
                    (read first refl))
                  (at_end first refl))
                (unlock first false refl))
              (lock second refl refl))
            (lseek second refl))
          (read second refl))
        (at_end second refl))
      (unlock second false refl),
)

bytes-stopped_example : bytes (finished.0.out) ≡ codes "AB"
bytes-stopped_example = bytes-stopped (codes "AB") (finished.0) (finished.1) refl refl
