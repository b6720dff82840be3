-- ===== src/Daemon/Messages/Tests.antt =====
-- The messages of lab_01 at a short text and an error.
use os6_bmstu_iu.Common.{ℕ, ◌<◌, ◌≡◌, some, List, codes, length}
use os6_bmstu_iu.Daemon.Messages.{err_quit, err_exit, line_of, max_line, err_exit-line}

abbrev strerror : ℕ → List ℕ
strerror n = codes "Invalid argument"

err_exit-line_example :
    (err_quit (codes "SIG_BLOCK") ≡ some (1, codes "SIG_BLOCK\n"))
    × (err_exit strerror 22 (codes "SIG_BLOCK") ≡ some (1, codes "SIG_BLOCK: Invalid argument\n"))
    × (length (line_of (codes "SIG_BLOCK")) < max_line)
    × (length (line_of (codes "SIG_BLOCK: Invalid argument")) < max_line)
err_exit-line_example = err_exit-line strerror 22 (codes "SIG_BLOCK")
