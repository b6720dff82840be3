-- ===== src/Select/Run.antt =====
-- lab_08/part2/server.c: the whole server, from socket to the end of the loop.
pub mod Held
use os6_bmstu_iu.Common.{
  ℕ, Bool, true, false, not, Option, none, some, List, [], ◌∷◌, ◌++◌, ℤ, pos, negsuc, is_negative,
  if◌then◌else◌, ◌>>=◌,
}
use os6_bmstu_iu.Select.{Server, Answers, Answer, no_clients, round}

-- What `socket`, `bind` and `listen` answer.
pub record Opening : Type 0 where
  pub socket : ℤ
  pub bind : ℤ
  pub listen : ℤ

-- `while (TRUE)`, over what happens in each round; `none` is a `return -1`.
unfoldable pub rounds : (sock : ℕ) → List Answers → Server → Option (Server × List (ℕ × Answer))
rounds sock [] s = some (s, [])
rounds sock (a ∷ more) s =
    round a sock s >>= λ r. rounds sock more (r.0) >>= λ rest. some (rest.0, r.1 ++ rest.1)

-- `main`
unfoldable pub main : Opening → List Answers → Option (Server × List (ℕ × Answer))
main o happens = elim o.socket [
  | negsuc e ↦ none
  | pos sock ↦
      if is_negative o.bind
      then none
      else if is_negative o.listen
      then none
      else rounds sock happens no_clients
]
