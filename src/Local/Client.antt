-- ===== src/Local/Client.antt =====
-- lab_08/part1/client.c: the message of the client, and its one exchange with the server.
use os6_bmstu_iu.Common.{
  ℕ, Bool, not, Option, none, some, List, [], ◌∷◌, ◌++◌, codes, length, ltb, if◌then◌else◌, print,
  c_string,
}
use os6_bmstu_iu.Local.{max_msg_len, failure}

abbrev pub lf : ℕ
lf = 10

-- What `createMessage` writes; `ctime` gives the time.
unfoldable pub message : (pid : ℕ) → (ctime : List ℕ) → (argument : Option (List ℕ)) → List ℕ
message pid ctime argument =
    lf
    ∷ (codes "PID: "
        ++ (print pid
            ++ (lf
                ∷ (codes "Time: "
                    ++ (ctime
                        ++ (codes " Message: " ++ (elim argument [
                          | none ↦ codes "Tsvetkov IU7-63B" ++ (lf ∷ [])
                          | some text ↦ text
                        ])))))))

-- `createMessage`: `none` where it writes behind `buf`.
unfoldable pub create_message :
    (pid : ℕ) → (ctime : List ℕ) → (argument : Option (List ℕ)) → Option (List ℕ)
create_message pid ctime argument =
    let text = message pid ctime argument in
    if ltb (length text) max_msg_len then some text else none

-- What the calls answer; `recv` fills the front of the client's memory, which is never checked.
pub record Answers : Type 0 where
  pub socket : Bool
  pub connect : Bool
  pub send : Bool
  pub memory : List ℕ

-- How the client ends: it has read or written where it may not, or it returns a status and has sent
-- and printed something.
pub data Ending : Type 0 where
  crashed : Ending
  returned : (status : ℕ) → (sent printed : Option (List ℕ)) → Ending

-- `main`
unfoldable pub main : (pid : ℕ) → (ctime : List ℕ) → (argument : Option (List ℕ)) → Answers → Ending
main pid ctime argument a = elim (create_message pid ctime argument) [
  | none ↦ crashed
  | some text ↦
      if not a.socket
      then returned failure none none
      else if not a.connect
      then returned failure none none
      else if not a.send
      then returned failure none none
      else elim (c_string a.memory) [
        | none ↦ crashed
        | some reply ↦ returned 0 (some (text ++ (0 ∷ []))) (some reply)
      ]
]
