-- ===== src/Kernel.antt =====
-- What a kernel module holds, as the calls that it has made leave it. The answers of the kernel
-- are parameters of the modules' functions; what is kept here is the order of the calls.
use os6_bmstu_iu.Common.{
  ℕ, Bool, true, false, Option, none, some, List, [], ◌∷◌, str_eq, if◌then◌else◌, ◌>>=◌,
}

-- A block of memory, an entry of /proc, a handler on an interrupt line, a work queue, a cache of
-- objects, a registered file system, each with the name that the module has for it.
pub data Resource : Type 0 where
  memory : List ℕ → Resource
  entry : List ℕ → Resource
  handler : List ℕ → Resource
  queue : List ℕ → Resource
  cache : List ℕ → Resource
  filesystem : List ℕ → Resource

abbrev pub same : Resource → Resource → Bool
same (memory a) (memory b) = str_eq a b
same (entry a) (entry b) = str_eq a b
same (handler a) (handler b) = str_eq a b
same (queue a) (queue b) = str_eq a b
same (cache a) (cache b) = str_eq a b
same (filesystem a) (filesystem b) = str_eq a b
same _ _ = false

-- A call that took a resource, and one that gave it back.
pub data Call : Type 0 where
  took : Resource → Call
  gave : Resource → Call

abbrev pub without : Resource → List Resource → Option (List Resource)
without r [] = none
without r (x ∷ xs) = if same r x then some xs else (without r xs >>= λ l. some (x ∷ l))

-- What is held after the calls, from what was held before them: `none` is a resource given back
-- that was not held.
abbrev pub held : List Resource → List Call → Option (List Resource)
held now [] = some now
held now (took r ∷ cs) = held (r ∷ now) cs
held now (gave r ∷ cs) = without r now >>= λ l. held l cs

-- Is the resource among those held?
abbrev pub has : Resource → List Resource → Bool
has r [] = false
has r (x ∷ xs) = if same r x then true else has r xs
