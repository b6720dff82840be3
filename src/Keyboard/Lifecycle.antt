-- ===== src/Keyboard/Lifecycle.antt =====
-- lab_09: what the loads of part1/main.c and of part2/main.c hold, and what their unloads give
-- back.
use os6_bmstu_iu.Common.{
  zero, suc, ◌≡◌, ◌≢◌, ◌⊎◌, inl, inr, refl, Bool, true, false, not, some, List, [], ◌∷◌, ◌++◌, ℤ,
  pos, negsuc, codes, if◌then◌else◌,
}
use os6_bmstu_iu.Kernel.{Resource, memory, entry, handler, queue, Call, took, gave, held, has}

-- The answers of the kernel to the load of part1: whether `kmalloc` and `proc_create` give a
-- pointer, and the value of `request_irq`.
pub record Answers : Type 0 where
  pub kmalloc : Bool
  pub create : Bool
  pub ret : ℤ

abbrev pub is_zero : ℤ → Bool
is_zero (pos zero) = true
is_zero _ = false

abbrev pub tasklet : Resource
tasklet = memory (codes "my_tasklet")

abbrev pub line : Resource
line = handler (codes "my_irq_handler")

abbrev pub proc_file : Resource
proc_file = entry (codes "proc_file_name")

-- `-1` and `-ENOMEM`
abbrev pub minus_one : ℤ
minus_one = negsuc 0

abbrev pub enomem : ℤ
enomem = negsuc 11

-- `my_tasklet_init`: its value and the calls that took something.
unfoldable pub my_tasklet_init : Answers → ℤ × List Call
my_tasklet_init a =
    if not a.kmalloc
    then (minus_one, [])
    else let requested = if is_zero a.ret then took line ∷ [] else [] in
      if not a.create
      then (enomem, took tasklet ∷ requested)
      else (a.ret, (took tasklet ∷ requested) ++ (took proc_file ∷ []))

-- `my_tasklet_exit`, after the calls that were made before it.
unfoldable pub my_tasklet_end : List Call → List Call
my_tasklet_end calls = calls ++ (gave tasklet ∷ gave line ∷ gave proc_file ∷ [])

-- `work_queue_init` of part2, where `ret` is the value of `request_irq` and `created` says whether
-- `create_workqueue` gives a queue.
abbrev pub line2 : Resource
line2 = handler (codes "my_irq2_handler")

abbrev pub my_queue : Resource
my_queue = queue (codes "my_queue")

unfoldable pub work_queue_init : (ret : ℤ) → (created : Bool) → ℤ × List Call
work_queue_init ret created =
    if not (is_zero ret)
    then (ret, [])
    else if not created
    then (enomem, took line2 ∷ gave line2 ∷ [])
    else (pos 0, took line2 ∷ took my_queue ∷ [])

-- `work_queue_exit`, after the calls that were made before it.
unfoldable pub work_queue_end : List Call → List Call
work_queue_end calls = calls ++ (gave my_queue ∷ gave line2 ∷ [])

-- A load that returns 0 and its unload, or a load that does not.
abbrev pub Ends : Answers → ℤ × List Call → Type 0
Ends a r =
    ((r.0 ≡ pos 0) × (held [] (my_tasklet_end (r.1)) ≡ some []))
    ⊎ ((r.0 ≢ pos 0)
        × ((l : List Resource) × (held [] (r.1) ≡ some l) × (has tasklet l ≡ a.kmalloc)))

-- A load that returns 0 is undone by the unload; after any other load the block of the tasklet is
-- still held if, and only if, `kmalloc` gave it.
pub my_tasklet_init-Ends : (a : Answers) → Ends a (my_tasklet_init a)
unfolding my_tasklet_init my_tasklet_end
my_tasklet_init-Ends a = by_answers a.kmalloc a.create a.ret
  where
    by_answers :
        (k c : Bool) (ret : ℤ)
        → Ends
            (record { kmalloc = k; create = c; ret = ret })
            (my_tasklet_init (record { kmalloc = k; create = c; ret = ret }))
    by_answers false c ret = inr ((λ e. cc), ([], refl, refl))
    by_answers true false (pos zero) = inr ((λ e. cc), (_, refl, refl))
    by_answers true false (pos (suc n)) = inr ((λ e. cc), (_, refl, refl))
    by_answers true false (negsuc n) = inr ((λ e. cc), (_, refl, refl))
    by_answers true true (pos zero) = inl (refl, refl)
    by_answers true true (pos (suc n)) = inr ((λ e. cc), (_, refl, refl))
    by_answers true true (negsuc n) = inr ((λ e. cc), (_, refl, refl))

abbrev pub Undone : ℤ × List Call → Type 0
Undone r =
    ((r.0 ≡ pos 0) × (held [] (work_queue_end (r.1)) ≡ some []))
    ⊎ ((r.0 ≢ pos 0) × (held [] (r.1) ≡ some []))

-- Every load of part2 that fails holds nothing, and one that does not is undone by the unload.
pub work_queue_init-Undone : (ret : ℤ) (created : Bool) → Undone (work_queue_init ret created)
unfolding work_queue_init work_queue_end
work_queue_init-Undone (pos zero) true = inl (refl, refl)
work_queue_init-Undone (pos zero) false = inr ((λ e. cc), refl)
work_queue_init-Undone (pos (suc n)) created = inr ((λ e. cc), refl)
work_queue_init-Undone (negsuc n) created = inr ((λ e. cc), refl)
