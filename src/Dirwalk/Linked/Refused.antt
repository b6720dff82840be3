-- ===== src/Dirwalk/Linked/Refused.antt =====
-- lab_02: what happens when a node cannot be made, or cannot hold the name.
use os6_bmstu_iu.Common.{ℕ, ◌≤◌, ◌≡◌, ◌≢◌, List, ℤ, length, arith}
use os6_bmstu_iu.Dirwalk.Memory.{Ptr, null, Mem, fault, load}
use os6_bmstu_iu.Dirwalk.Stack.{max_name, create_node, push}
use os6_bmstu_iu.Dirwalk.Linked.{create_push}

-- When `malloc` fails, `create_node` gives `NULL`, which `push` then reads: the caller does not
-- look at it.
pub create_push-null :
    (malloc : Mem → Ptr) (fuel : ℕ) (name : List ℕ) (d : ℤ) (stk : Ptr) (m : Mem)
    → malloc m ≡ null
    → create_push malloc fuel name d stk m ≡ fault
unfolding create_push create_node push load
create_push-null malloc fuel name d stk m failed = ground arith

-- A name of 200 bytes or more, and the bytes of a `struct dirent` may be 255, overflows the node.
pub create_push-long :
    (malloc : Mem → Ptr) (fuel : ℕ) (name : List ℕ) (d : ℤ) (stk : Ptr) (m : Mem)
    → malloc m ≢ null
    → max_name ≤ length name
    → create_push malloc fuel name d stk m ≡ fault
unfolding create_push create_node
create_push-long malloc fuel name d stk m got long = ground arith
