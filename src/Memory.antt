-- ===== src/Memory.antt =====
-- The C heap as the agent uses it: how often `malloc` was called and how many blocks it holds.
-- Which calls of `malloc` succeed is a parameter, indexed by the number of the call.
use empower_enb_agent.Base.{
  ℕ, suc, ◌-◌, Bool, true, false, Option, none, some, List, take, if◌then◌else◌,
}

pub record Mem : Type 0 where
  pub calls : ℕ
  pub live : ℕ

-- The result is whether the pointer is not null.
unfoldable pub malloc : (ℕ → Bool) → Mem → Mem × Bool
malloc ok m =
    if ok m.calls
    then (record { calls = suc m.calls; live = suc m.live }, true)
    else (record { calls = suc m.calls; live = m.live }, false)

unfoldable pub free : Mem → Mem
free m = record m { live = m.live - 1 }

-- `if(p) free(p)`.
unfoldable pub free_msg : Option (List ℕ) → Mem → Mem
unfolding free
free_msg none m = m
free_msg (some bytes) m = free m

-- The block that a message field holds.
abbrev pub msg_blocks : Option (List ℕ) → ℕ
msg_blocks none = 0
msg_blocks (some bytes) = 1

-- `if(msg) { ret->msg = malloc(size); … memcpy(ret->msg, msg, size); ret->msg_size = size; }` for a
-- `ret` cleared before: the new `msg` and `msg_size`, or `none` if `malloc` fails.
unfoldable pub copy_msg :
    (ℕ → Bool) → Mem → Option (List ℕ) → ℕ → Mem × Option (Option (List ℕ) × ℕ)
unfolding malloc
copy_msg ok m none size = (m, some (none, 0))
copy_msg ok m (some bytes) size =
    let (m', got) = malloc ok m in
    if got then (m', some (some (take size bytes), size)) else (m', none)
