-- ===== src/Framework/Consumer/Limits.antt =====
-- The memory limit of the consumer's containers, with `int64` arithmetic.
use autoscale_tests.Base.{ℕ, ◌*◌, ◌<◌, ◌≡◌, arith}
use autoscale_tests.Framework.Consumer.{ResourceConsumerConfig, memory_limit, mem_bytes}

-- A residue that stands for an `int64` which is not negative, so for itself.
abbrev pub IsNonnegative : ℕ → Type 0
IsNonnegative n = n < 9223372036854775808

-- With no limit configured, and a memory request below 2 ^ 42 megabytes, no product overflows
-- an `int64`: the limit in megabytes, and request and limit in bytes, are not negative, the bytes
-- are exactly those megabytes, and the limit is above the request.
pub memory_limit_above_request :
    (cfg : ResourceConsumerConfig)
    → cfg.mem_limit ≡ 0
    → cfg.mem_request < 4398046511104
    → (mem_bytes cfg.mem_request ≡ cfg.mem_request * 1048576)
      × (mem_bytes (memory_limit cfg) ≡ memory_limit cfg * 1048576)
      × IsNonnegative (memory_limit cfg)
      × IsNonnegative (mem_bytes cfg.mem_request)
      × IsNonnegative (mem_bytes (memory_limit cfg))
      × (mem_bytes cfg.mem_request < mem_bytes (memory_limit cfg))
unfolding memory_limit mem_bytes
memory_limit_above_request cfg none_given small = ground arith
