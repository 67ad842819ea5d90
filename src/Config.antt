-- ===== src/Config.antt =====
-- src/KadConfig.h.in: the constants of the node.
use kad.Common.{ℕ}

abbrev pub id_bits : ℕ
id_bits = 160

abbrev pub id_size : ℕ
id_size = 20

abbrev pub alpha : ℕ
alpha = 3

-- `KADEMLIA_B`, `KADEMLIA_RT_BASE`.
abbrev pub log_base : ℕ
log_base = 2

abbrev pub rt_base : ℕ
rt_base = 3

abbrev pub bucket_size : ℕ
bucket_size = 16

abbrev pub cache_size : ℕ
cache_size = 8

-- `KADEMLIA_STALE`.
abbrev pub stale_limit : ℕ
stale_limit = 3
