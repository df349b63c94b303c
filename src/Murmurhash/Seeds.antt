-- ===== src/Murmurhash/Seeds.antt =====
-- src/mgmurmurhash.c: three of the hash functions on different seeds, side by side.
use mg_std.Base.{ℕ, ◌<◌, ◌^◌, ◌≢◌, List, length, arith}
use mg_std.Murmurhash.{murmurhash64, murmurhash3_x86_32}
use mg_std.Murmurhash.Wide.{murmurhash3_x64_128}
use mg_std.Murmurhash.Seed.{x86_32_seed_differs}
use mg_std.Murmurhash.Seed64.{murmurhash64_seed_differs}
use mg_std.Murmurhash.Seed128.{x64_128_seed_differs}

-- For every key shorter than 2^31 bytes, each of mgMurmurhash3_x86_32, mgMurmurhash3_x64_128 and
-- mgMurmurhash64 gives different results for different 32-bit seeds.
pub seeds_differ :
    (key : List ℕ) (seed seed' : ℕ)
    → length key < 2 ^ 31
    → seed < 2 ^ 32
    → seed' < 2 ^ 32
    → seed ≢ seed'
    → (murmurhash3_x86_32 key seed ≢ murmurhash3_x86_32 key seed')
      × (murmurhash3_x64_128 key seed ≢ murmurhash3_x64_128 key seed')
      × (murmurhash64 key seed ≢ murmurhash64 key seed')
seeds_differ key seed seed' small l l' ne =
    let short : length key < 2 ^ 32 = omega (arith, small) in
    (
      x86_32_seed_differs key seed seed' short l l' ne,
      x64_128_seed_differs key seed seed' short l l' ne,
      murmurhash64_seed_differs key seed seed' l l' ne,
    )
