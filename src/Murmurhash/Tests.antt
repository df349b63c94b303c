-- ===== src/Murmurhash/Tests.antt =====
-- Runs of src/mgmurmurhash.c.
use mg_std.Base.{ℕ, List, [], ◌∷◌, ◌≡◌, ◌≢◌, refl, arith}
use mg_std.Digest.Load.{load_words}
use mg_std.Murmurhash.{murmurhash64, murmurhash3_x86_32}
use mg_std.Murmurhash.Seeds.{seeds_differ}
use mg_std.Murmurhash.Wide.{murmurhash3_x64_128}

-- The characters of "hello".
abbrev hello : List ℕ
hello = 104 ∷ 101 ∷ 108 ∷ 108 ∷ 111 ∷ []

-- Published values of MurmurHash3.
empty_x86_32 : murmurhash3_x86_32 [] 1 ≡ 0x514E28B7
unfolding murmurhash3_x86_32 load_words
empty_x86_32 = refl

hello_x86_32 : murmurhash3_x86_32 hello 0 ≡ 0x248bfa47
unfolding murmurhash3_x86_32 load_words
hello_x86_32 = refl

hello_x64_128 :
    murmurhash3_x64_128 hello 0 ≡ record { h1 = 0xcbd8a7b341bd9b02; h2 = 0x5b1e906a48ae1d19 }
unfolding murmurhash3_x64_128 load_words
hello_x64_128 = refl

seeds_differ_example :
    (murmurhash3_x86_32 hello 7 ≢ murmurhash3_x86_32 hello 8)
    × (murmurhash3_x64_128 hello 7 ≢ murmurhash3_x64_128 hello 8)
    × (murmurhash64 hello 7 ≢ murmurhash64 hello 8)
seeds_differ_example =
    seeds_differ hello 7 8 (omega arith) (omega arith) (omega arith) (omega arith)
