-- ===== src/Digest/Load.antt =====
-- Arrays of words in the hash contexts: `memcpy` of a block of bytes into an array of words on a
-- little-endian machine, loops that fill an array in order, and the printing of words.
use mg_std.Base.{
  ℕ, zero, suc, ◌+◌, ◌*◌, ◌/◌, ◌%◌, ◌^◌, List, [], ◌∷◌, ◌++◌, ltb, if◌then◌else◌, get_or, set, take,
  drop,
}

-- The word that `bytes` stand for, the least significant byte first.
unfoldable pub little_endian : List ℕ → ℕ
little_endian [] = 0
little_endian (b ∷ bytes) = b + 256 * little_endian bytes

-- `memcpy(M, bytes, n * size)` for an array of `n` words of `size` bytes.
unfoldable pub load_words : ℕ → ℕ → List ℕ → List ℕ
unfolding little_endian
load_words size zero bytes = []
load_words size (suc n) bytes =
    little_endian (take size bytes) ∷ load_words size n (drop size bytes)

-- `for (index = i; index < i + n; index++) w[index] = f w index`
unfoldable pub fill : (List ℕ → ℕ → ℕ) → ℕ → ℕ → List ℕ → List ℕ
fill f zero i w = w
fill f (suc n) i w = fill f n (i + 1) (set w i (f w i))

-- A digit of `%x`.
unfoldable pub hex_digit : ℕ → ℕ
hex_digit d = if ltb d 10 then 48 + d else 87 + d

-- `printf` with `%08x` and `%016llx`: `n` digits.
unfoldable pub print_hex : ℕ → ℕ → List ℕ
unfolding hex_digit
print_hex zero x = []
print_hex (suc n) x = hex_digit (x / 16 ^ n % 16) ∷ print_hex n x

-- `for (i = 0; i < n; i++) sprintf(output + i * digits, ..., H[i])`
unfoldable pub print_words : ℕ → ℕ → ℕ → List ℕ → List ℕ
unfolding print_hex
print_words digits zero i h = []
print_words digits (suc n) i h = print_hex digits (get_or h i 0) ++ print_words digits n (i + 1) h
