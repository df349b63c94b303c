-- ===== src/Crc32/Laws.antt =====
-- src/mgcrc32.c: the table-driven checksum is the bit-serial CRC-32.
use native.Mathlib.Nat.{pow-suc, mul_comm, mod-eq_of_lt}
use mg_std.Base.{
  ℕ, zero, suc, ◌+◌, ◌*◌, ◌/◌, ◌%◌, ◌^◌, ◌<◌, ◌≡◌, refl, ap, ap₂, ◌∙◌, sym, List, [], ◌∷◌, bit_and,
  bit_xor, arith, get_or, u32,
}
use mg_std.Bits.{bit_and_field, double}
use mg_std.Bits.Xor.{
  bit_xor_comm, bit_xor_assoc, bit_xor-zero, bit_xor-div, bit_xor-mod, bit_xor_fields, bit_xor-lt,
}
use mg_std.Crc32.{Ctx, poly, bit_step, bit_steps, table_from, byte_step, update_mask, checksum}

-- The shift register of the reflected polynomial, one message bit at a time: the bit that leaves
-- decides whether the polynomial is added.
abbrev pub serial_bit : ℕ → ℕ
serial_bit x = bit_xor (x / 2) (x % 2 * poly)

abbrev pub serial_bits : ℕ → ℕ → ℕ
serial_bits zero x = x
serial_bits (suc n) x = serial_bits n (serial_bit x)

-- A byte is added to the low end and shifted out by eight steps.
unfoldable pub serial : ℕ → List ℕ → ℕ
serial x [] = x
serial x (byte ∷ bytes) = serial (serial_bits 8 (bit_xor x byte)) bytes

abbrev pub IsBytes : List ℕ → Type 0
IsBytes [] = Unit
IsBytes (b ∷ bs) = (b < 256) × IsBytes bs

bit_and-one : (x : ℕ) → bit_and x 1 ≡ x % 2
bit_and-one x = bit_and_field 0 1 x ∙ omega arith

bit_step-eq-serial_bit : (x : ℕ) → bit_step x ≡ serial_bit x
unfolding bit_step
bit_step-eq-serial_bit x = ground (arith, bit_and-one x, bit_xor-zero (x / 2))

bit_steps-eq-serial_bits : (n x : ℕ) → bit_steps n x ≡ serial_bits n x
unfolding bit_steps
bit_steps-eq-serial_bits zero x = refl
bit_steps-eq-serial_bits (suc n) x =
    rw (bit_step-eq-serial_bit x) (bit_steps-eq-serial_bits n (serial_bit x))

swap_middle :
    (p q r s : ℕ) → bit_xor (bit_xor p q) (bit_xor r s) ≡ bit_xor (bit_xor p r) (bit_xor q s)
swap_middle p q r s =
    bit_xor_assoc p q (bit_xor r s)
    ∙ ap (bit_xor p) (
        sym (bit_xor_assoc q r s)
        ∙ ap (λ (t : ℕ). bit_xor t s) (bit_xor_comm q r)
        ∙ bit_xor_assoc r q s)
    ∙ sym (bit_xor_assoc p r (bit_xor q s))

-- The feedback of a sum is the sum of the feedbacks.
feedback : (x y : ℕ) → x < 2 → y < 2 → (x + y) % 2 * poly ≡ bit_xor (x * poly) (y * poly)
feedback zero zero h g = refl
feedback zero (suc zero) h g = refl
feedback zero (suc (suc y)) h g = absurd (omega arith)
feedback (suc zero) zero h g = refl
feedback (suc zero) (suc zero) h g = refl
feedback (suc zero) (suc (suc y)) h g = absurd (omega arith)
feedback (suc (suc x)) y h g = absurd (omega arith)

serial_bit-bit_xor : (a b : ℕ) → serial_bit (bit_xor a b) ≡ bit_xor (serial_bit a) (serial_bit b)
serial_bit-bit_xor a b =
    ap₂ bit_xor (bit_xor-div a b) (
      ap (λ (t : ℕ). t * poly) {y = (a % 2 + b % 2) % 2} (omega (arith, bit_xor-mod a b))
      ∙ feedback (a % 2) (b % 2) (omega arith) (omega arith))
    ∙ swap_middle (a / 2) (b / 2) (a % 2 * poly) (b % 2 * poly)

serial_bits-bit_xor :
    (n a b : ℕ) → serial_bits n (bit_xor a b) ≡ bit_xor (serial_bits n a) (serial_bits n b)
serial_bits-bit_xor zero a b = refl
serial_bits-bit_xor (suc n) a b =
    ap (serial_bits n) (serial_bit-bit_xor a b)
    ∙ serial_bits-bit_xor n (serial_bit a) (serial_bit b)

-- The bits above the first `n` only move down during `n` steps.
serial_bits-high :
    (n h l : ℕ) → l < 2 ^ n → serial_bits n (h * 2 ^ n + l) ≡ bit_xor h (serial_bits n l)
serial_bits-high zero h zero f =
    ap (λ (t : ℕ). t) {x = h * 2 ^ 0 + 0} {y = h} (omega arith) ∙ sym (bit_xor-zero h)
serial_bits-high zero h (suc l) f = absurd (omega arith)
serial_bits-high (suc n) h l f =
    let x = h * 2 ^ suc n + l in
    let p : 2 ^ suc n ≡ 2 * 2 ^ n = pow-suc 2 n ∙ mul_comm (2 ^ n) 2 in
    let d : h * 2 ^ suc n ≡ 2 * (h * 2 ^ n) = double h n in
    let half : x / 2 ≡ h * 2 ^ n + l / 2 = omega arith in
    let low : x % 2 ≡ l % 2 = omega arith in
    ap (serial_bits n) (ap₂ (λ (s t : ℕ). bit_xor s (t * poly)) half low)
    ∙ serial_bits-bit_xor n (h * 2 ^ n + l / 2) (l % 2 * poly)
    ∙ ap (λ (t : ℕ). bit_xor t (serial_bits n (l % 2 * poly)))
        (serial_bits-high n h (l / 2) (omega arith))
    ∙ bit_xor_assoc h (serial_bits n (l / 2)) (serial_bits n (l % 2 * poly))
    ∙ ap (bit_xor h) (sym (serial_bits-bit_xor n (l / 2) (l % 2 * poly)))

get_or-table_from : (n i j : ℕ) → j < n → get_or (table_from n i) j 0 ≡ bit_steps 8 (i + j)
unfolding table_from
get_or-table_from zero i j h = absurd (omega arith)
get_or-table_from (suc n) i zero h = ap (bit_steps 8) (omega arith)
get_or-table_from (suc n) i (suc j) h =
    get_or-table_from n (i + 1) j (omega arith) ∙ ap (bit_steps 8) (omega arith)

serial_bit-lt : (x : ℕ) → x < 2 ^ 32 → serial_bit x < 2 ^ 32
serial_bit-lt x h = bit_xor-lt 32 (x / 2) (x % 2 * poly) (omega arith) (omega arith)

serial_bits-lt : (n x : ℕ) → x < 2 ^ 32 → serial_bits n x < 2 ^ 32
serial_bits-lt zero x h = h
serial_bits-lt (suc n) x h = serial_bits-lt n (serial_bit x) (serial_bit-lt x h)

-- One table lookup does the work of eight bit steps.
byte_step-eq-serial_bits :
    (mask byte : ℕ)
    → mask < 2 ^ 32
    → byte < 256
    → byte_step (table_from 256 0) mask byte ≡ serial_bits 8 (bit_xor mask byte)
unfolding byte_step
byte_step-eq-serial_bits mask byte h g =
    let x = bit_xor mask byte in
    let low = bit_xor (mask % 256) byte in
    let small : low < 256 = bit_xor-lt 8 (mask % 256) byte (omega arith) g in
    let whole : mask ≡ mask / 256 * 2 ^ 8 + mask % 256 = omega arith in
    let padded : byte ≡ 0 * 2 ^ 8 + byte = omega arith in
    let split : x ≡ mask / 256 * 2 ^ 8 + low =
      ap₂ bit_xor whole padded
      ∙ bit_xor_fields 8 (mask / 256) 0 (mask % 256) byte (omega arith) g
      ∙ ap (λ (t : ℕ). t * 2 ^ 8 + low) (bit_xor-zero (mask / 256)) in
    let index : bit_and x 0xFF ≡ low = bit_and_field 0 8 x ∙ omega arith in
    let high : bit_and (mask / 2 ^ 8) 0x00FFFFFF ≡ mask / 256 =
      bit_and_field 0 24 (mask / 2 ^ 8) ∙ omega arith in
    let entry : get_or (table_from 256 0) low 0 ≡ serial_bits 8 low =
      get_or-table_from 256 0 low small
      ∙ ap (bit_steps 8) {y = low} (omega arith)
      ∙ bit_steps-eq-serial_bits 8 low in
    ap₂ bit_xor high (ap (λ (t : ℕ). get_or (table_from 256 0) t 0) index ∙ entry)
    ∙ sym (ap (serial_bits 8) split ∙ serial_bits-high 8 (mask / 256) low small)

update_mask-eq-serial :
    (mask : ℕ) (block : List ℕ)
    → mask < 2 ^ 32
    → IsBytes block
    → update_mask (table_from 256 0) mask block ≡ serial mask block
unfolding update_mask serial
update_mask-eq-serial mask [] h b = refl
update_mask-eq-serial mask (byte ∷ block) h b =
    ap (λ (t : ℕ). update_mask (table_from 256 0) t block)
      (byte_step-eq-serial_bits mask byte h b.0)
    ∙ update_mask-eq-serial (serial_bits 8 (bit_xor mask byte)) block
        (serial_bits-lt 8 (bit_xor mask byte) (bit_xor-lt 32 mask byte h (omega (arith, b.0)))) b.1

serial-lt : (x : ℕ) (block : List ℕ) → x < 2 ^ 32 → IsBytes block → serial x block < 2 ^ 32
unfolding serial
serial-lt x [] h b = h
serial-lt x (byte ∷ block) h b =
    serial-lt (serial_bits 8 (bit_xor x byte)) block
      (serial_bits-lt 8 (bit_xor x byte) (bit_xor-lt 32 x byte h (omega (arith, b.0)))) b.1

-- The checksum of a block of bytes is the bit-serial CRC-32 with all ones at the start and
-- inverted at the end, whatever the context held before.
pub checksum-eq-serial :
    (ctx : Ctx) (block : List ℕ)
    → IsBytes block
    → checksum ctx block ≡ bit_xor (serial 0xFFFFFFFF block) 0xFFFFFFFF
unfolding checksum
checksum-eq-serial ctx block b =
    ap (λ (t : ℕ). u32 (bit_xor t 0xFFFFFFFF))
      (update_mask-eq-serial 0xFFFFFFFF block (omega arith) b)
    ∙ mod-eq_of_lt (
        bit_xor-lt 32 (serial 0xFFFFFFFF block) 0xFFFFFFFF
          (serial-lt 0xFFFFFFFF block (omega arith) b) (omega arith))
