-- ===== src/Mgstack.antt =====
-- src/mgstack.c: a stack of pointers in an array that doubles when it is full. Whether an
-- allocation succeeds and what stands in fresh cells is up to the C library, two parameters; a
-- pointer is a number, and NULL is 0. The array `data` is `slots` here. The one-bit fields `sorted`
-- and `limit_num` are Booleans. The stack that is handed over is not NULL, and its comparison
-- function is an argument of the sorting (Mgstack.Sort). `int` sizes are natural numbers:
-- doubling overflows an `int` from 2^30 cells on, and the theorems about `push` ask for fewer.
pub mod Laws
pub mod Sort
pub mod Sorted
mod Tests
use mg_std.Base.{
  ℕ, zero, suc, ◌+◌, ◌-◌, ◌*◌, ℤ, pos, negsuc, Bool, true, false, Option, none, some, List, [], ◌∷◌,
  ◌++◌, ◌==◌, ◌||◌, not, if◌then◌else◌, get_or, set, replicate,
}

pub record Stack : Type 0 where
  pub data_num : ℕ
  pub alloc_num : ℕ
  pub sorted : Bool
  pub limited : Bool
  pub slots : List ℕ

module _ (allocates : ℕ → Bool) (junk : ℕ → ℕ) where
  -- `mg_stack_init`: the structure and then the array are allocated; `bzero` clears the array.
  unfoldable pub init : (struct_size data_max : ℕ) → Option Stack
  init struct_size data_max =
      let n = if data_max == 0 then 64 else data_max in
      if not (allocates struct_size)
      then none
      else if not (allocates (8 * n))
      then none
      else some (record {
        data_num = 0;
        alloc_num = n;
        sorted = false;
        limited = not (data_max == 0);
        slots = replicate n 0;
      })

  -- The cells that `realloc` adds, `n` of them from index `i` on.
  unfoldable pub cells : (n i : ℕ) → List ℕ
  cells zero i = []
  cells (suc n) i = junk i ∷ cells n (i + 1)

  -- `stack->data[stack->data_num] = data; stack->data_num++; stack->sorted = 0`
  unfoldable pub store : Stack → ℕ → Stack
  store s x = record s {
    slots = set s.slots s.data_num x;
    data_num = s.data_num + 1;
    sorted = false;
  }

  -- `int num = stack->alloc_num * 2`, which stays an `int` if there are fewer than 2^30 cells.
  unfoldable pub grow : Stack → Stack
  unfolding cells
  grow s =
      let num = s.alloc_num * 2 in
      record s { slots = s.slots ++ cells (num - s.alloc_num) s.alloc_num; alloc_num = num }

  -- The return code and the stack that is left.
  unfoldable pub push : Stack → ℕ → ℤ × Stack
  unfolding store grow
  push s x =
      if x == 0
      then (negsuc 0, s)
      else if s.data_num == s.alloc_num
      then (if s.limited
          then (negsuc 1, s)
          else if not (allocates (8 * (s.alloc_num * 2)))
          then (negsuc 2, s)
          else (pos 0, store (grow s) x))
      else (pos 0, store s x)

-- The pointer that is returned, NULL for an empty stack, and the stack that is left.
unfoldable pub pop : Stack → ℕ × Stack
pop s =
    if s.data_num == 0
    then (0, s)
    else (get_or s.slots (s.data_num - 1) 0, record s { data_num = s.data_num - 1 })
