-- ===== src/Thumb/Registers.antt =====
-- Register lists: `thumb_count_register_list` of monitor/thumb_asm.c, and the loop of the assembler
-- that finds the register of a list with one bit.
pub mod Counts
use tw_monitor.Common.{ℕ, zero, suc, ◌+◌, ◌-◌, ◌/◌, ◌%◌, ◌^◌, bit_and, if◌then◌else◌, ◌==◌}

-- `for (; reglist; count++) reglist &= reglist-1;` on fuel: a `uint16_t` has at most 16 ones.
unfoldable pub count_loop : ℕ → ℕ → ℕ → ℕ
count_loop zero reglist count = count
count_loop (suc fuel) reglist count =
    let rest = count_loop fuel (bit_and reglist (reglist - 1)) (count + 1) in
    if reglist == 0 then count else rest

unfoldable pub thumb_count_register_list : ℕ → ℕ
unfolding count_loop
thumb_count_register_list reglist = count_loop 17 reglist 0

-- `for (uint16_t x = reglist; x; x >>= 1, Rt++);`
unfoldable pub top_loop : ℕ → ℕ → ℕ → ℕ
top_loop zero x rt = rt
top_loop (suc fuel) x rt = let rest = top_loop fuel (x / 2) (rt + 1) in if x == 0 then rt else rest

-- `Rt = 0; for (...); Rt--;` on a `uint32_t`.
unfoldable pub top_register : ℕ → ℕ
unfolding top_loop
top_register reglist = (top_loop 17 reglist 0 + 2 ^ 32 - 1) % 2 ^ 32
