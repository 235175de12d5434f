-- ===== src/Thumb/Disassemble/Wide/Order.antt =====
-- The tests of the 32-bit half of `thumb_disassemble` in monitor/thumb_asm.c: where one holds, those
-- before it fail.
use tw_monitor.Common.{ℕ, ◌^◌, ◌<◌, ◌≡◌, true, false, arith, ◌≢◌}
use tw_monitor.Encoding.Macros.{bit_extract_lem}
use tw_monitor.Encoding.Add.{match_addw_i_t4}
use tw_monitor.Encoding.Sub.{match_subw_i_t4}
use tw_monitor.Encoding.BranchWide.{match_b_cond_t3_noit, decode_b_cond_t3_noit, match_b_t4}
use tw_monitor.Encoding.BranchWide.{match_bl_t1}
use tw_monitor.Encoding.LoadWide.{match_ldr_i_t3, match_ldr_i_t4, match_ldr_lit_t2}
use tw_monitor.Encoding.LoadWide.{decode_ldr_lit_t2, match_ldr_r_t2_lsl, decode_ldr_r_t2_lsl}
use tw_monitor.Encoding.Move.{match_movw_i_t3, match_mov_r_t3_opt_s}
use tw_monitor.Encoding.Pop.{match_pop_t2, match_pop_t3}
use tw_monitor.Encoding.Push.{match_push_t2, match_push_t3}
use tw_monitor.Encoding.Trap.{match_udf_t2, match_nop_t2}

pub nop_t2_first : (w : ℕ) → match_nop_t2 w ≡ true → (match_udf_t2 w ≡ false)
unfolding match_udf_t2 match_nop_t2
nop_t2_first w m = ground (
  arith,
  bit_extract_lem w 28 4,
  bit_extract_lem w 4 12,
  bit_extract_lem w 16 16,
  bit_extract_lem w 0 16,
)

pub movw_i_t3_first :
    (w : ℕ) → match_movw_i_t3 w ≡ true → (match_udf_t2 w ≡ false) × (match_nop_t2 w ≡ false)
unfolding match_udf_t2 match_nop_t2 match_movw_i_t3
movw_i_t3_first w m = ground (
  arith,
  bit_extract_lem w 28 4,
  bit_extract_lem w 4 12,
  bit_extract_lem w 16 16,
  bit_extract_lem w 0 16,
  bit_extract_lem w 31 1,
  bit_extract_lem w 11 5,
  bit_extract_lem w 4 6,
)

pub mov_r_t3_opt_s_first :
    (w : ℕ)
    → match_mov_r_t3_opt_s w ≡ true
    → (match_udf_t2 w ≡ false) × (match_nop_t2 w ≡ false) × (match_movw_i_t3 w ≡ false)
unfolding match_udf_t2 match_nop_t2 match_movw_i_t3 match_mov_r_t3_opt_s
mov_r_t3_opt_s_first w m = ground (
  arith,
  bit_extract_lem w 28 4,
  bit_extract_lem w 4 12,
  bit_extract_lem w 16 16,
  bit_extract_lem w 0 16,
  bit_extract_lem w 31 1,
  bit_extract_lem w 11 5,
  bit_extract_lem w 4 6,
  bit_extract_lem w 20 4,
  bit_extract_lem w 5 11,
  bit_extract_lem w 0 4,
)

pub b_t4_first :
    (w : ℕ)
    → match_b_t4 w ≡ true
    → (match_udf_t2 w ≡ false)
      × (match_nop_t2 w ≡ false)
      × (match_movw_i_t3 w ≡ false)
      × (match_mov_r_t3_opt_s w ≡ false)
unfolding match_udf_t2 match_nop_t2 match_movw_i_t3 match_mov_r_t3_opt_s match_b_t4
b_t4_first w m = ground (
  arith,
  bit_extract_lem w 28 4,
  bit_extract_lem w 4 12,
  bit_extract_lem w 16 16,
  bit_extract_lem w 0 16,
  bit_extract_lem w 31 1,
  bit_extract_lem w 11 5,
  bit_extract_lem w 4 6,
  bit_extract_lem w 20 4,
  bit_extract_lem w 5 11,
  bit_extract_lem w 0 4,
  bit_extract_lem w 30 2,
  bit_extract_lem w 28 1,
)

pub b_cond_t3_noit_first :
    (w : ℕ)
    → match_b_cond_t3_noit w ≡ true
    → (decode_b_cond_t3_noit w).cond < 14
    → (match_udf_t2 w ≡ false)
      × (match_nop_t2 w ≡ false)
      × (match_movw_i_t3 w ≡ false)
      × (match_mov_r_t3_opt_s w ≡ false)
      × (match_b_t4 w ≡ false)
unfolding match_udf_t2 match_nop_t2 match_movw_i_t3 match_mov_r_t3_opt_s match_b_t4
    match_b_cond_t3_noit decode_b_cond_t3_noit
b_cond_t3_noit_first w m r = ground (
  arith,
  bit_extract_lem w 28 4,
  bit_extract_lem w 4 12,
  bit_extract_lem w 16 16,
  bit_extract_lem w 0 16,
  bit_extract_lem w 31 1,
  bit_extract_lem w 11 5,
  bit_extract_lem w 4 6,
  bit_extract_lem w 20 4,
  bit_extract_lem w 5 11,
  bit_extract_lem w 0 4,
  bit_extract_lem w 30 2,
  bit_extract_lem w 28 1,
  bit_extract_lem w 29 1,
  bit_extract_lem w 27 1,
  bit_extract_lem w 16 11,
  bit_extract_lem w 10 1,
  bit_extract_lem w 6 4,
  bit_extract_lem w 0 6,
)

pub ldr_i_t3_first :
    (w : ℕ)
    → match_ldr_i_t3 w ≡ true
    → (match_udf_t2 w ≡ false)
      × (match_nop_t2 w ≡ false)
      × (match_movw_i_t3 w ≡ false)
      × (match_mov_r_t3_opt_s w ≡ false)
      × (match_b_t4 w ≡ false)
      × (match_b_cond_t3_noit w ≡ false)
unfolding match_udf_t2 match_nop_t2 match_movw_i_t3 match_mov_r_t3_opt_s match_b_t4
    match_b_cond_t3_noit match_ldr_i_t3
ldr_i_t3_first w m = ground (
  arith,
  bit_extract_lem w 28 4,
  bit_extract_lem w 4 12,
  bit_extract_lem w 16 16,
  bit_extract_lem w 0 16,
  bit_extract_lem w 31 1,
  bit_extract_lem w 11 5,
  bit_extract_lem w 4 6,
  bit_extract_lem w 20 4,
  bit_extract_lem w 5 11,
  bit_extract_lem w 0 4,
  bit_extract_lem w 30 2,
  bit_extract_lem w 28 1,
)

pub ldr_i_t4_first :
    (w : ℕ)
    → match_ldr_i_t4 w ≡ true
    → (match_udf_t2 w ≡ false)
      × (match_nop_t2 w ≡ false)
      × (match_movw_i_t3 w ≡ false)
      × (match_mov_r_t3_opt_s w ≡ false)
      × (match_b_t4 w ≡ false)
      × (match_b_cond_t3_noit w ≡ false)
      × (match_ldr_i_t3 w ≡ false)
unfolding match_udf_t2 match_nop_t2 match_movw_i_t3 match_mov_r_t3_opt_s match_b_t4
    match_b_cond_t3_noit match_ldr_i_t3 match_ldr_i_t4
ldr_i_t4_first w m = ground (
  arith,
  bit_extract_lem w 28 4,
  bit_extract_lem w 4 12,
  bit_extract_lem w 16 16,
  bit_extract_lem w 0 16,
  bit_extract_lem w 31 1,
  bit_extract_lem w 11 5,
  bit_extract_lem w 4 6,
  bit_extract_lem w 20 4,
  bit_extract_lem w 5 11,
  bit_extract_lem w 0 4,
  bit_extract_lem w 30 2,
  bit_extract_lem w 28 1,
  bit_extract_lem w 27 1,
)

pub ldr_lit_t2_first :
    (w : ℕ)
    → match_ldr_lit_t2 w ≡ true
    → ((decode_ldr_lit_t2 w).add ≡ 0) × ((decode_ldr_lit_t2 w).imm12 < 2 ^ 11)
    → (match_udf_t2 w ≡ false)
      × (match_nop_t2 w ≡ false)
      × (match_movw_i_t3 w ≡ false)
      × (match_mov_r_t3_opt_s w ≡ false)
      × (match_b_t4 w ≡ false)
      × (match_b_cond_t3_noit w ≡ false)
      × (match_ldr_i_t3 w ≡ false)
      × (match_ldr_i_t4 w ≡ false)
unfolding match_udf_t2 match_nop_t2 match_movw_i_t3 match_mov_r_t3_opt_s match_b_t4
    match_b_cond_t3_noit match_ldr_i_t3 match_ldr_i_t4 match_ldr_lit_t2 decode_ldr_lit_t2
ldr_lit_t2_first w m r = ground (
  arith,
  bit_extract_lem w 28 4,
  bit_extract_lem w 4 12,
  bit_extract_lem w 16 16,
  bit_extract_lem w 0 16,
  bit_extract_lem w 31 1,
  bit_extract_lem w 11 5,
  bit_extract_lem w 4 6,
  bit_extract_lem w 20 4,
  bit_extract_lem w 5 11,
  bit_extract_lem w 0 4,
  bit_extract_lem w 30 2,
  bit_extract_lem w 28 1,
  bit_extract_lem w 27 1,
  bit_extract_lem w 8 8,
  bit_extract_lem w 0 7,
  bit_extract_lem w 16 12,
  bit_extract_lem w 7 1,
)

pub ldr_r_t2_lsl_first :
    (w : ℕ)
    → match_ldr_r_t2_lsl w ≡ true
    → (decode_ldr_r_t2_lsl w).rn ≢ 15
    → (match_udf_t2 w ≡ false)
      × (match_nop_t2 w ≡ false)
      × (match_movw_i_t3 w ≡ false)
      × (match_mov_r_t3_opt_s w ≡ false)
      × (match_b_t4 w ≡ false)
      × (match_b_cond_t3_noit w ≡ false)
      × (match_ldr_i_t3 w ≡ false)
      × (match_ldr_i_t4 w ≡ false)
      × (match_ldr_lit_t2 w ≡ false)
unfolding match_udf_t2 match_nop_t2 match_movw_i_t3 match_mov_r_t3_opt_s match_b_t4
    match_b_cond_t3_noit match_ldr_i_t3 match_ldr_i_t4 match_ldr_lit_t2 match_ldr_r_t2_lsl
    decode_ldr_r_t2_lsl
ldr_r_t2_lsl_first w m r = ground (
  arith,
  bit_extract_lem w 28 4,
  bit_extract_lem w 4 12,
  bit_extract_lem w 16 16,
  bit_extract_lem w 0 16,
  bit_extract_lem w 31 1,
  bit_extract_lem w 11 5,
  bit_extract_lem w 4 6,
  bit_extract_lem w 20 4,
  bit_extract_lem w 5 11,
  bit_extract_lem w 0 4,
  bit_extract_lem w 30 2,
  bit_extract_lem w 28 1,
  bit_extract_lem w 27 1,
  bit_extract_lem w 8 8,
  bit_extract_lem w 0 7,
  bit_extract_lem w 22 6,
  bit_extract_lem w 20 2,
  bit_extract_lem w 16 4,
)

pub bl_t1_first :
    (w : ℕ)
    → match_bl_t1 w ≡ true
    → (match_udf_t2 w ≡ false)
      × (match_nop_t2 w ≡ false)
      × (match_movw_i_t3 w ≡ false)
      × (match_mov_r_t3_opt_s w ≡ false)
      × (match_b_t4 w ≡ false)
      × (match_b_cond_t3_noit w ≡ false)
      × (match_ldr_i_t3 w ≡ false)
      × (match_ldr_i_t4 w ≡ false)
      × (match_ldr_lit_t2 w ≡ false)
      × (match_ldr_r_t2_lsl w ≡ false)
unfolding match_udf_t2 match_nop_t2 match_movw_i_t3 match_mov_r_t3_opt_s match_b_t4
    match_b_cond_t3_noit match_ldr_i_t3 match_ldr_i_t4 match_ldr_lit_t2 match_ldr_r_t2_lsl
    match_bl_t1
bl_t1_first w m = ground (
  arith,
  bit_extract_lem w 28 4,
  bit_extract_lem w 4 12,
  bit_extract_lem w 16 16,
  bit_extract_lem w 0 16,
  bit_extract_lem w 31 1,
  bit_extract_lem w 11 5,
  bit_extract_lem w 4 6,
  bit_extract_lem w 20 4,
  bit_extract_lem w 5 11,
  bit_extract_lem w 0 4,
  bit_extract_lem w 30 2,
  bit_extract_lem w 28 1,
  bit_extract_lem w 27 1,
  bit_extract_lem w 8 8,
  bit_extract_lem w 0 7,
  bit_extract_lem w 22 6,
)

pub pop_t2_first :
    (w : ℕ)
    → match_pop_t2 w ≡ true
    → (match_udf_t2 w ≡ false)
      × (match_nop_t2 w ≡ false)
      × (match_movw_i_t3 w ≡ false)
      × (match_mov_r_t3_opt_s w ≡ false)
      × (match_b_t4 w ≡ false)
      × (match_b_cond_t3_noit w ≡ false)
      × (match_ldr_i_t3 w ≡ false)
      × (match_ldr_i_t4 w ≡ false)
      × (match_ldr_lit_t2 w ≡ false)
      × (match_ldr_r_t2_lsl w ≡ false)
      × (match_bl_t1 w ≡ false)
unfolding match_udf_t2 match_nop_t2 match_movw_i_t3 match_mov_r_t3_opt_s match_b_t4
    match_b_cond_t3_noit match_ldr_i_t3 match_ldr_i_t4 match_ldr_lit_t2 match_ldr_r_t2_lsl
    match_bl_t1 match_pop_t2
pop_t2_first w m = ground (
  arith,
  bit_extract_lem w 28 4,
  bit_extract_lem w 4 12,
  bit_extract_lem w 16 16,
  bit_extract_lem w 0 16,
  bit_extract_lem w 31 1,
  bit_extract_lem w 11 5,
  bit_extract_lem w 4 6,
  bit_extract_lem w 20 4,
  bit_extract_lem w 5 11,
  bit_extract_lem w 0 4,
  bit_extract_lem w 30 2,
  bit_extract_lem w 28 1,
  bit_extract_lem w 27 1,
  bit_extract_lem w 8 8,
  bit_extract_lem w 0 7,
  bit_extract_lem w 22 6,
  bit_extract_lem w 29 1,
)

pub push_t2_first :
    (w : ℕ)
    → match_push_t2 w ≡ true
    → (match_udf_t2 w ≡ false)
      × (match_nop_t2 w ≡ false)
      × (match_movw_i_t3 w ≡ false)
      × (match_mov_r_t3_opt_s w ≡ false)
      × (match_b_t4 w ≡ false)
      × (match_b_cond_t3_noit w ≡ false)
      × (match_ldr_i_t3 w ≡ false)
      × (match_ldr_i_t4 w ≡ false)
      × (match_ldr_lit_t2 w ≡ false)
      × (match_ldr_r_t2_lsl w ≡ false)
      × (match_bl_t1 w ≡ false)
      × (match_pop_t2 w ≡ false)
      × (match_pop_t3 w ≡ false)
unfolding match_udf_t2 match_nop_t2 match_movw_i_t3 match_mov_r_t3_opt_s match_b_t4
    match_b_cond_t3_noit match_ldr_i_t3 match_ldr_i_t4 match_ldr_lit_t2 match_ldr_r_t2_lsl
    match_bl_t1 match_pop_t2 match_pop_t3 match_push_t2
push_t2_first w m = ground (
  arith,
  bit_extract_lem w 28 4,
  bit_extract_lem w 4 12,
  bit_extract_lem w 16 16,
  bit_extract_lem w 0 16,
  bit_extract_lem w 31 1,
  bit_extract_lem w 11 5,
  bit_extract_lem w 4 6,
  bit_extract_lem w 20 4,
  bit_extract_lem w 5 11,
  bit_extract_lem w 0 4,
  bit_extract_lem w 30 2,
  bit_extract_lem w 28 1,
  bit_extract_lem w 27 1,
  bit_extract_lem w 8 8,
  bit_extract_lem w 0 7,
  bit_extract_lem w 22 6,
  bit_extract_lem w 29 1,
  bit_extract_lem w 16 12,
)

pub push_t3_first :
    (w : ℕ)
    → match_push_t3 w ≡ true
    → (match_udf_t2 w ≡ false)
      × (match_nop_t2 w ≡ false)
      × (match_movw_i_t3 w ≡ false)
      × (match_mov_r_t3_opt_s w ≡ false)
      × (match_b_t4 w ≡ false)
      × (match_b_cond_t3_noit w ≡ false)
      × (match_ldr_i_t3 w ≡ false)
      × (match_ldr_i_t4 w ≡ false)
      × (match_ldr_lit_t2 w ≡ false)
      × (match_ldr_r_t2_lsl w ≡ false)
      × (match_bl_t1 w ≡ false)
      × (match_pop_t2 w ≡ false)
      × (match_pop_t3 w ≡ false)
      × (match_push_t2 w ≡ false)
unfolding match_udf_t2 match_nop_t2 match_movw_i_t3 match_mov_r_t3_opt_s match_b_t4
    match_b_cond_t3_noit match_ldr_i_t3 match_ldr_i_t4 match_ldr_lit_t2 match_ldr_r_t2_lsl
    match_bl_t1 match_pop_t2 match_pop_t3 match_push_t2 match_push_t3
push_t3_first w m = ground (
  arith,
  bit_extract_lem w 28 4,
  bit_extract_lem w 4 12,
  bit_extract_lem w 16 16,
  bit_extract_lem w 0 16,
  bit_extract_lem w 31 1,
  bit_extract_lem w 11 5,
  bit_extract_lem w 4 6,
  bit_extract_lem w 20 4,
  bit_extract_lem w 5 11,
  bit_extract_lem w 0 4,
  bit_extract_lem w 30 2,
  bit_extract_lem w 28 1,
  bit_extract_lem w 27 1,
  bit_extract_lem w 8 8,
  bit_extract_lem w 0 7,
  bit_extract_lem w 22 6,
  bit_extract_lem w 29 1,
  bit_extract_lem w 16 12,
)

pub addw_i_t4_first :
    (w : ℕ)
    → match_addw_i_t4 w ≡ true
    → (match_udf_t2 w ≡ false)
      × (match_nop_t2 w ≡ false)
      × (match_movw_i_t3 w ≡ false)
      × (match_mov_r_t3_opt_s w ≡ false)
      × (match_b_t4 w ≡ false)
      × (match_b_cond_t3_noit w ≡ false)
      × (match_ldr_i_t3 w ≡ false)
      × (match_ldr_i_t4 w ≡ false)
      × (match_ldr_lit_t2 w ≡ false)
      × (match_ldr_r_t2_lsl w ≡ false)
      × (match_bl_t1 w ≡ false)
      × (match_pop_t2 w ≡ false)
      × (match_pop_t3 w ≡ false)
      × (match_push_t2 w ≡ false)
      × (match_push_t3 w ≡ false)
unfolding match_udf_t2 match_nop_t2 match_movw_i_t3 match_mov_r_t3_opt_s match_b_t4
    match_b_cond_t3_noit match_ldr_i_t3 match_ldr_i_t4 match_ldr_lit_t2 match_ldr_r_t2_lsl
    match_bl_t1 match_pop_t2 match_pop_t3 match_push_t2 match_push_t3 match_addw_i_t4
addw_i_t4_first w m = ground (
  arith,
  bit_extract_lem w 28 4,
  bit_extract_lem w 4 12,
  bit_extract_lem w 16 16,
  bit_extract_lem w 0 16,
  bit_extract_lem w 31 1,
  bit_extract_lem w 11 5,
  bit_extract_lem w 4 6,
  bit_extract_lem w 20 4,
  bit_extract_lem w 5 11,
  bit_extract_lem w 0 4,
  bit_extract_lem w 30 2,
  bit_extract_lem w 28 1,
  bit_extract_lem w 27 1,
  bit_extract_lem w 8 8,
  bit_extract_lem w 0 7,
  bit_extract_lem w 22 6,
  bit_extract_lem w 29 1,
  bit_extract_lem w 16 12,
)

pub subw_i_t4_first :
    (w : ℕ)
    → match_subw_i_t4 w ≡ true
    → (match_udf_t2 w ≡ false)
      × (match_nop_t2 w ≡ false)
      × (match_movw_i_t3 w ≡ false)
      × (match_mov_r_t3_opt_s w ≡ false)
      × (match_b_t4 w ≡ false)
      × (match_b_cond_t3_noit w ≡ false)
      × (match_ldr_i_t3 w ≡ false)
      × (match_ldr_i_t4 w ≡ false)
      × (match_ldr_lit_t2 w ≡ false)
      × (match_ldr_r_t2_lsl w ≡ false)
      × (match_bl_t1 w ≡ false)
      × (match_pop_t2 w ≡ false)
      × (match_pop_t3 w ≡ false)
      × (match_push_t2 w ≡ false)
      × (match_push_t3 w ≡ false)
      × (match_addw_i_t4 w ≡ false)
unfolding match_udf_t2 match_nop_t2 match_movw_i_t3 match_mov_r_t3_opt_s match_b_t4
    match_b_cond_t3_noit match_ldr_i_t3 match_ldr_i_t4 match_ldr_lit_t2 match_ldr_r_t2_lsl
    match_bl_t1 match_pop_t2 match_pop_t3 match_push_t2 match_push_t3 match_addw_i_t4
    match_subw_i_t4
subw_i_t4_first w m = ground (
  arith,
  bit_extract_lem w 28 4,
  bit_extract_lem w 4 12,
  bit_extract_lem w 16 16,
  bit_extract_lem w 0 16,
  bit_extract_lem w 31 1,
  bit_extract_lem w 11 5,
  bit_extract_lem w 4 6,
  bit_extract_lem w 20 4,
  bit_extract_lem w 5 11,
  bit_extract_lem w 0 4,
  bit_extract_lem w 30 2,
  bit_extract_lem w 28 1,
  bit_extract_lem w 27 1,
  bit_extract_lem w 8 8,
  bit_extract_lem w 0 7,
  bit_extract_lem w 22 6,
  bit_extract_lem w 29 1,
  bit_extract_lem w 16 12,
)
