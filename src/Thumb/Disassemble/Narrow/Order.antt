-- ===== src/Thumb/Disassemble/Narrow/Order.antt =====
-- The tests of the 16-bit half of `thumb_disassemble` in monitor/thumb_asm.c: where one holds, those
-- before it fail.
use tw_monitor.Common.{ℕ, ◌<◌, ◌≡◌, true, false, arith}
use tw_monitor.Encoding.Macros.{bit_extract_lem}
use tw_monitor.Encoding.Add.{match_adds_i_t1, match_adds_i_t2, match_adds_r_t1, match_add_r_t2}
use tw_monitor.Encoding.Sub.{match_subs_i_t1, match_subs_i_t2, match_subs_r_t1}
use tw_monitor.Encoding.BranchNarrow.{match_b_cond_t1_noit, decode_b_cond_t1_noit, match_b_t2}
use tw_monitor.Encoding.BranchNarrow.{match_blx_t1, match_bx_t1}
use tw_monitor.Encoding.Compare.{match_cmp_i_t1, match_cmp_r_t1, match_cmp_r_t2}
use tw_monitor.Encoding.LoadNarrow.{match_ldr_i_t1, match_ldr_i_t2_sponly, match_ldr_lit_t1}
use tw_monitor.Encoding.LoadNarrow.{match_ldr_r_t1}
use tw_monitor.Encoding.Move.{match_movs_i_t1, match_mov_r_t1, match_movs_r_t2_noit}
use tw_monitor.Encoding.Pop.{match_pop_t1}
use tw_monitor.Encoding.Push.{match_push_t1}
use tw_monitor.Encoding.Trap.{match_bkpt_t1, match_svc_t1, match_udf_t1, match_nop_t1}

pub bkpt_t1_first : (w : ℕ) → match_bkpt_t1 w ≡ true → (match_udf_t1 w ≡ false)
unfolding match_udf_t1 match_bkpt_t1
bkpt_t1_first w m = ground (arith, bit_extract_lem w 8 8)

pub nop_t1_first :
    (w : ℕ) → match_nop_t1 w ≡ true → (match_udf_t1 w ≡ false) × (match_bkpt_t1 w ≡ false)
unfolding match_udf_t1 match_bkpt_t1 match_nop_t1
nop_t1_first w m = ground (arith, bit_extract_lem w 8 8, bit_extract_lem w 0 16)

pub movs_i_t1_first :
    (w : ℕ)
    → match_movs_i_t1 w ≡ true
    → (match_udf_t1 w ≡ false) × (match_bkpt_t1 w ≡ false) × (match_nop_t1 w ≡ false)
unfolding match_udf_t1 match_bkpt_t1 match_nop_t1 match_movs_i_t1
movs_i_t1_first w m =
    ground (arith, bit_extract_lem w 8 8, bit_extract_lem w 0 16, bit_extract_lem w 11 5)

pub mov_r_t1_first :
    (w : ℕ)
    → match_mov_r_t1 w ≡ true
    → (match_udf_t1 w ≡ false)
      × (match_bkpt_t1 w ≡ false)
      × (match_nop_t1 w ≡ false)
      × (match_movs_i_t1 w ≡ false)
unfolding match_udf_t1 match_bkpt_t1 match_nop_t1 match_movs_i_t1 match_mov_r_t1
mov_r_t1_first w m =
    ground (arith, bit_extract_lem w 8 8, bit_extract_lem w 0 16, bit_extract_lem w 11 5)

pub movs_r_t2_noit_first :
    (w : ℕ)
    → match_movs_r_t2_noit w ≡ true
    → (match_udf_t1 w ≡ false)
      × (match_bkpt_t1 w ≡ false)
      × (match_nop_t1 w ≡ false)
      × (match_movs_i_t1 w ≡ false)
      × (match_mov_r_t1 w ≡ false)
unfolding match_udf_t1 match_bkpt_t1 match_nop_t1 match_movs_i_t1 match_mov_r_t1
    match_movs_r_t2_noit
movs_r_t2_noit_first w m = ground (
  arith,
  bit_extract_lem w 8 8,
  bit_extract_lem w 0 16,
  bit_extract_lem w 11 5,
  bit_extract_lem w 6 10,
)

pub bx_t1_first :
    (w : ℕ)
    → match_bx_t1 w ≡ true
    → (match_udf_t1 w ≡ false)
      × (match_bkpt_t1 w ≡ false)
      × (match_nop_t1 w ≡ false)
      × (match_movs_i_t1 w ≡ false)
      × (match_mov_r_t1 w ≡ false)
      × (match_movs_r_t2_noit w ≡ false)
unfolding match_udf_t1 match_bkpt_t1 match_nop_t1 match_movs_i_t1 match_mov_r_t1
    match_movs_r_t2_noit match_bx_t1
bx_t1_first w m = ground (
  arith,
  bit_extract_lem w 8 8,
  bit_extract_lem w 0 16,
  bit_extract_lem w 11 5,
  bit_extract_lem w 6 10,
  bit_extract_lem w 7 9,
  bit_extract_lem w 0 3,
)

pub svc_t1_first :
    (w : ℕ)
    → match_svc_t1 w ≡ true
    → (match_udf_t1 w ≡ false)
      × (match_bkpt_t1 w ≡ false)
      × (match_nop_t1 w ≡ false)
      × (match_movs_i_t1 w ≡ false)
      × (match_mov_r_t1 w ≡ false)
      × (match_movs_r_t2_noit w ≡ false)
      × (match_bx_t1 w ≡ false)
unfolding match_udf_t1 match_bkpt_t1 match_nop_t1 match_movs_i_t1 match_mov_r_t1
    match_movs_r_t2_noit match_bx_t1 match_svc_t1
svc_t1_first w m = ground (
  arith,
  bit_extract_lem w 8 8,
  bit_extract_lem w 0 16,
  bit_extract_lem w 11 5,
  bit_extract_lem w 6 10,
  bit_extract_lem w 7 9,
  bit_extract_lem w 0 3,
)

pub b_t2_first :
    (w : ℕ)
    → match_b_t2 w ≡ true
    → (match_udf_t1 w ≡ false)
      × (match_bkpt_t1 w ≡ false)
      × (match_nop_t1 w ≡ false)
      × (match_movs_i_t1 w ≡ false)
      × (match_mov_r_t1 w ≡ false)
      × (match_movs_r_t2_noit w ≡ false)
      × (match_bx_t1 w ≡ false)
      × (match_svc_t1 w ≡ false)
unfolding match_udf_t1 match_bkpt_t1 match_nop_t1 match_movs_i_t1 match_mov_r_t1
    match_movs_r_t2_noit match_bx_t1 match_svc_t1 match_b_t2
b_t2_first w m = ground (
  arith,
  bit_extract_lem w 8 8,
  bit_extract_lem w 0 16,
  bit_extract_lem w 11 5,
  bit_extract_lem w 6 10,
  bit_extract_lem w 7 9,
  bit_extract_lem w 0 3,
)

pub b_cond_t1_noit_first :
    (w : ℕ)
    → match_b_cond_t1_noit w ≡ true
    → (decode_b_cond_t1_noit w).cond < 14
    → (match_udf_t1 w ≡ false)
      × (match_bkpt_t1 w ≡ false)
      × (match_nop_t1 w ≡ false)
      × (match_movs_i_t1 w ≡ false)
      × (match_mov_r_t1 w ≡ false)
      × (match_movs_r_t2_noit w ≡ false)
      × (match_bx_t1 w ≡ false)
      × (match_svc_t1 w ≡ false)
      × (match_b_t2 w ≡ false)
unfolding match_udf_t1 match_bkpt_t1 match_nop_t1 match_movs_i_t1 match_mov_r_t1
    match_movs_r_t2_noit match_bx_t1 match_svc_t1 match_b_t2 match_b_cond_t1_noit
    decode_b_cond_t1_noit
b_cond_t1_noit_first w m r = ground (
  arith,
  bit_extract_lem w 8 8,
  bit_extract_lem w 0 16,
  bit_extract_lem w 11 5,
  bit_extract_lem w 6 10,
  bit_extract_lem w 7 9,
  bit_extract_lem w 0 3,
  bit_extract_lem w 12 4,
  bit_extract_lem w 8 4,
  bit_extract_lem w 0 8,
)

pub ldr_i_t1_first :
    (w : ℕ)
    → match_ldr_i_t1 w ≡ true
    → (match_udf_t1 w ≡ false)
      × (match_bkpt_t1 w ≡ false)
      × (match_nop_t1 w ≡ false)
      × (match_movs_i_t1 w ≡ false)
      × (match_mov_r_t1 w ≡ false)
      × (match_movs_r_t2_noit w ≡ false)
      × (match_bx_t1 w ≡ false)
      × (match_svc_t1 w ≡ false)
      × (match_b_t2 w ≡ false)
      × (match_b_cond_t1_noit w ≡ false)
unfolding match_udf_t1 match_bkpt_t1 match_nop_t1 match_movs_i_t1 match_mov_r_t1
    match_movs_r_t2_noit match_bx_t1 match_svc_t1 match_b_t2 match_b_cond_t1_noit match_ldr_i_t1
ldr_i_t1_first w m = ground (
  arith,
  bit_extract_lem w 8 8,
  bit_extract_lem w 0 16,
  bit_extract_lem w 11 5,
  bit_extract_lem w 6 10,
  bit_extract_lem w 7 9,
  bit_extract_lem w 0 3,
  bit_extract_lem w 12 4,
)

pub ldr_i_t2_sponly_first :
    (w : ℕ)
    → match_ldr_i_t2_sponly w ≡ true
    → (match_udf_t1 w ≡ false)
      × (match_bkpt_t1 w ≡ false)
      × (match_nop_t1 w ≡ false)
      × (match_movs_i_t1 w ≡ false)
      × (match_mov_r_t1 w ≡ false)
      × (match_movs_r_t2_noit w ≡ false)
      × (match_bx_t1 w ≡ false)
      × (match_svc_t1 w ≡ false)
      × (match_b_t2 w ≡ false)
      × (match_b_cond_t1_noit w ≡ false)
      × (match_ldr_i_t1 w ≡ false)
unfolding match_udf_t1 match_bkpt_t1 match_nop_t1 match_movs_i_t1 match_mov_r_t1
    match_movs_r_t2_noit match_bx_t1 match_svc_t1 match_b_t2 match_b_cond_t1_noit match_ldr_i_t1
    match_ldr_i_t2_sponly
ldr_i_t2_sponly_first w m = ground (
  arith,
  bit_extract_lem w 8 8,
  bit_extract_lem w 0 16,
  bit_extract_lem w 11 5,
  bit_extract_lem w 6 10,
  bit_extract_lem w 7 9,
  bit_extract_lem w 0 3,
  bit_extract_lem w 12 4,
)

pub ldr_lit_t1_first :
    (w : ℕ)
    → match_ldr_lit_t1 w ≡ true
    → (match_udf_t1 w ≡ false)
      × (match_bkpt_t1 w ≡ false)
      × (match_nop_t1 w ≡ false)
      × (match_movs_i_t1 w ≡ false)
      × (match_mov_r_t1 w ≡ false)
      × (match_movs_r_t2_noit w ≡ false)
      × (match_bx_t1 w ≡ false)
      × (match_svc_t1 w ≡ false)
      × (match_b_t2 w ≡ false)
      × (match_b_cond_t1_noit w ≡ false)
      × (match_ldr_i_t1 w ≡ false)
      × (match_ldr_i_t2_sponly w ≡ false)
unfolding match_udf_t1 match_bkpt_t1 match_nop_t1 match_movs_i_t1 match_mov_r_t1
    match_movs_r_t2_noit match_bx_t1 match_svc_t1 match_b_t2 match_b_cond_t1_noit match_ldr_i_t1
    match_ldr_i_t2_sponly match_ldr_lit_t1
ldr_lit_t1_first w m = ground (
  arith,
  bit_extract_lem w 8 8,
  bit_extract_lem w 0 16,
  bit_extract_lem w 11 5,
  bit_extract_lem w 6 10,
  bit_extract_lem w 7 9,
  bit_extract_lem w 0 3,
  bit_extract_lem w 12 4,
)

pub ldr_r_t1_first :
    (w : ℕ)
    → match_ldr_r_t1 w ≡ true
    → (match_udf_t1 w ≡ false)
      × (match_bkpt_t1 w ≡ false)
      × (match_nop_t1 w ≡ false)
      × (match_movs_i_t1 w ≡ false)
      × (match_mov_r_t1 w ≡ false)
      × (match_movs_r_t2_noit w ≡ false)
      × (match_bx_t1 w ≡ false)
      × (match_svc_t1 w ≡ false)
      × (match_b_t2 w ≡ false)
      × (match_b_cond_t1_noit w ≡ false)
      × (match_ldr_i_t1 w ≡ false)
      × (match_ldr_i_t2_sponly w ≡ false)
      × (match_ldr_lit_t1 w ≡ false)
unfolding match_udf_t1 match_bkpt_t1 match_nop_t1 match_movs_i_t1 match_mov_r_t1
    match_movs_r_t2_noit match_bx_t1 match_svc_t1 match_b_t2 match_b_cond_t1_noit match_ldr_i_t1
    match_ldr_i_t2_sponly match_ldr_lit_t1 match_ldr_r_t1
ldr_r_t1_first w m = ground (
  arith,
  bit_extract_lem w 8 8,
  bit_extract_lem w 0 16,
  bit_extract_lem w 11 5,
  bit_extract_lem w 6 10,
  bit_extract_lem w 7 9,
  bit_extract_lem w 0 3,
  bit_extract_lem w 12 4,
  bit_extract_lem w 9 7,
)

pub blx_t1_first :
    (w : ℕ)
    → match_blx_t1 w ≡ true
    → (match_udf_t1 w ≡ false)
      × (match_bkpt_t1 w ≡ false)
      × (match_nop_t1 w ≡ false)
      × (match_movs_i_t1 w ≡ false)
      × (match_mov_r_t1 w ≡ false)
      × (match_movs_r_t2_noit w ≡ false)
      × (match_bx_t1 w ≡ false)
      × (match_svc_t1 w ≡ false)
      × (match_b_t2 w ≡ false)
      × (match_b_cond_t1_noit w ≡ false)
      × (match_ldr_i_t1 w ≡ false)
      × (match_ldr_i_t2_sponly w ≡ false)
      × (match_ldr_lit_t1 w ≡ false)
      × (match_ldr_r_t1 w ≡ false)
unfolding match_udf_t1 match_bkpt_t1 match_nop_t1 match_movs_i_t1 match_mov_r_t1
    match_movs_r_t2_noit match_bx_t1 match_svc_t1 match_b_t2 match_b_cond_t1_noit match_ldr_i_t1
    match_ldr_i_t2_sponly match_ldr_lit_t1 match_ldr_r_t1 match_blx_t1
blx_t1_first w m = ground (
  arith,
  bit_extract_lem w 8 8,
  bit_extract_lem w 0 16,
  bit_extract_lem w 11 5,
  bit_extract_lem w 6 10,
  bit_extract_lem w 7 9,
  bit_extract_lem w 0 3,
  bit_extract_lem w 12 4,
  bit_extract_lem w 9 7,
)

pub pop_t1_first :
    (w : ℕ)
    → match_pop_t1 w ≡ true
    → (match_udf_t1 w ≡ false)
      × (match_bkpt_t1 w ≡ false)
      × (match_nop_t1 w ≡ false)
      × (match_movs_i_t1 w ≡ false)
      × (match_mov_r_t1 w ≡ false)
      × (match_movs_r_t2_noit w ≡ false)
      × (match_bx_t1 w ≡ false)
      × (match_svc_t1 w ≡ false)
      × (match_b_t2 w ≡ false)
      × (match_b_cond_t1_noit w ≡ false)
      × (match_ldr_i_t1 w ≡ false)
      × (match_ldr_i_t2_sponly w ≡ false)
      × (match_ldr_lit_t1 w ≡ false)
      × (match_ldr_r_t1 w ≡ false)
      × (match_blx_t1 w ≡ false)
unfolding match_udf_t1 match_bkpt_t1 match_nop_t1 match_movs_i_t1 match_mov_r_t1
    match_movs_r_t2_noit match_bx_t1 match_svc_t1 match_b_t2 match_b_cond_t1_noit match_ldr_i_t1
    match_ldr_i_t2_sponly match_ldr_lit_t1 match_ldr_r_t1 match_blx_t1 match_pop_t1
pop_t1_first w m = ground (
  arith,
  bit_extract_lem w 8 8,
  bit_extract_lem w 0 16,
  bit_extract_lem w 11 5,
  bit_extract_lem w 6 10,
  bit_extract_lem w 7 9,
  bit_extract_lem w 0 3,
  bit_extract_lem w 12 4,
  bit_extract_lem w 9 7,
)

pub push_t1_first :
    (w : ℕ)
    → match_push_t1 w ≡ true
    → (match_udf_t1 w ≡ false)
      × (match_bkpt_t1 w ≡ false)
      × (match_nop_t1 w ≡ false)
      × (match_movs_i_t1 w ≡ false)
      × (match_mov_r_t1 w ≡ false)
      × (match_movs_r_t2_noit w ≡ false)
      × (match_bx_t1 w ≡ false)
      × (match_svc_t1 w ≡ false)
      × (match_b_t2 w ≡ false)
      × (match_b_cond_t1_noit w ≡ false)
      × (match_ldr_i_t1 w ≡ false)
      × (match_ldr_i_t2_sponly w ≡ false)
      × (match_ldr_lit_t1 w ≡ false)
      × (match_ldr_r_t1 w ≡ false)
      × (match_blx_t1 w ≡ false)
      × (match_pop_t1 w ≡ false)
unfolding match_udf_t1 match_bkpt_t1 match_nop_t1 match_movs_i_t1 match_mov_r_t1
    match_movs_r_t2_noit match_bx_t1 match_svc_t1 match_b_t2 match_b_cond_t1_noit match_ldr_i_t1
    match_ldr_i_t2_sponly match_ldr_lit_t1 match_ldr_r_t1 match_blx_t1 match_pop_t1 match_push_t1
push_t1_first w m = ground (
  arith,
  bit_extract_lem w 8 8,
  bit_extract_lem w 0 16,
  bit_extract_lem w 11 5,
  bit_extract_lem w 6 10,
  bit_extract_lem w 7 9,
  bit_extract_lem w 0 3,
  bit_extract_lem w 12 4,
  bit_extract_lem w 9 7,
)

pub cmp_i_t1_first :
    (w : ℕ)
    → match_cmp_i_t1 w ≡ true
    → (match_udf_t1 w ≡ false)
      × (match_bkpt_t1 w ≡ false)
      × (match_nop_t1 w ≡ false)
      × (match_movs_i_t1 w ≡ false)
      × (match_mov_r_t1 w ≡ false)
      × (match_movs_r_t2_noit w ≡ false)
      × (match_bx_t1 w ≡ false)
      × (match_svc_t1 w ≡ false)
      × (match_b_t2 w ≡ false)
      × (match_b_cond_t1_noit w ≡ false)
      × (match_ldr_i_t1 w ≡ false)
      × (match_ldr_i_t2_sponly w ≡ false)
      × (match_ldr_lit_t1 w ≡ false)
      × (match_ldr_r_t1 w ≡ false)
      × (match_blx_t1 w ≡ false)
      × (match_pop_t1 w ≡ false)
      × (match_push_t1 w ≡ false)
unfolding match_udf_t1 match_bkpt_t1 match_nop_t1 match_movs_i_t1 match_mov_r_t1
    match_movs_r_t2_noit match_bx_t1 match_svc_t1 match_b_t2 match_b_cond_t1_noit match_ldr_i_t1
    match_ldr_i_t2_sponly match_ldr_lit_t1 match_ldr_r_t1 match_blx_t1 match_pop_t1 match_push_t1
    match_cmp_i_t1
cmp_i_t1_first w m = ground (
  arith,
  bit_extract_lem w 8 8,
  bit_extract_lem w 0 16,
  bit_extract_lem w 11 5,
  bit_extract_lem w 6 10,
  bit_extract_lem w 7 9,
  bit_extract_lem w 0 3,
  bit_extract_lem w 12 4,
  bit_extract_lem w 9 7,
)

pub cmp_r_t1_first :
    (w : ℕ)
    → match_cmp_r_t1 w ≡ true
    → (match_udf_t1 w ≡ false)
      × (match_bkpt_t1 w ≡ false)
      × (match_nop_t1 w ≡ false)
      × (match_movs_i_t1 w ≡ false)
      × (match_mov_r_t1 w ≡ false)
      × (match_movs_r_t2_noit w ≡ false)
      × (match_bx_t1 w ≡ false)
      × (match_svc_t1 w ≡ false)
      × (match_b_t2 w ≡ false)
      × (match_b_cond_t1_noit w ≡ false)
      × (match_ldr_i_t1 w ≡ false)
      × (match_ldr_i_t2_sponly w ≡ false)
      × (match_ldr_lit_t1 w ≡ false)
      × (match_ldr_r_t1 w ≡ false)
      × (match_blx_t1 w ≡ false)
      × (match_pop_t1 w ≡ false)
      × (match_push_t1 w ≡ false)
      × (match_cmp_i_t1 w ≡ false)
unfolding match_udf_t1 match_bkpt_t1 match_nop_t1 match_movs_i_t1 match_mov_r_t1
    match_movs_r_t2_noit match_bx_t1 match_svc_t1 match_b_t2 match_b_cond_t1_noit match_ldr_i_t1
    match_ldr_i_t2_sponly match_ldr_lit_t1 match_ldr_r_t1 match_blx_t1 match_pop_t1 match_push_t1
    match_cmp_i_t1 match_cmp_r_t1
cmp_r_t1_first w m = ground (
  arith,
  bit_extract_lem w 8 8,
  bit_extract_lem w 0 16,
  bit_extract_lem w 11 5,
  bit_extract_lem w 6 10,
  bit_extract_lem w 7 9,
  bit_extract_lem w 0 3,
  bit_extract_lem w 12 4,
  bit_extract_lem w 9 7,
)

pub cmp_r_t2_first :
    (w : ℕ)
    → match_cmp_r_t2 w ≡ true
    → (match_udf_t1 w ≡ false)
      × (match_bkpt_t1 w ≡ false)
      × (match_nop_t1 w ≡ false)
      × (match_movs_i_t1 w ≡ false)
      × (match_mov_r_t1 w ≡ false)
      × (match_movs_r_t2_noit w ≡ false)
      × (match_bx_t1 w ≡ false)
      × (match_svc_t1 w ≡ false)
      × (match_b_t2 w ≡ false)
      × (match_b_cond_t1_noit w ≡ false)
      × (match_ldr_i_t1 w ≡ false)
      × (match_ldr_i_t2_sponly w ≡ false)
      × (match_ldr_lit_t1 w ≡ false)
      × (match_ldr_r_t1 w ≡ false)
      × (match_blx_t1 w ≡ false)
      × (match_pop_t1 w ≡ false)
      × (match_push_t1 w ≡ false)
      × (match_cmp_i_t1 w ≡ false)
      × (match_cmp_r_t1 w ≡ false)
unfolding match_udf_t1 match_bkpt_t1 match_nop_t1 match_movs_i_t1 match_mov_r_t1
    match_movs_r_t2_noit match_bx_t1 match_svc_t1 match_b_t2 match_b_cond_t1_noit match_ldr_i_t1
    match_ldr_i_t2_sponly match_ldr_lit_t1 match_ldr_r_t1 match_blx_t1 match_pop_t1 match_push_t1
    match_cmp_i_t1 match_cmp_r_t1 match_cmp_r_t2
cmp_r_t2_first w m = ground (
  arith,
  bit_extract_lem w 8 8,
  bit_extract_lem w 0 16,
  bit_extract_lem w 11 5,
  bit_extract_lem w 6 10,
  bit_extract_lem w 7 9,
  bit_extract_lem w 0 3,
  bit_extract_lem w 12 4,
  bit_extract_lem w 9 7,
)

pub adds_i_t1_first :
    (w : ℕ)
    → match_adds_i_t1 w ≡ true
    → (match_udf_t1 w ≡ false)
      × (match_bkpt_t1 w ≡ false)
      × (match_nop_t1 w ≡ false)
      × (match_movs_i_t1 w ≡ false)
      × (match_mov_r_t1 w ≡ false)
      × (match_movs_r_t2_noit w ≡ false)
      × (match_bx_t1 w ≡ false)
      × (match_svc_t1 w ≡ false)
      × (match_b_t2 w ≡ false)
      × (match_b_cond_t1_noit w ≡ false)
      × (match_ldr_i_t1 w ≡ false)
      × (match_ldr_i_t2_sponly w ≡ false)
      × (match_ldr_lit_t1 w ≡ false)
      × (match_ldr_r_t1 w ≡ false)
      × (match_blx_t1 w ≡ false)
      × (match_pop_t1 w ≡ false)
      × (match_push_t1 w ≡ false)
      × (match_cmp_i_t1 w ≡ false)
      × (match_cmp_r_t1 w ≡ false)
      × (match_cmp_r_t2 w ≡ false)
unfolding match_udf_t1 match_bkpt_t1 match_nop_t1 match_movs_i_t1 match_mov_r_t1
    match_movs_r_t2_noit match_bx_t1 match_svc_t1 match_b_t2 match_b_cond_t1_noit match_ldr_i_t1
    match_ldr_i_t2_sponly match_ldr_lit_t1 match_ldr_r_t1 match_blx_t1 match_pop_t1 match_push_t1
    match_cmp_i_t1 match_cmp_r_t1 match_cmp_r_t2 match_adds_i_t1
adds_i_t1_first w m = ground (
  arith,
  bit_extract_lem w 8 8,
  bit_extract_lem w 0 16,
  bit_extract_lem w 11 5,
  bit_extract_lem w 6 10,
  bit_extract_lem w 7 9,
  bit_extract_lem w 0 3,
  bit_extract_lem w 12 4,
  bit_extract_lem w 9 7,
)

pub adds_i_t2_first :
    (w : ℕ)
    → match_adds_i_t2 w ≡ true
    → (match_udf_t1 w ≡ false)
      × (match_bkpt_t1 w ≡ false)
      × (match_nop_t1 w ≡ false)
      × (match_movs_i_t1 w ≡ false)
      × (match_mov_r_t1 w ≡ false)
      × (match_movs_r_t2_noit w ≡ false)
      × (match_bx_t1 w ≡ false)
      × (match_svc_t1 w ≡ false)
      × (match_b_t2 w ≡ false)
      × (match_b_cond_t1_noit w ≡ false)
      × (match_ldr_i_t1 w ≡ false)
      × (match_ldr_i_t2_sponly w ≡ false)
      × (match_ldr_lit_t1 w ≡ false)
      × (match_ldr_r_t1 w ≡ false)
      × (match_blx_t1 w ≡ false)
      × (match_pop_t1 w ≡ false)
      × (match_push_t1 w ≡ false)
      × (match_cmp_i_t1 w ≡ false)
      × (match_cmp_r_t1 w ≡ false)
      × (match_cmp_r_t2 w ≡ false)
      × (match_adds_i_t1 w ≡ false)
unfolding match_udf_t1 match_bkpt_t1 match_nop_t1 match_movs_i_t1 match_mov_r_t1
    match_movs_r_t2_noit match_bx_t1 match_svc_t1 match_b_t2 match_b_cond_t1_noit match_ldr_i_t1
    match_ldr_i_t2_sponly match_ldr_lit_t1 match_ldr_r_t1 match_blx_t1 match_pop_t1 match_push_t1
    match_cmp_i_t1 match_cmp_r_t1 match_cmp_r_t2 match_adds_i_t1 match_adds_i_t2
adds_i_t2_first w m = ground (
  arith,
  bit_extract_lem w 8 8,
  bit_extract_lem w 0 16,
  bit_extract_lem w 11 5,
  bit_extract_lem w 6 10,
  bit_extract_lem w 7 9,
  bit_extract_lem w 0 3,
  bit_extract_lem w 12 4,
  bit_extract_lem w 9 7,
)

pub adds_r_t1_first :
    (w : ℕ)
    → match_adds_r_t1 w ≡ true
    → (match_udf_t1 w ≡ false)
      × (match_bkpt_t1 w ≡ false)
      × (match_nop_t1 w ≡ false)
      × (match_movs_i_t1 w ≡ false)
      × (match_mov_r_t1 w ≡ false)
      × (match_movs_r_t2_noit w ≡ false)
      × (match_bx_t1 w ≡ false)
      × (match_svc_t1 w ≡ false)
      × (match_b_t2 w ≡ false)
      × (match_b_cond_t1_noit w ≡ false)
      × (match_ldr_i_t1 w ≡ false)
      × (match_ldr_i_t2_sponly w ≡ false)
      × (match_ldr_lit_t1 w ≡ false)
      × (match_ldr_r_t1 w ≡ false)
      × (match_blx_t1 w ≡ false)
      × (match_pop_t1 w ≡ false)
      × (match_push_t1 w ≡ false)
      × (match_cmp_i_t1 w ≡ false)
      × (match_cmp_r_t1 w ≡ false)
      × (match_cmp_r_t2 w ≡ false)
      × (match_adds_i_t1 w ≡ false)
      × (match_adds_i_t2 w ≡ false)
unfolding match_udf_t1 match_bkpt_t1 match_nop_t1 match_movs_i_t1 match_mov_r_t1
    match_movs_r_t2_noit match_bx_t1 match_svc_t1 match_b_t2 match_b_cond_t1_noit match_ldr_i_t1
    match_ldr_i_t2_sponly match_ldr_lit_t1 match_ldr_r_t1 match_blx_t1 match_pop_t1 match_push_t1
    match_cmp_i_t1 match_cmp_r_t1 match_cmp_r_t2 match_adds_i_t1 match_adds_i_t2 match_adds_r_t1
adds_r_t1_first w m = ground (
  arith,
  bit_extract_lem w 8 8,
  bit_extract_lem w 0 16,
  bit_extract_lem w 11 5,
  bit_extract_lem w 6 10,
  bit_extract_lem w 7 9,
  bit_extract_lem w 0 3,
  bit_extract_lem w 12 4,
  bit_extract_lem w 9 7,
)

pub add_r_t2_first :
    (w : ℕ)
    → match_add_r_t2 w ≡ true
    → (match_udf_t1 w ≡ false)
      × (match_bkpt_t1 w ≡ false)
      × (match_nop_t1 w ≡ false)
      × (match_movs_i_t1 w ≡ false)
      × (match_mov_r_t1 w ≡ false)
      × (match_movs_r_t2_noit w ≡ false)
      × (match_bx_t1 w ≡ false)
      × (match_svc_t1 w ≡ false)
      × (match_b_t2 w ≡ false)
      × (match_b_cond_t1_noit w ≡ false)
      × (match_ldr_i_t1 w ≡ false)
      × (match_ldr_i_t2_sponly w ≡ false)
      × (match_ldr_lit_t1 w ≡ false)
      × (match_ldr_r_t1 w ≡ false)
      × (match_blx_t1 w ≡ false)
      × (match_pop_t1 w ≡ false)
      × (match_push_t1 w ≡ false)
      × (match_cmp_i_t1 w ≡ false)
      × (match_cmp_r_t1 w ≡ false)
      × (match_cmp_r_t2 w ≡ false)
      × (match_adds_i_t1 w ≡ false)
      × (match_adds_i_t2 w ≡ false)
      × (match_adds_r_t1 w ≡ false)
unfolding match_udf_t1 match_bkpt_t1 match_nop_t1 match_movs_i_t1 match_mov_r_t1
    match_movs_r_t2_noit match_bx_t1 match_svc_t1 match_b_t2 match_b_cond_t1_noit match_ldr_i_t1
    match_ldr_i_t2_sponly match_ldr_lit_t1 match_ldr_r_t1 match_blx_t1 match_pop_t1 match_push_t1
    match_cmp_i_t1 match_cmp_r_t1 match_cmp_r_t2 match_adds_i_t1 match_adds_i_t2 match_adds_r_t1
    match_add_r_t2
add_r_t2_first w m = ground (
  arith,
  bit_extract_lem w 8 8,
  bit_extract_lem w 0 16,
  bit_extract_lem w 11 5,
  bit_extract_lem w 6 10,
  bit_extract_lem w 7 9,
  bit_extract_lem w 0 3,
  bit_extract_lem w 12 4,
  bit_extract_lem w 9 7,
)

pub subs_i_t1_first :
    (w : ℕ)
    → match_subs_i_t1 w ≡ true
    → (match_udf_t1 w ≡ false)
      × (match_bkpt_t1 w ≡ false)
      × (match_nop_t1 w ≡ false)
      × (match_movs_i_t1 w ≡ false)
      × (match_mov_r_t1 w ≡ false)
      × (match_movs_r_t2_noit w ≡ false)
      × (match_bx_t1 w ≡ false)
      × (match_svc_t1 w ≡ false)
      × (match_b_t2 w ≡ false)
      × (match_b_cond_t1_noit w ≡ false)
      × (match_ldr_i_t1 w ≡ false)
      × (match_ldr_i_t2_sponly w ≡ false)
      × (match_ldr_lit_t1 w ≡ false)
      × (match_ldr_r_t1 w ≡ false)
      × (match_blx_t1 w ≡ false)
      × (match_pop_t1 w ≡ false)
      × (match_push_t1 w ≡ false)
      × (match_cmp_i_t1 w ≡ false)
      × (match_cmp_r_t1 w ≡ false)
      × (match_cmp_r_t2 w ≡ false)
      × (match_adds_i_t1 w ≡ false)
      × (match_adds_i_t2 w ≡ false)
      × (match_adds_r_t1 w ≡ false)
      × (match_add_r_t2 w ≡ false)
unfolding match_udf_t1 match_bkpt_t1 match_nop_t1 match_movs_i_t1 match_mov_r_t1
    match_movs_r_t2_noit match_bx_t1 match_svc_t1 match_b_t2 match_b_cond_t1_noit match_ldr_i_t1
    match_ldr_i_t2_sponly match_ldr_lit_t1 match_ldr_r_t1 match_blx_t1 match_pop_t1 match_push_t1
    match_cmp_i_t1 match_cmp_r_t1 match_cmp_r_t2 match_adds_i_t1 match_adds_i_t2 match_adds_r_t1
    match_add_r_t2 match_subs_i_t1
subs_i_t1_first w m = ground (
  arith,
  bit_extract_lem w 8 8,
  bit_extract_lem w 0 16,
  bit_extract_lem w 11 5,
  bit_extract_lem w 6 10,
  bit_extract_lem w 7 9,
  bit_extract_lem w 0 3,
  bit_extract_lem w 12 4,
  bit_extract_lem w 9 7,
)

pub subs_i_t2_first :
    (w : ℕ)
    → match_subs_i_t2 w ≡ true
    → (match_udf_t1 w ≡ false)
      × (match_bkpt_t1 w ≡ false)
      × (match_nop_t1 w ≡ false)
      × (match_movs_i_t1 w ≡ false)
      × (match_mov_r_t1 w ≡ false)
      × (match_movs_r_t2_noit w ≡ false)
      × (match_bx_t1 w ≡ false)
      × (match_svc_t1 w ≡ false)
      × (match_b_t2 w ≡ false)
      × (match_b_cond_t1_noit w ≡ false)
      × (match_ldr_i_t1 w ≡ false)
      × (match_ldr_i_t2_sponly w ≡ false)
      × (match_ldr_lit_t1 w ≡ false)
      × (match_ldr_r_t1 w ≡ false)
      × (match_blx_t1 w ≡ false)
      × (match_pop_t1 w ≡ false)
      × (match_push_t1 w ≡ false)
      × (match_cmp_i_t1 w ≡ false)
      × (match_cmp_r_t1 w ≡ false)
      × (match_cmp_r_t2 w ≡ false)
      × (match_adds_i_t1 w ≡ false)
      × (match_adds_i_t2 w ≡ false)
      × (match_adds_r_t1 w ≡ false)
      × (match_add_r_t2 w ≡ false)
      × (match_subs_i_t1 w ≡ false)
unfolding match_udf_t1 match_bkpt_t1 match_nop_t1 match_movs_i_t1 match_mov_r_t1
    match_movs_r_t2_noit match_bx_t1 match_svc_t1 match_b_t2 match_b_cond_t1_noit match_ldr_i_t1
    match_ldr_i_t2_sponly match_ldr_lit_t1 match_ldr_r_t1 match_blx_t1 match_pop_t1 match_push_t1
    match_cmp_i_t1 match_cmp_r_t1 match_cmp_r_t2 match_adds_i_t1 match_adds_i_t2 match_adds_r_t1
    match_add_r_t2 match_subs_i_t1 match_subs_i_t2
subs_i_t2_first w m = ground (
  arith,
  bit_extract_lem w 8 8,
  bit_extract_lem w 0 16,
  bit_extract_lem w 11 5,
  bit_extract_lem w 6 10,
  bit_extract_lem w 7 9,
  bit_extract_lem w 0 3,
  bit_extract_lem w 12 4,
  bit_extract_lem w 9 7,
)

pub subs_r_t1_first :
    (w : ℕ)
    → match_subs_r_t1 w ≡ true
    → (match_udf_t1 w ≡ false)
      × (match_bkpt_t1 w ≡ false)
      × (match_nop_t1 w ≡ false)
      × (match_movs_i_t1 w ≡ false)
      × (match_mov_r_t1 w ≡ false)
      × (match_movs_r_t2_noit w ≡ false)
      × (match_bx_t1 w ≡ false)
      × (match_svc_t1 w ≡ false)
      × (match_b_t2 w ≡ false)
      × (match_b_cond_t1_noit w ≡ false)
      × (match_ldr_i_t1 w ≡ false)
      × (match_ldr_i_t2_sponly w ≡ false)
      × (match_ldr_lit_t1 w ≡ false)
      × (match_ldr_r_t1 w ≡ false)
      × (match_blx_t1 w ≡ false)
      × (match_pop_t1 w ≡ false)
      × (match_push_t1 w ≡ false)
      × (match_cmp_i_t1 w ≡ false)
      × (match_cmp_r_t1 w ≡ false)
      × (match_cmp_r_t2 w ≡ false)
      × (match_adds_i_t1 w ≡ false)
      × (match_adds_i_t2 w ≡ false)
      × (match_adds_r_t1 w ≡ false)
      × (match_add_r_t2 w ≡ false)
      × (match_subs_i_t1 w ≡ false)
      × (match_subs_i_t2 w ≡ false)
unfolding match_udf_t1 match_bkpt_t1 match_nop_t1 match_movs_i_t1 match_mov_r_t1
    match_movs_r_t2_noit match_bx_t1 match_svc_t1 match_b_t2 match_b_cond_t1_noit match_ldr_i_t1
    match_ldr_i_t2_sponly match_ldr_lit_t1 match_ldr_r_t1 match_blx_t1 match_pop_t1 match_push_t1
    match_cmp_i_t1 match_cmp_r_t1 match_cmp_r_t2 match_adds_i_t1 match_adds_i_t2 match_adds_r_t1
    match_add_r_t2 match_subs_i_t1 match_subs_i_t2 match_subs_r_t1
subs_r_t1_first w m = ground (
  arith,
  bit_extract_lem w 8 8,
  bit_extract_lem w 0 16,
  bit_extract_lem w 11 5,
  bit_extract_lem w 6 10,
  bit_extract_lem w 7 9,
  bit_extract_lem w 0 3,
  bit_extract_lem w 12 4,
  bit_extract_lem w 9 7,
)
