-- ===== src/Thumb/Disassemble/Narrow/Laws.antt =====
-- The 16-bit half of `thumb_disassemble` in monitor/thumb_asm.c finds the encoding that matches.
use tw_monitor.Common.{ℕ, ◌<◌, ◌≡◌, true, some}
use tw_monitor.Encoding.Narrow.{NarrowEncoding, Parts, matches, decode, udf_t1, bkpt_t1, nop_t1}
use tw_monitor.Encoding.Narrow.{movs_i_t1, mov_r_t1, movs_r_t2_noit, bx_t1, svc_t1, b_t2}
use tw_monitor.Encoding.Narrow.{b_cond_t1_noit, ldr_i_t1, ldr_i_t2_sponly, ldr_lit_t1, ldr_r_t1}
use tw_monitor.Encoding.Narrow.{blx_t1, pop_t1, push_t1, cmp_i_t1, cmp_r_t1, cmp_r_t2, adds_i_t1}
use tw_monitor.Encoding.Narrow.{adds_i_t2, adds_r_t1, add_r_t2, subs_i_t1, subs_i_t2, subs_r_t1}
use tw_monitor.Thumb.Spec.{add_operands}
use tw_monitor.Thumb.Listing.Format.{listed}
use tw_monitor.Thumb.Listing.Narrow.{narrow_listing}
use tw_monitor.Thumb.Disassemble.Narrow.{disassemble_narrow, narrow_undefined_to_branch}
use tw_monitor.Thumb.Disassemble.Narrow.{narrow_loads_to_push, narrow_compare_to_subtract}
use tw_monitor.Thumb.Disassemble.Narrow.Order.{bkpt_t1_first, nop_t1_first, movs_i_t1_first}
use tw_monitor.Thumb.Disassemble.Narrow.Order.{mov_r_t1_first, movs_r_t2_noit_first, bx_t1_first}
use tw_monitor.Thumb.Disassemble.Narrow.Order.{svc_t1_first, b_t2_first, b_cond_t1_noit_first}
use tw_monitor.Thumb.Disassemble.Narrow.Order.{ldr_i_t1_first, ldr_i_t2_sponly_first}
use tw_monitor.Thumb.Disassemble.Narrow.Order.{ldr_lit_t1_first, ldr_r_t1_first, blx_t1_first}
use tw_monitor.Thumb.Disassemble.Narrow.Order.{pop_t1_first, push_t1_first, cmp_i_t1_first}
use tw_monitor.Thumb.Disassemble.Narrow.Order.{cmp_r_t1_first, cmp_r_t2_first, adds_i_t1_first}
use tw_monitor.Thumb.Disassemble.Narrow.Order.{adds_i_t2_first, adds_r_t1_first, add_r_t2_first}
use tw_monitor.Thumb.Disassemble.Narrow.Order.{subs_i_t1_first, subs_i_t2_first, subs_r_t1_first}

-- The parts at which the test of an encoding is reached: no test before it takes the word.
abbrev pub IsReached : (e : NarrowEncoding) → Parts e → Type 0
IsReached udf_t1 p = Unit
IsReached bkpt_t1 p = Unit
IsReached nop_t1 p = Unit
IsReached movs_i_t1 p = Unit
IsReached mov_r_t1 p = Unit
IsReached movs_r_t2_noit p = Unit
IsReached bx_t1 p = Unit
IsReached svc_t1 p = Unit
IsReached b_t2 p = Unit
IsReached b_cond_t1_noit p = p.cond < 14
IsReached ldr_i_t1 p = Unit
IsReached ldr_i_t2_sponly p = Unit
IsReached ldr_lit_t1 p = Unit
IsReached ldr_r_t1 p = Unit
IsReached blx_t1 p = Unit
IsReached pop_t1 p = Unit
IsReached push_t1 p = Unit
IsReached cmp_i_t1 p = Unit
IsReached cmp_r_t1 p = Unit
IsReached cmp_r_t2 p = Unit
IsReached adds_i_t1 p = Unit
IsReached adds_i_t2 p = Unit
IsReached adds_r_t1 p = Unit
IsReached add_r_t2 p = Unit
IsReached subs_i_t1 p = Unit
IsReached subs_i_t2 p = Unit
IsReached subs_r_t1 p = Unit

-- A 16-bit word that an encoding matches is listed as that encoding's instruction, with the parts
-- that its decoder reads, wherever no earlier test takes the word.
pub disassemble_narrow-listing :
    (e : NarrowEncoding) (w : ℕ)
    → matches e w ≡ true
    → IsReached e (decode e w)
    → disassemble_narrow w ≡ some (narrow_listing e (decode e w))
unfolding disassemble_narrow narrow_undefined_to_branch narrow_loads_to_push
    narrow_compare_to_subtract narrow_listing listed matches decode add_operands
disassemble_narrow-listing udf_t1 w m r = rw m
disassemble_narrow-listing bkpt_t1 w m r = let n = bkpt_t1_first w m in rw (n, m)
disassemble_narrow-listing nop_t1 w m r = let n = nop_t1_first w m in rw (n.0, n.1, m)
disassemble_narrow-listing movs_i_t1 w m r = let n = movs_i_t1_first w m in rw (n.0, n.1, n.2, m)
disassemble_narrow-listing mov_r_t1 w m r = let n = mov_r_t1_first w m in rw (n.0, n.1, n.2, n.3, m)
disassemble_narrow-listing movs_r_t2_noit w m r =
    let n = movs_r_t2_noit_first w m in rw (n.0, n.1, n.2, n.3, n.4, m)
disassemble_narrow-listing bx_t1 w m r =
    let n = bx_t1_first w m in rw (n.0, n.1, n.2, n.3, n.4, n.5, m)
disassemble_narrow-listing svc_t1 w m r =
    let n = svc_t1_first w m in rw (n.0, n.1, n.2, n.3, n.4, n.5, n.6, m)
disassemble_narrow-listing b_t2 w m r =
    let n = b_t2_first w m in rw (n.0, n.1, n.2, n.3, n.4, n.5, n.6, n.7, m)
disassemble_narrow-listing b_cond_t1_noit w m r =
    let n = b_cond_t1_noit_first w m r in rw (n.0, n.1, n.2, n.3, n.4, n.5, n.6, n.7, n.8, m)
disassemble_narrow-listing ldr_i_t1 w m r =
    let n = ldr_i_t1_first w m in rw (n.0, n.1, n.2, n.3, n.4, n.5, n.6, n.7, n.8, n.9, m)
disassemble_narrow-listing ldr_i_t2_sponly w m r =
    let n = ldr_i_t2_sponly_first w m in
    rw (n.0, n.1, n.2, n.3, n.4, n.5, n.6, n.7, n.8, n.9, n.10, m)
disassemble_narrow-listing ldr_lit_t1 w m r =
    let n = ldr_lit_t1_first w m in
    rw (n.0, n.1, n.2, n.3, n.4, n.5, n.6, n.7, n.8, n.9, n.10, n.11, m)
disassemble_narrow-listing ldr_r_t1 w m r =
    let n = ldr_r_t1_first w m in
    rw (n.0, n.1, n.2, n.3, n.4, n.5, n.6, n.7, n.8, n.9, n.10, n.11, n.12, m)
disassemble_narrow-listing blx_t1 w m r =
    let n = blx_t1_first w m in
    rw (n.0, n.1, n.2, n.3, n.4, n.5, n.6, n.7, n.8, n.9, n.10, n.11, n.12, n.13, m)
disassemble_narrow-listing pop_t1 w m r =
    let n = pop_t1_first w m in
    rw (n.0, n.1, n.2, n.3, n.4, n.5, n.6, n.7, n.8, n.9, n.10, n.11, n.12, n.13, n.14, m)
disassemble_narrow-listing push_t1 w m r =
    let n = push_t1_first w m in
    rw (n.0, n.1, n.2, n.3, n.4, n.5, n.6, n.7, n.8, n.9, n.10, n.11, n.12, n.13, n.14, n.15, m)
disassemble_narrow-listing cmp_i_t1 w m r =
    let n = cmp_i_t1_first w m in
    rw (
      n.0, n.1, n.2, n.3, n.4, n.5, n.6, n.7, n.8, n.9, n.10, n.11, n.12, n.13, n.14, n.15, n.16, m,
    )
disassemble_narrow-listing cmp_r_t1 w m r =
    let n = cmp_r_t1_first w m in
    rw (
      n.0, n.1, n.2, n.3, n.4, n.5, n.6, n.7, n.8, n.9, n.10, n.11, n.12, n.13, n.14, n.15, n.16,
      n.17, m,
    )
disassemble_narrow-listing cmp_r_t2 w m r =
    let n = cmp_r_t2_first w m in
    rw (
      n.0, n.1, n.2, n.3, n.4, n.5, n.6, n.7, n.8, n.9, n.10, n.11, n.12, n.13, n.14, n.15, n.16,
      n.17, n.18, m,
    )
disassemble_narrow-listing adds_i_t1 w m r =
    let n = adds_i_t1_first w m in
    rw (
      n.0, n.1, n.2, n.3, n.4, n.5, n.6, n.7, n.8, n.9, n.10, n.11, n.12, n.13, n.14, n.15, n.16,
      n.17, n.18, n.19, m,
    )
disassemble_narrow-listing adds_i_t2 w m r =
    let n = adds_i_t2_first w m in
    rw (
      n.0, n.1, n.2, n.3, n.4, n.5, n.6, n.7, n.8, n.9, n.10, n.11, n.12, n.13, n.14, n.15, n.16,
      n.17, n.18, n.19, n.20, m,
    )
disassemble_narrow-listing adds_r_t1 w m r =
    let n = adds_r_t1_first w m in
    rw (
      n.0, n.1, n.2, n.3, n.4, n.5, n.6, n.7, n.8, n.9, n.10, n.11, n.12, n.13, n.14, n.15, n.16,
      n.17, n.18, n.19, n.20, n.21, m,
    )
disassemble_narrow-listing add_r_t2 w m r =
    let n = add_r_t2_first w m in
    rw (
      n.0, n.1, n.2, n.3, n.4, n.5, n.6, n.7, n.8, n.9, n.10, n.11, n.12, n.13, n.14, n.15, n.16,
      n.17, n.18, n.19, n.20, n.21, n.22, m,
    )
disassemble_narrow-listing subs_i_t1 w m r =
    let n = subs_i_t1_first w m in
    rw (
      n.0, n.1, n.2, n.3, n.4, n.5, n.6, n.7, n.8, n.9, n.10, n.11, n.12, n.13, n.14, n.15, n.16,
      n.17, n.18, n.19, n.20, n.21, n.22, n.23, m,
    )
disassemble_narrow-listing subs_i_t2 w m r =
    let n = subs_i_t2_first w m in
    rw (
      n.0, n.1, n.2, n.3, n.4, n.5, n.6, n.7, n.8, n.9, n.10, n.11, n.12, n.13, n.14, n.15, n.16,
      n.17, n.18, n.19, n.20, n.21, n.22, n.23, n.24, m,
    )
disassemble_narrow-listing subs_r_t1 w m r =
    let n = subs_r_t1_first w m in
    rw (
      n.0, n.1, n.2, n.3, n.4, n.5, n.6, n.7, n.8, n.9, n.10, n.11, n.12, n.13, n.14, n.15, n.16,
      n.17, n.18, n.19, n.20, n.21, n.22, n.23, n.24, n.25, m,
    )
