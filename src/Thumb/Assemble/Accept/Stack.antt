-- ===== src/Thumb/Assemble/Accept/Stack.antt =====
-- When PUSH and POP of monitor/thumb_asm.c assemble, and to how many bits.
use tw_monitor.Common.{
  ℕ, zero, suc, ◌/◌, ◌%◌, ◌^◌, ◌<◌, ◌≡◌, refl, false, not, arith, [], ◌∷◌, ◌||◌, ◌&&◌,
}
use tw_monitor.Common.{◌==◌, ltb}
use tw_monitor.Common.{some}
use tw_monitor.Encoding.Macros.{wide}
use tw_monitor.Encoding.Push.{encode_push_t3}
use tw_monitor.Encoding.Push.RoundTrip.{
  push_t1_accepts, push_t2_accepts, push_t3_accepts, push_t3_word,
}
use tw_monitor.Encoding.Push.RoundTrip.{encode_push_t1_lem, encode_push_t2_lem, encode_push_t3_lem}
use tw_monitor.Encoding.Pop.RoundTrip.{pop_t1_accepts, pop_t2_accepts}
use tw_monitor.Encoding.Pop.RoundTrip.{encode_pop_t1_lem, encode_pop_t2_lem}
use tw_monitor.Thumb.Spec.{WidthSpecifier, AddressingMode, tm_push, tm_pop, ot_reglist}
use tw_monitor.Thumb.Listing.Format.{listed}
use tw_monitor.Thumb.Registers.{thumb_count_register_list}
use tw_monitor.Thumb.Registers.Counts.{ones, thumb_count_register_list-ones}
use tw_monitor.Thumb.Assemble.{thumb_assemble}
use tw_monitor.Thumb.Assemble.Lists.{
  has_lr_lem, has_pc_lem, without_lr_lem, without_lr_pc_lem, ones-eq_zero,
}
use tw_monitor.Thumb.Assemble.Result.{to_bit}
use tw_monitor.Thumb.Assemble.Stack.{
  assemble_push, assemble_pop, has_register, without_lr, without_lr_pc,
}
use tw_monitor.Thumb.Assemble.ReadBack.Stack.{single, single_list}
use tw_monitor.Thumb.Assemble.Accept.Width.{stored, chosen}
use native.Mathlib.Nat.{mod-eq_of_lt}

ones-zero : (n : ℕ) → ones n 0 ≡ 0
unfolding ones
ones-zero zero = refl
ones-zero (suc n) = omega (arith, ones-zero n)

push_single :
    (r : ℕ)
    → r < 2 ^ 16
    → thumb_count_register_list r ≡ 1
    → encode_push_t3 (record { rt = single r })
      ≡ some (wide (push_t3_word (record { rt = single r })))
unfolding push_t3_accepts
push_single r h one =
    let below : single r < 16 = (single_list r h one).0 in
    ground (arith, encode_push_t3_lem (record { rt = single r }) (record { rt_u32 = omega arith }))

module _ (width : WidthSpecifier) (condition : ℕ) (mode : AddressingMode) where
  pub push-stored :
      (r : ℕ)
      → r < 2 ^ 16
      → stored (thumb_assemble (listed width tm_push condition mode (ot_reglist r ∷ [])))
        ≡ chosen width
            (not (r == 0) && r / 2 ^ 15 == 0 && ltb (r % 2 ^ 14) (2 ^ 8))
            (ones 16 r == 1 || (not (r == 0) && r / 2 ^ 15 == 0 && ltb (r % 2 ^ 14) (2 ^ 13)))
  unfolding thumb_assemble assemble_push listed push_t1_accepts push_t2_accepts
  push-stored r h =
      let l = has_lr_lem r h in
      let regs = without_lr_lem r h in
      rw (mod-eq_of_lt h) (
        ground (
          arith,
          thumb_count_register_list-ones r h,
          ones-zero 16,
          ones-eq_zero 16 r h,
          l,
          regs,
          push_single r h,
          encode_push_t1_lem (record { lr = to_bit (has_register r 14); regs = without_lr r })
              (omega arith),
          encode_push_t2_lem (record { lr = to_bit (has_register r 14); regs = without_lr r })
              (omega arith),
        ))

  pub pop-stored :
      (r : ℕ)
      → r < 2 ^ 16
      → thumb_count_register_list r == 1 ≡ false
      → stored (thumb_assemble (listed width tm_pop condition mode (ot_reglist r ∷ [])))
        ≡ chosen width
            (not (r == 0) && r / 2 ^ 14 % 2 == 0 && ltb (r % 2 ^ 14) (2 ^ 8))
            (not (r == 0) && ltb (r % 2 ^ 14) (2 ^ 13))
  unfolding thumb_assemble assemble_pop listed pop_t1_accepts pop_t2_accepts
  pop-stored r h several =
      let l = has_lr_lem r h in
      let c = has_pc_lem r h in
      let regs = without_lr_pc_lem r h in
      rw (mod-eq_of_lt h) (
        ground (
          arith,
          thumb_count_register_list-ones r h,
          ones-zero 16,
          ones-eq_zero 16 r h,
          l,
          c,
          regs,
          encode_pop_t1_lem (record { pc = to_bit (has_register r 15); regs = without_lr_pc r })
              (omega arith),
          encode_pop_t2_lem
              (record {
                regs = without_lr_pc r;
                lr = to_bit (has_register r 14);
                pc = to_bit (has_register r 15);
              })
              (omega arith),
        ))
