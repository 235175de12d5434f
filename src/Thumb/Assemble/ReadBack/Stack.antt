-- ===== src/Thumb/Assemble/ReadBack/Stack.antt =====
-- PUSH and POP of monitor/thumb_asm.c, assembled and disassembled.
use tw_monitor.Common.{
  ℕ, suc, ◌+◌, ◌*◌, ◌/◌, ◌%◌, ◌^◌, ◌≤◌, ◌<◌, ◌≡◌, refl, ap, sym, ◌∙◌, true, false, not, arith, [],
  ◌∷◌, ◌&&◌,
}
use tw_monitor.Common.{inl, inr, ◌⊎◌, Bool-cases, ◌==◌, if◌then◌else◌, some}
use tw_monitor.Encoding.Macros.{narrow, wide, or32, shl32, or32_lem}
use tw_monitor.Encoding.Narrow
use tw_monitor.Encoding.Wide
use tw_monitor.Encoding.Narrow.{push_t1, pop_t1}
use tw_monitor.Encoding.Wide.{push_t2, push_t3, pop_t2}
use tw_monitor.Encoding.Push.{encode_push_t1, encode_push_t2}
use tw_monitor.Encoding.Push.RoundTrip.{
  push_t1_accepts, push_t2_accepts, encode_push_t1_lem, encode_push_t2_lem,
}
use tw_monitor.Thumb.Spec.{InstructionSpec, WidthSpecifier, tws_narrow, tws_wide, AddressingMode}
use tw_monitor.Thumb.Spec.{am_none, tc_none, tm_push, tm_pop, ot_reglist}
use tw_monitor.Thumb.Listing.Format.{listed}
use tw_monitor.Thumb.Listing.Narrow.{narrow_listing}
use tw_monitor.Thumb.Listing.Wide.{wide_listing}
use tw_monitor.Thumb.Registers.{thumb_count_register_list, top_register}
use tw_monitor.Thumb.Registers.Counts.{thumb_count_register_list-ones, top_register-bounds}
use tw_monitor.Thumb.Assemble.{thumb_assemble}
use tw_monitor.Thumb.Assemble.Lists.{
  has_lr_lem, has_pc_lem, without_lr_lem, without_lr_pc_lem, ones-eq_one,
}
use tw_monitor.Thumb.Assemble.Result.{can_be_narrow, can_be_wide, to_bit}
use tw_monitor.Thumb.Assemble.Stack.{
  assemble_push, assemble_pop, has_register, without_lr, without_lr_pc,
}
use tw_monitor.Thumb.Assemble.ReadBack.Rules.{ReadsBack, invalid_width, invalid_operand}
use tw_monitor.Thumb.Assemble.ReadBack.Rules.{
  if-ReadsBack, then-ReadsBack, else-ReadsBack, narrow-try, narrow-try_on, wide-try_on, wide-try,
}
use native.Mathlib.Nat.{mod-eq_of_lt, one-le-pow, pow-suc, pow-le-pow_right}

module _ (r : ℕ) (h : r < 2 ^ 16) where
  -- Registers and LR are put together again.
  push_list :
      without_lr r < 2 ^ 13
      → or32 (without_lr r) (shl32 (to_bit (has_register r 14)) 14) % 2 ^ 16 ≡ r
  push_list small = omega (
    arith,
    has_lr_lem r h,
    without_lr_lem r h,
    or32_lem 14 1 (without_lr r) (to_bit (has_register r 14)) (omega arith)
        (omega (arith, has_lr_lem r h)) (omega (arith, has_lr_lem r h)),
  )

  t1_list :
      (w : ℕ)
      → encode_push_t1 (record { lr = to_bit (has_register r 14); regs = without_lr r })
        ≡ some (narrow w)
      → without_lr r < 2 ^ 13
  unfolding push_t1_accepts
  t1_list w e = ground (
    arith,
    encode_push_t1_lem (record { lr = to_bit (has_register r 14); regs = without_lr r })
        (omega (arith, has_lr_lem r h, without_lr_lem r h)),
  )

  t2_list :
      (w : ℕ)
      → encode_push_t2 (record { lr = to_bit (has_register r 14); regs = without_lr r })
        ≡ some (wide w)
      → without_lr r < 2 ^ 13
  unfolding push_t2_accepts
  t2_list w e = ground (
    arith,
    encode_push_t2_lem (record { lr = to_bit (has_register r 14); regs = without_lr r })
        (omega (arith, has_lr_lem r h, without_lr_lem r h)),
  )

-- The register that the assembler finds in a list with one.
abbrev pub single : ℕ → ℕ
single r = if has_register r 14 then 14 else top_register (without_lr r)

exponent-cases : (k : ℕ) → k < 16 → (k < 14) ⊎ ((k ≡ 14) ⊎ (k ≡ 15))
exponent-cases k lt = ground arith

power_list-low : (k : ℕ) → k < 14 → (h : 2 ^ k < 2 ^ 16) → single (2 ^ k) ≡ k
power_list-low k lt h =
    let small : 2 ^ k * 2 ≤ 2 ^ 14 = omega (
      arith,
      pow-suc 2 k,
      pow-le-pow_right {n = 2} (omega arith) {i = suc k} {j = 14} (omega arith),
    ) in
    let same : without_lr (2 ^ k) ≡ 2 ^ k = omega (arith, without_lr_lem (2 ^ k) h) in
    ground (
      arith,
      same,
      has_lr_lem (2 ^ k) h,
      top_register-bounds k (without_lr (2 ^ k)) (omega arith) (omega arith)
          (omega (arith, pow-suc 2 k, one-le-pow k 2)),
    )

power_list : (k : ℕ) → k < 16 → (h : 2 ^ k < 2 ^ 16) → single (2 ^ k) ≡ k
unfolding has_register without_lr top_register
power_list k lt h = elim (exponent-cases k lt) [
  | inl low ↦ power_list-low k low h
  | inr (inl lr) ↦ rw lr refl
  | inr (inr pc) ↦ rw pc refl
]

pub single_list :
    (r : ℕ)
    → r < 2 ^ 16
    → thumb_count_register_list r ≡ 1
    → (single r < 16) × (shl32 1 (single r) % 2 ^ 16 ≡ r)
unfolding shl32
single_list r h one =
    let q = ones-eq_one 16 r h (sym (thumb_count_register_list-ones r h) ∙ one) in
    let below : 2 ^ q.0 < 2 ^ 16 = omega (arith, q.2) in
    let found : single r ≡ q.0 = ap single q.2 ∙ power_list q.0 q.1 below in
    (omega (arith, found, q.1), rw found (omega (arith, q.2)))

abbrev pushed : WidthSpecifier → ℕ → InstructionSpec
pushed width l = listed width tm_push tc_none am_none (ot_reglist l ∷ [])

module _ (into : ℕ) (width : WidthSpecifier) (condition : ℕ) (mode : AddressingMode) where
  -- PUSH of a register list, in either width, is disassembled as the same PUSH.
  pub push-ReadsBack :
      (r : ℕ)
      → r < 2 ^ 16
      → ReadsBack into
          (listed tws_narrow tm_push tc_none am_none (ot_reglist r ∷ []))
          (listed tws_wide tm_push tc_none am_none (ot_reglist r ∷ []))
          (thumb_assemble (listed width tm_push condition mode (ot_reglist r ∷ [])))
  unfolding thumb_assemble assemble_push listed narrow_listing wide_listing Narrow.encode
      Wide.encode
  push-ReadsBack r h =
      let same : r % 2 ^ 16 ≡ r = mod-eq_of_lt h in
      let short_fields : Narrow.IsParts push_t1
          (record { lr = to_bit (has_register r 14); regs = without_lr r }) =
        omega (arith, has_lr_lem r h, without_lr_lem r h) in
      let long_fields : Wide.IsParts push_t2
          (record { lr = to_bit (has_register r 14); regs = without_lr r }) =
        omega (arith, has_lr_lem r h, without_lr_lem r h) in
      let one : thumb_count_register_list r == 1 ≡ true
          → (single r < 16) × (shl32 1 (single r) % 2 ^ 16 ≡ r) =
        λ c. single_list r h (ground arith) in
      let long =
        if-ReadsBack into (can_be_wide width)
          (elim (Bool-cases (thumb_count_register_list r == 1)) [
            | inl c ↦ then-ReadsBack into (thumb_count_register_list r == 1) _ c (
                wide-try into push_t3 (record { rt = single r }) (omega (arith, (one c).0))
                  (λ w k. tt) tt (ap (pushed tws_wide) ((one c).1)) invalid_width _ refl)
            | inr c ↦ else-ReadsBack into (thumb_count_register_list r == 1) _ c (
                wide-try_on into push_t2 _ long_fields (λ w k. tt) tt
                  (λ w k. ap (pushed tws_wide) (push_list r h (t2_list r h w k))) invalid_width _
                  refl)
          ])
          invalid_width in
      rw same (
        if-ReadsBack into (thumb_count_register_list r == 0) invalid_operand (
          if-ReadsBack into (can_be_narrow width)
            (narrow-try_on into push_t1 _ short_fields (λ w k. tt) tt
              (λ w k. ap (pushed tws_narrow) (push_list r h (t1_list r h w k))) long _ refl)
            long))

-- LR and PC are put back beside the other registers.
module _ (r : ℕ) (h : r < 2 ^ 16) where
  pop_list :
      or32
          (or32 (without_lr_pc r) (shl32 (to_bit (has_register r 14)) 14))
          (shl32 (to_bit (has_register r 15)) 15)
        % 2 ^ 16
      ≡ r
  pop_list =
      let l = has_lr_lem r h in
      let c = has_pc_lem r h in
      let regs = without_lr_pc_lem r h in
      let inner : or32 (without_lr_pc r) (shl32 (to_bit (has_register r 14)) 14)
          ≡ without_lr_pc r + to_bit (has_register r 14) * 2 ^ 14 =
        or32_lem 14 1 (without_lr_pc r) (to_bit (has_register r 14)) (omega arith) (omega arith)
          (omega arith) in
      rw inner (
        omega (
          arith,
          or32_lem 15 1 (without_lr_pc r + to_bit (has_register r 14) * 2 ^ 14)
              (to_bit (has_register r 15)) (omega arith) (omega arith) (omega arith),
        ))

  pop_list-no_lr :
      has_register r 14 ≡ false
      → or32 (without_lr_pc r) (shl32 (to_bit (has_register r 15)) 15) % 2 ^ 16 ≡ r
  pop_list-no_lr absent =
      let l : 0 ≡ r / 2 ^ 14 % 2 = ap to_bit (sym absent) ∙ has_lr_lem r h in
      let c = has_pc_lem r h in
      let regs = without_lr_pc_lem r h in
      omega (
        arith,
        or32_lem 15 1 (without_lr_pc r) (to_bit (has_register r 15)) (omega arith) (omega arith)
            (omega arith),
      )

abbrev popped : WidthSpecifier → ℕ → InstructionSpec
popped width l = listed width tm_pop tc_none am_none (ot_reglist l ∷ [])

module _ (into : ℕ) (width : WidthSpecifier) (condition : ℕ) (mode : AddressingMode) where
  -- POP of a register list that is not a single register, in either width, is disassembled as the
  -- same POP.
  pub pop-ReadsBack :
      (r : ℕ)
      → r < 2 ^ 16
      → thumb_count_register_list r == 1 ≡ false
      → ReadsBack into
          (listed tws_narrow tm_pop tc_none am_none (ot_reglist r ∷ []))
          (listed tws_wide tm_pop tc_none am_none (ot_reglist r ∷ []))
          (thumb_assemble (listed width tm_pop condition mode (ot_reglist r ∷ [])))
  unfolding thumb_assemble assemble_pop listed narrow_listing wide_listing Narrow.encode Wide.encode
  pop-ReadsBack r h several =
      let same : r % 2 ^ 16 ≡ r = mod-eq_of_lt h in
      let short_fields : Narrow.IsParts pop_t1
          (record { pc = to_bit (has_register r 15); regs = without_lr_pc r }) =
        omega (arith, has_pc_lem r h, without_lr_pc_lem r h) in
      let long_fields : Wide.IsParts pop_t2 (record {
        regs = without_lr_pc r;
        lr = to_bit (has_register r 14);
        pc = to_bit (has_register r 15);
      }) =
        omega (arith, has_lr_lem r h, has_pc_lem r h, without_lr_pc_lem r h) in
      let no_lr : can_be_narrow width && not (has_register r 14) ≡ true
          → has_register r 14 ≡ false =
        λ c. ground arith in
      let long =
        if-ReadsBack into (can_be_wide width)
          (else-ReadsBack into (thumb_count_register_list r == 1) _ several (
            wide-try into pop_t2 _ long_fields (λ w k. tt) tt (ap (popped tws_wide) (pop_list r h))
              invalid_width _ refl))
          invalid_width in
      rw same (
        if-ReadsBack into (thumb_count_register_list r == 0) invalid_operand
          (elim (Bool-cases (can_be_narrow width && not (has_register r 14))) [
            | inl c ↦ then-ReadsBack into (can_be_narrow width && not (has_register r 14)) _ c (
                narrow-try into pop_t1 _ short_fields (λ w k. tt) tt
                  (ap (popped tws_narrow) (pop_list-no_lr r h (no_lr c))) long _ refl)
            | inr c ↦ else-ReadsBack into (can_be_narrow width && not (has_register r 14)) _ c long
          ]))
