-- ===== src/Thumb/Assemble/Accept/Move.antt =====
-- When MOV, MOVS and MOVW of monitor/thumb_asm.c assemble, and to how many bits.
use tw_monitor.Common.{ℕ, ◌%◌, ◌^◌, ◌<◌, ◌≡◌, arith, [], ◌∷◌, ◌||◌, ◌&&◌, not, false, ltb}
use tw_monitor.Common.{◌==◌}
use tw_monitor.Encoding.Macros.{IsU32}
use tw_monitor.Thumb.Spec.{WidthSpecifier, AddressingMode, ot_reg, ot_immediate}
use tw_monitor.Thumb.Spec.{tm_mov, tm_movs, tm_movw}
use tw_monitor.Thumb.Listing.Format.{listed}
use tw_monitor.Thumb.Assemble.{thumb_assemble}
use tw_monitor.Thumb.Assemble.Move.{assemble_mov, assemble_movs, assemble_movw}
use tw_monitor.Thumb.Assemble.Accept.Width.{stored, chosen}
use tw_monitor.Encoding.Move.RoundTrip.{encode_mov_r_t1_lem}
use tw_monitor.Encoding.Move.RoundTrip.{encode_mov_r_t3_opt_s_lem}
use tw_monitor.Encoding.Move.RoundTrip.{encode_movs_i_t1_lem}
use tw_monitor.Encoding.Move.RoundTrip.{encode_movs_r_t2_noit_lem}
use tw_monitor.Encoding.Move.RoundTrip.{encode_movw_i_t3_lem}
use tw_monitor.Encoding.Move.RoundTrip.{mov_r_t1_accepts}
use tw_monitor.Encoding.Move.RoundTrip.{mov_r_t3_opt_s_accepts}
use tw_monitor.Encoding.Move.RoundTrip.{movs_i_t1_accepts}
use tw_monitor.Encoding.Move.RoundTrip.{movs_r_t2_noit_accepts}
use tw_monitor.Encoding.Move.RoundTrip.{movw_i_t3_accepts}

module _ (width : WidthSpecifier) (condition : ℕ) (mode : AddressingMode) where
  pub mov_register-stored :
      (rd rm : ℕ)
      → rd < 2 ^ 8
      → rm < 2 ^ 8
      → stored (thumb_assemble (listed width tm_mov condition mode (ot_reg rd ∷ ot_reg rm ∷ [])))
        ≡ chosen width (ltb rd (2 ^ 4) && ltb rm (2 ^ 4)) (ltb rd (2 ^ 4) && ltb rm (2 ^ 4))
  unfolding thumb_assemble assemble_mov listed mov_r_t1_accepts mov_r_t3_opt_s_accepts
  mov_register-stored rd rm h_rd h_rm = ground (
    arith,
    encode_mov_r_t1_lem (record { rd = rd % 2 ^ 8; rm = rm % 2 ^ 8 }) (omega (arith)),
    encode_mov_r_t3_opt_s_lem (record { rd = rd % 2 ^ 8; rm = rm % 2 ^ 8; setflags = 0 })
        (omega (arith)),
  )

  pub movs_register-stored :
      (rd rm : ℕ)
      → rd < 2 ^ 8
      → rm < 2 ^ 8
      → stored (thumb_assemble (listed width tm_movs condition mode (ot_reg rd ∷ ot_reg rm ∷ [])))
        ≡ chosen width (ltb rd (2 ^ 3) && ltb rm (2 ^ 3)) (ltb rd (2 ^ 4) && ltb rm (2 ^ 4))
  unfolding thumb_assemble assemble_movs listed movs_r_t2_noit_accepts mov_r_t3_opt_s_accepts
  movs_register-stored rd rm h_rd h_rm = ground (
    arith,
    encode_movs_r_t2_noit_lem (record { rm = rm % 2 ^ 8; rd = rd % 2 ^ 8 }) (omega (arith)),
    encode_mov_r_t3_opt_s_lem (record { rd = rd % 2 ^ 8; rm = rm % 2 ^ 8; setflags = 1 })
        (omega (arith)),
  )

  pub movw-stored :
      (rd imm : ℕ)
      → IsU32 rd
      → IsU32 imm
      → stored
          (thumb_assemble (listed width tm_movw condition mode (ot_reg rd ∷ ot_immediate imm ∷ [])))
        ≡ chosen width (false) (not (rd == 13 || rd == 15) && ltb rd (2 ^ 4) && ltb imm (2 ^ 16))
  unfolding thumb_assemble assemble_movw listed movw_i_t3_accepts
  movw-stored rd imm h_rd h_imm =
      ground (arith, encode_movw_i_t3_lem (record { rd = rd; imm16 = imm }) (omega (arith)))

  pub mov_immediate-stored :
      (rd imm : ℕ)
      → IsU32 rd
      → IsU32 imm
      → stored
          (thumb_assemble (listed width tm_mov condition mode (ot_reg rd ∷ ot_immediate imm ∷ [])))
        ≡ chosen width (false) (not (rd == 13 || rd == 15) && ltb rd (2 ^ 4) && ltb imm (2 ^ 16))
  unfolding thumb_assemble assemble_mov listed movw_i_t3_accepts
  mov_immediate-stored rd imm h_rd h_imm =
      ground (arith, encode_movw_i_t3_lem (record { rd = rd; imm16 = imm }) (omega (arith)))

  pub movs_immediate-stored :
      (rd imm : ℕ)
      → rd < 2 ^ 8
      → IsU32 imm
      → stored
          (thumb_assemble (listed width tm_movs condition mode (ot_reg rd ∷ ot_immediate imm ∷ [])))
        ≡ chosen width (ltb rd (2 ^ 3) && ltb imm (2 ^ 8)) (false)
  unfolding thumb_assemble assemble_movs listed movs_i_t1_accepts
  movs_immediate-stored rd imm h_rd h_imm =
      ground (arith, encode_movs_i_t1_lem (record { rd = rd % 2 ^ 8; imm8 = imm }) (omega (arith)))
