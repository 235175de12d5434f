-- ===== src/Encoding/Move.antt =====
-- The encodings of MOV, MOVS and MOVW, from monitor/autogen_encodings/t32_encoding.c and .h.
pub mod RoundTrip
use tw_monitor.Common.{ℕ, ◌/◌, ◌^◌, Bool, ◌&&◌, Option, some, ◌==◌, guard, ◌>>◌}
use tw_monitor.Encoding.Macros.{Word, narrow, wide, shl32, or16, or32, bit_extract}
use tw_monitor.Encoding.Macros.{unsigned_check_fit}

pub record MovsIt1Parts : Type 0 where
  pub rd : ℕ
  pub imm8 : ℕ

unfoldable pub match_movs_i_t1 : ℕ → Bool
match_movs_i_t1 field = bit_extract field 11 5 == 0x4

unfoldable pub encode_movs_i_t1 : MovsIt1Parts → Option Word
encode_movs_i_t1 parts = do
  let encoded : ℕ = 0x2000
  guard (unsigned_check_fit parts.rd 3)
  let encoded1 = or16 encoded (shl32 parts.rd 8)
  guard (unsigned_check_fit parts.imm8 8)
  let encoded2 = or16 encoded1 (shl32 parts.imm8 0)
  some (narrow encoded2)

unfoldable pub decode_movs_i_t1 : ℕ → MovsIt1Parts
decode_movs_i_t1 field = record { rd = bit_extract field 8 3; imm8 = bit_extract field 0 8 }

pub record MovwIt3Parts : Type 0 where
  pub rd : ℕ
  pub imm16 : ℕ

unfoldable pub match_movw_i_t3 : ℕ → Bool
match_movw_i_t3 field =
    (bit_extract field 31 1 == 0x0)
    && (bit_extract field 11 5 == 0x1E)
    && (bit_extract field 4 6 == 0x24)

unfoldable pub encode_movw_i_t3 : MovwIt3Parts → Option Word
encode_movw_i_t3 parts = do
  let encoded : ℕ = 0xf240
  guard (unsigned_check_fit (parts.imm16 / 2 ^ 0) 16)
  let imm4 = bit_extract parts.imm16 12 4
  let i = bit_extract parts.imm16 11 1
  let imm3 = bit_extract parts.imm16 8 3
  let imm8 = bit_extract parts.imm16 0 8
  let encoded1 = or32 encoded (shl32 imm3 28)
  guard (unsigned_check_fit parts.rd 4)
  let encoded2 = or32 encoded1 (shl32 parts.rd 24)
  let encoded3 = or32 encoded2 (shl32 imm8 16)
  let encoded4 = or32 encoded3 (shl32 i 10)
  let encoded5 = or32 encoded4 (shl32 imm4 0)
  some (wide encoded5)

unfoldable pub decode_movw_i_t3 : ℕ → MovwIt3Parts
decode_movw_i_t3 field =
    let imm3 = bit_extract field 28 3 in
    let imm8 = bit_extract field 16 8 in
    let i = bit_extract field 10 1 in
    let imm4 = bit_extract field 0 4 in
    record {
      rd = bit_extract field 24 4;
      imm16 =
          or32 (or32 (or32 (or32 0 (shl32 imm4 12)) (shl32 i 11)) (shl32 imm3 8)) (shl32 imm8 0);
    }

pub record MovRt1Parts : Type 0 where
  pub rm : ℕ
  pub rd : ℕ

unfoldable pub match_mov_r_t1 : ℕ → Bool
match_mov_r_t1 field = bit_extract field 8 8 == 0x46

unfoldable pub encode_mov_r_t1 : MovRt1Parts → Option Word
encode_mov_r_t1 parts = do
  let encoded : ℕ = 0x4600
  guard (unsigned_check_fit (parts.rd / 2 ^ 0) 4)
  let rd_3 = bit_extract parts.rd 3 1
  let rd_2_0 = bit_extract parts.rd 0 3
  let encoded1 = or16 encoded (shl32 rd_3 7)
  guard (unsigned_check_fit parts.rm 4)
  let encoded2 = or16 encoded1 (shl32 parts.rm 3)
  let encoded3 = or16 encoded2 (shl32 rd_2_0 0)
  some (narrow encoded3)

unfoldable pub decode_mov_r_t1 : ℕ → MovRt1Parts
decode_mov_r_t1 field =
    let rd_3 = bit_extract field 7 1 in
    let rd_2_0 = bit_extract field 0 3 in
    record { rm = bit_extract field 3 4; rd = or32 (or32 0 (shl32 rd_3 3)) (shl32 rd_2_0 0) }

pub record MovsRt2NoitParts : Type 0 where
  pub rm : ℕ
  pub rd : ℕ

unfoldable pub match_movs_r_t2_noit : ℕ → Bool
match_movs_r_t2_noit field = bit_extract field 6 10 == 0x0

unfoldable pub encode_movs_r_t2_noit : MovsRt2NoitParts → Option Word
encode_movs_r_t2_noit parts = do
  let encoded : ℕ = 0x0
  guard (unsigned_check_fit parts.rm 3)
  let encoded1 = or16 encoded (shl32 parts.rm 3)
  guard (unsigned_check_fit parts.rd 3)
  let encoded2 = or16 encoded1 (shl32 parts.rd 0)
  some (narrow encoded2)

unfoldable pub decode_movs_r_t2_noit : ℕ → MovsRt2NoitParts
decode_movs_r_t2_noit field = record { rm = bit_extract field 3 3; rd = bit_extract field 0 3 }

pub record MovRt3OptSParts : Type 0 where
  pub rd : ℕ
  pub rm : ℕ
  pub setflags : ℕ

unfoldable pub match_mov_r_t3_opt_s : ℕ → Bool
match_mov_r_t3_opt_s field =
    (bit_extract field 28 4 == 0x0)
    && (bit_extract field 20 4 == 0x0)
    && (bit_extract field 5 11 == 0x752)
    && (bit_extract field 0 4 == 0xF)

unfoldable pub encode_mov_r_t3_opt_s : MovRt3OptSParts → Option Word
encode_mov_r_t3_opt_s parts = do
  let encoded : ℕ = 0xea4f
  guard (unsigned_check_fit parts.rd 4)
  let encoded1 = or32 encoded (shl32 parts.rd 24)
  guard (unsigned_check_fit parts.rm 4)
  let encoded2 = or32 encoded1 (shl32 parts.rm 16)
  guard (unsigned_check_fit parts.setflags 1)
  let encoded3 = or32 encoded2 (shl32 parts.setflags 4)
  some (wide encoded3)

unfoldable pub decode_mov_r_t3_opt_s : ℕ → MovRt3OptSParts
decode_mov_r_t3_opt_s field = record {
  rd = bit_extract field 24 4;
  rm = bit_extract field 16 4;
  setflags = bit_extract field 4 1;
}
