-- ===== src/Checks/Encodings.antt =====
-- The encodings of monitor/autogen_encodings/t32_encoding.c at concrete parts and words.
use tw_monitor.Common.{◌≡◌, refl, ◌↔◌, ◌<◌, ◌+◌, ◌-◌, ◌^◌, true, false, none, some, arith, inl, inr}
use tw_monitor.Encoding.Macros.{narrow, wide, bit_extract, bit_extract_signed, unsigned_check_fit}
use tw_monitor.Encoding.Macros.{signed_check_fit, or16, or32, shl32, asr32}
use tw_monitor.Encoding.Narrow
use tw_monitor.Encoding.Wide
use tw_monitor.Encoding.Narrow.{b_t2, ldr_i_t1}
use tw_monitor.Encoding.Wide.{bl_t1, ldr_i_t4}
use tw_monitor.Encoding.Narrow.Laws.{
  narrow-decode-encode, narrow-encode-decode, narrow-encode-eq_none_iff,
}
use tw_monitor.Encoding.Wide.Laws.{wide-decode-encode, wide-encode-decode, wide-encode-eq_none_iff}
use tw_monitor.Encoding.Gaps.{b_t2-wraps, b_cond_t1_noit-wraps, ldr_i_t1-wraps}
use tw_monitor.Encoding.BranchNarrow.{encode_b_t2, decode_b_t2, match_b_t2}
use tw_monitor.Encoding.BranchNarrow.{encode_b_cond_t1_noit, decode_b_cond_t1_noit}
use tw_monitor.Encoding.BranchNarrow.RoundTrip.{b_t2_word, b_cond_t1_noit_word}
use tw_monitor.Encoding.BranchWide.{encode_bl_t1}
use tw_monitor.Encoding.LoadWide.{match_ldr_i_t4}
use tw_monitor.Encoding.LoadNarrow.{encode_ldr_i_t1, decode_ldr_i_t1}
use tw_monitor.Encoding.LoadNarrow.RoundTrip.{ldr_i_t1_word}

-- B to the halfword before the next instruction.
narrow-decode-encode_example :
    (0xe7fe < 2 ^ 16)
    × (Narrow.matches b_t2 0xe7fe ≡ true)
    × (Narrow.decode b_t2 0xe7fe ≡ record { simm11 = 2 ^ 32 - 4 })
unfolding Narrow.encode encode_b_t2 bit_extract_signed signed_check_fit unsigned_check_fit or16
    shl32 asr32
narrow-decode-encode_example =
    narrow-decode-encode b_t2 (record { simm11 = 2 ^ 32 - 4 }) (record { simm11_u32 = omega arith })
      (inr (omega arith)) 0xe7fe refl

narrow-encode-decode_example : Narrow.encode b_t2 (Narrow.decode b_t2 0xe7fe) ≡ some (narrow 0xe7fe)
unfolding Narrow.matches match_b_t2 bit_extract
narrow-encode-decode_example = narrow-encode-decode b_t2 0xe7fe (omega arith) refl

-- An odd offset.
narrow-encode-eq_none_iff_example :
    (Narrow.encode b_t2 (record { simm11 = 3 }) ≡ none)
    ↔ (Narrow.accepts b_t2 (record { simm11 = 3 }) ≡ false)
narrow-encode-eq_none_iff_example =
    narrow-encode-eq_none_iff b_t2 (record { simm11 = 3 }) (record { simm11_u32 = omega arith })

-- BL to 256 bytes ahead.
wide-decode-encode_example :
    (0xf880f000 < 2 ^ 32)
    × (Wide.matches bl_t1 0xf880f000 ≡ true)
    × (Wide.decode bl_t1 0xf880f000 ≡ record { simm25 = 256 })
unfolding Wide.encode encode_bl_t1 bit_extract_signed bit_extract signed_check_fit
    unsigned_check_fit or32 shl32 asr32
wide-decode-encode_example =
    wide-decode-encode bl_t1 (record { simm25 = 256 }) (record { simm25_u32 = omega arith })
      (inl (omega arith)) 0xf880f000 refl

-- LDR r1, [r2], #4.
wide-encode-decode_example :
    Wide.encode ldr_i_t4 (Wide.decode ldr_i_t4 0x1b04f852) ≡ some (wide 0x1b04f852)
unfolding Wide.matches match_ldr_i_t4 bit_extract
wide-encode-decode_example = wide-encode-decode ldr_i_t4 0x1b04f852 (omega arith) refl

wide-encode-eq_none_iff_example :
    (Wide.encode bl_t1 (record { simm25 = 3 }) ≡ none)
    ↔ (Wide.accepts bl_t1 (record { simm25 = 3 }) ≡ false)
wide-encode-eq_none_iff_example =
    wide-encode-eq_none_iff bl_t1 (record { simm25 = 3 }) (record { simm25_u32 = omega arith })

b_t2-wraps_example :
    (encode_b_t2 (record { simm11 = 0x900 })
      ≡ some (narrow (b_t2_word (record { simm11 = 0x900 }))))
    × (decode_b_t2 (b_t2_word (record { simm11 = 0x900 }))
        ≡ record { simm11 = 0x900 + (2 ^ 32 - 2 ^ 12) })
b_t2-wraps_example = b_t2-wraps 0x900 refl (omega arith) (omega arith)

b_cond_t1_noit-wraps_example :
    (encode_b_cond_t1_noit (record { cond = 1; simm8 = 0x180 })
      ≡ some (narrow (b_cond_t1_noit_word (record { cond = 1; simm8 = 0x180 }))))
    × (decode_b_cond_t1_noit (b_cond_t1_noit_word (record { cond = 1; simm8 = 0x180 }))
        ≡ record { cond = 1; simm8 = 0x180 + (2 ^ 32 - 2 ^ 9) })
b_cond_t1_noit-wraps_example =
    b_cond_t1_noit-wraps 1 0x180 (omega arith) refl (omega arith) (omega arith)

ldr_i_t1-wraps_example :
    (encode_ldr_i_t1 (record { rt = 0; rn = 1; imm7 = 0x84 })
      ≡ some (narrow (ldr_i_t1_word (record { rt = 0; rn = 1; imm7 = 0x84 }))))
    × (decode_ldr_i_t1 (ldr_i_t1_word (record { rt = 0; rn = 1; imm7 = 0x84 }))
        ≡ record { rt = 0; rn = 1; imm7 = 0x4 })
ldr_i_t1-wraps_example = ldr_i_t1-wraps 0 1 0x84 (omega arith) (omega arith) refl (omega arith)
