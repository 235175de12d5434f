-- ===== src/Thumb/Disassemble/Wide/Chain.antt =====
-- The 32-bit half of `thumb_disassemble` in monitor/thumb_asm.c as a list of encodings, tried in turn.
use tw_monitor.Common.{
  ℕ, zero, suc, ◌≡◌, true, false, refl, ap, ◌∙◌, Option, none, some, List, [], ◌∷◌, ◌&&◌, ◌==◌,
  if◌then◌else◌, arith,
}
use tw_monitor.Encoding.Wide.{
  WideEncoding, Parts, matches, decode, udf_t2, nop_t2, movw_i_t3, mov_r_t3_opt_s, b_t4,
  b_cond_t3_noit, ldr_i_t3, ldr_i_t4, ldr_lit_t2, ldr_r_t2_lsl, bl_t1, pop_t2, pop_t3, push_t2,
  push_t3, addw_i_t4, subw_i_t4,
}
use tw_monitor.Encoding.LoadWide.{decode_ldr_i_t4}
use tw_monitor.Thumb.Spec.{InstructionSpec, blank, tws_wide, add_operands}
use tw_monitor.Thumb.Listing.Format.{listed, load_mode}
use tw_monitor.Thumb.Listing.Wide.{wide_listing}
use tw_monitor.Thumb.Disassemble.Wide.{indexed_mode, disassemble_wide, wide_undefined_to_branch}
use tw_monitor.Thumb.Disassemble.Wide.{wide_loads, wide_link_to_subtract}

-- The encodings in the order of their tests.
abbrev order : List WideEncoding
order =
    udf_t2 ∷ nop_t2 ∷ movw_i_t3 ∷ mov_r_t3_opt_s ∷ b_t4 ∷ b_cond_t3_noit ∷ ldr_i_t3 ∷ ldr_i_t4
    ∷ ldr_lit_t2 ∷ ldr_r_t2_lsl ∷ bl_t1 ∷ pop_t2 ∷ pop_t3 ∷ push_t2 ∷ push_t3 ∷ addw_i_t4
    ∷ subw_i_t4 ∷ []

-- The number of tests before that of an encoding.
abbrev rank : WideEncoding → ℕ
rank udf_t2 = 0
rank nop_t2 = 1
rank movw_i_t3 = 2
rank mov_r_t3_opt_s = 3
rank b_t4 = 4
rank b_cond_t3_noit = 5
rank ldr_i_t3 = 6
rank ldr_i_t4 = 7
rank ldr_lit_t2 = 8
rank ldr_r_t2_lsl = 9
rank bl_t1 = 10
rank pop_t2 = 11
rank pop_t3 = 12
rank push_t2 = 13
rank push_t3 = 14
rank addw_i_t4 = 15
rank subw_i_t4 = 16

abbrev take {ℓ} : {A : Type ℓ} → ℕ → List A → List A
take zero xs = []
take (suc n) [] = []
take (suc n) (x ∷ xs) = x ∷ take n xs

abbrev drop {ℓ} : {A : Type ℓ} → ℕ → List A → List A
drop zero xs = xs
drop (suc n) [] = []
drop (suc n) (x ∷ xs) = drop n xs

-- None of the encodings matches the word.
abbrev pub NoneMatch : List WideEncoding → ℕ → Type 0
NoneMatch [] w = Unit
NoneMatch (e ∷ es) w = (matches e w ≡ false) × NoneMatch es w

-- No test before that of the encoding takes the word.
abbrev pub NoneBefore : WideEncoding → ℕ → Type 0
NoneBefore e w = NoneMatch (take (rank e) order) w

-- What becomes of a word whose test is that of the encoding: a failed assertion for a load with neither
-- index nor writeback, else the encoding's instruction.
abbrev pub outcome : (e : WideEncoding) → Parts e → Option InstructionSpec
outcome ldr_i_t4 p =
    if p.index == 0 && p.writeback == 0 then none else some (wide_listing ldr_i_t4 p)
outcome e p = some (wide_listing e p)

-- The instruction of the first encoding that matches, or none that is known.
unfoldable first_match : List WideEncoding → ℕ → Option InstructionSpec
first_match [] w = some (record blank { width = tws_wide })
first_match (e ∷ es) w = if matches e w then outcome e (decode e w) else first_match es w

indexed_mode_lem :
    (index writeback : ℕ)
    → indexed_mode index writeback
      ≡ (if index == 0 && writeback == 0 then none else some (load_mode index writeback))
unfolding indexed_mode load_mode
indexed_mode_lem index writeback = ground arith

-- The chain of tests, in the parts that it is cut into, is that of the list.
module _ (w : ℕ) where
  link_to_subtract-first_match :
      wide_link_to_subtract (record blank { width = tws_wide }) w ≡ first_match (drop 10 order) w
  unfolding first_match wide_link_to_subtract wide_listing listed matches decode add_operands
  link_to_subtract-first_match = ground arith

  loads-first_match :
      wide_loads (record blank { width = tws_wide }) w ≡ first_match (drop 6 order) w
  unfolding first_match wide_loads wide_listing listed matches decode add_operands
  loads-first_match = ground (
    arith,
    link_to_subtract-first_match,
    indexed_mode_lem (decode_ldr_i_t4 w).index (decode_ldr_i_t4 w).writeback,
  )

  disassemble_wide-first_match : disassemble_wide w ≡ first_match order w
  unfolding first_match disassemble_wide wide_undefined_to_branch wide_listing listed matches decode
      add_operands
  disassemble_wide-first_match = ground (arith, loads-first_match)

first_match-skip :
    (n : ℕ) (es : List WideEncoding) (w : ℕ)
    → NoneMatch (take n es) w
    → first_match es w ≡ first_match (drop n es) w
unfolding first_match
first_match-skip zero es w h = refl
first_match-skip (suc n) [] w h = refl
first_match-skip (suc n) (e ∷ es) w (h, hs) = rw h (first_match-skip n es w hs)

drop-rank : (e : WideEncoding) → (es : List WideEncoding) × (drop (rank e) order ≡ e ∷ es)
drop-rank udf_t2 = (_, refl)
drop-rank nop_t2 = (_, refl)
drop-rank movw_i_t3 = (_, refl)
drop-rank mov_r_t3_opt_s = (_, refl)
drop-rank b_t4 = (_, refl)
drop-rank b_cond_t3_noit = (_, refl)
drop-rank ldr_i_t3 = (_, refl)
drop-rank ldr_i_t4 = (_, refl)
drop-rank ldr_lit_t2 = (_, refl)
drop-rank ldr_r_t2_lsl = (_, refl)
drop-rank bl_t1 = (_, refl)
drop-rank pop_t2 = (_, refl)
drop-rank pop_t3 = (_, refl)
drop-rank push_t2 = (_, refl)
drop-rank push_t3 = (_, refl)
drop-rank addw_i_t4 = (_, refl)
drop-rank subw_i_t4 = (_, refl)

pub disassemble_wide-outcome :
    (e : WideEncoding) (w : ℕ)
    → NoneBefore e w
    → matches e w ≡ true
    → disassemble_wide w ≡ outcome e (decode e w)
unfolding first_match
disassemble_wide-outcome e w h m =
    let rest = drop-rank e in
    disassemble_wide-first_match w
    ∙ first_match-skip (rank e) order w h
    ∙ ap (λ es. first_match es w) rest.1
    ∙ rw m
