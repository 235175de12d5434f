-- ===== src/Thumb/Assemble/ReadBack/Rules.antt =====
-- What `thumb_assemble` of monitor/thumb_asm.c stores is read back by `thumb_disassemble`: the rules
-- for one encoder, for an encoder with a fallback, and for a branch.
use tw_monitor.Common.{refl, ℕ, ◌+◌, ◌*◌, ◌/◌, ◌^◌, ◌<◌, ◌≡◌, ◌∙◌, ap, Bool, true, false}
use tw_monitor.Common.{Option, none, some, arith, if◌then◌else◌}
use tw_monitor.Encoding.Macros.{Word, narrow, wide}
use tw_monitor.Encoding.Narrow
use tw_monitor.Encoding.Narrow.{NarrowEncoding}
use tw_monitor.Encoding.Narrow.Laws.{narrow-decode-encode}
use tw_monitor.Encoding.Narrow.Width.{encode-ne-wide}
use tw_monitor.Encoding.Wide
use tw_monitor.Encoding.Wide.{WideEncoding}
use tw_monitor.Encoding.Wide.Laws.{wide-decode-encode}
use tw_monitor.Encoding.Wide.Width.{encode-ne-narrow}
use tw_monitor.Thumb.Spec.{InstructionSpec, narrow_half}
use tw_monitor.Thumb.Listing.Narrow.{narrow_listing}
use tw_monitor.Thumb.Listing.Wide.{wide_listing}
use tw_monitor.Thumb.Disassemble.{thumb_disassemble}
use tw_monitor.Thumb.Disassemble.Laws.{thumb_disassemble-narrow, thumb_disassemble-reached}
use tw_monitor.Thumb.Disassemble.Narrow.Laws as NarrowLaws
use tw_monitor.Thumb.Disassemble.Wide.Laws as WideLaws
use tw_monitor.Thumb.Assemble.{into_after}
use tw_monitor.Thumb.Assemble.Result.{AssembleResult, fail_bad_mnemonic, fail_invalid_width}
use tw_monitor.Thumb.Assemble.Result.{fail_invalid_operand, narrow_success, wide_success}
use tw_monitor.Thumb.Assemble.Result.{encoder_to_asm_result, try_encoding}

-- The word in memory after a success disassembles to `short` if 16 bits were stored, and to `long` if
-- 32 were. A failure promises nothing.
pub data ReadsBack (into : ℕ) (short long : InstructionSpec) : AssembleResult → Type 0 where
  as_short :
      {w : ℕ}
      → thumb_disassemble (into_after into (narrow_success w)) ≡ some short
      → ReadsBack into short long (narrow_success w)
  as_long :
      {w : ℕ}
      → thumb_disassemble (into_after into (wide_success w)) ≡ some long
      → ReadsBack into short long (wide_success w)
  bad_mnemonic : ReadsBack into short long fail_bad_mnemonic
  invalid_width : ReadsBack into short long fail_invalid_width
  invalid_operand : ReadsBack into short long fail_invalid_operand

narrow_half-store : (into w : ℕ) → w < 2 ^ 16 → narrow_half (into / 2 ^ 16 * 2 ^ 16 + w) ≡ w
narrow_half-store into w h = omega arith

module _ (into : ℕ) {short long : InstructionSpec} where
  pub if-ReadsBack :
      (b : Bool) {x y : AssembleResult}
      → ReadsBack into short long x
      → ReadsBack into short long y
      → ReadsBack into short long (if b then x else y)
  if-ReadsBack true hx hy = hx
  if-ReadsBack false hx hy = hy

  pub then-ReadsBack :
      (b : Bool) {x : AssembleResult} (y : AssembleResult)
      → b ≡ true
      → ReadsBack into short long x
      → ReadsBack into short long (if b then x else y)
  then-ReadsBack true y h hx = hx
  then-ReadsBack false y h hx = absurd (ground arith)

  pub else-ReadsBack :
      (b : Bool) {y : AssembleResult} (x : AssembleResult)
      → b ≡ false
      → ReadsBack into short long y
      → ReadsBack into short long (if b then x else y)
  else-ReadsBack true x h hy = absurd (ground arith)
  else-ReadsBack false x h hy = hy

module _ (into : ℕ) (e : NarrowEncoding) (p : Narrow.Parts e) (v : Narrow.IsParts e p)
    (r : (w : ℕ) → Narrow.encode e p ≡ some (narrow w) → Narrow.InRange e p)
    (reached : NarrowLaws.IsReached e p) where
  stored-narrow :
      (w : ℕ)
      → Narrow.encode e p ≡ some (narrow w)
      → thumb_disassemble (into_after into (narrow_success w)) ≡ some (narrow_listing e p)
  unfolding into_after
  stored-narrow w h =
      let q = narrow-decode-encode e p v (r w h) w h in
      let half = narrow_half-store into w q.0 in
      thumb_disassemble-narrow e (into / 2 ^ 16 * 2 ^ 16 + w) (rw half q.1) (rw (half, q.2) reached)
      ∙ rw (half, q.2)

  pub narrow-encoder :
      {short long : InstructionSpec}
      → narrow_listing e p ≡ short
      → (o : Option Word) → Narrow.encode e p ≡ o
      → ReadsBack into short long (encoder_to_asm_result o)
  narrow-encoder l none h = invalid_operand
  narrow-encoder l (some (narrow w)) h = as_short (stored-narrow w h ∙ ap some l)
  narrow-encoder l (some (wide w)) h = absurd (encode-ne-wide e p w h)

  pub narrow-try :
      {short long : InstructionSpec} {next : AssembleResult}
      → narrow_listing e p ≡ short
      → ReadsBack into short long next
      → (o : Option Word) → Narrow.encode e p ≡ o
      → ReadsBack into short long (try_encoding o next)
  narrow-try l n none h = n
  narrow-try l n (some (narrow w)) h = as_short (stored-narrow w h ∙ ap some l)
  narrow-try l n (some (wide w)) h = absurd (encode-ne-wide e p w h)

  -- The listing matters only where the encoder succeeds.
  pub narrow-try_on :
      {short long : InstructionSpec} {next : AssembleResult}
      → ((w : ℕ) → Narrow.encode e p ≡ some (narrow w) → narrow_listing e p ≡ short)
      → ReadsBack into short long next
      → (o : Option Word) → Narrow.encode e p ≡ o
      → ReadsBack into short long (try_encoding o next)
  narrow-try_on l n none h = n
  narrow-try_on l n (some (narrow w)) h = as_short (stored-narrow w h ∙ ap some (l w h))
  narrow-try_on l n (some (wide w)) h = absurd (encode-ne-wide e p w h)

module _ (into : ℕ) (e : WideEncoding) (p : Wide.Parts e) (v : Wide.IsParts e p)
    (r : (w : ℕ) → Wide.encode e p ≡ some (wide w) → Wide.InRange e p)
    (reached : WideLaws.IsReached e p) where
  stored-wide :
      (w : ℕ)
      → Wide.encode e p ≡ some (wide w)
      → thumb_disassemble (into_after into (wide_success w)) ≡ some (wide_listing e p)
  unfolding into_after
  stored-wide w h =
      let q = wide-decode-encode e p v (r w h) w h in
      thumb_disassemble-reached e w q.1 (rw q.2 reached) ∙ rw q.2

  pub wide-encoder :
      {short long : InstructionSpec}
      → wide_listing e p ≡ long
      → (o : Option Word) → Wide.encode e p ≡ o
      → ReadsBack into short long (encoder_to_asm_result o)
  wide-encoder l none h = invalid_operand
  wide-encoder l (some (wide w)) h = as_long (stored-wide w h ∙ ap some l)
  wide-encoder l (some (narrow w)) h = absurd (encode-ne-narrow e p w h)

  -- The listing matters only where the encoder succeeds.
  pub wide-try_on :
      {short long : InstructionSpec} {next : AssembleResult}
      → ((w : ℕ) → Wide.encode e p ≡ some (wide w) → wide_listing e p ≡ long)
      → ReadsBack into short long next
      → (o : Option Word) → Wide.encode e p ≡ o
      → ReadsBack into short long (try_encoding o next)
  wide-try_on l n none h = n
  wide-try_on l n (some (wide w)) h = as_long (stored-wide w h ∙ ap some (l w h))
  wide-try_on l n (some (narrow w)) h = absurd (encode-ne-narrow e p w h)

  -- The fallback matters only where the encoder fails.
  pub wide-try_else :
      {short long : InstructionSpec} {next : AssembleResult}
      → wide_listing e p ≡ long
      → (o : Option Word) → Wide.encode e p ≡ o
      → (o ≡ none → ReadsBack into short long next)
      → ReadsBack into short long (try_encoding o next)
  wide-try_else l none h n = n refl
  wide-try_else l (some (wide w)) h n = as_long (stored-wide w h ∙ ap some l)
  wide-try_else l (some (narrow w)) h n = absurd (encode-ne-narrow e p w h)

  pub wide-try :
      {short long : InstructionSpec} {next : AssembleResult}
      → wide_listing e p ≡ long
      → ReadsBack into short long next
      → (o : Option Word) → Wide.encode e p ≡ o
      → ReadsBack into short long (try_encoding o next)
  wide-try l n none h = n
  wide-try l n (some (wide w)) h = as_long (stored-wide w h ∙ ap some l)
  wide-try l n (some (narrow w)) h = absurd (encode-ne-narrow e p w h)
