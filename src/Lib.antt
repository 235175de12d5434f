-- ===== src/Lib.antt =====
-- tw-monitor, an on-chip monitor for ARM cores: its assembler and disassembler for Thumb
-- instructions.
--
-- The program's parts. The monitor runs commands typed on a serial terminal. The commands that
-- assemble, list and enter code share one instruction format, `struct thumb_instruction_spec`
-- (monitor/thumb_asm.h). `thumb_assemble` (monitor/thumb_asm.c) takes one and stores 16 or 32 bits at
-- an address through the encoders of monitor/autogen_encodings/t32_encoding.c; `thumb_disassemble`
-- reads the bits at an address, finds the encoding by the matchers of that file in a fixed order, and
-- fills a format in from its decoder's parts.
--
-- Files.
--   Common            Boolean tests on numbers, Option, and bitwise operators in plain arithmetic
--   Encoding.Macros   BIT, BIT_EXTRACT, the range checks and SIGNED_EXTEND, and what they compute
--   Encoding.<Group>  the parts, matcher, encoder and decoder of each encoding, one file for each
--                     group of instructions; <Group>.RoundTrip proves them inverse to each other
--                     (BranchWide.Jump, .Link and .Conditional for the 32-bit branches)
--   Encoding.Narrow   the 27 encodings of 16 bits as one family, and what holds of all of them
--   Encoding.Wide     the 17 encodings of 32 bits, likewise
--   Encoding.Gaps     the offsets that an encoder accepts and its field cannot hold
--   Thumb.Spec        the instruction format and its setters, the test for a wide instruction
--   Thumb.Registers   the loops over register lists
--   Thumb.Disassemble `thumb_disassemble`: its chains of tests, cut into consecutive functions;
--                     Wide.Chain has the 32-bit chain as a list of encodings
--   Thumb.Listing     what each encoding stands for, whatever the order of the tests
--   Thumb.Assemble    `thumb_assemble`, a function for each case of its switch; ReadBack and Accept
--                     are the lemmas on each form of an instruction, and Forms gathers them;
--                     Lists takes the register lists of PUSH and POP apart
--   Checks            the theorems at concrete instructions
--
-- State and errors. An `unsigned`, an `int` and a `uint32_t` are numbers below 2^32, an `int` by its
-- bit pattern; wrap-around, truncation to 16 bits and to `uint8_t` are written out. An encoder's
-- result is an Option: none where the C function returns 0, the stored halfword or word where it
-- returns 16 or 32. The word at the instruction pointer is a number below 2^32 with the first
-- halfword in its lower half; `into_after` is that word after an assembly, with the upper half kept
-- by a narrow store. A failed assertion, which halts the monitor, is none. An operand's union is read
-- by `value`, and its four slots are fields.
--
-- Fuel. The two loops over a 16-bit register list run on 17 steps: each step clears a one or drops a
-- binary digit, of which there are at most 16.
--
-- The same instruction has the same mnemonic and operands, and for B the same condition. The condition
-- of another mnemonic, and the addressing mode of one other than LDR, are not read by the assembler
-- and are none in a listing.
--
-- Not modelled: printing (`thumb_print_instruction` and the register names), `<<` of a negative
-- number (undefined in C, taken as on the bit pattern), and the other parts of the monitor: strings
-- (monitor/string.c), memory entries (monitor/memory.c), the terminal (monitor/io.c, monitor/vt.c,
-- monitor/terminal.c), transfers, the command loops (monitor/menu.c, monitor/monitor_cmds), device
-- registers (monitor/arm, monitor/hardware) and start-up code.
pub mod Common
pub mod Encoding
pub mod Thumb
pub mod Checks
