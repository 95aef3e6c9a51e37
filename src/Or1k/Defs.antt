-- ===== src/Or1k/Defs.antt =====
-- The instruction table of models/wishbone/or1k/or1k_defs.hpp, group by group in its order.
use Prim.Native.String.{String}
use deltamodels.Base.{ℕ, ◌+◌, List, [], ◌∷◌, ◌++◌, shl}
use deltamodels.Or1k.Descriptor.{Or1kDescriptor}

abbrev mask_6bits : ℕ
mask_6bits = shl 0x3f 26

abbrev mask_8bits : ℕ
mask_8bits = shl 0xff 24

abbrev mask_11bits : ℕ
mask_11bits = shl 0x7ff 21

abbrev mask_16bits : ℕ
mask_16bits = shl 0xffff 16

abbrev mask_32bits : ℕ
mask_32bits = 0xffffffff

abbrev alu_matcher : ℕ
alu_matcher = shl 0x38 26

abbrev alu_mask_arith : ℕ
alu_mask_arith = mask_6bits + shl 0x3 8 + 0xf

abbrev alu_mask_logic : ℕ
alu_mask_logic = mask_6bits + shl 0xf 6 + 0xf

abbrev shifter_matcher : ℕ
shifter_matcher = shl 0x2e 26

abbrev shifter_mask : ℕ
shifter_mask = mask_6bits + shl 0x3 6

abbrev mac_matcher : ℕ
mac_matcher = shl 0x31 26

abbrev mac_mask : ℕ
mac_mask = mask_6bits + 0xf

abbrev entry : String → ℕ → ℕ → List String → Or1kDescriptor
entry rep mask matcher regs = record { rep = rep; mask = mask; matcher = matcher; regs = regs }

unfoldable pub moves : List Or1kDescriptor
moves =
    entry "l.nop" mask_8bits (shl 0x15 24) ("imm_k" ∷ [])
    ∷ entry "l.mfspr" mask_6bits (shl 0x2d 26) ("reg_d" ∷ "reg_a" ∷ "imm_k" ∷ [])
    ∷ entry "l.mtspr" mask_6bits (shl 0x30 26) ("reg_a" ∷ "reg_b" ∷ "imm_k2" ∷ [])
    ∷ entry "l.movhi" mask_6bits (shl 0x6 26) ("reg_d" ∷ "imm_k" ∷ [])
    ∷ []

unfoldable pub control : List Or1kDescriptor
control =
    entry "l.j" mask_6bits (shl 0 26) ("imm_n" ∷ [])
    ∷ entry "l.jr" mask_6bits (shl 0x11 26) ("reg_b" ∷ [])
    ∷ entry "l.jal" mask_6bits (shl 0x1 26) ("imm_n" ∷ [])
    ∷ entry "l.jalr" mask_6bits (shl 0x12 26) ("reg_b" ∷ [])
    ∷ entry "l.bf" mask_6bits (shl 0x4 26) ("imm_n" ∷ [])
    ∷ entry "l.bnf" mask_6bits (shl 0x3 26) ("imm_n" ∷ [])
    ∷ []

unfoldable pub load_store : List Or1kDescriptor
load_store =
    entry "l.lwa" mask_6bits (shl 0x1b 26) []
    ∷ entry "l.lwz" mask_6bits (shl 0x21 26) ("reg_d" ∷ "imm_i" ∷ "reg_a" ∷ [])
    ∷ entry "l.lws" mask_6bits (shl 0x22 26) ("reg_d" ∷ "imm_i" ∷ "reg_a" ∷ [])
    ∷ entry "l.lhz" mask_6bits (shl 0x25 26) ("reg_d" ∷ "imm_i" ∷ "reg_a" ∷ [])
    ∷ entry "l.lhs" mask_6bits (shl 0x26 26) ("reg_d" ∷ "imm_i" ∷ "reg_a" ∷ [])
    ∷ entry "l.lbz" mask_6bits (shl 0x23 26) ("reg_d" ∷ "imm_i" ∷ "reg_a" ∷ [])
    ∷ entry "l.lbs" mask_6bits (shl 0x24 26) ("reg_d" ∷ "imm_i" ∷ "reg_a" ∷ [])
    ∷ entry "l.swa" mask_6bits (shl 0x33 26) []
    ∷ entry "l.sw" mask_6bits (shl 0x35 26) ("imm_i2" ∷ "reg_a" ∷ "reg_b" ∷ [])
    ∷ entry "l.sh" mask_6bits (shl 0x37 26) ("imm_i2" ∷ "reg_a" ∷ "reg_b" ∷ [])
    ∷ entry "l.sb" mask_6bits (shl 0x36 26) ("imm_i2" ∷ "reg_a" ∷ "reg_b" ∷ [])
    ∷ []

unfoldable pub extends : List Or1kDescriptor
extends =
    entry "l.extwz" alu_mask_logic (alu_matcher + shl 0x1 6 + 0xd) ("reg_d" ∷ "reg_a" ∷ [])
    ∷ entry "l.extws" alu_mask_logic (alu_matcher + 0xd) ("reg_d" ∷ "reg_a" ∷ [])
    ∷ entry "l.exthz" alu_mask_logic (alu_matcher + shl 0x2 6 + 0xc) ("reg_d" ∷ "reg_a" ∷ [])
    ∷ entry "l.exths" alu_mask_logic (alu_matcher + 0xc) ("reg_d" ∷ "reg_a" ∷ [])
    ∷ entry "l.extbz" alu_mask_logic (alu_matcher + shl 0x3 6 + 0xc) ("reg_d" ∷ "reg_a" ∷ [])
    ∷ entry "l.extbs" alu_mask_logic (alu_matcher + shl 0x1 6 + 0xc) ("reg_d" ∷ "reg_a" ∷ [])
    ∷ []

unfoldable pub alu_regs : List Or1kDescriptor
alu_regs =
    entry "l.add" alu_mask_arith (alu_matcher + 0x0) ("reg_d" ∷ "reg_a" ∷ "reg_b" ∷ [])
    ∷ entry "l.addc" alu_mask_arith (alu_matcher + 0x1) ("reg_d" ∷ "reg_a" ∷ "reg_b" ∷ [])
    ∷ entry "l.sub" alu_mask_arith (alu_matcher + 0x2) ("reg_d" ∷ "reg_a" ∷ "reg_b" ∷ [])
    ∷ entry "l.and" alu_mask_arith (alu_matcher + 0x3) ("reg_d" ∷ "reg_a" ∷ "reg_b" ∷ [])
    ∷ entry "l.or" alu_mask_arith (alu_matcher + 0x4) ("reg_d" ∷ "reg_a" ∷ "reg_b" ∷ [])
    ∷ entry "l.xor" alu_mask_arith (alu_matcher + 0x5) ("reg_d" ∷ "reg_a" ∷ "reg_b" ∷ [])
    ∷ entry "l.cmov" alu_mask_arith (alu_matcher + 0xe) ("reg_d" ∷ "reg_a" ∷ "reg_b" ∷ [])
    ∷ entry "l.ff1" alu_mask_arith (alu_matcher + 0xf) ("reg_d" ∷ "reg_a" ∷ "reg_b" ∷ [])
    ∷ entry "l.cmov" alu_mask_arith (alu_matcher + 0xe) ("reg_d" ∷ "reg_a" ∷ "reg_b" ∷ [])
    ∷ entry "l.ff1" alu_mask_arith (alu_matcher + 0xf) []
    ∷ entry "l.fl1" alu_mask_arith (alu_matcher + shl 0x1 8 + 0xf)
        ("reg_d" ∷ "reg_a" ∷ "reg_b" ∷ [])
    ∷ entry "l.sll" alu_mask_logic (alu_matcher + 0x8) ("reg_d" ∷ "reg_a" ∷ "reg_b" ∷ [])
    ∷ entry "l.srl" alu_mask_logic (alu_matcher + shl 0x1 8 + 0x8)
        ("reg_d" ∷ "reg_a" ∷ "reg_b" ∷ [])
    ∷ entry "l.sra" alu_mask_logic (alu_matcher + shl 0x2 8 + 0x8)
        ("reg_d" ∷ "reg_a" ∷ "reg_b" ∷ [])
    ∷ entry "l.ror" alu_mask_logic (alu_matcher + shl 0x3 8 + 0x8)
        ("reg_d" ∷ "reg_a" ∷ "reg_b" ∷ [])
    ∷ entry "l.mul" alu_mask_arith (alu_matcher + shl 0x3 8 + 0x6)
        ("reg_d" ∷ "reg_a" ∷ "reg_b" ∷ [])
    ∷ entry "l.mulu" alu_mask_arith (alu_matcher + shl 0x3 8 + 0xb)
        ("reg_d" ∷ "reg_a" ∷ "reg_b" ∷ [])
    ∷ entry "l.muld" alu_mask_arith (alu_matcher + shl 0x3 8 + 0x7)
        ("reg_d" ∷ "reg_a" ∷ "reg_b" ∷ [])
    ∷ entry "l.muldu" alu_mask_arith (alu_matcher + shl 0x3 8 + 0xc)
        ("reg_d" ∷ "reg_a" ∷ "reg_b" ∷ [])
    ∷ entry "l.div" alu_mask_arith (alu_matcher + shl 0x3 8 + 0x9)
        ("reg_d" ∷ "reg_a" ∷ "reg_b" ∷ [])
    ∷ entry "l.divu" alu_mask_arith (alu_matcher + shl 0x3 8 + 0xa)
        ("reg_d" ∷ "reg_a" ∷ "reg_b" ∷ [])
    ∷ []

unfoldable pub alu_imms : List Or1kDescriptor
alu_imms =
    entry "l.addi" mask_6bits (shl 0x27 26) ("reg_d" ∷ "reg_a" ∷ "imm_i" ∷ [])
    ∷ entry "l.addic" mask_6bits (shl 0x28 26) ("reg_d" ∷ "reg_a" ∷ "imm_i" ∷ [])
    ∷ entry "l.andi" mask_6bits (shl 0x29 26) ("reg_d" ∷ "reg_a" ∷ "imm_k" ∷ [])
    ∷ entry "l.ori" mask_6bits (shl 0x2a 26) ("reg_d" ∷ "reg_a" ∷ "imm_k" ∷ [])
    ∷ entry "l.xori" mask_6bits (shl 0x2b 26) ("reg_d" ∷ "reg_a" ∷ "imm_i" ∷ [])
    ∷ entry "l.muli" mask_6bits (shl 0x2c 26) ("reg_d" ∷ "reg_a" ∷ "imm_i" ∷ [])
    ∷ entry "l.slli" shifter_mask shifter_matcher ("reg_d" ∷ "reg_a" ∷ "imm_l" ∷ [])
    ∷ entry "l.srli" shifter_mask (shifter_matcher + shl 0x1 6) ("reg_d" ∷ "reg_a" ∷ "imm_i" ∷ [])
    ∷ entry "l.srai" shifter_mask (shifter_matcher + shl 0x2 6) ("reg_d" ∷ "reg_a" ∷ "imm_i" ∷ [])
    ∷ entry "l.rori" shifter_mask (shifter_matcher + shl 0x3 6) ("reg_d" ∷ "reg_a" ∷ "imm_i" ∷ [])
    ∷ []

unfoldable pub compare_regs : List Or1kDescriptor
compare_regs =
    entry "l.sfeq" mask_11bits (shl 0x720 21) ("reg_a" ∷ "reg_b" ∷ [])
    ∷ entry "l.sfne" mask_11bits (shl 0x721 21) ("reg_a" ∷ "reg_b" ∷ [])
    ∷ entry "l.sfgtu" mask_11bits (shl 0x722 21) ("reg_a" ∷ "reg_b" ∷ [])
    ∷ entry "l.sfgeu" mask_11bits (shl 0x723 21) ("reg_a" ∷ "reg_b" ∷ [])
    ∷ entry "l.sfltu" mask_11bits (shl 0x724 21) ("reg_a" ∷ "reg_b" ∷ [])
    ∷ entry "l.sfleu" mask_11bits (shl 0x725 21) ("reg_a" ∷ "reg_b" ∷ [])
    ∷ entry "l.sfgts" mask_11bits (shl 0x72a 21) ("reg_a" ∷ "reg_b" ∷ [])
    ∷ entry "l.sfges" mask_11bits (shl 0x72b 21) ("reg_a" ∷ "reg_b" ∷ [])
    ∷ entry "l.sflts" mask_11bits (shl 0x72c 21) ("reg_a" ∷ "reg_b" ∷ [])
    ∷ entry "l.sfles" mask_11bits (shl 0x72d 21) ("reg_a" ∷ "reg_b" ∷ [])
    ∷ []

unfoldable pub compare_imms : List Or1kDescriptor
compare_imms =
    entry "l.sfeqi" mask_11bits (shl 0x5e0 21) ("reg_a" ∷ "imm_i" ∷ [])
    ∷ entry "l.sfnei" mask_11bits (shl 0x5e1 21) ("reg_a" ∷ "imm_i" ∷ [])
    ∷ entry "l.sfgtui" mask_11bits (shl 0x5e2 21) ("reg_a" ∷ "imm_i" ∷ [])
    ∷ entry "l.sfgeui" mask_11bits (shl 0x5e3 21) ("reg_a" ∷ "imm_i" ∷ [])
    ∷ entry "l.sfltui" mask_11bits (shl 0x5e4 21) ("reg_a" ∷ "imm_i" ∷ [])
    ∷ entry "l.sfleui" mask_11bits (shl 0x5e5 21) ("reg_a" ∷ "imm_i" ∷ [])
    ∷ entry "l.sfgtsi" mask_11bits (shl 0x5ea 21) ("reg_a" ∷ "imm_i" ∷ [])
    ∷ entry "l.sfgesi" mask_11bits (shl 0x5eb 21) ("reg_a" ∷ "imm_i" ∷ [])
    ∷ entry "l.sfltsi" mask_11bits (shl 0x5ec 21) ("reg_a" ∷ "imm_i" ∷ [])
    ∷ entry "l.sflesi" mask_11bits (shl 0x5ed 21) ("reg_a" ∷ "imm_i" ∷ [])
    ∷ []

unfoldable pub multiplies : List Or1kDescriptor
multiplies =
    entry "l.mac" mac_mask (mac_matcher + 0x1) []
    ∷ entry "l.macu" mac_mask (mac_matcher + 0x3) []
    ∷ entry "l.msb" mac_mask (mac_matcher + 0x2) []
    ∷ entry "l.msbu" mac_mask (mac_matcher + 0x4) []
    ∷ entry "l.maci" mask_11bits (shl 0x13 21) []
    ∷ entry "l.macrc" (mask_6bits + 0x1FFFF) (shl 0x6 26 + 0x10000) []
    ∷ []

unfoldable pub systems : List Or1kDescriptor
systems =
    entry "l.sys" mask_16bits (shl 0x2000 16) []
    ∷ entry "l.trap" mask_16bits (shl 0x2001 16) []
    ∷ entry "l.msync" mask_32bits 0x22000000 []
    ∷ entry "l.psync" mask_32bits 0x22800000 []
    ∷ entry "l.csync" mask_32bits 0x23000000 []
    ∷ entry "l.rfe" mask_6bits (shl 0x9 26) []
    ∷ []

-- `Or1kDefs::get_opcodes`
unfoldable pub get_opcodes : List Or1kDescriptor
unfolding moves control load_store extends alu_regs alu_imms compare_regs compare_imms multiplies
    systems
get_opcodes =
    moves
    ++ (control
        ++ (load_store
            ++ (extends
                ++ (alu_regs
                    ++ (alu_imms
                        ++ (compare_regs ++ (compare_imms ++ (multiplies ++ (systems)))))))))
