-- ===== src/Encode/Opcode.antt =====
-- verif/encoders/instruction_encode.py: class Opcode, the opcodes.
use frost.Prelude.{ℕ}

abbrev pub load : ℕ
load = 0x03

abbrev pub misc_mem : ℕ
misc_mem = 0x0F

abbrev pub store : ℕ
store = 0x23

abbrev pub alu_imm : ℕ
alu_imm = 0x13

abbrev pub alu_reg : ℕ
alu_reg = 0x33

abbrev pub lui : ℕ
lui = 0x37

abbrev pub auipc : ℕ
auipc = 0x17

abbrev pub amo : ℕ
amo = 0x2F

abbrev pub branch : ℕ
branch = 0x63

abbrev pub jalr : ℕ
jalr = 0x67

abbrev pub jal : ℕ
jal = 0x6F

abbrev pub system : ℕ
system = 0x73

abbrev pub load_fp : ℕ
load_fp = 0x07

abbrev pub store_fp : ℕ
store_fp = 0x27

abbrev pub fmadd : ℕ
fmadd = 0x43

abbrev pub fmsub : ℕ
fmsub = 0x47

abbrev pub fnmsub : ℕ
fnmsub = 0x4B

abbrev pub fnmadd : ℕ
fnmadd = 0x4F

abbrev pub op_fp : ℕ
op_fp = 0x53
