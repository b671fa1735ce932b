-- ===== src/Encode/Funct3.antt =====
-- verif/encoders/instruction_encode.py: class Funct3, the 3-bit function codes.
use frost.Prelude.{ℕ}

abbrev pub add_sub : ℕ
add_sub = 0x00

abbrev pub sll : ℕ
sll = 0x01

abbrev pub slt : ℕ
slt = 0x02

abbrev pub sltu : ℕ
sltu = 0x03

abbrev pub xor : ℕ
xor = 0x04

abbrev pub srl_sra : ℕ
srl_sra = 0x05

abbrev pub or : ℕ
or = 0x06

abbrev pub and : ℕ
and = 0x07

abbrev pub byte : ℕ
byte = 0x00

abbrev pub halfword : ℕ
halfword = 0x01

abbrev pub word : ℕ
word = 0x02

abbrev pub doubleword : ℕ
doubleword = 0x03

abbrev pub byte_u : ℕ
byte_u = 0x04

abbrev pub halfword_u : ℕ
halfword_u = 0x05

abbrev pub beq : ℕ
beq = 0x00

abbrev pub bne : ℕ
bne = 0x01

abbrev pub blt : ℕ
blt = 0x04

abbrev pub bge : ℕ
bge = 0x05

abbrev pub bltu : ℕ
bltu = 0x06

abbrev pub bgeu : ℕ
bgeu = 0x07

abbrev pub fence : ℕ
fence = 0x00

abbrev pub fence_i : ℕ
fence_i = 0x01

abbrev pub csrrw : ℕ
csrrw = 0x01

abbrev pub csrrs : ℕ
csrrs = 0x02

abbrev pub csrrc : ℕ
csrrc = 0x03

abbrev pub csrrwi : ℕ
csrrwi = 0x05

abbrev pub csrrsi : ℕ
csrrsi = 0x06

abbrev pub csrrci : ℕ
csrrci = 0x07
