-- ===== src/Encode/Funct5.antt =====
-- verif/encoders/instruction_encode.py: class Funct5, the 5-bit function codes of the atomics.
use frost.Prelude.{ℕ}

abbrev pub lr : ℕ
lr = 0x02

abbrev pub sc : ℕ
sc = 0x03

abbrev pub amoswap : ℕ
amoswap = 0x01

abbrev pub amoadd : ℕ
amoadd = 0x00

abbrev pub amoxor : ℕ
amoxor = 0x04

abbrev pub amoand : ℕ
amoand = 0x0C

abbrev pub amoor : ℕ
amoor = 0x08

abbrev pub amomin : ℕ
amomin = 0x10

abbrev pub amomax : ℕ
amomax = 0x14

abbrev pub amominu : ℕ
amominu = 0x18

abbrev pub amomaxu : ℕ
amomaxu = 0x1C
