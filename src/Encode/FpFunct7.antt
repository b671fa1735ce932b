-- ===== src/Encode/FpFunct7.antt =====
-- verif/encoders/instruction_encode.py: class FPFunct7, the 7-bit function codes of floating point.
use frost.Prelude.{ℕ}

abbrev pub fadd_s : ℕ
fadd_s = 0x00

abbrev pub fadd_d : ℕ
fadd_d = 0x01

abbrev pub fsub_s : ℕ
fsub_s = 0x04

abbrev pub fsub_d : ℕ
fsub_d = 0x05

abbrev pub fmul_s : ℕ
fmul_s = 0x08

abbrev pub fmul_d : ℕ
fmul_d = 0x09

abbrev pub fdiv_s : ℕ
fdiv_s = 0x0C

abbrev pub fdiv_d : ℕ
fdiv_d = 0x0D

abbrev pub fsqrt_s : ℕ
fsqrt_s = 0x2C

abbrev pub fsqrt_d : ℕ
fsqrt_d = 0x2D

abbrev pub fsgnj_s : ℕ
fsgnj_s = 0x10

abbrev pub fsgnj_d : ℕ
fsgnj_d = 0x11

abbrev pub fmin_max_s : ℕ
fmin_max_s = 0x14

abbrev pub fmin_max_d : ℕ
fmin_max_d = 0x15

abbrev pub fcvt_w_s : ℕ
fcvt_w_s = 0x60

abbrev pub fcvt_w_d : ℕ
fcvt_w_d = 0x61

abbrev pub fcvt_s_w : ℕ
fcvt_s_w = 0x68

abbrev pub fcvt_d_w : ℕ
fcvt_d_w = 0x69

abbrev pub fcvt_s_d : ℕ
fcvt_s_d = 0x20

abbrev pub fcvt_d_s : ℕ
fcvt_d_s = 0x21

abbrev pub fmv_x_w : ℕ
fmv_x_w = 0x70

abbrev pub fclass_s : ℕ
fclass_s = 0x70

abbrev pub fclass_d : ℕ
fclass_d = 0x71

abbrev pub fmv_w_x : ℕ
fmv_w_x = 0x78

abbrev pub fcmp_s : ℕ
fcmp_s = 0x50

abbrev pub fcmp_d : ℕ
fcmp_d = 0x51
