-- ===== src/Encode/Float.antt =====
-- verif/encoders/instruction_encode.py: the convenience functions of the floating-point
-- instructions. The rounding mode is an argument always; its default is 7.
use frost.Prelude.{ℕ, ℤ, low_bits}
use frost.Encode.{i_type, s_type, r4_type, fp_type}
use frost.Encode.Opcode
use frost.Encode.Funct3
use frost.Encode.FpFunct7

unfoldable pub enc_flw : ℕ → ℕ → ℤ → ℕ
enc_flw rd rs1 imm = i_type (low_bits 12 imm) rs1 Funct3.word rd Opcode.load_fp

unfoldable pub enc_fsw : ℕ → ℕ → ℤ → ℕ
enc_fsw rs2 rs1 imm = s_type imm rs2 rs1 Funct3.word Opcode.store_fp

unfoldable pub enc_fld : ℕ → ℕ → ℤ → ℕ
enc_fld rd rs1 imm = i_type (low_bits 12 imm) rs1 Funct3.doubleword rd Opcode.load_fp

unfoldable pub enc_fsd : ℕ → ℕ → ℤ → ℕ
enc_fsd rs2 rs1 imm = s_type imm rs2 rs1 Funct3.doubleword Opcode.store_fp

unfoldable pub enc_fadd_s : ℕ → ℕ → ℕ → ℕ → ℕ
enc_fadd_s rd rs1 rs2 rm = fp_type FpFunct7.fadd_s rs2 rs1 rm rd

unfoldable pub enc_fsub_s : ℕ → ℕ → ℕ → ℕ → ℕ
enc_fsub_s rd rs1 rs2 rm = fp_type FpFunct7.fsub_s rs2 rs1 rm rd

unfoldable pub enc_fmul_s : ℕ → ℕ → ℕ → ℕ → ℕ
enc_fmul_s rd rs1 rs2 rm = fp_type FpFunct7.fmul_s rs2 rs1 rm rd

unfoldable pub enc_fdiv_s : ℕ → ℕ → ℕ → ℕ → ℕ
enc_fdiv_s rd rs1 rs2 rm = fp_type FpFunct7.fdiv_s rs2 rs1 rm rd

unfoldable pub enc_fsqrt_s : ℕ → ℕ → ℕ → ℕ
enc_fsqrt_s rd rs1 rm = fp_type FpFunct7.fsqrt_s 0 rs1 rm rd

unfoldable pub enc_fadd_d : ℕ → ℕ → ℕ → ℕ → ℕ
enc_fadd_d rd rs1 rs2 rm = fp_type FpFunct7.fadd_d rs2 rs1 rm rd

unfoldable pub enc_fsub_d : ℕ → ℕ → ℕ → ℕ → ℕ
enc_fsub_d rd rs1 rs2 rm = fp_type FpFunct7.fsub_d rs2 rs1 rm rd

unfoldable pub enc_fmul_d : ℕ → ℕ → ℕ → ℕ → ℕ
enc_fmul_d rd rs1 rs2 rm = fp_type FpFunct7.fmul_d rs2 rs1 rm rd

unfoldable pub enc_fdiv_d : ℕ → ℕ → ℕ → ℕ → ℕ
enc_fdiv_d rd rs1 rs2 rm = fp_type FpFunct7.fdiv_d rs2 rs1 rm rd

unfoldable pub enc_fsqrt_d : ℕ → ℕ → ℕ → ℕ
enc_fsqrt_d rd rs1 rm = fp_type FpFunct7.fsqrt_d 0 rs1 rm rd

unfoldable pub enc_fmadd_s : ℕ → ℕ → ℕ → ℕ → ℕ → ℕ
enc_fmadd_s rd rs1 rs2 rs3 rm = r4_type rs3 rs2 rs1 rm rd Opcode.fmadd 0

unfoldable pub enc_fmsub_s : ℕ → ℕ → ℕ → ℕ → ℕ → ℕ
enc_fmsub_s rd rs1 rs2 rs3 rm = r4_type rs3 rs2 rs1 rm rd Opcode.fmsub 0

unfoldable pub enc_fnmadd_s : ℕ → ℕ → ℕ → ℕ → ℕ → ℕ
enc_fnmadd_s rd rs1 rs2 rs3 rm = r4_type rs3 rs2 rs1 rm rd Opcode.fnmadd 0

unfoldable pub enc_fnmsub_s : ℕ → ℕ → ℕ → ℕ → ℕ → ℕ
enc_fnmsub_s rd rs1 rs2 rs3 rm = r4_type rs3 rs2 rs1 rm rd Opcode.fnmsub 0

unfoldable pub enc_fmadd_d : ℕ → ℕ → ℕ → ℕ → ℕ → ℕ
enc_fmadd_d rd rs1 rs2 rs3 rm = r4_type rs3 rs2 rs1 rm rd Opcode.fmadd 1

unfoldable pub enc_fmsub_d : ℕ → ℕ → ℕ → ℕ → ℕ → ℕ
enc_fmsub_d rd rs1 rs2 rs3 rm = r4_type rs3 rs2 rs1 rm rd Opcode.fmsub 1

unfoldable pub enc_fnmadd_d : ℕ → ℕ → ℕ → ℕ → ℕ → ℕ
enc_fnmadd_d rd rs1 rs2 rs3 rm = r4_type rs3 rs2 rs1 rm rd Opcode.fnmadd 1

unfoldable pub enc_fnmsub_d : ℕ → ℕ → ℕ → ℕ → ℕ → ℕ
enc_fnmsub_d rd rs1 rs2 rs3 rm = r4_type rs3 rs2 rs1 rm rd Opcode.fnmsub 1

unfoldable pub enc_fsgnj_s : ℕ → ℕ → ℕ → ℕ
enc_fsgnj_s rd rs1 rs2 = fp_type FpFunct7.fsgnj_s rs2 rs1 0 rd

unfoldable pub enc_fsgnjn_s : ℕ → ℕ → ℕ → ℕ
enc_fsgnjn_s rd rs1 rs2 = fp_type FpFunct7.fsgnj_s rs2 rs1 1 rd

unfoldable pub enc_fsgnjx_s : ℕ → ℕ → ℕ → ℕ
enc_fsgnjx_s rd rs1 rs2 = fp_type FpFunct7.fsgnj_s rs2 rs1 2 rd

unfoldable pub enc_fsgnj_d : ℕ → ℕ → ℕ → ℕ
enc_fsgnj_d rd rs1 rs2 = fp_type FpFunct7.fsgnj_d rs2 rs1 0 rd

unfoldable pub enc_fsgnjn_d : ℕ → ℕ → ℕ → ℕ
enc_fsgnjn_d rd rs1 rs2 = fp_type FpFunct7.fsgnj_d rs2 rs1 1 rd

unfoldable pub enc_fsgnjx_d : ℕ → ℕ → ℕ → ℕ
enc_fsgnjx_d rd rs1 rs2 = fp_type FpFunct7.fsgnj_d rs2 rs1 2 rd

unfoldable pub enc_fmin_s : ℕ → ℕ → ℕ → ℕ
enc_fmin_s rd rs1 rs2 = fp_type FpFunct7.fmin_max_s rs2 rs1 0 rd

unfoldable pub enc_fmax_s : ℕ → ℕ → ℕ → ℕ
enc_fmax_s rd rs1 rs2 = fp_type FpFunct7.fmin_max_s rs2 rs1 1 rd

unfoldable pub enc_fmin_d : ℕ → ℕ → ℕ → ℕ
enc_fmin_d rd rs1 rs2 = fp_type FpFunct7.fmin_max_d rs2 rs1 0 rd

unfoldable pub enc_fmax_d : ℕ → ℕ → ℕ → ℕ
enc_fmax_d rd rs1 rs2 = fp_type FpFunct7.fmin_max_d rs2 rs1 1 rd

unfoldable pub enc_fcvt_w_s : ℕ → ℕ → ℕ → ℕ
enc_fcvt_w_s rd rs1 rm = fp_type FpFunct7.fcvt_w_s 0 rs1 rm rd

unfoldable pub enc_fcvt_wu_s : ℕ → ℕ → ℕ → ℕ
enc_fcvt_wu_s rd rs1 rm = fp_type FpFunct7.fcvt_w_s 1 rs1 rm rd

unfoldable pub enc_fcvt_s_w : ℕ → ℕ → ℕ → ℕ
enc_fcvt_s_w rd rs1 rm = fp_type FpFunct7.fcvt_s_w 0 rs1 rm rd

unfoldable pub enc_fcvt_s_wu : ℕ → ℕ → ℕ → ℕ
enc_fcvt_s_wu rd rs1 rm = fp_type FpFunct7.fcvt_s_w 1 rs1 rm rd

unfoldable pub enc_fcvt_w_d : ℕ → ℕ → ℕ → ℕ
enc_fcvt_w_d rd rs1 rm = fp_type FpFunct7.fcvt_w_d 0 rs1 rm rd

unfoldable pub enc_fcvt_wu_d : ℕ → ℕ → ℕ → ℕ
enc_fcvt_wu_d rd rs1 rm = fp_type FpFunct7.fcvt_w_d 1 rs1 rm rd

unfoldable pub enc_fcvt_d_w : ℕ → ℕ → ℕ → ℕ
enc_fcvt_d_w rd rs1 rm = fp_type FpFunct7.fcvt_d_w 0 rs1 rm rd

unfoldable pub enc_fcvt_d_wu : ℕ → ℕ → ℕ → ℕ
enc_fcvt_d_wu rd rs1 rm = fp_type FpFunct7.fcvt_d_w 1 rs1 rm rd

unfoldable pub enc_fcvt_s_d : ℕ → ℕ → ℕ → ℕ
enc_fcvt_s_d rd rs1 rm = fp_type FpFunct7.fcvt_s_d 1 rs1 rm rd

unfoldable pub enc_fcvt_d_s : ℕ → ℕ → ℕ → ℕ
enc_fcvt_d_s rd rs1 rm = fp_type FpFunct7.fcvt_d_s 0 rs1 rm rd

unfoldable pub enc_fmv_x_w : ℕ → ℕ → ℕ
enc_fmv_x_w rd rs1 = fp_type FpFunct7.fmv_x_w 0 rs1 0 rd

unfoldable pub enc_fmv_w_x : ℕ → ℕ → ℕ
enc_fmv_w_x rd rs1 = fp_type FpFunct7.fmv_w_x 0 rs1 0 rd

unfoldable pub enc_fclass_s : ℕ → ℕ → ℕ
enc_fclass_s rd rs1 = fp_type FpFunct7.fclass_s 0 rs1 1 rd

unfoldable pub enc_fclass_d : ℕ → ℕ → ℕ
enc_fclass_d rd rs1 = fp_type FpFunct7.fclass_d 0 rs1 1 rd

unfoldable pub enc_feq_s : ℕ → ℕ → ℕ → ℕ
enc_feq_s rd rs1 rs2 = fp_type FpFunct7.fcmp_s rs2 rs1 2 rd

unfoldable pub enc_flt_s : ℕ → ℕ → ℕ → ℕ
enc_flt_s rd rs1 rs2 = fp_type FpFunct7.fcmp_s rs2 rs1 1 rd

unfoldable pub enc_fle_s : ℕ → ℕ → ℕ → ℕ
enc_fle_s rd rs1 rs2 = fp_type FpFunct7.fcmp_s rs2 rs1 0 rd

unfoldable pub enc_feq_d : ℕ → ℕ → ℕ → ℕ
enc_feq_d rd rs1 rs2 = fp_type FpFunct7.fcmp_d rs2 rs1 2 rd

unfoldable pub enc_flt_d : ℕ → ℕ → ℕ → ℕ
enc_flt_d rd rs1 rs2 = fp_type FpFunct7.fcmp_d rs2 rs1 1 rd

unfoldable pub enc_fle_d : ℕ → ℕ → ℕ → ℕ
enc_fle_d rd rs1 rs2 = fp_type FpFunct7.fcmp_d rs2 rs1 0 rd
