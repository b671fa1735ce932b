-- ===== src/Encode/Words.antt =====
-- Every encoder at any arguments: the 32-bit encoders keep to words whose lowest two bits are set.
use frost.Prelude.{ℕ, refl, ℤ}
use frost.Encode.Length.{
  IsWord, IsEncoded, r_type-IsWord, i_type-IsWord, s_type-IsWord, u_type-IsWord, r4_type-IsWord,
  amo_type-IsWord, fp_type-IsWord, b_type-IsEncoded, j_type-IsEncoded,
}
use frost.Encode.Integer.{
  enc_r, enc_i, enc_i_load, enc_i_jalr, enc_s, enc_b, enc_j, enc_lui, enc_fence, enc_fence_i,
  enc_pause, enc_csr, enc_csrrw, enc_csrrs, enc_csrrc, enc_csrrwi, enc_csrrsi, enc_csrrci, enc_lr_w,
  enc_sc_w, enc_amoswap_w, enc_amoadd_w, enc_amoxor_w, enc_amoand_w, enc_amoor_w, enc_amomin_w,
  enc_amomax_w, enc_amominu_w, enc_amomaxu_w, enc_ecall, enc_ebreak, enc_mret, enc_wfi,
}
use frost.Encode.Float.{
  enc_flw, enc_fsw, enc_fld, enc_fsd, enc_fadd_s, enc_fsub_s, enc_fmul_s, enc_fdiv_s, enc_fsqrt_s,
  enc_fadd_d, enc_fsub_d, enc_fmul_d, enc_fdiv_d, enc_fsqrt_d, enc_fmadd_s, enc_fmsub_s,
  enc_fnmadd_s, enc_fnmsub_s, enc_fmadd_d, enc_fmsub_d, enc_fnmadd_d, enc_fnmsub_d, enc_fsgnj_s,
  enc_fsgnjn_s, enc_fsgnjx_s, enc_fsgnj_d, enc_fsgnjn_d, enc_fsgnjx_d, enc_fmin_s, enc_fmax_s,
  enc_fmin_d, enc_fmax_d, enc_fcvt_w_s, enc_fcvt_wu_s, enc_fcvt_s_w, enc_fcvt_s_wu, enc_fcvt_w_d,
  enc_fcvt_wu_d, enc_fcvt_d_w, enc_fcvt_d_wu, enc_fcvt_s_d, enc_fcvt_d_s, enc_fmv_x_w, enc_fmv_w_x,
  enc_fclass_s, enc_fclass_d, enc_feq_s, enc_flt_s, enc_fle_s, enc_feq_d, enc_flt_d, enc_fle_d,
}

-- All calls with these numbers.
abbrev pub IntegerWords : ℕ → ℕ → ℕ → ℕ → ℕ → ℤ → Type 0
IntegerWords a b c d e z =
    IsWord (enc_r a b c d e)
    × IsWord (enc_i z a b c)
    × IsWord (enc_i_load z a b c)
    × IsWord (enc_i_jalr z a b)
    × IsWord (enc_s a b c z)
    × IsWord (enc_lui a z)
    × IsWord enc_fence
    × IsWord enc_fence_i
    × IsWord enc_pause
    × IsWord (enc_csr a b c d)
    × IsWord (enc_csrrw a b c)
    × IsWord (enc_csrrs a b c)
    × IsWord (enc_csrrc a b c)
    × IsWord (enc_csrrwi a b c)
    × IsWord (enc_csrrsi a b c)
    × IsWord (enc_csrrci a b c)
    × IsWord (enc_lr_w a b c d)
    × IsWord (enc_sc_w a b c d e)
    × IsWord (enc_amoswap_w a b c d e)
    × IsWord (enc_amoadd_w a b c d e)
    × IsWord (enc_amoxor_w a b c d e)
    × IsWord (enc_amoand_w a b c d e)
    × IsWord (enc_amoor_w a b c d e)
    × IsWord (enc_amomin_w a b c d e)
    × IsWord (enc_amomax_w a b c d e)
    × IsWord (enc_amominu_w a b c d e)
    × IsWord (enc_amomaxu_w a b c d e)
    × IsWord enc_ecall
    × IsWord enc_ebreak
    × IsWord enc_mret
    × IsWord enc_wfi

abbrev pub FloatWords : ℕ → ℕ → ℕ → ℕ → ℕ → ℤ → Type 0
FloatWords a b c d e z =
    IsWord (enc_flw a b z)
    × IsWord (enc_fsw a b z)
    × IsWord (enc_fld a b z)
    × IsWord (enc_fsd a b z)
    × IsWord (enc_fadd_s a b c d)
    × IsWord (enc_fsub_s a b c d)
    × IsWord (enc_fmul_s a b c d)
    × IsWord (enc_fdiv_s a b c d)
    × IsWord (enc_fsqrt_s a b c)
    × IsWord (enc_fadd_d a b c d)
    × IsWord (enc_fsub_d a b c d)
    × IsWord (enc_fmul_d a b c d)
    × IsWord (enc_fdiv_d a b c d)
    × IsWord (enc_fsqrt_d a b c)
    × IsWord (enc_fmadd_s a b c d e)
    × IsWord (enc_fmsub_s a b c d e)
    × IsWord (enc_fnmadd_s a b c d e)
    × IsWord (enc_fnmsub_s a b c d e)
    × IsWord (enc_fmadd_d a b c d e)
    × IsWord (enc_fmsub_d a b c d e)
    × IsWord (enc_fnmadd_d a b c d e)
    × IsWord (enc_fnmsub_d a b c d e)
    × IsWord (enc_fsgnj_s a b c)
    × IsWord (enc_fsgnjn_s a b c)
    × IsWord (enc_fsgnjx_s a b c)
    × IsWord (enc_fsgnj_d a b c)
    × IsWord (enc_fsgnjn_d a b c)
    × IsWord (enc_fsgnjx_d a b c)
    × IsWord (enc_fmin_s a b c)
    × IsWord (enc_fmax_s a b c)
    × IsWord (enc_fmin_d a b c)
    × IsWord (enc_fmax_d a b c)
    × IsWord (enc_fcvt_w_s a b c)
    × IsWord (enc_fcvt_wu_s a b c)
    × IsWord (enc_fcvt_s_w a b c)
    × IsWord (enc_fcvt_s_wu a b c)
    × IsWord (enc_fcvt_w_d a b c)
    × IsWord (enc_fcvt_wu_d a b c)
    × IsWord (enc_fcvt_d_w a b c)
    × IsWord (enc_fcvt_d_wu a b c)
    × IsWord (enc_fcvt_s_d a b c)
    × IsWord (enc_fcvt_d_s a b c)
    × IsWord (enc_fmv_x_w a b)
    × IsWord (enc_fmv_w_x a b)
    × IsWord (enc_fclass_s a b)
    × IsWord (enc_fclass_d a b)
    × IsWord (enc_feq_s a b c)
    × IsWord (enc_flt_s a b c)
    × IsWord (enc_fle_s a b c)
    × IsWord (enc_feq_d a b c)
    × IsWord (enc_flt_d a b c)
    × IsWord (enc_fle_d a b c)

IntegerWords_lem : (a b c d e : ℕ) (z : ℤ) → IntegerWords a b c d e z
unfolding enc_r enc_i enc_i_load enc_i_jalr enc_s enc_lui enc_fence enc_fence_i enc_pause enc_csr
    enc_csrrw enc_csrrs enc_csrrc enc_csrrwi enc_csrrsi enc_csrrci enc_lr_w enc_sc_w enc_amoswap_w
    enc_amoadd_w enc_amoxor_w enc_amoand_w enc_amoor_w enc_amomin_w enc_amomax_w enc_amominu_w
    enc_amomaxu_w enc_ecall enc_ebreak enc_mret enc_wfi
IntegerWords_lem a b c d e z = (
  r_type-IsWord _ _ _ _ _ _ refl,
  i_type-IsWord _ _ _ _ _ refl,
  i_type-IsWord _ _ _ _ _ refl,
  i_type-IsWord _ _ _ _ _ refl,
  s_type-IsWord _ _ _ _ z refl,
  u_type-IsWord _ _ _ refl,
  i_type-IsWord _ _ _ _ _ refl,
  i_type-IsWord _ _ _ _ _ refl,
  i_type-IsWord _ _ _ _ _ refl,
  i_type-IsWord _ _ _ _ _ refl,
  i_type-IsWord _ _ _ _ _ refl,
  i_type-IsWord _ _ _ _ _ refl,
  i_type-IsWord _ _ _ _ _ refl,
  i_type-IsWord _ _ _ _ _ refl,
  i_type-IsWord _ _ _ _ _ refl,
  i_type-IsWord _ _ _ _ _ refl,
  amo_type-IsWord _ _ _ _ _ _,
  amo_type-IsWord _ _ _ _ _ _,
  amo_type-IsWord _ _ _ _ _ _,
  amo_type-IsWord _ _ _ _ _ _,
  amo_type-IsWord _ _ _ _ _ _,
  amo_type-IsWord _ _ _ _ _ _,
  amo_type-IsWord _ _ _ _ _ _,
  amo_type-IsWord _ _ _ _ _ _,
  amo_type-IsWord _ _ _ _ _ _,
  amo_type-IsWord _ _ _ _ _ _,
  amo_type-IsWord _ _ _ _ _ _,
  i_type-IsWord _ _ _ _ _ refl,
  i_type-IsWord _ _ _ _ _ refl,
  i_type-IsWord _ _ _ _ _ refl,
  i_type-IsWord _ _ _ _ _ refl,
)

FloatWords_lem : (a b c d e : ℕ) (z : ℤ) → FloatWords a b c d e z
unfolding enc_flw enc_fsw enc_fld enc_fsd enc_fadd_s enc_fsub_s enc_fmul_s enc_fdiv_s enc_fsqrt_s
    enc_fadd_d enc_fsub_d enc_fmul_d enc_fdiv_d enc_fsqrt_d enc_fmadd_s enc_fmsub_s enc_fnmadd_s
    enc_fnmsub_s enc_fmadd_d enc_fmsub_d enc_fnmadd_d enc_fnmsub_d enc_fsgnj_s enc_fsgnjn_s
    enc_fsgnjx_s enc_fsgnj_d enc_fsgnjn_d enc_fsgnjx_d enc_fmin_s enc_fmax_s enc_fmin_d enc_fmax_d
    enc_fcvt_w_s enc_fcvt_wu_s enc_fcvt_s_w enc_fcvt_s_wu enc_fcvt_w_d enc_fcvt_wu_d enc_fcvt_d_w
    enc_fcvt_d_wu enc_fcvt_s_d enc_fcvt_d_s enc_fmv_x_w enc_fmv_w_x enc_fclass_s enc_fclass_d
    enc_feq_s enc_flt_s enc_fle_s enc_feq_d enc_flt_d enc_fle_d
FloatWords_lem a b c d e z = (
  i_type-IsWord _ _ _ _ _ refl,
  s_type-IsWord _ _ _ _ z refl,
  i_type-IsWord _ _ _ _ _ refl,
  s_type-IsWord _ _ _ _ z refl,
  fp_type-IsWord _ _ _ _ _,
  fp_type-IsWord _ _ _ _ _,
  fp_type-IsWord _ _ _ _ _,
  fp_type-IsWord _ _ _ _ _,
  fp_type-IsWord _ _ _ _ _,
  fp_type-IsWord _ _ _ _ _,
  fp_type-IsWord _ _ _ _ _,
  fp_type-IsWord _ _ _ _ _,
  fp_type-IsWord _ _ _ _ _,
  fp_type-IsWord _ _ _ _ _,
  r4_type-IsWord _ _ _ _ _ _ _ refl,
  r4_type-IsWord _ _ _ _ _ _ _ refl,
  r4_type-IsWord _ _ _ _ _ _ _ refl,
  r4_type-IsWord _ _ _ _ _ _ _ refl,
  r4_type-IsWord _ _ _ _ _ _ _ refl,
  r4_type-IsWord _ _ _ _ _ _ _ refl,
  r4_type-IsWord _ _ _ _ _ _ _ refl,
  r4_type-IsWord _ _ _ _ _ _ _ refl,
  fp_type-IsWord _ _ _ _ _,
  fp_type-IsWord _ _ _ _ _,
  fp_type-IsWord _ _ _ _ _,
  fp_type-IsWord _ _ _ _ _,
  fp_type-IsWord _ _ _ _ _,
  fp_type-IsWord _ _ _ _ _,
  fp_type-IsWord _ _ _ _ _,
  fp_type-IsWord _ _ _ _ _,
  fp_type-IsWord _ _ _ _ _,
  fp_type-IsWord _ _ _ _ _,
  fp_type-IsWord _ _ _ _ _,
  fp_type-IsWord _ _ _ _ _,
  fp_type-IsWord _ _ _ _ _,
  fp_type-IsWord _ _ _ _ _,
  fp_type-IsWord _ _ _ _ _,
  fp_type-IsWord _ _ _ _ _,
  fp_type-IsWord _ _ _ _ _,
  fp_type-IsWord _ _ _ _ _,
  fp_type-IsWord _ _ _ _ _,
  fp_type-IsWord _ _ _ _ _,
  fp_type-IsWord _ _ _ _ _,
  fp_type-IsWord _ _ _ _ _,
  fp_type-IsWord _ _ _ _ _,
  fp_type-IsWord _ _ _ _ _,
  fp_type-IsWord _ _ _ _ _,
  fp_type-IsWord _ _ _ _ _,
  fp_type-IsWord _ _ _ _ _,
  fp_type-IsWord _ _ _ _ _,
  fp_type-IsWord _ _ _ _ _,
  fp_type-IsWord _ _ _ _ _,
)

-- Every integer and floating-point encoder returns a 32-bit word whose lowest two bits are set, and
-- the branch and the jump do so or refuse their offset, whatever the arguments are.
pub encoders-IsWord :
    (a b c d e : ℕ) (z : ℤ)
    → IntegerWords a b c d e z
      × FloatWords a b c d e z
      × IsEncoded (enc_b a b c z)
      × IsEncoded (enc_j a z)
unfolding enc_b enc_j
encoders-IsWord a b c d e z = (
  IntegerWords_lem a b c d e z,
  FloatWords_lem a b c d e z,
  b_type-IsEncoded z a b c _ refl,
  j_type-IsEncoded z a _ refl,
)
