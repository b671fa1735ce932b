-- ===== src/Encode/Integer.antt =====
-- verif/encoders/instruction_encode.py: the convenience functions of the integer, CSR, atomic and
-- trap instructions.
use frost.Prelude.{ℕ, ◌%◌, ◌^◌, ℤ, low_bits}
use frost.Encode.{r_type, i_type, s_type, b_type, j_type, amo_type, u_type, Encoded}
use frost.Encode.Opcode
use frost.Encode.Funct3
use frost.Encode.Funct5

unfoldable pub enc_r : ℕ → ℕ → ℕ → ℕ → ℕ → ℕ
enc_r funct7 rs2 rs1 funct3 rd = r_type funct7 rs2 rs1 funct3 rd Opcode.alu_reg

unfoldable pub enc_i : ℤ → ℕ → ℕ → ℕ → ℕ
enc_i immediate rs1 funct3 rd = i_type (low_bits 12 immediate) rs1 funct3 rd Opcode.alu_imm

unfoldable pub enc_i_load : ℤ → ℕ → ℕ → ℕ → ℕ
enc_i_load immediate rs1 funct3 rd = i_type (low_bits 12 immediate) rs1 funct3 rd Opcode.load

unfoldable pub enc_i_jalr : ℤ → ℕ → ℕ → ℕ
enc_i_jalr immediate rs1 rd = i_type (low_bits 12 immediate) rs1 0 rd Opcode.jalr

unfoldable pub enc_s : ℕ → ℕ → ℕ → ℤ → ℕ
enc_s rs2 rs1 funct3 immediate = s_type immediate rs2 rs1 funct3 Opcode.store

unfoldable pub enc_b : ℕ → ℕ → ℕ → ℤ → Encoded
enc_b rs2 rs1 funct3 branch_offset = b_type branch_offset rs2 rs1 funct3 Opcode.branch

unfoldable pub enc_j : ℕ → ℤ → Encoded
enc_j rd jump_offset = j_type jump_offset rd Opcode.jal

unfoldable pub enc_lui : ℕ → ℤ → ℕ
enc_lui rd immediate_20bit = u_type (low_bits 20 immediate_20bit) rd Opcode.lui

unfoldable pub enc_fence : ℕ
enc_fence = i_type 255 0 Funct3.fence 0 Opcode.misc_mem

unfoldable pub enc_fence_i : ℕ
enc_fence_i = i_type 0 0 Funct3.fence_i 0 Opcode.misc_mem

unfoldable pub enc_pause : ℕ
enc_pause = i_type 16 0 Funct3.fence 0 Opcode.misc_mem

unfoldable pub enc_csr : ℕ → ℕ → ℕ → ℕ → ℕ
enc_csr csr_address rs1 funct3 rd = i_type (csr_address % 2 ^ 12) rs1 funct3 rd Opcode.system

unfoldable pub enc_csrrw : ℕ → ℕ → ℕ → ℕ
enc_csrrw rd csr rs1 = enc_csr csr rs1 Funct3.csrrw rd

unfoldable pub enc_csrrs : ℕ → ℕ → ℕ → ℕ
enc_csrrs rd csr rs1 = enc_csr csr rs1 Funct3.csrrs rd

unfoldable pub enc_csrrc : ℕ → ℕ → ℕ → ℕ
enc_csrrc rd csr rs1 = enc_csr csr rs1 Funct3.csrrc rd

unfoldable pub enc_csrrwi : ℕ → ℕ → ℕ → ℕ
enc_csrrwi rd csr zimm = enc_csr csr (zimm % 2 ^ 5) Funct3.csrrwi rd

unfoldable pub enc_csrrsi : ℕ → ℕ → ℕ → ℕ
enc_csrrsi rd csr zimm = enc_csr csr (zimm % 2 ^ 5) Funct3.csrrsi rd

unfoldable pub enc_csrrci : ℕ → ℕ → ℕ → ℕ
enc_csrrci rd csr zimm = enc_csr csr (zimm % 2 ^ 5) Funct3.csrrci rd

unfoldable pub enc_lr_w : ℕ → ℕ → ℕ → ℕ → ℕ
enc_lr_w rd rs1 aq rl = amo_type Funct5.lr 0 rs1 rd aq rl

unfoldable pub enc_sc_w : ℕ → ℕ → ℕ → ℕ → ℕ → ℕ
enc_sc_w rd rs2 rs1 aq rl = amo_type Funct5.sc rs2 rs1 rd aq rl

unfoldable pub enc_amoswap_w : ℕ → ℕ → ℕ → ℕ → ℕ → ℕ
enc_amoswap_w rd rs2 rs1 aq rl = amo_type Funct5.amoswap rs2 rs1 rd aq rl

unfoldable pub enc_amoadd_w : ℕ → ℕ → ℕ → ℕ → ℕ → ℕ
enc_amoadd_w rd rs2 rs1 aq rl = amo_type Funct5.amoadd rs2 rs1 rd aq rl

unfoldable pub enc_amoxor_w : ℕ → ℕ → ℕ → ℕ → ℕ → ℕ
enc_amoxor_w rd rs2 rs1 aq rl = amo_type Funct5.amoxor rs2 rs1 rd aq rl

unfoldable pub enc_amoand_w : ℕ → ℕ → ℕ → ℕ → ℕ → ℕ
enc_amoand_w rd rs2 rs1 aq rl = amo_type Funct5.amoand rs2 rs1 rd aq rl

unfoldable pub enc_amoor_w : ℕ → ℕ → ℕ → ℕ → ℕ → ℕ
enc_amoor_w rd rs2 rs1 aq rl = amo_type Funct5.amoor rs2 rs1 rd aq rl

unfoldable pub enc_amomin_w : ℕ → ℕ → ℕ → ℕ → ℕ → ℕ
enc_amomin_w rd rs2 rs1 aq rl = amo_type Funct5.amomin rs2 rs1 rd aq rl

unfoldable pub enc_amomax_w : ℕ → ℕ → ℕ → ℕ → ℕ → ℕ
enc_amomax_w rd rs2 rs1 aq rl = amo_type Funct5.amomax rs2 rs1 rd aq rl

unfoldable pub enc_amominu_w : ℕ → ℕ → ℕ → ℕ → ℕ → ℕ
enc_amominu_w rd rs2 rs1 aq rl = amo_type Funct5.amominu rs2 rs1 rd aq rl

unfoldable pub enc_amomaxu_w : ℕ → ℕ → ℕ → ℕ → ℕ → ℕ
enc_amomaxu_w rd rs2 rs1 aq rl = amo_type Funct5.amomaxu rs2 rs1 rd aq rl

unfoldable pub enc_ecall : ℕ
enc_ecall = i_type 0 0 0 0 Opcode.system

unfoldable pub enc_ebreak : ℕ
enc_ebreak = i_type 1 0 0 0 Opcode.system

unfoldable pub enc_mret : ℕ
enc_mret = i_type 770 0 0 0 Opcode.system

unfoldable pub enc_wfi : ℕ
enc_wfi = i_type 261 0 0 0 Opcode.system
