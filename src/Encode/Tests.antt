-- ===== src/Encode/Tests.antt =====
-- The encoders at concrete inputs.
use frost.Prelude.{◌≡◌, refl, true, [], ◌∷◌, map, some, arith, pos, negsuc}
use frost.Encode.{field, pack_bits, r_fields, placed, pack_from, b_type, r_type}
use frost.Encode.Fields.{content, read_all, read_all-pack_bits}
use frost.Encode.Decode.{FitsIn}
use frost.Encode.Formats.{Verdict, IsBranch, b_type-decoded}
use frost.Encode.CompressedOffsets.{
  Given, EvenOffset, IsCompressedJump, IsCompressedBranch, c_control-decoded,
}
use frost.Encode.CompressedMemory.{
  Compressible, WordOffset, IsCompressedAccess, IsStackLoad, IsStackStore, c_memory-decoded,
}
use frost.Encode.Compressed.{
  between, enc_c_j, enc_c_jal, enc_c_beqz, enc_c_bnez, enc_c_addi, asserting, enc_c_lw, enc_c_sw,
  enc_c_flw, enc_c_fsw, enc_c_lwsp, enc_c_flwsp, enc_c_swsp, enc_c_fswsp,
}
use frost.Encode.Immediates.{IsImmediate, IsStore, immediates-decoded}
use frost.Encode.Integer.{enc_i, enc_i_load, enc_i_jalr, enc_s}
use frost.Encode.Float.{enc_flw, enc_fsw, enc_fld, enc_fsd}
use frost.Encode.Words.{IntegerWords, FloatWords, encoders-IsWord}
use frost.Encode.Halfwords.{Halfwords, encoders-IsHalfword}
use frost.Encode.Length.{IsEncoded}
use frost.Encode.Integer.{enc_b, enc_j}

-- `add x5, x3, x4`, the example of the module's documentation.
add_word : r_type 0 4 3 0 5 0x33 ≡ 0x4182B3
unfolding r_type pack_from placed
add_word = refl

-- The example of `_pack_bits`.
two_fields : pack_bits (field 5 7 5 ∷ field 0x33 0 7 ∷ []) ≡ 691
unfolding pack_from placed
two_fields = refl

-- `C.ADDI x10, 5`, the example of the module's documentation.
c_addi_word : enc_c_addi 10 (pos 5) ≡ some 0x515
unfolding enc_c_addi asserting pack_from placed
c_addi_word = refl

read_all-pack_bits_example :
    read_all (pack_bits (r_fields 0 4 3 0 5 0x33)) (r_fields 0 4 3 0 5 0x33)
    ≡ map content (r_fields 0 4 3 0 5 0x33)
read_all-pack_bits_example = read_all-pack_bits (r_fields 0 4 3 0 5 0x33) refl

b_type-decoded_example :
    Verdict
      (negsuc 7)
      (FitsIn 13 (negsuc 7))
      (λ w. IsBranch w 2 1 0 0x63 (negsuc 7))
      (b_type (negsuc 7) 2 1 0 0x63)
b_type-decoded_example = b_type-decoded (negsuc 7) 2 1 0 0x63

c_control-decoded_example :
    Given (EvenOffset 12 (negsuc 3)) (λ w. IsCompressedJump w 5 (negsuc 3)) (enc_c_j (negsuc 3))
    × Given (EvenOffset 12 (negsuc 3)) (λ w. IsCompressedJump w 1 (negsuc 3)) (enc_c_jal (negsuc 3))
    × Given
        ((between 8 9 15 ≡ true) × EvenOffset 9 (negsuc 3))
        (λ w. IsCompressedBranch w 6 9 (negsuc 3))
        (enc_c_beqz 9 (negsuc 3))
    × Given
        ((between 8 9 15 ≡ true) × EvenOffset 9 (negsuc 3))
        (λ w. IsCompressedBranch w 7 9 (negsuc 3))
        (enc_c_bnez 9 (negsuc 3))
c_control-decoded_example = c_control-decoded 9 (negsuc 3)

c_memory-decoded_example :
    Given
      (Compressible 10 9 × WordOffset 124 68)
      (λ w. IsCompressedAccess w 2 68 9 10)
      (enc_c_lw 10 9 68)
    × Given
        (Compressible 10 9 × WordOffset 124 68)
        (λ w. IsCompressedAccess w 6 68 9 10)
        (enc_c_sw 9 10 68)
    × Given
        (Compressible 10 9 × WordOffset 124 68)
        (λ w. IsCompressedAccess w 3 68 9 10)
        (enc_c_flw 10 9 68)
    × Given
        (Compressible 10 9 × WordOffset 124 68)
        (λ w. IsCompressedAccess w 7 68 9 10)
        (enc_c_fsw 9 10 68)
    × Given
        ((between 1 10 31 ≡ true) × WordOffset 252 68)
        (λ w. IsStackLoad w 2 68 10)
        (enc_c_lwsp 10 68)
    × Given
        ((between 0 10 31 ≡ true) × WordOffset 252 68)
        (λ w. IsStackLoad w 3 68 10)
        (enc_c_flwsp 10 68)
    × Given
        ((between 0 10 31 ≡ true) × WordOffset 252 68)
        (λ w. IsStackStore w 6 68 10)
        (enc_c_swsp 10 68)
    × Given
        ((between 0 10 31 ≡ true) × WordOffset 252 68)
        (λ w. IsStackStore w 7 68 10)
        (enc_c_fswsp 10 68)
c_memory-decoded_example = c_memory-decoded 10 9 68

immediates-decoded_example :
    IsImmediate (enc_i (negsuc 0) 1 2 3) 1 3 (negsuc 0)
    × IsImmediate (enc_i_load (negsuc 0) 1 2 3) 1 3 (negsuc 0)
    × IsImmediate (enc_i_jalr (negsuc 0) 1 2) 1 2 (negsuc 0)
    × IsImmediate (enc_flw 1 2 (negsuc 0)) 2 1 (negsuc 0)
    × IsImmediate (enc_fld 1 2 (negsuc 0)) 2 1 (negsuc 0)
    × IsStore (enc_s 1 2 3 (negsuc 0)) 1 2 (negsuc 0)
    × IsStore (enc_fsw 1 2 (negsuc 0)) 1 2 (negsuc 0)
    × IsStore (enc_fsd 1 2 (negsuc 0)) 1 2 (negsuc 0)
immediates-decoded_example = immediates-decoded (negsuc 0) 1 2 3 (omega arith, omega arith)

encoders-IsWord_example :
    IntegerWords 1 2 3 4 5 (negsuc 7)
    × FloatWords 1 2 3 4 5 (negsuc 7)
    × IsEncoded (enc_b 1 2 3 (negsuc 7))
    × IsEncoded (enc_j 1 (negsuc 7))
encoders-IsWord_example = encoders-IsWord 1 2 3 4 5 (negsuc 7)

encoders-IsHalfword_example : Halfwords 9 10 64 (negsuc 7)
encoders-IsHalfword_example = encoders-IsHalfword 9 10 64 (negsuc 7)
