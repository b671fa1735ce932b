-- ===== src/Models/Tests.antt =====
-- The instruction-level models at concrete inputs.
use frost.Prelude.{◌+◌, ◌*◌, ◌%◌, ◌^◌, ◌≡◌, refl, [], ◌∷◌, arith, signed}
use frost.Models.{sign_extend}
use frost.Models.Memory.{
  Memory, no_bytes, read_byte, write_byte, write_word, read_word, read_dword, write_dword,
  load_rows,
}
use frost.Models.ReadWrite.{read_dword-write_dword}
use frost.Models.MemoryHistory.{Reach, start, next, writes_byte, Reach-IsBytes, init-read_dword}
use frost.Models.Alu.{rol, ror}
use frost.Models.Rotate.{ror-rol}
use frost.Models.Muldiv.{
  mul_ℤ, mul, mulh, mulhsu, div, rem, sra, bclr, binv, andn, orn, xnor, cpop, ones, orc_b, orc_from,
  brev8, brev_from, reverse_from,
}
use frost.Models.Products.{products-halves}
use frost.Models.Alu.{mulhu}
use frost.Models.{to_signed32}
use frost.Models.Division.{IsDivided}
use frost.Models.Quotients.{div-rem}
use frost.Prelude.{◌⊎◌, ◌-◌}
use frost.Prelude.{low_bits, pos}
use frost.Models.Shuffle.{unzip-zip_rv}
use frost.Models.Bitmanip.{
  copy_bit, zip_from, zip_rv, unzip_from, unzip, rev8, clz_from, clz, ctz_from, ctz,
}

-- Two rows, then a byte into the second.
abbrev two_rows : Memory
two_rows = load_rows no_bytes 0 (0x1122334455667788 ∷ 7 ∷ [])

abbrev one_byte_written : Memory
one_byte_written = write_byte two_rows 9 0xAB

one_byte_written-Reach : Reach one_byte_written
one_byte_written-Reach = next (start (0x1122334455667788 ∷ 7 ∷ [])) (writes_byte 9 0xAB)

-- An unaligned address reads the word that it lies in, round the 64 KiB.
aligned_word : read_word one_byte_written 0x1000A ≡ 0xAB07
unfolding read_word read_byte write_byte load_rows write_dword write_word
aligned_word = refl

read_dword-write_dword_example :
    read_dword (write_dword one_byte_written 0x1000D 0xF00000000000000AA) 8 ≡ 0xAA
read_dword-write_dword_example =
    read_dword-write_dword one_byte_written 0x1000D 0xF00000000000000AA 8
      (Reach-IsBytes one_byte_written-Reach)

init-read_dword_example : read_dword two_rows (1 * 8) ≡ 7
init-read_dword_example =
    init-read_dword (0x1122334455667788 ∷ 7 ∷ []) 1 (omega arith) (omega arith)

-- A rotation by 36, that is by 4.
ror-rol_example :
    (ror (rol 0x80000001 36) 36 ≡ 0x80000001) × (rol (ror 0x80000001 36) 36 ≡ 0x80000001)
ror-rol_example = ror-rol 0x80000001 36 (omega arith)

-- The bits of the lower half go to the even places and back.
zipped : zip_rv 0xFFFF ≡ 0x55555555
unfolding zip_rv zip_from copy_bit
zipped = refl

unzipped : unzip 0x55555555 ≡ 0xFFFF
unfolding unzip unzip_from copy_bit
unzipped = refl

bytes_reversed : rev8 0x12345678 ≡ 0x78563412
unfolding rev8
bytes_reversed = refl

leading_zeros : clz 0x10000 ≡ 15
unfolding clz clz_from
leading_zeros = refl

trailing_zeros : ctz 0x10000 ≡ 16
unfolding ctz ctz_from
trailing_zeros = refl

unzip-zip_rv_example :
    (unzip (zip_rv 0x12345678) ≡ 0x12345678) × (zip_rv (unzip 0x12345678) ≡ 0x12345678)
unzip-zip_rv_example = unzip-zip_rv 0x12345678 (omega arith)

-- -7 times 3, and the upper halves.
products-halves_example :
    (mulh 0xFFFFFFF9 3 * 2 ^ 32 + mul 0xFFFFFFF9 3
      ≡ low_bits 64 (mul_ℤ (signed 32 (0xFFFFFFF9 % 2 ^ 32)) (signed 32 (3 % 2 ^ 32))))
    × (mulhsu 0xFFFFFFF9 3 * 2 ^ 32 + mul 0xFFFFFFF9 3
        ≡ low_bits 64 (mul_ℤ (signed 32 (0xFFFFFFF9 % 2 ^ 32)) (pos (3 % 2 ^ 32))))
    × (mulhu 0xFFFFFFF9 3 * 2 ^ 32 + mul 0xFFFFFFF9 3 ≡ (0xFFFFFFF9 % 2 ^ 32) * (3 % 2 ^ 32))
products-halves_example = products-halves 0xFFFFFFF9 3

-- -7 / 2 is -3, and the remainder is -1.
signed_quotient : (div 0xFFFFFFF9 2 ≡ 0xFFFFFFFD) × (rem 0xFFFFFFF9 2 ≡ 0xFFFFFFFF)
unfolding div rem to_signed32 sign_extend
signed_quotient = (refl, refl)

-- Division by zero, and the quotient that overflows.
quotient_limits :
    (div 7 0 ≡ 0xFFFFFFFF)
    × (rem 7 0 ≡ 7)
    × (div 0x80000000 0xFFFFFFFF ≡ 0x80000000)
    × (rem 0x80000000 0xFFFFFFFF ≡ 0)
unfolding div rem to_signed32 sign_extend
quotient_limits = (refl, refl, refl, refl)

shifted_arithmetic : sra 0x80000000 33 ≡ 0xC0000000
unfolding sra to_signed32 sign_extend
shifted_arithmetic = refl

complements :
    (bclr 0xFF 4 ≡ 0xEF)
    × (binv 0 4 ≡ 0x10)
    × (andn 0xFF 0x0F ≡ 0xF0)
    × (orn 0 0xF ≡ 0xFFFFFFF0)
    × (xnor 5 5 ≡ 0xFFFFFFFF)
unfolding bclr binv andn orn xnor
complements = (refl, refl, refl, refl, refl)

counted : cpop 0xF0F0 ≡ 8
unfolding cpop ones
counted = refl

bytes_filled : orc_b 0x00100001 ≡ 0x00FF00FF
unfolding orc_b orc_from
bytes_filled = refl

bytes_mirrored : brev8 0x01020380 ≡ 0x8040C001
unfolding brev8 brev_from reverse_from copy_bit
bytes_mirrored = refl

-- -7 by 2.
div-rem_example :
    ((2 % 2 ^ 32 ≡ 0) × (div 0xFFFFFFF9 2 ≡ 0xFFFFFFFF) × (rem 0xFFFFFFF9 2 ≡ 0xFFFFFFF9 % 2 ^ 32))
    ⊎ (((0xFFFFFFF9 % 2 ^ 32 ≡ 2 ^ 31)
          × (2 % 2 ^ 32 ≡ 2 ^ 32 - 1)
          × (div 0xFFFFFFF9 2 ≡ 2 ^ 31)
          × (rem 0xFFFFFFF9 2 ≡ 0))
        ⊎ IsDivided
            (to_signed32 0xFFFFFFF9)
            (to_signed32 2)
            (to_signed32 (div 0xFFFFFFF9 2))
            (to_signed32 (rem 0xFFFFFFF9 2)))
div-rem_example = div-rem 0xFFFFFFF9 2
