-- ===== src/Models/Branch.antt =====
-- verif/models/branch_model.py: `branch_taken_decision`; `none` is the ValidationError of an unknown
-- mnemonic.
use Prim.Native.String.{String}
use text.Mathlib.Text.{◌==◌ as is_text}
use frost.Prelude.{ℕ, Bool, not, Option, none, some, ◌==◌, ltb, mask32, ltb_ℤ, if◌then◌else◌}
use frost.Models.{to_signed32}

unfoldable pub branch_taken_decision : String → ℕ → ℕ → Option Bool
branch_taken_decision operation a b =
    if is_text operation "beq"
    then some (a == b)
    else (if is_text operation "bne"
        then some (not (a == b))
        else (if is_text operation "blt"
            then some (ltb_ℤ (to_signed32 a) (to_signed32 b))
            else (if is_text operation "bge"
                then some (not (ltb_ℤ (to_signed32 a) (to_signed32 b)))
                else (if is_text operation "bltu"
                    then some (ltb (mask32 a) (mask32 b))
                    else (if is_text operation "bgeu"
                        then some (not (ltb (mask32 a) (mask32 b)))
                        else none)))))
