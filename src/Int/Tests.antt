-- ===== src/Int/Tests.antt =====
-- The theorems on bits at inputs that meet their hypotheses.
use rlsf.Base.{ℕ, ◌≡◌, false, some, arith, ◌==◌, ltb, if◌then◌else◌}
use rlsf.Int.{get_bit, set_bit, clear_bit, bit_scan_forward}
use rlsf.Int.Laws.{get_bit-set_bit, get_bit-clear_bit}
use rlsf.Int.Scan.{IsFirstSet, bit_scan_forward-IsFirstSet}

bit_scan_forward-IsFirstSet_example :
    (r : ℕ) × (bit_scan_forward 8 20 3 ≡ some r) × IsFirstSet 8 20 3 r
bit_scan_forward-IsFirstSet_example = bit_scan_forward-IsFirstSet 8 20 3

get_bit-set_bit_example :
    get_bit 8 (set_bit 8 20 3) 3 ≡ (if 3 == 3 then ltb 3 8 else get_bit 8 20 3)
get_bit-set_bit_example = get_bit-set_bit 8 20 3 3 (omega arith)

get_bit-clear_bit_example :
    get_bit 8 (clear_bit 8 20 2) 2 ≡ (if 2 == 2 then false else get_bit 8 20 2)
get_bit-clear_bit_example = get_bit-clear_bit 8 20 2 2 (omega arith)
