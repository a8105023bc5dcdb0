-- ===== src/Errors.antt =====
-- src/error.c and `enum trdb_error_code` of include/trace_debugger.h.
pub mod Codes
use Prim.Native.String.{String}
use trdb.Base.{ℕ, zero, suc, Option, some, get_elem?, List, [], ◌∷◌}

-- enum trdb_error_code
pub data ErrorCode : Type 0 where
  trdb_ok trdb_internal trdb_invalid trdb_bad_instr trdb_bad_packet trdb_bad_config : ErrorCode
  trdb_bad_ras trdb_bad_cvs_header trdb_unimplemented trdb_nomem trdb_file_open : ErrorCode
  trdb_file_size trdb_file_read trdb_file_write trdb_scan_file trdb_scan_state_invalid : ErrorCode
  trdb_arch_support trdb_section_empty trdb_bad_vma : ErrorCode

-- The value that C gives to each constant of the enumeration.
unfoldable pub error_value : ErrorCode → ℕ
error_value trdb_ok = 0
error_value trdb_internal = 1
error_value trdb_invalid = 2
error_value trdb_bad_instr = 3
error_value trdb_bad_packet = 4
error_value trdb_bad_config = 5
error_value trdb_bad_ras = 6
error_value trdb_bad_cvs_header = 7
error_value trdb_unimplemented = 8
error_value trdb_nomem = 9
error_value trdb_file_open = 10
error_value trdb_file_size = 11
error_value trdb_file_read = 12
error_value trdb_file_write = 13
error_value trdb_scan_file = 14
error_value trdb_scan_state_invalid = 15
error_value trdb_arch_support = 16
error_value trdb_section_empty = 17
error_value trdb_bad_vma = 18

-- What a function of type `int` returns: a value that is not negative, or `-e`.
pub data Status : Type 0 where
  value : ℕ → Status
  failed : ErrorCode → Status

-- The integers that such a function returns; `negsuc n` is -(n + 1).
pub data ℤ : Type 0 where
  pos : ℕ → ℤ
  negsuc : ℕ → ℤ

negated : ℕ → ℤ
negated zero = pos 0
negated (suc n) = negsuc n

unfoldable pub status_number : Status → ℤ
unfolding error_value negated
status_number (value n) = pos n
status_number (failed e) = negated (error_value e)

all_codes : List ErrorCode
all_codes =
    trdb_ok ∷ trdb_internal ∷ trdb_invalid ∷ trdb_bad_instr ∷ trdb_bad_packet ∷ trdb_bad_config
    ∷ trdb_bad_ras ∷ trdb_bad_cvs_header ∷ trdb_unimplemented ∷ trdb_nomem ∷ trdb_file_open
    ∷ trdb_file_size ∷ trdb_file_read ∷ trdb_file_write ∷ trdb_scan_file ∷ trdb_scan_state_invalid
    ∷ trdb_arch_support ∷ trdb_section_empty ∷ trdb_bad_vma ∷ []

-- The cast of -status to the enumeration; `none` is a value that no constant has.
unfoldable pub trdb_errcode : ℤ → Option ErrorCode
unfolding all_codes
trdb_errcode (pos n) = some trdb_ok
trdb_errcode (negsuc n) = get_elem? all_codes (suc n)

unfoldable pub trdb_errstr : ErrorCode → String
trdb_errstr trdb_ok = "success"
trdb_errstr trdb_internal = "internal error"
trdb_errstr trdb_invalid = "invalid argument"
trdb_errstr trdb_bad_instr = "unknown instruction"
trdb_errstr trdb_bad_packet = "unknown packet"
trdb_errstr trdb_bad_config = "bad configuration"
trdb_errstr trdb_bad_ras = "bad internal return address stack"
trdb_errstr trdb_bad_cvs_header = "bad cvs header"
trdb_errstr trdb_unimplemented = "unimplemented"
trdb_errstr trdb_nomem = "out of memory"
trdb_errstr trdb_file_open = "cannot open file"
trdb_errstr trdb_file_size = "cannot get file size"
trdb_errstr trdb_file_read = "cannot read file"
trdb_errstr trdb_file_write = "cannot write file"
trdb_errstr trdb_scan_file = "cannot scan file"
trdb_errstr trdb_scan_state_invalid = "scan state invalid, bad number of tokens"
trdb_errstr trdb_arch_support = "architecture not supported"
trdb_errstr trdb_section_empty = "section is empty"
trdb_errstr trdb_bad_vma = "vma is pointing to no section"
