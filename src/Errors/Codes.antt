-- ===== src/Errors/Codes.antt =====
-- The error that a status stands for.
use trdb.Base.{◌≡◌, some, arith}
use trdb.Errors.{ErrorCode, failed, status_number, trdb_errcode}

-- Every error code is what trdb_errcode makes of the status that a function returns for it.
pub trdb_errcode-status_number : (e : ErrorCode) → trdb_errcode (status_number (failed e)) ≡ some e
unfolding trdb_errcode status_number
trdb_errcode-status_number e = ground arith
