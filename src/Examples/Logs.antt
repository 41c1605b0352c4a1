-- ===== src/Examples/Logs.antt =====
-- A witness for internal/logging/file.go: a write that rotates.
use xuandu_gateway.Prelude.{refl, true, false, none, some, arith, if◌then◌else◌, eqb}
use xuandu_gateway.Logging.{Disk, File, Os, write}
use xuandu_gateway.Logging.Bound.{IsLog, write-IsLog}

abbrev file : File
file = record { handle = true; size = 8; limit = 10; backups = 2; closed = false }

abbrev disk : Disk
disk n = if eqb n 0 then some 8 else none

-- The rename of the first backup would fail, but there is none.
abbrev os : Os
os = record {
  opens = true;
  stats = true;
  reopens = true;
  restats = true;
  closes = true;
  renames = λ n. eqb n 0;
  write = λ n. (n, true);
}

file-IsLog : IsLog file disk
file-IsLog = record {
  bounded = record { few = λ n far. ground arith; small = λ n s e. ground arith };
  known = λ o. refl;
}

write-IsLog_example : IsLog (write os 5 file disk).0.0 (write os 5 file disk).0.1
write-IsLog_example = write-IsLog os 5 file disk (omega arith) (omega arith) file-IsLog
