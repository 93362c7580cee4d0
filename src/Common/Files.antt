-- ===== src/Common/Files.antt =====
-- What the program uses of a file at a path: the functions of the package os, and what they promise.
use trakx.Common.{◌≡◌, Bool, true, [], Option, some}
use trakx.Common.Bytes.{Bytes}

-- `os.Stat`: a file is there, `os.IsNotExist` holds of the error, or it is another one.
pub data Stat : Type 0 where
  there not_there stat_failed : Stat

-- The operations on the file in a world that holds it; `true` stands for no error.
pub record File : Type 1 where
  pub World : Type 0
  pub stat : World → Stat
  pub read_file : World → Option Bytes
  pub write_file : Bytes → World → World × Bool
  pub truncate : World → World × Bool

-- A write that reports no error has replaced the contents, and a truncation has left none.
pub record IsFile (f : File) : Type 0 where
  pub read_written :
      (bs : Bytes) {w w' : f.World} → f.write_file bs w ≡ (w', true) → f.read_file w' ≡ some bs
  pub stat_written :
      (bs : Bytes) {w w' : f.World} → f.write_file bs w ≡ (w', true) → f.stat w' ≡ there
  pub read_truncated : {w w' : f.World} → f.truncate w ≡ (w', true) → f.read_file w' ≡ some []
