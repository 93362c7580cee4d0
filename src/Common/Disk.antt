-- ===== src/Common/Disk.antt =====
-- A file in memory, at which the theorems on files are tried.
use trakx.Common.{ℕ, sym, ap, true, [], Option, none, some}
use trakx.Common.Bytes.{Bytes}
use trakx.Common.Files.{File, IsFile, Stat, there, not_there}

abbrev pub stat_of : Option Bytes → Stat
stat_of none = not_there
stat_of (some bs) = there

-- The contents of the file, and the number of the sleeps.
abbrev pub disk : File
disk = record {
  World = Option Bytes × ℕ;
  stat = λ w. stat_of w.0;
  read_file = λ w. w.0;
  write_file = λ bs w. ((some bs, w.1), true);
  truncate = λ w. ((some [], w.1), true);
}

pub disk-IsFile : IsFile disk
disk-IsFile = record {
  read_written = λ bs e. ap (λ r. r.0.0) (sym e);
  stat_written = λ bs e. ap (λ r. stat_of r.0.0) (sym e);
  read_truncated = λ e. ap (λ r. r.0.0) (sym e);
}
