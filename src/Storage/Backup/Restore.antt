-- ===== src/Storage/Backup/Restore.antt =====
-- What `Load` of a `FileBackup` reads after `Save`.
use trakx.Common.{◌≡◌, refl, sym, ap, ◌∙◌, Bool, true, false, All, Option, some, arith}
use trakx.Common.Files.{File, IsFile}
use trakx.Common.Outcome.{ok}
use trakx.Storage.Memory.{HashMap}
use trakx.Storage.Memory.Counts.{IsValid}
use trakx.Storage.Binary.Entries.{IsStorable}
use trakx.Storage.Binary.RoundTrip.{decode_binary-encode_binary}
use trakx.Storage.Backup.{load_data, load_file, load, written, save_file}

module _ (file : File) (law : IsFile file) where
  written_ok :
      (r : file.World × Bool) {w : file.World} → written file r ≡ (w, ok tt) → r ≡ (w, true)
  written_ok (w1, true) e = ap (λ r. (r.0, true)) e
  written_ok (w1, false) e = ground (arith, ap (λ r. r.1) e)

  -- When the write succeeds, a valid database whose hashes and entries are storable is
  -- loaded whole from the file that it was saved to, into a database that held anything before.
  pub load-save_file :
      (m : HashMap) (before : Option HashMap) (w : file.World) {w' : file.World}
      → IsValid m
      → All IsStorable m
      → save_file file m w ≡ (w', ok tt)
      → load file w' before ≡ some (some m, ok tt)
  unfolding save_file load load_file load_data
  load-save_file m before w {w'} v s e =
      let (b, encoded, decoded) = decode_binary-encode_binary m v s in
      let saved : save_file file m w ≡ written file (file.write_file b w) =
        rw (encoded, save_file) refl in
      let wrote = written_ok (file.write_file b w) (sym saved ∙ e) in
      rw (law.stat_written b wrote, load)
        (rw (law.read_written b wrote, load_file) (rw (decoded, load_data)))
