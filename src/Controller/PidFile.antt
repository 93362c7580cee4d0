-- ===== src/Controller/PidFile.antt =====
-- controller/pidfile.go.
use trakx.Common.{◌≡◌, refl, Bool, true, [], ◌∷◌, Option, none, some}
use trakx.Common.Bytes.{Bytes}
use trakx.Common.Files.{File, IsFile}
use trakx.Bencoding.Decimal.{ℤ, negsuc, format_int}
use trakx.Strconv.{atoi, atoi-format_int, IsInt64}
use native.Mathlib.Omega.{arith}

-- The errors of `Read`: that of `os.ReadFile`, `ErrFileEmpty` and `ErrParseFailed`.
pub data PidError : Type 0 where
  unreadable empty_file unparsed : PidError

abbrev pub process_id_failed : ℤ
process_id_failed = negsuc 0

module _ (file : File) where
  -- `Read` of the contents.
  unfoldable pub read_contents : Option Bytes → ℤ × Option PidError
  read_contents none = (process_id_failed, some unreadable)
  read_contents (some []) = (process_id_failed, some empty_file)
  read_contents (some (c ∷ cs)) = elim (atoi (c ∷ cs)) [
    | none ↦ (process_id_failed, some unparsed)
    | some process_id ↦ (process_id, none)
  ]

  unfoldable pub read : file.World → ℤ × Option PidError
  read w = read_contents (file.read_file w)

  abbrev pub write : ℤ → file.World → file.World × Bool
  write process_id w = file.write_file (format_int process_id) w

  abbrev pub clear : file.World → file.World × Bool
  clear w = file.truncate w

  read_contents_parsed :
      (bs : Bytes) {z : ℤ} → atoi bs ≡ some z → read_contents (some bs) ≡ (z, none)
  unfolding read_contents
  read_contents_parsed [] e =
      let nothing : atoi [] ≡ none = unfold atoi in refl in ground (arith, nothing)
  read_contents_parsed (c ∷ cs) e = rw (e, read_contents)

  module _ (law : IsFile file) where
    -- What `Write` has written `Read` reads.
    pub read-write :
        (process_id : ℤ) {w w' : file.World}
        → IsInt64 process_id
        → write process_id w ≡ (w', true)
        → read w' ≡ (process_id, none)
    unfolding read
    read-write process_id h e =
        rw (law.read_written _ e)
          (read_contents_parsed (format_int process_id) (atoi-format_int process_id h))

    pub read-clear :
        {w w' : file.World} → clear w ≡ (w', true) → read w' ≡ (process_id_failed, some empty_file)
    unfolding read read_contents
    read-clear e = rw (law.read_truncated e) refl
