-- ===== src/Bencoding/Dictionary.antt =====
-- bencoding/dictionary.go: the dictionary writer, less `Any`.
use trakx.Common.{ℕ, List, [], ◌∷◌, ◌++◌, length}
use trakx.Common.Bytes.{Bytes}
use trakx.Bencoding.Decimal.{ℤ, itoa, format_int}

pub record Dictionary : Type 0 where
  pub buf : Bytes

unfoldable pub write : Dictionary → Bytes → Dictionary
write d s = record { buf = d.buf ++ s }

unfoldable pub new_dictionary : Dictionary
unfolding write
new_dictionary = write (record { buf = [] }) (b'd' ∷ [])

-- `d.buf[:0]`, then the write.
unfoldable pub reset : Dictionary → Dictionary
unfolding write
reset d = write (record { buf = [] }) (b'd' ∷ [])

unfoldable pub string : Dictionary → Bytes → Bytes → Dictionary
unfolding write
string d key v = write d (itoa (length key) ++ (b':' ∷ (key ++ (itoa (length v) ++ (b':' ∷ v)))))

unfoldable pub string_bytes : Dictionary → Bytes → Bytes → Dictionary
unfolding write
string_bytes d key v =
    write (write d (itoa (length key) ++ (b':' ∷ (key ++ (itoa (length v) ++ (b':' ∷ [])))))) v

unfoldable pub int64 : Dictionary → Bytes → ℤ → Dictionary
unfolding write
int64 d key v =
    write d (itoa (length key) ++ (b':' ∷ (key ++ (b'i' ∷ (format_int v ++ (b'e' ∷ []))))))

-- The value is written as it is: it has to be encoded already.
unfoldable pub dictionary : Dictionary → Bytes → Bytes → Dictionary
unfolding write
dictionary d key v = write d (itoa (length key) ++ (b':' ∷ (key ++ v)))

unfoldable pub start_length : Dictionary → ℕ → Dictionary
unfolding write
start_length d len = write d (itoa len ++ (b':' ∷ []))

unfoldable pub start_dictionary : Dictionary → Bytes → Dictionary
unfolding write start_length
start_dictionary d key = write (write (start_length d (length key)) key) (b'd' ∷ [])

unfoldable pub start_dictionary_bytes : Dictionary → Bytes → Dictionary
unfolding write start_length
start_dictionary_bytes d key = write (write (start_length d (length key)) key) (b'd' ∷ [])

unfoldable pub end_dictionary : Dictionary → Dictionary
unfolding write
end_dictionary d = write d (b'e' ∷ [])

-- `str` of encoding.go.
unfoldable pub str : Bytes → Bytes
str s = itoa (length s) ++ (b':' ∷ s)

unfoldable pub write_slices : Dictionary → List Bytes → Dictionary
unfolding write
write_slices d [] = d
write_slices d (b ∷ bs) = write_slices (write (write d (itoa (length b) ++ (b':' ∷ []))) b) bs

unfoldable pub byteslice_slice : Dictionary → Bytes → List Bytes → Dictionary
unfolding write str write_slices
byteslice_slice d key slice =
    write (write_slices (write d (str key ++ (b'l' ∷ []))) slice) (b'e' ∷ [])

-- `Get` and `GetBytes`: the encoded dictionary, and the writer, which now ends in "e".
unfoldable pub get_bytes : Dictionary → Dictionary × Bytes
unfolding write
get_bytes d = let d' = write d (b'e' ∷ []) in (d', d'.buf)
