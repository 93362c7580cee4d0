-- ===== src/Bencoding/Tests.antt =====
-- Runs of the dictionary writer, and the theorems at concrete inputs.
use trakx.Common.{◌≡◌, refl, [], ◌∷◌, ◌++◌, some, arith}
use trakx.Common.Outcome.{ok}
use trakx.Bencoding.Decimal.{pos, negsuc, itoa, format_int}
use trakx.Bencoding.Dictionary
use trakx.Bencoding.Dictionary.{Dictionary}
use trakx.Bencoding.Writer.{Call, Calls, done, then, run, fields, strings, get_bytes-run}
use trakx.Bencoding.Value.{Value, encode, decode, size, encode_str}
use trakx.Bencoding.Value.RoundTrip.{decode-encode}
use trakx.Bencoding.Any.{Any, Entries, any}
use trakx.Bencoding.AnyValue.{value, IsSupported, any_lem}

-- d1:ai-7e1:bl2:xyee
abbrev calls : Calls
calls =
    then (Call.int64 (b'a' ∷ []) (negsuc 6))
      (then (Call.byteslice_slice (b'b' ∷ []) ((b'x' ∷ b'y' ∷ []) ∷ [])) done)

written_out :
    (Dictionary.get_bytes (run Dictionary.new_dictionary calls)).1
    ≡ b'd' ∷ b'1' ∷ b':' ∷ b'a' ∷ b'i' ∷ b'-' ∷ b'7' ∷ b'e' ∷ b'1' ∷ b':' ∷ b'b' ∷ b'l' ∷ b'2'
      ∷ b':' ∷ b'x' ∷ b'y' ∷ b'e' ∷ b'e' ∷ []
unfolding run Dictionary.get_bytes Dictionary.new_dictionary Dictionary.int64
    Dictionary.byteslice_slice itoa format_int
written_out = refl

itoa_large : itoa 6881 ≡ b'6' ∷ b'8' ∷ b'8' ∷ b'1' ∷ []
unfolding itoa
itoa_large = refl

get_bytes-run_example :
    ((Dictionary.get_bytes (run Dictionary.new_dictionary calls)).1
      ≡ encode (Value.dict (fields calls)))
    × ((Dictionary.get_bytes (run (Dictionary.reset Dictionary.new_dictionary) calls)).1
        ≡ encode (Value.dict (fields calls)))
get_bytes-run_example = get_bytes-run Dictionary.new_dictionary calls

decode-encode_example :
    decode 9 (encode (Value.dict (fields calls)) ++ (7 ∷ []))
    ≡ some (Value.dict (fields calls), 7 ∷ [])
unfolding size fields strings
decode-encode_example = decode-encode (Value.dict (fields calls)) 9 (7 ∷ []) (omega arith)

abbrev nested : Any
nested = Any.map (Entries.entry (b'k' ∷ []) (Any.int (pos 5)) Entries.end)

any_lem_example : any nested Dictionary.new_dictionary (b'm' ∷ []) ≡ (
  record {
    buf = Dictionary.new_dictionary.buf ++ (encode_str (b'm' ∷ []) ++ encode (value nested));
  },
  ok tt,
)
unfolding IsSupported
any_lem_example = any_lem nested Dictionary.new_dictionary (b'm' ∷ []) (tt, tt)
