-- ===== src/Bencoding/Writer.antt =====
-- A run of the dictionary writer against the value that it writes.
use trakx.Common.{◌≡◌, ◌∙◌, sym, List, [], length, ◌∷◌, ◌++◌, append_assoc, append-nil}
use trakx.Common.Bytes.{Bytes}
use trakx.Bencoding.Decimal.{ℤ, itoa}
use trakx.Bencoding.Dictionary
use trakx.Bencoding.Dictionary.{Dictionary}
use trakx.Bencoding.Value.{
  Value, Items, Fields, str, int, list, dict, nil, cons, end, field, encode, encode_items,
  encode_fields,
}

-- The calls that a handler makes between `NewDictionary` and `GetBytes`. A nested run stands
-- between `StartDictionary` or `StartDictionaryBytes` and `EndDictionary`.
mutual
  pub data Call : Type 0 where
    string : Bytes → Bytes → Call
    string_bytes : Bytes → Bytes → Call
    int64 : Bytes → ℤ → Call
    dictionary : Bytes → Value → Call
    byteslice_slice : Bytes → List Bytes → Call
    nested : Bytes → Calls → Call
    nested_bytes : Bytes → Calls → Call

  pub data Calls : Type 0 where
    done : Calls
    then : Call → Calls → Calls

unfoldable mutual
  pub call : Dictionary → Call → Dictionary
  call d (string k v) = Dictionary.string d k v
  call d (string_bytes k v) = Dictionary.string_bytes d k v
  call d (int64 k v) = Dictionary.int64 d k v
  call d (dictionary k v) = Dictionary.dictionary d k (encode v)
  call d (byteslice_slice k slices) = Dictionary.byteslice_slice d k slices
  call d (nested k cs) = Dictionary.end_dictionary (run (Dictionary.start_dictionary d k) cs)
  call d (nested_bytes k cs) =
      Dictionary.end_dictionary (run (Dictionary.start_dictionary_bytes d k) cs)

  pub run : Dictionary → Calls → Dictionary
  run d done = d
  run d (then c cs) = run (call d c) cs

unfoldable pub strings : List Bytes → Items
strings [] = nil
strings (b ∷ bs) = cons (str b) (strings bs)

-- The fields that the calls write.
unfoldable mutual
  pub written : Call → Fields → Fields
  written (string k v) fs = field k (str v) fs
  written (string_bytes k v) fs = field k (str v) fs
  written (int64 k v) fs = field k (int v) fs
  written (dictionary k v) fs = field k v fs
  written (byteslice_slice k slices) fs = field k (list (strings slices)) fs
  written (nested k cs) fs = field k (dict (fields cs)) fs
  written (nested_bytes k cs) fs = field k (dict (fields cs)) fs

  pub fields : Calls → Fields
  fields done = end
  fields (then c cs) = written c (fields cs)

buf-write_slices :
    (d : Dictionary) (bs : List Bytes)
    → (Dictionary.write_slices d bs).buf ≡ d.buf ++ encode_items (strings bs)
unfolding Dictionary.write_slices strings encode
buf-write_slices d [] = sym (append-nil d.buf)
buf-write_slices d (b ∷ bs) =
    buf-write_slices (record { buf = (d.buf ++ (itoa (length b) ++ (b':' ∷ []))) ++ b }) bs
    ∙ simp append_assoc

mutual
  unfolding call written Dictionary.string Dictionary.string_bytes Dictionary.int64
      Dictionary.dictionary Dictionary.byteslice_slice Dictionary.str Dictionary.start_dictionary
      Dictionary.start_dictionary_bytes Dictionary.end_dictionary encode

  buf-call :
      (c : Call) (d : Dictionary) (fs : Fields)
      → (call d c).buf ++ encode_fields fs ≡ d.buf ++ encode_fields (written c fs)
  buf-call (string k v) d fs = simp append_assoc
  buf-call (string_bytes k v) d fs = simp append_assoc
  buf-call (int64 k v) d fs = simp append_assoc
  buf-call (dictionary k v) d fs = simp append_assoc
  buf-call (byteslice_slice k slices) d fs = simp (buf-write_slices, append_assoc)
  buf-call (nested k cs) d fs = simp (buf-run cs, append_assoc)
  buf-call (nested_bytes k cs) d fs = simp (buf-run cs, append_assoc)

  buf-run : (cs : Calls) (d : Dictionary) → (run d cs).buf ≡ d.buf ++ encode_fields (fields cs)
  buf-run done d = sym (append-nil d.buf)
  buf-run (then c cs) d = buf-run cs (call d c) ∙ buf-call c d (fields cs)

-- Whatever calls are made, on a new writer or on one that was used before and reset, the bytes
-- that come out are the bencoding of the dictionary with the fields of the calls, in their order.
pub get_bytes-run :
    (used : Dictionary) (cs : Calls)
    → ((Dictionary.get_bytes (run Dictionary.new_dictionary cs)).1 ≡ encode (dict (fields cs)))
      × ((Dictionary.get_bytes (run (Dictionary.reset used) cs)).1 ≡ encode (dict (fields cs)))
unfolding Dictionary.get_bytes Dictionary.new_dictionary Dictionary.reset encode
get_bytes-run used cs = (simp (buf-run, append_assoc), simp (buf-run, append_assoc))
