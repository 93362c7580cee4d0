-- ===== src/Bencoding/AnyValue.antt =====
-- What `Any` writes, as a value.
use trakx.Common.{◌≡◌, refl, ap, ◌∙◌, sym, List, [], ◌∷◌, ◌++◌, append_assoc, append-nil}
use trakx.Common.Bytes.{Bytes}
use trakx.Common.Outcome.{ok, err, invalid_type}
use trakx.Bencoding.Dictionary.{Dictionary, str, write}
use trakx.Bencoding.Any.{
  Any, Entries, string, bytes, strings, map, int, unsupported, end, entry, any, any_entries,
  list_items,
}
use trakx.Bencoding.Value
use trakx.Bencoding.Value.{Value, Fields, encode, encode_str, encode_fields, encode_items}
use trakx.Bencoding.Writer

unfoldable mutual
  pub IsSupported : Any → Type 0
  IsSupported (string v) = Unit
  IsSupported (bytes v) = Unit
  IsSupported (strings v) = Unit
  IsSupported (map es) = AreSupported es
  IsSupported (int v) = Unit
  IsSupported unsupported = ⊥

  pub AreSupported : Entries → Type 0
  AreSupported end = Unit
  AreSupported (entry k v es) = IsSupported v × AreSupported es

unfoldable mutual
  pub value : Any → Value
  value (string v) = Value.str v
  value (bytes v) = Value.str v
  value (strings v) = Value.list (Writer.strings v)
  value (map es) = Value.dict (values es)
  value (int v) = Value.int v
  value unsupported = Value.str []

  pub values : Entries → Fields
  values end = Value.end
  values (entry k v es) = Value.field k (value v) (values es)

list_items-strings : (ss : List Bytes) → list_items ss ≡ encode_items (Writer.strings ss)
unfolding list_items Writer.strings encode str
list_items-strings [] = refl
list_items-strings (s ∷ ss) = rw (list_items-strings ss)

mutual
  unfolding any value encode IsSupported

  any_buf :
      (v : Any) (d : Dictionary) (key : Bytes)
      → IsSupported v
      → (any v d key) ≡ (write d (encode_str key ++ encode (value v)), ok tt)
  any_buf (string v) d key h = simp append_assoc
  any_buf (bytes v) d key h = simp append_assoc
  any_buf (strings v) d key h = simp (list_items-strings, append_assoc)
  any_buf (map es) d key h = simp (any_entries_buf es _ h, append_assoc)
  any_buf (int v) d key h = simp append_assoc
  any_buf unsupported d key h = elim h [ ]

  any_entries_buf :
      (es : Entries) (d : Dictionary)
      → AreSupported es
      → (any_entries es d).buf ≡ d.buf ++ encode_fields (values es)
  any_entries_buf end d h = sym (append-nil d.buf)
  any_entries_buf (entry k v es) d h =
      any_entries_buf es (any v d k).0 h.1
      ∙ ap (λ p. p.0.buf ++ encode_fields (values es)) (any_buf v d k h.0)
      ∙ simp append_assoc

-- On a value of the supported types, nested ones included, `Any` succeeds and appends the
-- bencoding of the key and of the value.
pub any_lem :
    (v : Any) (d : Dictionary) (key : Bytes)
    → IsSupported v
    → any v d key ≡ (record { buf = d.buf ++ (encode_str key ++ encode (value v)) }, ok tt)
unfolding write
any_lem v d key h = any_buf v d key h

-- A value of another type leaves its key behind in the buffer when `Any` returns the error. Inside
-- a map that error is dropped: `Any` succeeds, and the inner dictionary has a key with no value.
pub any_unsupported :
    (d : Dictionary) (key k : Bytes)
    → (any unsupported d key ≡ (record { buf = d.buf ++ encode_str key }, err invalid_type))
      × (any (map (entry k unsupported end)) d key ≡ (
        record { buf = d.buf ++ (encode_str key ++ (b'd' ∷ (encode_str k ++ (b'e' ∷ [])))) },
        ok tt,
      ))
unfolding any
any_unsupported d key k = (refl, simp append_assoc)
