-- ===== src/Bencoding/Any.antt =====
-- `Dictionary.Any` of bencoding/dictionary.go, and bencoding/encoding.go.
use trakx.Common.{List, [], ◌∷◌, ◌++◌}
use trakx.Common.Bytes.{Bytes}
use trakx.Common.Outcome.{Result, ok, err, invalid_type}
use trakx.Bencoding.Decimal.{ℤ, format_int}
use trakx.Bencoding.Dictionary.{Dictionary, write, new_dictionary, str, get_bytes}

-- `fmt.Sprintf("i%de", num)` on the integer types.
unfoldable pub integer : ℤ → Bytes
integer num = b'i' ∷ (format_int num ++ (b'e' ∷ []))

unfoldable pub list_items : List Bytes → Bytes
unfolding str
list_items [] = []
list_items (s ∷ ss) = str s ++ list_items ss

unfoldable pub list : List Bytes → Bytes
unfolding list_items
list ss = b'l' ∷ (list_items ss ++ (b'e' ∷ []))

-- The values that `Any` is given. A map is its entries in the order in which `range` yields them;
-- the three map types of the type switch are maps of values here. `unsupported` is a value of any
-- other type.
mutual
  pub data Any : Type 0 where
    string : Bytes → Any
    bytes : Bytes → Any
    strings : List Bytes → Any
    map : Entries → Any
    int : ℤ → Any
    unsupported : Any

  pub data Entries : Type 0 where
    end : Entries
    entry : Bytes → Any → Entries → Entries

-- The key is written before the type of the value is looked at. The error of a nested call is
-- dropped.
unfoldable mutual
  unfolding write new_dictionary str integer list get_bytes

  pub any : Any → Dictionary → Bytes → Dictionary × Result (Unit {0})
  any (string v) d key = (write (write d (str key)) (str v), ok tt)
  any (bytes v) d key = (write (write d (str key)) (str v), ok tt)
  any (strings v) d key = (write (write d (str key)) (list v), ok tt)
  any (map es) d key =
      (write (write d (str key)) (get_bytes (any_entries es new_dictionary)).1, ok tt)
  any (int v) d key = (write (write d (str key)) (integer v), ok tt)
  any unsupported d key = (write d (str key), err invalid_type)

  pub any_entries : Entries → Dictionary → Dictionary
  any_entries end d = d
  any_entries (entry k v es) d = any_entries es (any v d k).0
