-- ===== src/Config/Embed.antt =====
-- `stripNewlineTabs` and `GenerateEmbeddedCache` of config/embed.go.
use trakx.Common.{
  ℕ, Bool, true, false, List, [], ◌∷◌, reverse, Option, none, some, ◌==◌, if◌then◌else◌,
}
use trakx.Common.Assoc.{get, set}
use trakx.Common.Bytes.{Bytes, codes}
use trakx.Common.Search.{has_prefix}
use trakx.Storage.Types.{Bytes-discrete}
use mathlib.Core.Bool.{decide}

-- `strings.ReplaceAll` of one byte by nothing.
unfoldable pub without : ℕ → Bytes → Bytes
without c [] = []
without c (b ∷ bs) = let rest = without c bs in if b == c then rest else b ∷ rest

-- `strings.HasSuffix`.
unfoldable pub has_suffix : Bytes → Bytes → Bool
has_suffix suffix bs = has_prefix (reverse suffix) (reverse bs)

unfoldable pub strip_newline_tabs : Bytes → Bytes
strip_newline_tabs data_bytes = without b'\n' (without b'\t' data_bytes)

-- A file of the directory, with what `ReadFile` gives of it.
pub record Entry : Type 0 where
  pub name : Bytes
  pub is_dir : Bool
  pub contents : Option Bytes

abbrev pub EmbeddedCache : Type 0
EmbeddedCache = List (Bytes × Bytes)

abbrev pub config_name : Bytes
config_name = codes "trakx.yaml"

unfoldable pub trimmed : Bytes → Bytes → Bytes
trimmed name data_bytes =
    if has_suffix (codes ".html") name then strip_newline_tabs data_bytes else data_bytes

-- The loop; `none` if a file cannot be read.
unfoldable pub populate : List Entry → EmbeddedCache → Option EmbeddedCache
populate [] cache = some cache
populate (e ∷ es) cache = elim e.is_dir [
  | true ↦ populate es cache
  | false ↦ elim (decide (Bytes-discrete e.name config_name)) [
    | true ↦ populate es cache
    | false ↦ elim e.contents [
      | none ↦ none
      | some data_bytes ↦
          populate es (set Bytes-discrete (b'/' ∷ e.name) (trimmed e.name data_bytes) cache)
    ]
  ]
]

-- The index is copied to /.
unfoldable pub copy_index : EmbeddedCache → EmbeddedCache
copy_index cache = elim (get Bytes-discrete (codes "/index.html") cache) [
  | none ↦ cache
  | some index_data ↦ set Bytes-discrete (codes "/") index_data cache
]

-- Of the directory, if it can be read.
unfoldable pub generate_embedded_cache : Option (List Entry) → Option EmbeddedCache
generate_embedded_cache none = none
generate_embedded_cache (some dir) = elim (populate dir []) [
  | none ↦ none
  | some cache ↦ some (copy_index cache)
]
