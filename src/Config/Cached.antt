-- ===== src/Config/Cached.antt =====
-- What the cache of config/embed.go holds.
use trakx.Common.{
  ◌≡◌, ◌≢◌, refl, sym, ap, ◌∙◌, true, false, ◌||◌, List, [], ◌∷◌, All, length, drop, Option, none,
  some, Option-cases, Bool-cases, inl, inr, arith,
}
use trakx.Common.Assoc.{get, set, get-set, get-set_self, get-set_ne}
use trakx.Common.Bytes.{Bytes, codes}
use trakx.Storage.Types.{Bytes-discrete}
use trakx.Config.Embed.{
  Entry, EmbeddedCache, config_name, trimmed, populate, copy_index, generate_embedded_cache,
}
use trakx.Config.Pages.{served, trimmed-served}
use mathlib.Core.Option
use mathlib.Core.Bool.{decide}
use mathlib.Core.Logic.{ite, if_neg}

-- A file that is no directory can be read.
abbrev pub IsReadable : Entry → Type 0
IsReadable e = (bs : Bytes) × (e.contents ≡ some bs)

abbrev pub or_else : Option Bytes → Option Bytes → Option Bytes
or_else none b = b
or_else (some a) b = some a

-- What one entry gives for a path: the configuration and directories give nothing.
unfoldable pub entry_at : Bytes → Entry → Option Bytes
entry_at path e = elim (e.is_dir || decide (Bytes-discrete e.name config_name)) [
  | true ↦ none
  | false ↦ ite (Bytes-discrete path (b'/' ∷ e.name)) (Option.map (served e.name) e.contents) none
]

-- What the last entry for a path gives.
unfoldable pub file_at : Bytes → List Entry → Option Bytes
file_at path [] = none
file_at path (e ∷ es) = or_else (file_at path es) (entry_at path e)

or_else_assoc : (a b c : Option Bytes) → or_else (or_else a b) c ≡ or_else a (or_else b c)
or_else_assoc none b c = refl
or_else_assoc (some x) b c = refl

or_else-none : (a : Option Bytes) → or_else a none ≡ a
or_else-none none = refl
or_else-none (some x) = refl

or_else-ite :
    {P : Type 0} (d : Dec P) (x : Bytes) (b : Option Bytes)
    → ite d (some x) b ≡ or_else (ite d (some x) none) b
or_else-ite (yes p) x b = refl
or_else-ite (no n) x b = refl

step_lem :
    (e : Entry) (cache : EmbeddedCache)
    → IsReadable e
    → (next : EmbeddedCache) × ((es : List Entry) → populate (e ∷ es) cache ≡ populate es next)
      × ((path : Bytes)
          → get Bytes-discrete path next
            ≡ or_else (entry_at path e) (get Bytes-discrete path cache))
unfolding populate entry_at
step_lem e cache (bs, h) = elim (Bool-cases e.is_dir) [
  | inl d ↦ (cache, (λ es. rw (d, populate)), (λ path. rw (d, entry_at)))
  | inr d ↦ elim (Bool-cases (decide (Bytes-discrete e.name config_name))) [
    | inl n ↦ (cache, (λ es. rw (d, populate) (rw n refl)), (λ path. rw (d, entry_at) (rw n refl)))
    | inr n ↦ (
      set Bytes-discrete (b'/' ∷ e.name) (trimmed e.name bs) cache,
      (λ es. rw (d, populate) (rw n (rw h refl))),
      (λ path.
          get-set Bytes-discrete path (b'/' ∷ e.name) (trimmed e.name bs) cache
          ∙ rw (d, entry_at)
              (rw n (
                rw (h, sym (trimmed-served e.name bs))
                  (or_else-ite (Bytes-discrete path (b'/' ∷ e.name)) (trimmed e.name bs) _)))),
    )
  ]
]

populate_lem :
    (es : List Entry) (cache : EmbeddedCache)
    → All IsReadable es
    → (end : EmbeddedCache) × (populate es cache ≡ some end)
      × ((path : Bytes)
          → get Bytes-discrete path end ≡ or_else (file_at path es) (get Bytes-discrete path cache))
unfolding populate file_at
populate_lem [] cache h = (cache, refl, λ path. refl)
populate_lem (e ∷ es) cache (h, hs) =
    let (next, stepped, here) = step_lem e cache h in
    let (end, made, there) = populate_lem es next hs in
    (
      end,
      stepped es ∙ made,
      (λ path.
          there path
          ∙ ap (or_else (file_at path es)) (here path)
          ∙ sym (or_else_assoc (file_at path es) (entry_at path e) _)),
    )

copy_index_slash :
    (cache : EmbeddedCache)
    → get Bytes-discrete (codes "/") (copy_index cache)
      ≡ or_else
          (get Bytes-discrete (codes "/index.html") cache)
          (get Bytes-discrete (codes "/") cache)
unfolding copy_index
copy_index_slash cache = elim (Option-cases (get Bytes-discrete (codes "/index.html") cache)) [
  | inl x ↦ rw (x, copy_index)
  | inr (bs, x) ↦ rw (x, copy_index) (get-set_self Bytes-discrete (codes "/") bs cache)
]

copy_index_lem :
    (cache : EmbeddedCache) (path : Bytes)
    → path ≢ codes "/"
    → get Bytes-discrete path (copy_index cache) ≡ get Bytes-discrete path cache
unfolding copy_index
copy_index_lem cache path n = elim (Option-cases (get Bytes-discrete (codes "/index.html") cache)) [
  | inl x ↦ rw (x, copy_index)
  | inr (bs, x) ↦ rw (x, copy_index) (get-set_ne Bytes-discrete path (codes "/") bs cache n)
]

get_nothing : (path : Bytes) → get {V = Bytes} Bytes-discrete path [] ≡ none
unfolding get
get_nothing path = refl

decide_no : {P : Type 0} (d : Dec P) → decide d ≡ false → ¬ P
unfolding decide
decide_no (yes p) e = absurd (ground (arith, e))
decide_no (no n) e = n

entry_at-config_name : (e : Entry) → entry_at (b'/' ∷ config_name) e ≡ none
unfolding entry_at
entry_at-config_name e =
    elim (Bool-cases (e.is_dir || decide (Bytes-discrete e.name config_name))) [
      | inl x ↦ rw (x, entry_at)
      | inr x ↦
          let other : decide (Bytes-discrete e.name config_name) ≡ false = ground (arith, x) in
          rw (x, entry_at)
            (if_neg (Bytes-discrete (b'/' ∷ config_name) (b'/' ∷ e.name))
              (λ p. decide_no (Bytes-discrete e.name config_name) other (sym (ap (drop 1) p))) _
              none)
    ]

file_at-config_name : (dir : List Entry) → file_at (b'/' ∷ config_name) dir ≡ none
unfolding file_at
file_at-config_name [] = refl
file_at-config_name (e ∷ es) = rw (file_at-config_name es) (entry_at-config_name e)

-- When the files of the directory can be read, the cache has under every path but / what the file
-- of this name contains, its line feeds and tabs left out if the name ends in .html, and nothing for a path with no file; under / it has
-- the index, if there is one. The configuration is not served.
pub generate_embedded_cache_lem :
    (dir : List Entry)
    → All IsReadable dir
    → (cache : EmbeddedCache) × (generate_embedded_cache (some dir) ≡ some cache)
      × ((path : Bytes) → path ≢ codes "/" → get Bytes-discrete path cache ≡ file_at path dir)
      × (get Bytes-discrete (codes "/") cache
          ≡ or_else (file_at (codes "/index.html") dir) (file_at (codes "/") dir))
      × (get Bytes-discrete (b'/' ∷ config_name) cache ≡ none)
unfolding generate_embedded_cache
generate_embedded_cache_lem dir h =
    let (cache, made, look') = populate_lem dir [] h in
    let look : (path : Bytes) → get Bytes-discrete path cache ≡ file_at path dir = λ path.
      look' path
      ∙ ap (or_else (file_at path dir)) (get_nothing path)
      ∙ or_else-none (file_at path dir) in
    (
      copy_index cache,
      rw (made, generate_embedded_cache),
      (λ path n. copy_index_lem cache path n ∙ look path),
      copy_index_slash cache
          ∙ ap (λ a. or_else a (get Bytes-discrete (codes "/") cache)) (look (codes "/index.html"))
          ∙ ap (or_else (file_at (codes "/index.html") dir)) (look (codes "/")),
      copy_index_lem cache (b'/' ∷ config_name)
            (λ p. let n : 11 ≡ 1 = ap length p in absurd (omega arith))
          ∙ look (b'/' ∷ config_name)
          ∙ file_at-config_name dir,
    )
