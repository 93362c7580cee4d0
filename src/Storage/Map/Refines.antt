-- ===== src/Storage/Map/Refines.antt =====
-- The database behaves as the map, whatever calls are made.
use trakx.Common.{◌≡◌, refl, ap, ◌∙◌, fun_ext, Bool, List, [], ◌∷◌}
use trakx.Storage.Memory.{Store}
use trakx.Storage.Memory.Counts.{IsValid, save-IsValid, drop-IsValid}
use trakx.Storage.Memory.Lookup.{peer_of-save, peer_of-drop}
use trakx.Storage.Memory.Sums.{peer_of}
use trakx.Storage.Trim.Outer.{trim-IsSwept}
use trakx.Storage.Map.{
  Call, save_peer, drop_peer, trim_all, call, calls, Contents, specified, all_specified,
}
use trakx.Storage.Map.Swept.{peer_of-trim}

abbrev pub contents : Store → Contents
contents s = λ h i. peer_of h i s.hashmap

module _ (fast : Bool) where
  call-IsValid : (c : Call) (s : Store) → IsValid s.hashmap → IsValid (call fast c s).hashmap
  unfolding call
  call-IsValid (save_peer recycled now ip port complete hash id) s v =
      save-IsValid fast recycled now ip port complete hash id s v
  call-IsValid (drop_peer hash id) s v = drop-IsValid fast hash id s v
  call-IsValid (trim_all now timeout) s v = (trim-IsSwept fast now timeout s v).valid

  contents-call :
      (c : Call) (s : Store)
      → IsValid s.hashmap
      → contents (call fast c s) ≡ specified c (contents s)
  unfolding call specified
  contents-call (save_peer recycled now ip port complete hash id) s v =
      fun_ext (λ h. fun_ext (λ i. peer_of-save fast hash id s recycled now ip port complete h i))
  contents-call (drop_peer hash id) s v =
      fun_ext (λ h. fun_ext (λ i. peer_of-drop fast hash id s h i v))
  contents-call (trim_all now timeout) s v =
      fun_ext (λ h. fun_ext (λ i. peer_of-trim fast now timeout h i s v))

  -- Whatever calls of Save, Drop and trim are made one after the other on a valid database, what it
  -- holds is what the same calls make of a map from hashes and peer ids to peers: a save writes one
  -- entry, whatever the pool handed out, a drop removes one, and a trim removes those that have
  -- expired. The database stays valid.
  pub contents-calls :
      (cs : List Call) (s : Store)
      → IsValid s.hashmap
      → (contents (calls fast cs s) ≡ all_specified cs (contents s))
        × IsValid (calls fast cs s).hashmap
  unfolding calls all_specified
  contents-calls [] s v = (refl, v)
  contents-calls (c ∷ cs) s v =
      let (same, valid) = contents-calls cs (call fast c s) (call-IsValid c s v) in
      (same ∙ ap (all_specified cs) (contents-call c s v), valid)
