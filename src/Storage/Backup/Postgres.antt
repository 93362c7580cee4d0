-- ===== src/Storage/Backup/Postgres.antt =====
-- `Save` of a `PgBackup` on every database.
use trakx.Common.{
  ℕ, suc, ◌+◌, ◌≤◌, ◌≡◌, refl, ap, ◌∙◌, subst, true, false, ◌&&◌, [], ◌∷◌, All, length,
  length-append, ltb, le→ltb, ◌==◌, if◌then◌else◌, arith,
}
use trakx.Common.Bytes.{Bytes}
use trakx.Common.Outcome.{ok, panic}
use trakx.Storage.Memory.{HashMap, PeerMap}
use trakx.Storage.Binary.{encode_binary, encode_hash, encode_hashes}
use trakx.Storage.Binary.Entries.{IsStorable}
use trakx.Storage.Backup.{SqlDb, head_of, inserted, save_pg}

length-encode_hashes_cons :
    (hash : Bytes) (pm : PeerMap) (m : HashMap)
    → length hash ≡ 20
    → 20 ≤ length (encode_hashes ((hash, pm) ∷ m))
unfolding encode_hashes encode_hash
length-encode_hashes_cons hash pm m h = simp length-append (omega (arith, h))

head_of-encode_hashes :
    (m : HashMap) (room : ℕ)
    → All IsStorable m
    → head_of room (encode_hashes m) ≡ (if (length m == 0) && ltb room 20 then panic else ok tt)
unfolding head_of
head_of-encode_hashes [] room s =
    let room' : 0 + room ≡ room = omega arith in unfold encode_hashes in rw room' refl
head_of-encode_hashes ((hash, pm) ∷ m) room (h, s) =
    let long : ltb (length (encode_hashes ((hash, pm) ∷ m)) + room) 20 ≡ false =
      le→ltb _ _ (omega (arith, length-encode_hashes_cons hash pm m h.hash)) in
    let some_hash : (suc (length m) == 0) ≡ false = ground arith in
    rw (long, head_of) (rw some_hash refl)

-- When the row is inserted, Save succeeds on a database with a hash, whose hashes and ids have 20 bytes,
-- whose addresses are of IPv4 or of IPv6 without a zone, and whose ports, times and numbers of peers fit
-- their widths. On an empty one it panics behind the insertion, if the encoder has left less than
-- 20 bytes of room.
pub save_pg-insert :
    (pg : SqlDb) (m : HashMap) (room : ℕ) {w w' : pg.World} {encoded : Bytes}
    → All IsStorable m
    → encode_binary m ≡ ok encoded
    → pg.insert encoded w ≡ (w', true)
    → save_pg pg m room w ≡ (w', (if (length m == 0) && ltb room 20 then panic else ok tt))
unfolding save_pg
save_pg-insert pg m room {w} {w'} {encoded} s e i =
    let same : encode_hashes m ≡ encoded = unfold encode_binary in ground (arith, e) in
    let logged : head_of room encoded ≡ (if (length m == 0) && ltb room 20 then panic else ok tt) =
      subst (λ b. head_of room b ≡ (if (length m == 0) && ltb room 20 then panic else ok tt)) same
        (head_of-encode_hashes m room s) in
    rw (e, save_pg) (ap (inserted pg encoded room) i ∙ ap (λ r. (w', r)) logged)
