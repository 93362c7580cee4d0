-- ===== src/Udp/Protocol/RoundTrip.antt =====
-- What one side of the UDP protocol marshalls, the other side reads back.
use trakx.Common.{◌+◌, ◌≡◌, refl, ◌∙◌, [], ◌++◌, length, length-append, arith, append_assoc}
use trakx.Common.Bytes.{Bytes, be, length-be}
use trakx.Common.Outcome.{ok, ◌>>=◌, read-append, read_last, read_be-be, read_be-be_last}
use trakx.Udp.Protocol.Types.{IsU16, IsU32, IsU64}
use trakx.Udp.Protocol.Connect
use trakx.Udp.Protocol.Connect.{Connect, ConnectResp}
use trakx.Udp.Protocol.Announce
use trakx.Udp.Protocol.Announce.{Announce, AnnounceResp}
use trakx.Udp.Protocol.Error
use trakx.Udp.Protocol.Error.{ErrorResp}

pub record IsWellFormed (a : Announce) : Type 0 where
  pub connection_id_fits : IsU64 a.connection_id
  pub action_fits : IsU32 a.action
  pub transaction_id_fits : IsU32 a.transaction_id
  pub hash_length : length a.info_hash ≡ 20
  pub peer_length : length a.peer_id ≡ 20
  pub downloaded_fits : IsU64 a.downloaded
  pub left_fits : IsU64 a.left
  pub uploaded_fits : IsU64 a.uploaded
  pub event_fits : IsU32 a.event
  pub ip_fits : IsU32 a.ip
  pub key_fits : IsU32 a.key
  pub num_want_fits : IsU32 a.num_want
  pub port_fits : IsU16 a.port

abbrev fields : Announce → Bytes
unfolding Announce.marshall
fields a = elim (Announce.marshall a) [ ok b ↦ b | _ ↦ [] ]

length-fields : (a : Announce) → IsWellFormed a → length (fields a) ≡ 98
unfolding fields
length-fields a h = simp (length-append, length-be, h.hash_length, h.peer_length)

decode-fields : (a : Announce) → IsWellFormed a → Announce.decode (fields a) ≡ ok a
unfolding Announce.decode fields
decode-fields a h = simp (
  read_be-be, read_be-be_last, read-append, h.hash_length, h.peer_length, h.connection_id_fits,
  h.action_fits, h.transaction_id_fits, h.downloaded_fits, h.left_fits, h.uploaded_fits,
  h.event_fits, h.ip_fits, h.key_fits, h.num_want_fits, h.port_fits,
)

-- An announce whose fields fit their widths is read back whole, whatever the receiver held and
-- whatever bytes follow it in the datagram.
pub unmarshall-marshall :
    (a fresh : Announce) (rest : Bytes)
    → IsWellFormed a
    → (Announce.marshall a >>= λ b. Announce.unmarshall fresh (b ++ rest)) ≡ ok a
unfolding fields Announce.unmarshall
unmarshall-marshall a fresh rest h =
    rw (read-append 98 (fields a) rest (length-fields a h), Announce.unmarshall)
      (rw (decode-fields a h, Announce.unmarshall))

-- A connect request whose fields fit their widths is read back, whatever bytes follow it.
unmarshall-marshall_connect :
    (c : Connect) (rest : Bytes)
    → IsU64 c.protocol_id
    → IsU32 c.action
    → IsU32 c.transaction_id
    → (Connect.marshall c >>= λ b. Connect.unmarshall (b ++ rest)) ≡ ok c
unfolding Connect.marshall Connect.unmarshall
unmarshall-marshall_connect c rest h1 h2 h3 =
    rw
      (read-append 16 (be 8 c.protocol_id ++ (be 4 c.action ++ be 4 c.transaction_id)) rest
        (simp (length-append, length-be)))
      (simp (read_be-be, read_be-be_last, h1, h2, h3))

-- A connect response whose fields fit their widths is read back, whatever bytes follow it.
unmarshall-marshall_connect_resp :
    (c : ConnectResp) (rest : Bytes)
    → IsU32 c.action
    → IsU32 c.transaction_id
    → IsU64 c.connection_id
    → (Connect.marshall_resp c >>= λ b. Connect.unmarshall_resp (b ++ rest)) ≡ ok c
unfolding Connect.marshall_resp Connect.unmarshall_resp
unmarshall-marshall_connect_resp c rest h1 h2 h3 =
    rw
      (read-append 16 (be 4 c.action ++ (be 4 c.transaction_id ++ be 8 c.connection_id)) rest
        (simp (length-append, length-be)))
      (simp (read_be-be, read_be-be_last, h1, h2, h3))

error_fields : ErrorResp → Bytes
error_fields e = (be 4 e.action ++ be 4 e.transaction_id) ++ e.error_string

length-error_fields : (e : ErrorResp) → length (error_fields e) ≡ 8 + length e.error_string
unfolding error_fields
length-error_fields e = simp (length-append, length-be)

decode-error_fields :
    (e : ErrorResp)
    → IsU32 e.action
    → IsU32 e.transaction_id
    → Error.decode (length e.error_string) (error_fields e) ≡ ok e
unfolding Error.decode error_fields
decode-error_fields e h1 h2 =
    simp (append_assoc, read_be-be, h1, h2)
      (rw (read_last (length e.error_string) e.error_string refl))

-- An error response whose fields fit their widths is read back, its text of any length included.
unmarshall-marshall_error :
    (e : ErrorResp)
    → IsU32 e.action
    → IsU32 e.transaction_id
    → (Error.marshall e >>= Error.unmarshall) ≡ ok e
unmarshall-marshall_error e h1 h2 = marshalled ∙ size ∙ decode-error_fields e h1 h2
  where
    marshalled : (Error.marshall e >>= Error.unmarshall) ≡ Error.unmarshall (error_fields e)
    marshalled = unfold Error.marshall error_fields in refl

    size : Error.unmarshall (error_fields e) ≡ Error.decode (length e.error_string) (error_fields e)
    size = unfold Error.unmarshall in ground (arith, length-error_fields e)

announce_resp_fields : AnnounceResp → Bytes
announce_resp_fields r =
    ((((be 4 r.action ++ be 4 r.transaction_id) ++ be 4 r.interval) ++ be 4 r.leechers)
      ++ be 4 r.seeders)
    ++ r.peers

length-announce_resp_fields :
    (r : AnnounceResp) → length (announce_resp_fields r) ≡ 20 + length r.peers
unfolding announce_resp_fields
length-announce_resp_fields r = simp (length-append, length-be)

decode-announce_resp_fields :
    (r : AnnounceResp)
    → IsU32 r.action
    → IsU32 r.transaction_id
    → IsU32 r.interval
    → IsU32 r.leechers
    → IsU32 r.seeders
    → Announce.decode_resp (length r.peers) (announce_resp_fields r) ≡ ok r
unfolding Announce.decode_resp announce_resp_fields
decode-announce_resp_fields r h1 h2 h3 h4 h5 =
    simp (append_assoc, read_be-be, h1, h2, h3, h4, h5)
      (rw (read_last (length r.peers) r.peers refl))

-- An announce response whose fields fit their widths is read back, its peers included.
pub unmarshall-marshall_announce_resp :
    (r : AnnounceResp)
    → IsU32 r.action
    → IsU32 r.transaction_id
    → IsU32 r.interval
    → IsU32 r.leechers
    → IsU32 r.seeders
    → (Announce.marshall_resp r >>= Announce.unmarshall_resp) ≡ ok r
unmarshall-marshall_announce_resp r h1 h2 h3 h4 h5 =
    marshalled ∙ size ∙ decode-announce_resp_fields r h1 h2 h3 h4 h5
  where
    marshalled :
        (Announce.marshall_resp r >>= Announce.unmarshall_resp)
        ≡ Announce.unmarshall_resp (announce_resp_fields r)
    marshalled = unfold Announce.marshall_resp announce_resp_fields in refl

    size :
        Announce.unmarshall_resp (announce_resp_fields r)
        ≡ Announce.decode_resp (length r.peers) (announce_resp_fields r)
    size = unfold Announce.unmarshall_resp in ground (arith, length-announce_resp_fields r)
