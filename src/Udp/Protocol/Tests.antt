-- ===== src/Udp/Protocol/Tests.antt =====
-- Runs of the wire formats, and the theorems at concrete inputs.
use trakx.Common.{map, ◌≡◌, refl, [], ◌∷◌, ◌++◌, arith, replicate, length}
use trakx.Common.Bytes.{Bytes, be}
use trakx.Common.Outcome.{ok, ◌>>=◌}
use trakx.Udp.Protocol.Types.{
  event_started, action_announce, action_connect, action_scrape, action_error,
}
use trakx.Udp.Protocol.Connect
use trakx.Udp.Protocol.Connect.{Connect, ConnectResp, udp_tracker_magic}
use trakx.Udp.Protocol.Announce
use trakx.Udp.Protocol.Announce.{Announce, AnnounceResp}
use trakx.Udp.Protocol.Scrape
use trakx.Udp.Protocol.Scrape.{Scrape, ScrapeInfo, ScrapeResp}
use trakx.Udp.Protocol.Error.{ErrorResp}
use trakx.Udp.Protocol.RoundTrip.{unmarshall-marshall}
use trakx.Udp.Protocol.ScrapeWire.{
  request, response, exchanged, unmarshall-request, marshall_resp_zeros,
}

abbrev started : Announce
started = record {
  connection_id = 0xdead_beef;
  action = action_announce;
  transaction_id = 7;
  info_hash = replicate 20 b'h';
  peer_id = replicate 20 b'p';
  downloaded = 1;
  left = 2;
  uploaded = 3;
  event = event_started;
  ip = 0;
  key = 0xff;
  num_want = 0xffff_ffff;
  port = 6881;
}

abbrev blank : Announce
blank = record started { connection_id = 0; port = 0 }

abbrev connect : Connect
connect = record { protocol_id = udp_tracker_magic; action = action_connect; transaction_id = 7 }

-- One hash: 20 zero bytes, then the response of 20 bytes.
abbrev scraped : ScrapeResp
scraped = record {
  action = action_scrape;
  transaction_id = 7;
  info = (record { complete = 5; incomplete = 6; downloaded = 0xffff_ffff }) ∷ [];
}

scrape_run :
    Scrape.marshall_resp scraped
    ≡ ok (
        replicate 20 0
        ++ (0 ∷ 0 ∷ 0 ∷ 2 ∷ 0 ∷ 0 ∷ 0 ∷ 7 ∷ 0 ∷ 0 ∷ 0 ∷ 5 ∷ 0 ∷ 0 ∷ 0 ∷ 6 ∷ 255 ∷ 255 ∷ 255 ∷ 255
            ∷ []))
unfolding Scrape.marshall_resp be
scrape_run = refl

connect_run :
    Connect.marshall connect
    ≡ ok (0 ∷ 0 ∷ 4 ∷ 23 ∷ 39 ∷ 16 ∷ 25 ∷ 128 ∷ 0 ∷ 0 ∷ 0 ∷ 0 ∷ 0 ∷ 0 ∷ 0 ∷ 7 ∷ [])
unfolding Connect.marshall be
connect_run = refl

unmarshall-marshall_example :
    (Announce.marshall started >>= λ b. Announce.unmarshall blank (b ++ (2 ∷ 4 ∷ []))) ≡ ok started
unmarshall-marshall_example = unmarshall-marshall started blank (2 ∷ 4 ∷ []) (omega arith)

abbrev connected : ConnectResp
connected = record { action = action_connect; transaction_id = 7; connection_id = 99 }

abbrev refused : ErrorResp
refused = record { action = action_error; transaction_id = 7; error_string = b'n' ∷ b'o' ∷ [] }

abbrev answered : AnnounceResp
answered = record {
  action = action_announce;
  transaction_id = 7;
  interval = 1800;
  leechers = 1;
  seeders = 2;
  peers = 10 ∷ 0 ∷ 0 ∷ 1 ∷ 26 ∷ 225 ∷ [];
}

abbrev asked : Scrape
asked = record {
  connection_id = 99;
  action = action_scrape;
  transaction_id = 7;
  info_hashes = replicate 20 b'h' ∷ replicate 20 b'i' ∷ [];
}

unmarshall-request_example : Scrape.unmarshall (request asked (1 ∷ 2 ∷ [])) ≡ ok asked
unmarshall-request_example =
    unmarshall-request asked (1 ∷ 2 ∷ []) (omega arith) (omega arith) (omega arith)
      (refl, (refl, tt)) (omega arith)

abbrev sent : Bytes
sent = response scraped.action scraped.transaction_id (map exchanged scraped.info)

marshall_resp_zeros_example : Scrape.marshall_resp scraped ≡ ok (replicate (length sent) 0 ++ sent)
marshall_resp_zeros_example = marshall_resp_zeros scraped
