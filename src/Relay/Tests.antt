-- ===== src/Relay/Tests.antt =====
-- Sessions of one client at concrete inputs.
use reflex.Prelude.{◌≡◌, ◌≢◌, refl, none, some, true, false, [], ◌∷◌, ◌++◌, replicate, arith}
use reflex.Prelude.Bytes.{Bytes, codes, uint_from, bytes_eq}
use reflex.Prelude.Keys.{mem, delete}
use reflex.Prelude.Result.{ok}
use reflex.Io.{eof, read_full}
use reflex.Crypto.Sample.{sample}
use reflex.Replay.{remember}
use reflex.Profile.Sample.{zeros}
use reflex.Session.{make_nonce, read_frame}
use reflex.Session.Stream.{read_frames}
use reflex.Relay.{Destination, parse_destination, Link, Relay, session_loop, handle_session}
use reflex.Relay.Parsing.{encode_destination, parse_destination-encode}
use reflex.Relay.Delivery.{upload, payloads, session_loop-upload}
use reflex.Relay.Ends.{handle_session-ends}

abbrev dest : Destination
dest = record { address = codes "example.org"; port = 443 }

parse_destination-encode_example :
    parse_destination (encode_destination dest ++ codes "GET") ≡ ok (dest, codes "GET")
parse_destination-encode_example =
    parse_destination-encode dest (codes "GET") (omega arith) (omega arith)

abbrev first : Bytes
first = (11 ∷ codes "example.org") ++ (1 ∷ 187 ∷ codes "GET")

first_parsed : parse_destination first ≡ ok (dest, codes "GET")
unfolding parse_destination uint_from
first_parsed = refl

abbrev link : Link
link = record { dest = dest; delivered = []; accepts = 10; closed = false }

-- A data frame with "hello", an empty one, and a close frame.
abbrev relay : Relay
relay = record {
  session = record {
    key = replicate 32 7;
    read_nonce = 0;
    write_nonce = 0;
    profile = none;
    replay = record { seen = []; order = [] };
  };
  reader = record {
    pending =
        (0 ∷ 21 ∷ 1 ∷ codes "hello" ++ replicate 16 0)
        ++ (0 ∷ 16 ∷ 1 ∷ replicate 16 0)
        ++ (0 ∷ 17 ∷ 4 ∷ replicate 17 0);
    ends = eof;
  };
  client = record { sent = []; room = 1000 };
  rand = zeros;
  link = some link;
  upstream_err = none;
  forwarding = true;
}

abbrev after : Relay
after = record relay {
  session = (read_frames sample 3 relay.session relay.reader).0;
  reader = record { pending = []; ends = eof };
  link = some (record { dest = dest; delivered = codes "hello" ∷ []; accepts = 9; closed = true });
}

frames_read :
    read_frames sample 3 relay.session relay.reader
    ≡ (after.session, (after.reader, ok (upload (codes "hello" ∷ [] ∷ []) (0 ∷ []))))
unfolding read_frames read_frame read_full remember bytes_eq mem delete make_nonce uint_from upload
frames_read = refl

session_loop-upload_example : session_loop sample (λ d. some link) 3 relay ≡ (after, some (ok tt))
unfolding payloads
session_loop-upload_example =
    session_loop-upload sample (λ d. some link) (codes "hello" ∷ [] ∷ []) (0 ∷ []) 3 relay link
      after.session after.reader refl refl (omega arith) (omega arith) frames_read

handle_session-ends_example :
    (handle_session sample (λ d. some link) (replicate 32 7) (codes "zoom") relay).1 ≢ none
handle_session-ends_example =
    handle_session-ends sample (λ d. some link) (replicate 32 7) (codes "zoom") relay
