-- ===== src/Scrape.antt =====
-- internal/scrape/scrape.go: the UDP tracker protocol of BEP 15. The socket is a parameter: what
-- comes back for each request, by the number of the round.
pub mod Wire
pub mod Protocol
use revolution.Prelude.{
  ℕ, ◌+◌, ◌*◌, Text, codes, eq_text, text_eq, is_empty, Bool, true, false, not, ◌&&◌, ◌||◌, Option,
  none, some, List, [], ◌∷◌, ◌++◌, ltb, ◌==◌, if◌then◌else◌, take, drop, length,
}
use revolution.Store.Table.{upsert}
use revolution.Nostr.External.{Url}
use revolution.Scrape.Wire.{Bytes, put32, put64, get32, get64, decode_hex}

pub record Stats : Type 0 where
  pub seeders : ℕ
  pub completed : ℕ
  pub leechers : ℕ

abbrev pub protocol_magic : ℕ
protocol_magic = 0x41727101980

abbrev pub action_connect : ℕ
action_connect = 0

abbrev pub action_scrape : ℕ
action_scrape = 2

abbrev pub max_info_hashes_per_request : ℕ
max_info_hashes_per_request = 74

pub data ScrapeError : Type 0 where
  not_udp no_connection write_failed read_failed too_short : ScrapeError
  unexpected_action wrong_transaction info_hash_invalid : ScrapeError

pub data Result {ℓ} (A : Type ℓ) : Type ℓ where
  ok : A → Result A
  err : ScrapeError → Result A

infixl 5 ◌>>=◌
abbrev pub ◌>>=◌ {ℓ κ} : {A : Type ℓ} {B : Type κ} → Result A → (A → Result B) → Result B
ok a >>= f = f a
err e >>= f = err e

-- What a write of the request and the read after it give.
pub data Exchange : Type 0 where
  no_write no_read : Exchange
  datagram : Bytes → Exchange

abbrev pub Conn : Type 0
Conn = Bytes → Exchange

-- `n, err := conn.Read(resp)` with room for `size` bytes: the rest of the datagram is lost.
abbrev pub receive : ℕ → Exchange → Result Bytes
receive size no_write = err write_failed
receive size no_read = err read_failed
receive size (datagram bytes) = ok (take size bytes)

-- The checks on the head of a reply.
abbrev pub check_head : ℕ → ℕ → ℕ → Bytes → Result Bytes
check_head least action tx resp =
    if ltb (length resp) least
    then err too_short
    else if not (get32 resp == action)
    then err unexpected_action
    else if not (get32 (drop 4 resp) == tx)
    then err wrong_transaction
    else ok resp

unfoldable pub connect_request : ℕ → Bytes
connect_request tx = put64 protocol_magic ++ (put32 action_connect ++ put32 tx)

unfoldable pub connect : ℕ → Conn → Result ℕ
unfolding connect_request
connect tx conn = do
  resp ← receive 16 (conn (connect_request tx))
  head ← check_head 16 action_connect tx resp
  ok (get64 (drop 8 head))

abbrev pub raw_hash : Option Bytes → Result Bytes
raw_hash none = err info_hash_invalid
raw_hash (some raw) = if length raw == 20 then ok raw else err info_hash_invalid

unfoldable pub raw_hashes : List Text → Result Bytes
raw_hashes [] = ok []
raw_hashes (h ∷ hs) = do raw ← raw_hash (decode_hex h); rest ← raw_hashes hs; ok (raw ++ rest)

abbrev pub stats_key : Text × Stats → Text
stats_key p = p.0

-- out[ihHex] = Stats{…}
abbrev pub put_stats : Text → Stats → List (Text × Stats) → List (Text × Stats)
put_stats h s = upsert stats_key (h, s) (λ _. (h, s))

abbrev pub stats_at : ℕ → Bytes → Stats
stats_at offset resp = record {
  seeders = get32 (drop offset resp);
  completed = get32 (drop (offset + 4) resp);
  leechers = get32 (drop (offset + 8) resp);
}

-- The loop over the hashes from index `i`; it stops where the reply has no full entry.
unfoldable pub read_entries : List Text → ℕ → Bytes → List (Text × Stats) → List (Text × Stats)
read_entries [] i resp out = out
read_entries (h ∷ hs) i resp out =
    let offset = 8 + 12 * i in
    let more = read_entries hs (i + 1) resp (put_stats h (stats_at offset resp) out) in
    if ltb (length resp) (offset + 12) then out else more

unfoldable pub scrape_request : ℕ → ℕ → Bytes → Bytes
scrape_request conn_id tx raw = put64 conn_id ++ (put32 action_scrape ++ (put32 tx ++ raw))

unfoldable pub do_scrape : ℕ → Conn → ℕ → List Text → Result (List (Text × Stats))
unfolding raw_hashes scrape_request
do_scrape tx conn conn_id hashes = do
  raw ← raw_hashes hashes
  resp ← receive (8 + 12 * length hashes) (conn (scrape_request conn_id tx raw))
  head ← check_head 8 action_scrape tx resp
  ok (read_entries hashes 0 head [])

-- `net.ResolveUDPAddr`, `net.DialUDP` and `SetDeadline` give a socket for a host, or fail.
abbrev pub Dial : Type 0
Dial = Text → Option (ℕ → Conn)

abbrev pub talk : ℕ → ℕ → List Text → Option (ℕ → Conn) → Result (List (Text × Stats))
talk tx tx' hashes none = err no_connection
talk tx tx' hashes (some conn) = do
  conn_id ← connect tx (conn 0)
  do_scrape tx' (conn 1) conn_id hashes

abbrev pub udp_host : Option Url → Option Text
udp_host none = none
udp_host (some u) =
    if eq_text u.scheme (codes "udp") && not (is_empty u.host) then some u.host else none

abbrev pub scrape_host : Dial → ℕ → ℕ → List Text → Option Text → Result (List (Text × Stats))
scrape_host dial tx tx' hashes none = err not_udp
scrape_host dial tx tx' [] (some host) = ok []
scrape_host dial tx tx' (h ∷ hs) (some host) =
    talk tx tx' (take max_info_hashes_per_request (h ∷ hs)) (dial host)

-- `tx` and `tx'` are the two random transaction ids.
unfoldable pub scrape :
    (Text → Option Url) → Dial → ℕ → ℕ → Text → List Text → Result (List (Text × Stats))
scrape parse_url dial tx tx' tracker hashes =
    scrape_host dial tx tx' hashes (udp_host (parse_url tracker))
