-- ===== src/Scrape/Protocol.antt =====
-- A tracker's answers as BEP 15 lays them out, and what internal/scrape reads in them.
use mathlib.Core.List.{append_assoc}
use revolution.Prelude.{
  ℕ, zero, suc, ◌+◌, ◌*◌, ◌^◌, ◌≤◌, ◌<◌, ◌≡◌, refl, sym, ap, ◌∙◌, Text, text_eq, true, false, List,
  [], ◌∷◌, ◌++◌, ltb, take, drop, length, length-append, lt→ltb, arith, All,
}
use revolution.Scrape.Wire.{Bytes, put32, get32, get64, get32-put32}
use revolution.Scrape.{
  Stats, Result, ok, ◌>>=◌, Exchange, datagram, Conn, receive, check_head, connect, connect_request,
  raw_hashes, put_stats, stats_at, read_entries, scrape_request, do_scrape, action_connect,
  action_scrape,
}

-- An answer as BEP 15 lays it out.
abbrev pub entry_bytes : Stats → Bytes
entry_bytes s = put32 s.seeders ++ (put32 s.completed ++ put32 s.leechers)

abbrev pub body : List Stats → Bytes
body [] = []
body (s ∷ ss) = entry_bytes s ++ body ss

abbrev pub answer : ℕ → List Stats → Bytes
answer tx ss = put32 action_scrape ++ (put32 tx ++ body ss)

abbrev pub Fits32 : Stats → Type 0
Fits32 s = (s.seeders < 2 ^ 32) × (s.completed < 2 ^ 32) × (s.leechers < 2 ^ 32)

-- The table of the hashes with the counts at the same place, for as many as both lists have.
abbrev pub pair_up : List Text → List Stats → List (Text × Stats) → List (Text × Stats)
pair_up [] ss out = out
pair_up (h ∷ hs) [] out = out
pair_up (h ∷ hs) (s ∷ ss) out = pair_up hs ss (put_stats h s out)

drop-append : (pre rest : Bytes) (n k : ℕ) → n ≡ length pre + k → drop n (pre ++ rest) ≡ drop k rest
drop-append [] rest n k h = ap (λ (m : ℕ). drop m rest) (omega arith)
drop-append (x ∷ pre) rest zero k h = absurd (omega arith)
drop-append (x ∷ pre) rest (suc n) k h = drop-append pre rest n k (omega arith)

length-entry_bytes : (s : Stats) → length (entry_bytes s) ≡ 12
unfolding put32
length-entry_bytes s = refl

module _ (pre rest : Bytes) (s : Stats) (offset : ℕ) (at : offset ≡ length pre) (f : Fits32 s) where
  seeders_at : get32 (drop offset (pre ++ (entry_bytes s ++ rest))) ≡ s.seeders
  seeders_at =
      ap get32 (drop-append pre _ offset 0 (omega arith))
      ∙ ap get32 (append_assoc (put32 s.seeders) _ rest)
      ∙ get32-put32 s.seeders _ f.0

  completed_at : get32 (drop (offset + 4) (pre ++ (entry_bytes s ++ rest))) ≡ s.completed
  unfolding put32
  completed_at =
      ap get32 (drop-append pre _ (offset + 4) 4 (omega arith))
      ∙ ap get32 (append_assoc (put32 s.completed) (put32 s.leechers) rest)
      ∙ get32-put32 s.completed _ f.1

  leechers_at : get32 (drop (offset + 8) (pre ++ (entry_bytes s ++ rest))) ≡ s.leechers
  unfolding put32
  leechers_at =
      ap get32 (drop-append pre _ (offset + 8) 8 (omega arith)) ∙ get32-put32 s.leechers rest f.2

  stats_at-entry : stats_at offset (pre ++ (entry_bytes s ++ rest)) ≡ s
  stats_at-entry =
      λ i. record { seeders = seeders_at i; completed = completed_at i; leechers = leechers_at i }

read_entries_step :
    (k : Text) (hs : List Text) (i : ℕ) (resp : Bytes) (out : List (Text × Stats))
    → ltb (length resp) (8 + 12 * i + 12) ≡ false
    → read_entries (k ∷ hs) i resp out
      ≡ read_entries hs (i + 1) resp (put_stats k (stats_at (8 + 12 * i) resp) out)
unfolding read_entries
read_entries_step k hs i resp out h = rw (h, read_entries)

read_entries-body :
    (hs : List Text) (ss : List Stats) (i : ℕ) (pre : Bytes) (out : List (Text × Stats))
    → length pre ≡ 8 + 12 * i
    → All Fits32 ss
    → read_entries hs i (pre ++ body ss) out ≡ pair_up hs ss out
read_entries-body [] ss i pre out h f = unfold read_entries in refl
read_entries-body (k ∷ hs) [] i pre out h f =
    let short : ltb (length (pre ++ [])) (8 + 12 * i + 12) ≡ true =
      lt→ltb _ _ (omega (arith, length-append pre [])) in
    unfold read_entries in rw short
read_entries-body (k ∷ hs) (s ∷ ss) i pre out h f =
    let rest = body ss in
    let long : ltb (length (pre ++ (entry_bytes s ++ rest))) (8 + 12 * i + 12) ≡ false = ground (
      arith,
      length-append pre (entry_bytes s ++ rest),
      length-append (entry_bytes s) rest,
      length-entry_bytes s,
    ) in
    let again =
      read_entries-body hs ss (i + 1) (pre ++ entry_bytes s) (put_stats k s out)
        (omega (arith, length-append pre (entry_bytes s), length-entry_bytes s)) f.1 in
    rw (read_entries_step k hs i _ out long) (
      rw (stats_at-entry pre rest s (8 + 12 * i) (omega arith) f.0)
        (rw (append_assoc pre (entry_bytes s) rest) at again))

length-answer : (tx : ℕ) (ss : List Stats) → length (answer tx ss) ≡ 8 + length (body ss)
unfolding put32
length-answer tx ss = omega arith

length-body : (ss : List Stats) → length (body ss) ≡ 12 * length ss
length-body [] = refl
length-body (s ∷ ss) =
    omega (arith, length-append (entry_bytes s) (body ss), length-entry_bytes s, length-body ss)

take-all : (n : ℕ) (bs : Bytes) → length bs ≤ n → take n bs ≡ bs
take-all zero [] h = refl
take-all zero (b ∷ bs) h = absurd (omega arith)
take-all (suc n) [] h = refl
take-all (suc n) (b ∷ bs) h = ap (◌∷◌ b) (take-all n bs (omega arith))

answer-checked :
    (tx : ℕ) (ss : List Stats)
    → tx < 2 ^ 32
    → check_head 8 action_scrape tx (answer tx ss) ≡ ok (answer tx ss)
unfolding put32
answer-checked tx ss h = ground (
  arith,
  length-answer tx ss,
  get32-put32 action_scrape (put32 tx ++ body ss) (omega arith),
  get32-put32 tx (body ss) h,
  drop-append (put32 action_scrape) (put32 tx ++ body ss) 4 0 (omega arith),
)

entries :
    (tx : ℕ) (hashes : List Text) (ss : List Stats)
    → All Fits32 ss
    → read_entries hashes 0 (answer tx ss) [] ≡ pair_up hashes ss []
unfolding put32
entries tx hashes ss fits =
    ap (λ (resp : Bytes). read_entries hashes 0 resp [])
      (sym (append_assoc (put32 action_scrape) (put32 tx) (body ss)))
    ∙ read_entries-body hashes ss 0 (put32 action_scrape ++ put32 tx) [] (omega arith) fits

-- Where the tracker answers a scrape of well-formed hashes as BEP 15 says, with the transaction of
-- the request and counts for the first hashes, no more of them than asked, the result has for each
-- of those hashes the counts at its place, the last where a hash is there twice.
pub do_scrape-answer :
    (tx conn_id : ℕ) (conn : Conn) (hashes : List Text) (raw : Bytes) (ss : List Stats)
    → tx < 2 ^ 32
    → raw_hashes hashes ≡ ok raw
    → conn (scrape_request conn_id tx raw) ≡ datagram (answer tx ss)
    → length ss ≤ length hashes
    → All Fits32 ss
    → do_scrape tx conn conn_id hashes ≡ ok (pair_up hashes ss [])
unfolding do_scrape
do_scrape-answer tx conn_id conn hashes raw ss small good sent few fits =
    let room : length (answer tx ss) ≤ 8 + 12 * length hashes =
      omega (arith, length-answer tx ss, length-body ss) in
    rw good (
      rw sent (
        rw (take-all _ (answer tx ss) room)
          (rw (answer-checked tx ss small) (ap ok (entries tx hashes ss fits)))))

-- What `connect` makes of what the socket gives.
abbrev connected : ℕ → Exchange → Result ℕ
connected tx e = receive 16 e >>= λ resp.
    check_head 16 action_connect tx resp >>= λ head. ok (get64 (drop 8 head))

-- The first sixteen bytes of the datagram are an answer to this request, with this id.
abbrev pub Answers : ℕ → ℕ → Bytes → Type 0
Answers tx id bytes =
    (16 ≤ length bytes)
    × (get32 bytes ≡ action_connect)
    × (get32 (drop 4 bytes) ≡ tx)
    × (get64 (drop 8 bytes) ≡ id)

checked :
    (tx id : ℕ) (resp : Bytes)
    → (check_head 16 action_connect tx resp >>= λ head. ok (get64 (drop 8 head))) ≡ ok id
    → Answers tx id resp
checked tx id resp h = ground arith

connected-eq-ok :
    (tx id : ℕ) (e : Exchange)
    → connected tx e ≡ ok id
    → (d : Bytes) × (e ≡ datagram d) × Answers tx id (take 16 d)
connected-eq-ok tx id (datagram d) h = (d, refl, checked tx id (take 16 d) h)
connected-eq-ok tx id _ h = cc

-- `connect` returns an id only from a datagram of 16 bytes or more whose head is the action and the
-- transaction of the request, and the id is the eight bytes behind them.
pub connect-eq-ok :
    (tx : ℕ) (conn : Conn) (id : ℕ)
    → connect tx conn ≡ ok id
    → (d : Bytes) × (conn (connect_request tx) ≡ datagram d) × Answers tx id (take 16 d)
unfolding connect
connect-eq-ok tx conn id h = connected-eq-ok tx id (conn (connect_request tx)) h

-- Such an answer to the request is accepted, with its id.
pub connect_total :
    (tx id : ℕ) (conn : Conn) (d : Bytes)
    → conn (connect_request tx) ≡ datagram d
    → Answers tx id (take 16 d)
    → connect tx conn ≡ ok id
unfolding connect
connect_total tx id conn d sent a = rw sent (ground (arith, a))
