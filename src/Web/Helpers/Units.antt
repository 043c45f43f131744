-- ===== src/Web/Helpers/Units.antt =====
-- The unit in which a size is shown.
use revolution.Prelude.{
  ℕ, ◌^◌, ◌≤◌, ◌<◌, ◌≡◌, ap, ◌∙◌, pos, codes, Option, none, some, ltb, arith, if◌then◌else◌,
}
use revolution.Store.Db.{Torrent}
use revolution.Nostr.External.{External}
use revolution.Nostr.Nip35.{Event, parse_torrent}
use revolution.Nostr.Tags.{parsed}
use revolution.Nostr.Nip35.Sizes.{total, parse_torrent-size}
use revolution.Web.Helpers.{Label, in_units, scale, human_size}

-- The label by the thresholds of the units.
abbrev pub by_threshold : ℕ → Option Label
by_threshold n =
    if ltb n (2 ^ 20)
    then some (in_units n (2 ^ 10) (codes "Ko"))
    else if ltb n (2 ^ 30)
    then some (in_units n (2 ^ 20) (codes "Mo"))
    else if ltb n (2 ^ 40)
    then some (in_units n (2 ^ 30) (codes "Go"))
    else if ltb n (2 ^ 50)
    then some (in_units n (2 ^ 40) (codes "To"))
    else if ltb n (2 ^ 60)
    then some (in_units n (2 ^ 50) (codes "Po"))
    else none

-- A size of at least 1024 bytes is shown in the unit of its range, from kibibytes to pebibytes, as
-- its quotient by that unit; from 2^60 bytes on `humanSize` indexes its units out of range and panics.
pub human_size-units : (n : ℕ) → 1024 ≤ n → n < 2 ^ 63 → human_size (pos n) ≡ by_threshold n
unfolding human_size scale
human_size-units n lo hi = ground arith

-- A torrent whose files take 2^60 bytes or more in all, and less than 2^63, is accepted by
-- `ParseTorrent` with a size for which `humanSize` panics.
pub human_size-parse_torrent :
    (x : External) (evt : Event) (t : Torrent)
    → parse_torrent x evt ≡ parsed t
    → 2 ^ 60 ≤ total t.files
    → total t.files < 2 ^ 63
    → human_size t.size_bytes ≡ none
human_size-parse_torrent x evt t h lo hi =
    let exact : t.size_bytes ≡ pos (total t.files) = parse_torrent-size x evt t h ∙ ground arith in
    ap human_size exact ∙ human_size-units (total t.files) (omega arith) hi ∙ ground arith
