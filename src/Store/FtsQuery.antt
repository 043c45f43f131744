-- ===== src/Store/FtsQuery.antt =====
-- internal/store/torrents.go, `ftsQuery`: a search as typed becomes a query of quoted prefixes.
pub mod Read
use revolution.Prelude.{ℕ, Text, Bool, ◌||◌, ◌==◌, List, [], ◌∷◌, ◌++◌, if◌then◌else◌}

abbrev pub quote : ℕ
quote = b'"'

abbrev pub is_separator : ℕ → Bool
is_separator r = r == b' ' || r == 9 || r == 10

-- `if out != "" { out += " " }`
abbrev pub spaced : Text → Text
spaced [] = []
spaced (c ∷ cs) = c ∷ cs ++ b' ' ∷ []

-- `"` + word + `"*`
abbrev pub phrase : Text → Text
phrase word = quote ∷ word ++ quote ∷ b'*' ∷ []

-- The variables `out` and `word` after `flush`.
abbrev pub flush : Text → Text → Text × Text
flush out [] = (out, [])
flush out (c ∷ cs) = (spaced out ++ phrase (c ∷ cs), [])

-- The loop over the runes, with the last `flush`; its result is `out`.
unfoldable pub scan : Text → Text → Text → Text
scan [] out word = (flush out word).0
scan (r ∷ rs) out word =
    let same = scan rs out word in
    let (flushed, fresh) = flush out word in
    let next = scan rs flushed fresh in
    let longer = scan rs out (word ++ r ∷ []) in
    if r == quote then same else if is_separator r then next else longer

abbrev pub or_empty_phrase : Text → Text
or_empty_phrase [] = quote ∷ quote ∷ []
or_empty_phrase (c ∷ cs) = c ∷ cs

unfoldable pub fts_query : Text → Text
unfolding scan
fts_query q = or_empty_phrase (scan q [] [])
