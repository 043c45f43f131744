-- ===== src/Store/FtsQuery/Read.antt =====
-- What SQLite reads in a query of `ftsQuery`, by the FTS5 grammar of strings: a string stands
-- between double quotes, two of them in it are one, and a `*` behind it makes it a prefix.
use revolution.Prelude.{
  ℕ, ◌≡◌, refl, sym, ap, ◌∙◌, Text, Bool, true, false, not, ◌||◌, ◌==◌, Option, none, some, List,
  [], ◌∷◌, ◌++◌, map, if◌then◌else◌, All, All-append, Bool-cases, inl, inr, arith, select,
}
use mathlib.Core.List.{append_assoc, append-nil}
use revolution.Store.FtsQuery.{quote, is_separator, phrase, flush, scan, fts_query, or_empty_phrase}

-- A string of a query, and whether it is a prefix.
abbrev pub Phrase : Type 0
Phrase = Text × Bool

pub data Phase : Type 0 where
  between : Phase
  inside : Text → Phase
  behind : Text → Phase

abbrev pub add : Phrase → Option (List Phrase) → Option (List Phrase)
add p none = none
add p (some ps) = some (p ∷ ps)

unfoldable pub read : Phase → Text → Option (List Phrase)
read between [] = some []
read between (c ∷ cs) =
    let more = read between cs in
    let open_string = read (inside []) cs in
    if c == b' ' then more else if c == quote then open_string else none
read (inside w) [] = none
read (inside w) (c ∷ cs) =
    let closed = read (behind w) cs in
    let more = read (inside (w ++ c ∷ [])) cs in if c == quote then closed else more
read (behind w) [] = some ((w, false) ∷ [])
read (behind w) (c ∷ cs) =
    let again = read (inside (w ++ c ∷ [])) cs in
    let rest = read between cs in
    if c == quote
    then again
    else if c == b'*'
    then add (w, true) rest
    else if c == b' '
    then add (w, false) rest
    else none

-- The words of a search: what stands between its blanks, without the quotes.
abbrev pub push : Text → List Text → List Text
push [] ws = ws
push (c ∷ cs) ws = (c ∷ cs) ∷ ws

pub words_from : Text → Text → List Text
words_from word [] = push word []
words_from word (r ∷ rs) =
    let same = words_from word rs in
    let next = words_from [] rs in
    let longer = words_from (word ++ r ∷ []) rs in
    if r == quote then same else if is_separator r then push word next else longer

-- The words, each after a blank.
abbrev tail : List Text → Text
tail [] = []
tail (w ∷ ws) = b' ' ∷ phrase w ++ tail ws

abbrev NoQuote : Text → Type 0
NoQuote w = All (λ c. (c == quote) ≡ false) w

flush-tail :
    (word : Text) (c : ℕ) (cs : Text) (ws : List Text)
    → (flush (c ∷ cs) word).0 ++ tail ws ≡ c ∷ cs ++ tail (push word ws)
flush-tail [] c cs ws = refl
flush-tail (d ∷ ds) c cs ws = simp append_assoc

scan-tail :
    (q word : Text) (c : ℕ) (cs : Text) → scan q (c ∷ cs) word ≡ c ∷ cs ++ tail (words_from word q)
unfolding scan words_from
scan-tail [] [] c cs = sym (append-nil (c ∷ cs))
scan-tail [] (d ∷ ds) c cs = simp (append_assoc, append-nil)
scan-tail (r ∷ rs) [] c cs = ground (arith, scan-tail rs [] c cs, scan-tail rs (r ∷ []) c cs)
scan-tail (r ∷ rs) (d ∷ ds) c cs = ground (
  arith,
  scan-tail rs (d ∷ ds) c cs,
  scan-tail rs (d ∷ ds ++ r ∷ []) c cs,
  scan-tail rs [] c (cs ++ b' ' ∷ [] ++ phrase (d ∷ ds)),
  flush-tail (d ∷ ds) c cs (words_from [] rs),
)

abbrev first : List Text → Text
first [] = []
first (w ∷ ws) = phrase w ++ tail ws

scan-first : (q word : Text) → scan q [] word ≡ first (words_from word q)
unfolding scan words_from
scan-first [] [] = refl
scan-first [] (d ∷ ds) = sym (append-nil (phrase (d ∷ ds)))
scan-first (r ∷ rs) [] = ground (arith, scan-first rs [], scan-first rs (r ∷ []))
scan-first (r ∷ rs) (d ∷ ds) = ground (
  arith,
  scan-first rs (d ∷ ds),
  scan-first rs (d ∷ ds ++ r ∷ []),
  scan-tail rs [] quote (d ∷ ds ++ quote ∷ b'*' ∷ []),
)

-- A word of a search: it is not empty, and has no quote and no blank.
abbrev pub IsWord : Text → Type 0
IsWord w = All (λ c. (c == quote || is_separator c) ≡ false) w

push-IsWord : (w : Text) (ws : List Text) → IsWord w → All IsWord ws → All IsWord (push w ws)
push-IsWord [] ws h hs = hs
push-IsWord (c ∷ cs) ws h hs = (h, hs)

words_from-IsWord : (word q : Text) → IsWord word → All IsWord (words_from word q)
unfolding words_from
words_from-IsWord [] [] h = tt
words_from-IsWord (d ∷ ds) [] h = (h, tt)
words_from-IsWord word (r ∷ rs) h = elim (Bool-cases (r == quote)) [
  | inl is_quote ↦ rw is_quote (words_from-IsWord word rs h)
  | inr other ↦ elim (Bool-cases (is_separator r)) [
    | inl blank ↦
        rw (other, blank) (push-IsWord word (words_from [] rs) h (words_from-IsWord [] rs tt))
    | inr letter ↦
        rw (other, letter)
          (words_from-IsWord (word ++ r ∷ []) rs
            (All-append _ word (r ∷ []) h (rw (other, letter) refl, tt)))
  ]
]

read-inside :
    (a w rest : Text)
    → IsWord w
    → read (inside a) (w ++ quote ∷ b'*' ∷ rest) ≡ add (a ++ w, true) (read between rest)
unfolding read
read-inside a [] rest h = rw (append-nil a)
read-inside a (c ∷ cs) rest h =
    ground (arith, h, read-inside (a ++ c ∷ []) cs rest h.1, append_assoc a (c ∷ []) cs)

read-phrase :
    (w rest : Text) → IsWord w → read between (phrase w ++ rest) ≡ add (w, true) (read between rest)
unfolding read
read-phrase w rest h =
    ap (read (inside [])) (append_assoc w (quote ∷ b'*' ∷ []) rest) ∙ read-inside [] w rest h

abbrev pub prefixes : List Text → List Phrase
prefixes = map (λ w. (w, true))

read-tail : (ws : List Text) → All IsWord ws → read between (tail ws) ≡ some (prefixes ws)
unfolding read
read-tail [] h = refl
read-tail (w ∷ ws) h = read-phrase w (tail ws) h.0 ∙ ap (add (w, true)) (read-tail ws h.1)

read-first : (ws : List Text) → All IsWord ws → read between (first ws) ≡ some (prefixes ws)
unfolding read
read-first [] h = refl
read-first (w ∷ ws) h = read-phrase w (tail ws) h.0 ∙ ap (add (w, true)) (read-tail ws h.1)

abbrev pub words : Text → List Text
words = words_from []

-- The query of a search without a word is one empty string, which matches nothing.
abbrev pub shown : List Text → List Phrase
shown [] = ([], false) ∷ []
shown (w ∷ ws) = prefixes (w ∷ ws)

read-shown :
    (ws : List Text) → All IsWord ws → read between (or_empty_phrase (first ws)) ≡ some (shown ws)
unfolding read
read-shown [] h = refl
read-shown (w ∷ ws) h = read-first (w ∷ ws) h

abbrev pub flat : List Text → Text
flat [] = []
flat (w ∷ ws) = w ++ flat ws

abbrev pub is_letter : ℕ → Bool
is_letter c = not (c == quote || is_separator c)

flat-push : (w : Text) (ws : List Text) → flat (push w ws) ≡ w ++ flat ws
flat-push [] ws = refl
flat-push (c ∷ cs) ws = refl

flat-words_from : (word q : Text) → flat (words_from word q) ≡ word ++ select is_letter q
unfolding words_from
flat-words_from word [] = flat-push word []
flat-words_from word (r ∷ rs) = ground (
  arith,
  flat-words_from word rs,
  flat-words_from [] rs,
  flat-words_from (word ++ r ∷ []) rs,
  flat-push word (words_from [] rs),
  append_assoc word (r ∷ []) (select is_letter rs),
)

-- Whatever is typed, the query of `ftsQuery` reads as a list of prefix strings (one empty
-- string, if there is no word): the words of the search, which have no quote and no blank in them
-- and hold all its other characters in their order.
pub fts_query-read :
    (q : Text)
    → (read between (fts_query q) ≡ some (shown (words q)))
      × All IsWord (words q)
      × (flat (words q) ≡ select is_letter q)
unfolding fts_query
fts_query-read q =
    let good : All IsWord (words q) = words_from-IsWord [] q tt in
    (
      ap (λ (t : Text). read between (or_empty_phrase t)) (scan-first q [])
          ∙ read-shown (words q) good,
      good,
      flat-words_from [] q,
    )
