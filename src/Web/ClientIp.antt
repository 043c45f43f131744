-- ===== src/Web/ClientIp.antt =====
-- internal/web/ratelimit.go, `clientIP`, with `net.SplitHostPort`.
pub mod Ports
use revolution.Prelude.{
  ℕ, ◌+◌, ◌≡◌, refl, ap, ◌∙◌, Text, Bool, true, false, not, ◌&&◌, ◌||◌, Option, none, some, List,
  [], ◌∷◌, ◌++◌, ◌==◌, if◌then◌else◌, arith,
}

abbrev pub has : ℕ → Text → Bool
has c [] = false
has c (x ∷ xs) = x == c || has c xs

-- What is before and after the first `c`, and the last one.
abbrev pub with_first : ℕ → Option (Text × Text) → Option (Text × Text)
with_first x none = none
with_first x (some (a, b)) = some (x ∷ a, b)

abbrev pub cut_first : ℕ → Text → Option (Text × Text)
cut_first c [] = none
cut_first c (x ∷ xs) =
    let later = with_first x (cut_first c xs) in if x == c then some ([], xs) else later

abbrev pub longer : ℕ → ℕ → Text → Option (Text × Text) → Option (Text × Text)
longer c x xs (some (a, b)) = some (x ∷ a, b)
longer c x xs none = if x == c then some ([], xs) else none

abbrev pub cut_last : ℕ → Text → Option (Text × Text)
cut_last c [] = none
cut_last c (x ∷ xs) = longer c x xs (cut_last c xs)

-- After a "]": a colon and a port, and no colon or bracket in it.
abbrev pub is_port : Text → Bool
is_port [] = false
is_port (c ∷ cs) = c == b':' && not (has b':' cs) && not (has b']' cs)

abbrev pub bracketed : Text → Option (Text × Text) → Option Text
bracketed rest none = none
bracketed rest (some (h, tail)) = if is_port tail && not (has b'[' rest) then some h else none

abbrev pub plain : Text → Option (Text × Text) → Option Text
plain s none = none
plain s (some (h, port)) = if has b':' h || has b'[' s || has b']' s then none else some h

-- The host of `net.SplitHostPort`, or nothing for an error.
unfoldable pub split_host : Text → Option Text
split_host [] = none
split_host (c ∷ cs) =
    if c == b'[' then bracketed cs (cut_first b']' cs) else plain (c ∷ cs) (cut_last b':' (c ∷ cs))

abbrev pub or_address : Text → Option Text → Text
or_address addr none = addr
or_address addr (some h) = h

unfoldable pub client_ip : Text → Text
unfolding split_host
client_ip addr = or_address addr (split_host addr)
