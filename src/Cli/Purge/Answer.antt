-- ===== src/Cli/Purge/Answer.antt =====
-- The answer to the question of `purge` (internal/cli/purge.go).
use revolution.Prelude.{
  ℕ, ◌≤◌, ◌≡◌, refl, Text, codes, eq_text, trim_space, Bool, false, ◌||◌, [], ◌∷◌, ◌==◌, ltb, arith,
  Bool-cases, inl, inr,
}
use revolution.Nostr.External.{External, lower, to_lower}
use revolution.Cli.Terminal.{Setup}
use revolution.Cli.Purge.{confirmed}

-- What Unicode says: "Y" alone has "y" for its lower case, beside "y" itself.
abbrev pub LowersY : External → Type 0
LowersY x = (c : ℕ) → 0x80 ≤ c → (x.lower_rune c == b'y') ≡ false

-- "y" or "Y", with blanks around it or none.
abbrev pub says_yes : Text → Bool
says_yes line = eq_text (trim_space line) (codes "y") || eq_text (trim_space line) (codes "Y")

lower-y : (x : External) (c : ℕ) → LowersY x → (lower x c == b'y') ≡ (c == b'y' || c == b'Y')
unfolding lower
lower-y x c h = elim (Bool-cases (ltb c 0x80)) [
  | inl ascii ↦ ground (arith, ascii)
  | inr beyond ↦ ground (arith, beyond, h c (ground (arith, beyond)))
]

to_lower-y :
    (x : External) (t : Text)
    → LowersY x
    → eq_text (to_lower x t) (codes "y") ≡ (eq_text t (codes "y") || eq_text t (codes "Y"))
unfolding eq_text
to_lower-y x [] h = refl
to_lower-y x (c ∷ []) h = ground (arith, lower-y x c h)
to_lower-y x (c ∷ d ∷ t) h = ground (arith, lower-y x c h)

pub confirmed-says_yes : (s : Setup) → LowersY s.external → confirmed s ≡ says_yes s.stdin
confirmed-says_yes s h = to_lower-y s.external (trim_space s.stdin) h
