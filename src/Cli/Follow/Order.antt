-- ===== src/Cli/Follow/Order.antt =====
-- Where `follow add` takes its option (internal/cli/follow.go).
use revolution.Prelude.{
  ◌≡◌, refl, Text, codes, eq_text, Bool, true, false, [], ◌∷◌, ◌==◌, if◌then◌else◌, arith,
}
use revolution.Store.Exec.{err, usage, World, M, pure, lift, ◌>>=◌, ◌>>◌}
use revolution.Store.Accounts.{add_followed}
use revolution.Nostr.Keys.{resolve_pubkey}
use revolution.Cli.Flags.{no_flag, parse, read_token}
use revolution.Cli.Terminal.{Setup, Message, now_followed}
use revolution.Cli.Follow.{follow_flags, follow_add}

-- No minus sign in front.
abbrev pub is_plain : Text → Bool
is_plain [] = true
is_plain (c ∷ cs) = if c == b'-' then false else true

read_token-plain : (key : Text) → is_plain key ≡ true → read_token follow_flags key ≡ no_flag
read_token-plain [] h = refl
read_token-plain (c ∷ cs) h = ground (arith, h)

module _ (s : Setup) (key alias : Text) where
  -- The account is resolved and followed under the alias.
  abbrev pub follow_as : M Message
  follow_as = do
    hex ← lift (resolve_pubkey s.nip19 s.external key)
    add_followed hex alias
    pure (now_followed hex)

  -- `follow add KEY --alias NAME`, as the usage text writes it, is always refused with the usage text;
  -- `follow add --alias NAME KEY` follows the account under the alias.
  pub follow_add-order :
      (w : World)
      → is_plain key ≡ true
      → (follow_add s (key ∷ codes "--alias" ∷ alias ∷ []) w ≡ (err usage, w))
        × (follow_add s (codes "--alias" ∷ alias ∷ key ∷ []) w ≡ follow_as w)
  unfolding follow_add parse ◌>>=◌ lift eq_text pure
  follow_add-order w h = (rw (read_token-plain key h) refl, rw (read_token-plain key h) refl)
