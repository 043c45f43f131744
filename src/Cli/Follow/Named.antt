-- ===== src/Cli/Follow/Named.antt =====
-- Whom a name means after `AddFollowed` (internal/store/followed.go, internal/cli/follow.go).
use revolution.Prelude.{
  ◌≡◌, refl, ℤ, Text, text_eq, eq_text, eq_text_iff, Bool, true, false, ◌||◌, some, List, [], ◌∷◌,
  All, Bool-cases, inl, inr, ap, ◌∙◌,
}
use revolution.Store.Table.{upsert}
use revolution.Store.Db.{Followed}
use revolution.Store.Exec.{ok, World, advance, pure, query, try}
use revolution.Store.Accounts.{followed_key, first_named, find_followed, new_followed}
use revolution.Cli.Terminal.{Setup, resolve_followed}

-- The condition of `FindFollowed`.
abbrev pub is_named : Text → Followed → Bool
is_named name f = eq_text f.pubkey name || eq_text f.alias name

-- No account but that of the key has the name for its key or its alias.
abbrev pub NamesOnly : Text → Text → List Followed → Type 0
NamesOnly pubkey name = All (λ f. is_named name f ≡ true → f.pubkey ≡ pubkey)

-- The account of the key under the alias, active, is what is found.
abbrev pub FollowedAs : Text → Text → Followed → Type 0
FollowedAs pubkey alias f = (f.pubkey ≡ pubkey) × (f.alias ≡ alias) × (f.enabled ≡ true)

abbrev pub put_followed : Text → Text → ℤ → List Followed → List Followed
put_followed pubkey alias ts =
    upsert followed_key (new_followed pubkey alias ts)
      (λ f. record f { alias = alias; enabled = true })

module _ (pubkey alias name : Text) (ts : ℤ)
    (named : (eq_text pubkey name || eq_text alias name) ≡ true) where
  pub first_named-put_followed :
      (t : List Followed)
      → NamesOnly pubkey name t
      → (f : Followed) × (first_named name (put_followed pubkey alias ts t) ≡ some f)
        × FollowedAs pubkey alias f
  first_named-put_followed [] h = (new_followed pubkey alias ts, rw named refl, (refl, refl, refl))
  first_named-put_followed (x ∷ xs) h = elim (Bool-cases (eq_text x.pubkey pubkey)) [
    | inl same ↦
        let key : x.pubkey ≡ pubkey = (eq_text_iff x.pubkey pubkey).0 same in
        let found : is_named name (record x { alias = alias }) ≡ true =
          ap (λ (k : Text). eq_text k name || eq_text alias name) key ∙ named in
        (record x { alias = alias; enabled = true }, rw (same, found) refl, (key, refl, refl))
    | inr other ↦ elim (Bool-cases (is_named name x)) [
      | inl taken ↦ cc ((eq_text_iff x.pubkey pubkey).1 (h.0 taken), other)
      | inr free ↦
          let (f, found, is) = first_named-put_followed xs h.1 in (f, rw (other, free) found, is)
    ]
  ]

module _ (s : Setup) where
  pub resolve_followed-found :
      (name : Text) (f : Followed) (v : World)
      → v.fails v.step ≡ false
      → first_named name v.db.followed ≡ some f
      → resolve_followed s name v ≡ (ok f, advance v)
  unfolding resolve_followed find_followed query try pure
  resolve_followed-found name f v good found = rw (good, found) refl
