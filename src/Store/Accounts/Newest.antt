-- ===== src/Store/Accounts/Newest.antt =====
-- The profile that stays for a key, by the times of those that came.
use revolution.Prelude.{
  ◌+◌, ◌≡◌, refl, ◌∙◌, ap, lt_int, Text, text_eq, eq_text, eq_text_iff, eq_text_refl, true, Option,
  none, some, if◌then◌else◌, arith, Bool-cases, inl, inr,
}
use revolution.Store.Table.{find, merged, find-upsert, find-key}
use revolution.Store.Db.{Db, Profile}
use revolution.Store.Exec.{Result, ok, err, World, statement, query}
use revolution.Store.Torrents.{or_not_found}
use revolution.Store.Torrents.Upsert.{NoFault}
use revolution.Store.Accounts.{profile_key, merge_profile, profile_db, upsert_profile, get_profile}

merge_profile-key : (p x : Profile) → (merge_profile p x).pubkey ≡ x.pubkey
merge_profile-key p x = ground arith

-- What a key holds after a profile came for it.
abbrev pub newer_of : Profile → Option Profile → Option Profile
newer_of p none = some p
newer_of p (some old) = some (merge_profile p old)

newer_of-merged :
    (p : Profile) (o : Option Profile)
    → some (merged profile_key p (merge_profile p) o) ≡ newer_of p o
newer_of-merged p none = refl
newer_of-merged p (some old) = refl

find-profile_db :
    (p : Profile) (k : Text) (db : Db)
    → find profile_key k (profile_db p db).profiles ≡ (
        if eq_text p.pubkey k
        then newer_of p (find profile_key k db.profiles)
        else find profile_key k db.profiles)
find-profile_db p k db =
    find-upsert profile_key p (merge_profile p) k db.profiles (merge_profile-key p)
    ∙ elim (Bool-cases (eq_text p.pubkey k)) [
      | inl same ↦ rw same (
          ap (λ (o : Option Profile). some (merged profile_key p (merge_profile p) o))
            (ap (λ (j : Text). find profile_key j db.profiles) ((eq_text_iff p.pubkey k).0 same))
          ∙ newer_of-merged p (find profile_key k db.profiles))
      | inr other ↦ rw other
    ]

-- What `GetProfile` returns once `q` came: `q`, unless what is there is newer.
abbrev pub newest : Profile → Result Profile → Result Profile
newest q (ok old) = if lt_int q.updated_at old.updated_at then ok old else ok q
newest q (err e) = ok q

module _ (p q : Profile) (older : lt_int p.updated_at q.updated_at ≡ true)
    (same : p.pubkey ≡ q.pubkey) where
  newer_of-newest :
      (o : Option Profile)
      → ((old : Profile) → o ≡ some old → old.pubkey ≡ q.pubkey)
      → (or_not_found (newer_of p (newer_of q o)) ≡ newest q (or_not_found o))
        × (or_not_found (newer_of q (newer_of p o)) ≡ newest q (or_not_found o))
  newer_of-newest none key = (ground (arith, same), ground (arith, same))
  newer_of-newest (some old) key =
      (ground (arith, same, key old refl), ground (arith, same, key old refl))

  written :
      (db : Db)
      → (find profile_key q.pubkey (profile_db p (profile_db q db)).profiles
          ≡ newer_of p (newer_of q (find profile_key q.pubkey db.profiles)))
        × (find profile_key q.pubkey (profile_db q (profile_db p db)).profiles
            ≡ newer_of q (newer_of p (find profile_key q.pubkey db.profiles)))
  written db = (
    ground (
      arith,
      find-profile_db p q.pubkey (profile_db q db),
      find-profile_db q q.pubkey db,
      eq_text_refl q.pubkey,
      ap (λ (t : Text). eq_text t q.pubkey) same,
    ),
    ground (
      arith,
      find-profile_db q q.pubkey (profile_db p db),
      find-profile_db p q.pubkey db,
      eq_text_refl q.pubkey,
      ap (λ (t : Text). eq_text t q.pubkey) same,
    ),
  )

  -- Two profiles of one account, one older than the other, written in either order where no statement fails: `GetProfile`
  -- then returns the newer of the two, with all its fields, or the profile that was there before if that is newer still.
  pub get_profile-newest :
      (w : World)
      → NoFault w
      → ((get_profile q.pubkey (upsert_profile p (upsert_profile q w).1).1).0
          ≡ newest q (get_profile q.pubkey w).0)
        × ((get_profile q.pubkey (upsert_profile q (upsert_profile p w).1).1).0
            ≡ newest q (get_profile q.pubkey w).0)
  unfolding get_profile upsert_profile statement query
  get_profile-newest w h =
      let o = find profile_key q.pubkey w.db.profiles in
      let made = written w.db in
      let is = newer_of-newest o (find-key profile_key q.pubkey w.db.profiles) in
      (
        rw (h w.step, h (w.step + 1), h (w.step + 1 + 1)) (ap or_not_found made.0 ∙ is.0),
        rw (h w.step, h (w.step + 1), h (w.step + 1 + 1)) (ap or_not_found made.1 ∙ is.1),
      )
