-- ===== src/Web/ClientIp/Ports.antt =====
-- The address that a limiter counts by (internal/web/ratelimit.go).
use revolution.Prelude.{
  ℕ, ◌≡◌, refl, ap, ◌∙◌, Text, Bool, true, false, not, ◌&&◌, ◌||◌, none, some, [], ◌∷◌, ◌++◌, ◌==◌,
  if◌then◌else◌, arith, Bool-cases, inl, inr,
}
use revolution.Web.ClientIp.{
  has, cut_first, longer, cut_last, bracketed, plain, split_host, or_address, client_ip,
}

has-append : (c : ℕ) (a b : Text) → has c (a ++ b) ≡ (has c a || has c b)
has-append c [] b = refl
has-append c (x ∷ a) b = ground (arith, has-append c a b)

cut_last-none : (c : ℕ) (s : Text) → has c s ≡ false → cut_last c s ≡ none
cut_last-none c [] h = refl
cut_last-none c (x ∷ xs) h = ground (arith, h, cut_last-none c xs)

cut_last-append : (c : ℕ) (a b : Text) → has c b ≡ false → cut_last c (a ++ c ∷ b) ≡ some (a, b)
cut_last-append c [] b h = ground (arith, cut_last-none c b h)
cut_last-append c (x ∷ a) b h = ap (longer c x (a ++ c ∷ b)) (cut_last-append c a b h)

cut_first-append : (c : ℕ) (a b : Text) → has c a ≡ false → cut_first c (a ++ c ∷ b) ≡ some (a, b)
cut_first-append c [] b h = ground arith
cut_first-append c (x ∷ a) b h = ground (arith, h, cut_first-append c a b)

-- No colon and no bracket.
abbrev pub is_bare : Text → Bool
is_bare s = not (has b':' s) && not (has b'[' s) && not (has b']' s)

plain-bare :
    (h port : Text)
    → is_bare h ≡ true
    → is_bare port ≡ true
    → plain (h ++ b':' ∷ port) (cut_last b':' (h ++ b':' ∷ port)) ≡ some h
plain-bare h port hh hp =
    let no_colon : has b':' port ≡ false = ground (arith, hp) in
    ap (plain (h ++ b':' ∷ port)) (cut_last-append b':' h port no_colon)
    ∙ ground (arith, hh, hp, has-append b'[' h (b':' ∷ port), has-append b']' h (b':' ∷ port))

split_host-plain :
    (h port : Text)
    → is_bare h ≡ true
    → is_bare port ≡ true
    → split_host (h ++ b':' ∷ port) ≡ some h
unfolding split_host
split_host-plain [] port hh hp = plain-bare [] port hh hp
split_host-plain (c ∷ cs) port hh hp =
    let other : (c == b'[') ≡ false = ground (arith, hh) in
    rw other (plain-bare (c ∷ cs) port hh hp)

split_host-bracketed :
    (h port : Text)
    → has b'[' h ≡ false
    → has b']' h ≡ false
    → is_bare port ≡ true
    → split_host (b'[' ∷ h ++ b']' ∷ b':' ∷ port) ≡ some h
unfolding split_host
split_host-bracketed h port opening closing hp =
    ap (bracketed (h ++ b']' ∷ b':' ∷ port)) (cut_first-append b']' h (b':' ∷ port) closing)
    ∙ ground (arith, hp, opening, has-append b'[' h (b']' ∷ b':' ∷ port))

-- The limiters count the requests of a host together, whatever port they come from: `clientIP` is the host of
-- "host:port", for a host without colons, and of "[host]:port" for one with colons, as an IPv6 address is
-- written.
pub client_ip-port :
    (h port : Text)
    → has b'[' h ≡ false
    → has b']' h ≡ false
    → is_bare port ≡ true
    → client_ip (if has b':' h then b'[' ∷ h ++ b']' ∷ b':' ∷ port else h ++ b':' ∷ port) ≡ h
unfolding client_ip
client_ip-port h port opening closing hp = elim (Bool-cases (has b':' h)) [
  | inl colons ↦ rw colons (ap (or_address _) (split_host-bracketed h port opening closing hp))
  | inr none_in ↦
      rw none_in
        (ap (or_address _) (split_host-plain h port (ground (arith, none_in, opening, closing)) hp))
]
