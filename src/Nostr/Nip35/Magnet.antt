-- ===== src/Nostr/Nip35/Magnet.antt =====
-- The shape of the link that `BuildMagnet` writes.
use mathlib.Core.List.{append-nil}
use revolution.Prelude.{◌≡◌, ap, Text, codes, true, [], ◌∷◌, ◌++◌, All}
use revolution.Nostr.External.{External, to_upper}
use revolution.Nostr.Escape.{encode, replace_plus, utf8, utf8_rune, query_escape, escape_byte}
use revolution.Nostr.Escape.Decode.{
  magnet_value, percent_decode, is_safe, IsRune, percent_decode-magnet_value, magnet_value-safe,
  replace_plus-append,
}
use revolution.Nostr.Nip35.{build_magnet}

-- The part of a link for a tracker, whose value is `tr`.
abbrev pub tracker_part : Text → Text → Text
tracker_part [] tr = []
tracker_part (_ ∷ _) tr = codes "&tr=" ++ tr

abbrev pub link : Text → Text → Text → Text → Text
link hash dn tracker tr =
    codes "magnet:?xt=urn:btih:" ++ (hash ++ (codes "&dn=" ++ (dn ++ tracker_part tracker tr)))

encoded_title :
    (title : Text)
    → replace_plus (encode ((codes "dn", title) ∷ [])) ≡ codes "dn=" ++ (magnet_value title ++ [])
unfolding encode replace_plus escape_byte utf8_rune
encoded_title title = rw append-nil

encoded_both :
    (title tracker : Text)
    → replace_plus (encode ((codes "dn", title) ∷ (codes "tr", tracker) ∷ []))
      ≡ codes "dn=" ++ (magnet_value title ++ (codes "&tr=" ++ magnet_value tracker))
unfolding encode replace_plus escape_byte utf8_rune
encoded_both title tracker =
    ap (λ (t : Text). codes "dn=" ++ t)
      (replace_plus-append (query_escape title) (codes "&tr=" ++ query_escape tracker))

pub record IsMagnet (hash title tracker m : Text) : Type 0 where
  pub dn : Text
  pub tr : Text
  pub is_link : m ≡ link hash dn tracker tr
  pub dn_decodes : percent_decode dn ≡ utf8 title
  pub tr_decodes : percent_decode tr ≡ utf8 tracker
  pub dn_safe : All (λ c. is_safe c ≡ true) dn
  pub tr_safe : All (λ c. is_safe c ≡ true) tr

-- The link is the upper-case info hash, the title and, where there is one, the tracker, each as a
-- value that percent-decodes to its text and holds no byte that could end it or begin another.
pub build_magnet-IsMagnet :
    (x : External) (hash title tracker : Text)
    → All IsRune title
    → All IsRune tracker
    → IsMagnet (to_upper x hash) title tracker (build_magnet x hash title tracker)
unfolding build_magnet
build_magnet-IsMagnet x hash title [] rt rk = record {
  dn = magnet_value title;
  tr = magnet_value [];
  is_link =
      ap (λ t. codes "magnet:?xt=urn:btih:" ++ (to_upper x hash ++ (b'&' ∷ t)))
        (encoded_title title);
  dn_decodes = percent_decode-magnet_value title rt;
  tr_decodes = percent_decode-magnet_value [] rk;
  dn_safe = magnet_value-safe title rt;
  tr_safe = magnet_value-safe [] rk;
}
build_magnet-IsMagnet x hash title (c ∷ cs) rt rk = record {
  dn = magnet_value title;
  tr = magnet_value (c ∷ cs);
  is_link =
      ap (λ t. codes "magnet:?xt=urn:btih:" ++ (to_upper x hash ++ (b'&' ∷ t)))
        (encoded_both title (c ∷ cs));
  dn_decodes = percent_decode-magnet_value title rt;
  tr_decodes = percent_decode-magnet_value (c ∷ cs) rk;
  dn_safe = magnet_value-safe title rt;
  tr_safe = magnet_value-safe (c ∷ cs) rk;
}
