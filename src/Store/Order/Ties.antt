-- ===== src/Store/Order/Ties.antt =====
-- Lists in the order of ORDER BY, where no two rows compare equal.
use mathlib.Core.List.{Permᴰ}
use revolution.Prelude.{
  suc, ◌≡◌, refl, ap, ap₂, subst, ◌∙◌, Bool, true, false, ◌||◌, List, [], ◌∷◌, All, length, arith,
}
use revolution.Store.Order.{sort_by, insert_by}

pub length-Permᴰ : {A : Type 0} {xs ys : List A} → Permᴰ xs ys → length xs ≡ length ys
length-Permᴰ Permᴰ.nil = refl
length-Permᴰ (Permᴰ.cons e p) = ap suc (length-Permᴰ p)
length-Permᴰ (Permᴰ.swap e f) = refl
length-Permᴰ (Permᴰ.trans p q) = length-Permᴰ p ∙ length-Permᴰ q

module _ {A : Type 0} (before : A → A → Bool) where
  -- One of the two comes before the other.
  abbrev pub IsApart : A → A → Type 0
  IsApart x y = (before x y || before y x) ≡ true

  abbrev pub NoTies : List A → Type 0
  NoTies [] = Unit
  NoTies (x ∷ xs) = All (IsApart x) xs × NoTies xs

  IsApart-sym : (x y : A) → IsApart x y → IsApart y x
  IsApart-sym x y h = ground (arith, h)

  All-Permᴰ : (P : A → Type 0) {xs ys : List A} → Permᴰ xs ys → All P xs → All P ys
  All-Permᴰ P Permᴰ.nil h = tt
  All-Permᴰ P (Permᴰ.cons e p) h = (subst P e h.0, All-Permᴰ P p h.1)
  All-Permᴰ P (Permᴰ.swap e f) h = (subst P f h.1.0, (subst P e h.0, h.1.1))
  All-Permᴰ P (Permᴰ.trans p q) h = All-Permᴰ P q (All-Permᴰ P p h)

  NoTies-Permᴰ : {xs ys : List A} → Permᴰ xs ys → NoTies xs → NoTies ys
  NoTies-Permᴰ Permᴰ.nil h = tt
  NoTies-Permᴰ (Permᴰ.cons {l₂ = ys} e p) h =
      (subst (λ x. All (IsApart x) ys) e (All-Permᴰ (IsApart _) p h.0), NoTies-Permᴰ p h.1)
  NoTies-Permᴰ (Permᴰ.swap {a = a} {b = b} {b' = b'} {l = l} e f) h =
      subst (λ x. NoTies (x ∷ b' ∷ l)) f
        (subst (λ y. NoTies (b ∷ y ∷ l)) e ((IsApart-sym a b h.0.0, h.1.0), (h.0.1, h.1.1)))
  NoTies-Permᴰ (Permᴰ.trans p q) h = NoTies-Permᴰ q (NoTies-Permᴰ p h)

module _ {A : Type 0} (before : A → A → Bool)
    (asym : (x y : A) → before x y ≡ true → before y x ≡ false)
    (trans : (x y z : A) → before x y ≡ false → before y z ≡ false → before x z ≡ false) where
  insert_by_comm :
      (x y : A) (xs : List A)
      → IsApart before x y
      → insert_by before x (insert_by before y xs) ≡ insert_by before y (insert_by before x xs)
  unfolding insert_by
  insert_by_comm x y [] h = ground (arith, h, asym x y, asym y x)
  insert_by_comm x y (z ∷ zs) h = ground (
    arith,
    h,
    asym x y,
    asym y x,
    trans z x y,
    trans z y x,
    trans x y z,
    trans y x z,
    trans x z y,
    trans y z x,
    insert_by_comm x y zs h,
  )

  -- Without ties, the order in which the rows came does not matter.
  pub sort_by-scanned :
      {xs ys : List A} → Permᴰ xs ys → NoTies before xs → sort_by before xs ≡ sort_by before ys
  unfolding sort_by
  sort_by-scanned Permᴰ.nil h = refl
  sort_by-scanned (Permᴰ.cons e p) h = ap₂ (insert_by before) e (sort_by-scanned p h.1)
  sort_by-scanned (Permᴰ.swap {a = a} {b = b} {l = l} e f) h =
      insert_by_comm a b (sort_by before l) h.0.0
      ∙ ap₂ (λ x y. insert_by before x (insert_by before y (sort_by before l))) f e
  sort_by-scanned (Permᴰ.trans p q) h =
      sort_by-scanned p h ∙ sort_by-scanned q (NoTies-Permᴰ before p h)
