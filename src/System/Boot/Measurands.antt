-- ===== src/System/Boot/Measurands.antt =====
-- What `mergeMeasurands` of server/system_handler.go makes of a list of measurands.
use evsys.Common.{
  All, All-map, Bool, Bool-cases, List, String, [], ap, arith, elem, eq_self, false, inl, inr,
  int_has_eq, nat_has_eq, refl, string_has_eq, true, ◌++◌, ◌==◌, ◌||◌, ◌∙◌, ◌∷◌, ◌≡◌, ◌⊎◌,
}
use evsys.System.Boot.{lower_names, merge_all, merge_measurands, merge_one}
use evsys.Texts.{split, to_lower, trim_space, trimmed_items}
use evsys.Texts.Split.{
  IsName, NoComma, items-IsName, items_of_join, trim_space-IsTrimmed, trim_space-NoComma,
}

abbrev Merge : Type 0
Merge = List String × List String × Bool

-- The required name is blank, or among the names seen.
abbrev pub IsSeen : List String → String → Type 0
IsSeen seen required =
    ((trim_space required == "") ≡ true) ⊎ (elem (to_lower (trim_space required)) seen ≡ true)

-- `merge_one` takes one of three ways.
merge_one_seen : (r : String) (m : Merge) → IsSeen m.1 r → merge_one r m ≡ m
unfolding merge_one
merge_one_seen r (existing, seen, changed) (inl blank) = rw blank refl
merge_one_seen r (existing, seen, changed) (inr old) = elim (Bool-cases (trim_space r == "")) [
  | inl blank ↦ rw blank refl
  | inr named ↦ rw (named, old) refl
]

merge_one_new :
    (r : String) (existing seen : List String) (changed : Bool)
    → (trim_space r == "") ≡ false
    → elem (to_lower (trim_space r)) seen ≡ false
    → merge_one r (existing, seen, changed)
      ≡ (existing ++ trim_space r ∷ [], to_lower (trim_space r) ∷ seen, true)
unfolding merge_one
merge_one_new r existing seen changed named new = rw (named, new) refl

-- Every name seen is in the list, in lower case.
abbrev Covers : Merge → Type 0
Covers m = (x : String) → elem x m.1 ≡ true → elem x (lower_names m.0) ≡ true

elem-append :
    (x : String) (xs : List String) (y : String)
    → elem x (lower_names (xs ++ y ∷ [])) ≡ (elem x (lower_names xs) || to_lower y == x)
elem-append x [] y = ground arith
elem-append x (z ∷ zs) y = ground (arith, elem-append x zs y)

append-Covers :
    (existing seen : List String) (y : String) (changed changed' : Bool)
    → Covers (existing, seen, changed)
    → Covers (existing ++ y ∷ [], to_lower y ∷ seen, changed')
append-Covers existing seen y changed changed' h x there =
    ground (arith, elem-append x existing y, h x)

-- What holds of a merge whatever way it takes.
merge_one_ind {ℓ} :
    (P : Merge → Type ℓ) (r : String) (m : Merge)
    → (IsSeen m.1 r → P m)
    → ((trim_space r == "") ≡ false
        → P (m.0 ++ trim_space r ∷ [], to_lower (trim_space r) ∷ m.1, true))
    → P (merge_one r m)
merge_one_ind P r (existing, seen, changed) old new = elim (Bool-cases (trim_space r == "")) [
  | inl blank ↦ rw (merge_one_seen r (existing, seen, changed) (inl blank)) (old (inl blank))
  | inr named ↦ elim (Bool-cases (elem (to_lower (trim_space r)) seen)) [
    | inl there ↦ rw (merge_one_seen r (existing, seen, changed) (inr there)) (old (inr there))
    | inr fresh ↦ rw (merge_one_new r existing seen changed named fresh) (new named)
  ]
]

more-IsSeen : (x r : String) (seen : List String) → IsSeen seen r → IsSeen (x ∷ seen) r
more-IsSeen x r seen (inl blank) = inl blank
more-IsSeen x r seen (inr there) = inr (ground arith)

merge_one_keeps : (q r : String) (m : Merge) → IsSeen m.1 q → IsSeen (merge_one r m).1 q
merge_one_keeps q r m h =
    merge_one_ind (λ n. IsSeen n.1 q) r m (λ _. h)
      (λ _. more-IsSeen (to_lower (trim_space r)) q m.1 h)

merge_all_keeps :
    (q : String) (rs : List String) (m : Merge) → IsSeen m.1 q → IsSeen (merge_all rs m).1 q
unfolding merge_all
merge_all_keeps q [] m h = h
merge_all_keeps q (r ∷ rs) m h = merge_all_keeps q rs (merge_one r m) (merge_one_keeps q r m h)

merge_one_sees : (r : String) (m : Merge) → IsSeen (merge_one r m).1 r
merge_one_sees r m =
    merge_one_ind (λ n. IsSeen n.1 r) r m (λ h. h)
      (λ _. inr (rw (eq_self (to_lower (trim_space r))) refl))

-- Afterwards every required name is seen.
merge_all_sees : (rs : List String) (m : Merge) → All (IsSeen (merge_all rs m).1) rs
unfolding merge_all
merge_all_sees [] m = tt
merge_all_sees (r ∷ rs) m =
    (merge_all_keeps r rs (merge_one r m) (merge_one_sees r m), merge_all_sees rs (merge_one r m))

merge_all-Covers : (rs : List String) (m : Merge) → Covers m → Covers (merge_all rs m)
unfolding merge_all
merge_all-Covers [] m h = h
merge_all-Covers (r ∷ rs) m h =
    merge_all-Covers rs (merge_one r m)
      (merge_one_ind Covers r m (λ _. h) (λ _. append-Covers m.0 m.1 (trim_space r) m.2 true h))

append-IsName :
    (xs : List String) (y : String) → All IsName xs → IsName y → All IsName (xs ++ y ∷ [])
append-IsName [] y h n = (n, tt)
append-IsName (x ∷ xs) y h n = (h.0, append-IsName xs y h.1 n)

merge_all-IsName :
    (rs : List String) (m : Merge) → All NoComma rs → All IsName m.0 → All IsName (merge_all rs m).0
unfolding merge_all
merge_all-IsName [] m c h = h
merge_all-IsName (r ∷ rs) m c h = merge_all-IsName rs (merge_one r m) c.1 (
    merge_one_ind (λ n. All IsName n.0) r m (λ _. h)
      (λ named.
        append-IsName m.0 (trim_space r) h
          (trim_space-IsTrimmed r, named, trim_space-NoComma r c.0)))

merge_all_settled : (rs : List String) (m : Merge) → All (IsSeen m.1) rs → merge_all rs m ≡ m
unfolding merge_all
merge_all_settled [] m h = refl
merge_all_settled (r ∷ rs) m h =
    ap (merge_all rs) (merge_one_seen r m h.0) ∙ merge_all_settled rs m h.1

append_assoc : (xs ys zs : List String) → (xs ++ ys) ++ zs ≡ xs ++ (ys ++ zs)
append_assoc [] ys zs = refl
append_assoc (x ∷ xs) ys zs = ap (λ l. x ∷ l) (append_assoc xs ys zs)

append_nothing : (xs : List String) → xs ≡ xs ++ []
append_nothing [] = refl
append_nothing (x ∷ xs) = ap (λ l. x ∷ l) (append_nothing xs)

-- A list with others after it.
abbrev pub Extends : List String → List String → Type 0
Extends xs ys = (more_ : List String) × (ys ≡ xs ++ more_)

Extends-trans : (xs ys zs : List String) → Extends xs ys → Extends ys zs → Extends xs zs
Extends-trans xs ys zs (a, e) (b, f) = (a ++ b, f ∙ ap (λ l. l ++ b) e ∙ append_assoc xs a b)

merge_all-Extends : (rs : List String) (m : Merge) → Extends m.0 (merge_all rs m).0
unfolding merge_all
merge_all-Extends [] m = ([], append_nothing m.0)
merge_all-Extends (r ∷ rs) m =
    Extends-trans m.0 (merge_one r m).0 (merge_all rs (merge_one r m)).0
      (merge_one_ind (λ n. Extends m.0 n.0) r m (λ _. ([], append_nothing m.0))
        (λ _. (trim_space r ∷ [], refl)))
      (merge_all-Extends rs (merge_one r m))

covered : (m : Merge) (r : String) → Covers m → IsSeen m.1 r → IsSeen (lower_names m.0) r
covered m r h (inl blank) = inl blank
covered m r h (inr there) = inr (h (to_lower (trim_space r)) there)

-- Merging a list of measurands with the required ones, where no required one has a comma in it: the
-- entries of the old list come first and as they were, every required measurand is listed, in
-- whatever case, and merging the same requirements into the new list again changes nothing.
pub merge_settles :
    (current : String) (required : List String)
    → All NoComma required
    → let (merged, changed) = merge_measurands current required in
      Extends (trimmed_items (split current)) (trimmed_items (split merged))
      × All (IsSeen (lower_names (trimmed_items (split merged)))) required
      × (merge_measurands merged required ≡ (merged, false))
unfolding merge_measurands
merge_settles current required no_comma =
    let existing = trimmed_items (split current) in
    let first : Merge = (existing, lower_names existing, false) in
    let m = merge_all required first in
    let names = merge_all-IsName required first no_comma (items-IsName current) in
    let items = items_of_join m.0 names in
    let seen : All (IsSeen (lower_names m.0)) required =
      All-map required (λ r. covered m r (merge_all-Covers required first (λ x h. h)))
        (merge_all_sees required first) in
    (
      rw items (merge_all-Extends required first),
      rw items seen,
      rw (items, merge_all_settled required (m.0, lower_names m.0, false) seen) refl,
    )
