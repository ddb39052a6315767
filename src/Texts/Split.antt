-- ===== src/Texts/Split.antt =====
-- A list of names in one text: what is split is what was joined.
use Prim.Native.String.{◌++◌ as str_append}
use Prim.Native.String.append
use Prim.Native.Char.{Char}
use evsys.Common.{
  All, All-map, Bool-cases, List, String, [], ap, false, if_ind, inl, inr, int_has_eq, nat_has_eq,
  refl, string_has_eq, ◌==◌, ◌∙◌, ◌∷◌, ◌≡◌,
}
use evsys.Texts.{
  is_comma, is_space, join, prepend, split, trim_left, trim_right, trim_space, trimmed_items,
  unless_blank,
}

-- No character of the text is a comma.
abbrev pub NoComma : String → Type 0
NoComma String.[] = Unit {0}
NoComma (String.◌∷◌ c s) = (is_comma c ≡ false) × NoComma s

split_name : (x : String) → NoComma x → split x ≡ x ∷ []
unfolding split
split_name String.[] h = refl
split_name (String.◌∷◌ c s) h = rw (h.0, split_name s h.1) refl

comma_first : (rest : String) → str_append "," rest ≡ String.◌∷◌ "," rest
comma_first rest = append.cons "," "" rest ∙ ap (String.◌∷◌ ",") (append.nil rest)

split_more :
    (x rest : String) → NoComma x → split (str_append x (str_append "," rest)) ≡ x ∷ split rest
unfolding split
split_more String.[] rest h = ap split (append.nil (str_append "," rest) ∙ comma_first rest) ∙ refl
split_more (String.◌∷◌ c s) rest h =
    ap split (append.cons c s (str_append "," rest)) ∙ rw (h.0, split_more s rest h.1) refl

-- Names without commas, of which there is one at least, are found again.
pub split-join :
    (x : String) (xs : List String) → All NoComma (x ∷ xs) → split (join (x ∷ xs)) ≡ x ∷ xs
unfolding join
split-join x [] h = split_name x h.0
split-join x (y ∷ ys) h = split_more x (join (y ∷ ys)) h.0 ∙ ap (λ r. x ∷ r) (split-join y ys h.1)

abbrev pub IsTrimmed : String → Type 0
IsTrimmed x = trim_space x ≡ x

-- A name of a list: trimmed, not empty, and without a comma.
abbrev pub IsName : String → Type 0
IsName x = IsTrimmed x × ((x == "") ≡ false) × NoComma x

names_kept : (xs : List String) → All IsName xs → trimmed_items xs ≡ xs
unfolding trimmed_items
names_kept [] h = refl
names_kept (x ∷ xs) h = rw (h.0.0, h.0.1, names_kept xs h.1) refl

names_comma : (xs : List String) → All IsName xs → All NoComma xs
names_comma xs h = All-map xs (λ x n. n.2) h

no_items : trimmed_items (split (join [])) ≡ []
unfolding trimmed_items split join
no_items = refl

-- The names that were joined are the items of the text.
pub items_of_join : (xs : List String) → All IsName xs → trimmed_items (split (join xs)) ≡ xs
items_of_join [] h = no_items
items_of_join (x ∷ xs) h =
    ap trimmed_items (split-join x xs (names_comma (x ∷ xs) h)) ∙ names_kept (x ∷ xs) h

-- Nothing is left to trim on the left.
abbrev StartsPlain : String → Type 0
StartsPlain String.[] = Unit {0}
StartsPlain (String.◌∷◌ c s) = is_space c ≡ false

trim_left-StartsPlain : (s : String) → StartsPlain (trim_left s)
unfolding trim_left
trim_left-StartsPlain String.[] = tt
trim_left-StartsPlain (String.◌∷◌ c s) = elim (Bool-cases (is_space c)) [
  | inl blank ↦ rw blank (trim_left-StartsPlain s)
  | inr solid ↦ rw solid solid
]

trim_left_plain : (s : String) → StartsPlain s → trim_left s ≡ s
unfolding trim_left
trim_left_plain String.[] h = refl
trim_left_plain (String.◌∷◌ c s) h = rw h refl

unless_blank_plain :
    (c : Char) (s : String) → is_space c ≡ false → unless_blank c s ≡ String.◌∷◌ c s
unfolding unless_blank
unless_blank_plain c String.[] h = rw h refl
unless_blank_plain c (String.◌∷◌ d s) h = refl

trim_right-StartsPlain : (s : String) → StartsPlain s → StartsPlain (trim_right s)
unfolding trim_right
trim_right-StartsPlain String.[] h = tt
trim_right-StartsPlain (String.◌∷◌ c s) h = rw (unless_blank_plain c (trim_right s) h) h

unless_blank_twice :
    (c : Char) (s : String) → trim_right s ≡ s → trim_right (unless_blank c s) ≡ unless_blank c s
unfolding trim_right unless_blank
unless_blank_twice c String.[] h = elim (Bool-cases (is_space c)) [
  | inl blank ↦ rw blank refl
  | inr solid ↦ rw solid (rw solid refl)
]
unless_blank_twice c (String.◌∷◌ d s) h = ap (unless_blank c) h

trim_right_twice : (s : String) → trim_right (trim_right s) ≡ trim_right s
unfolding trim_right
trim_right_twice String.[] = refl
trim_right_twice (String.◌∷◌ c s) = unless_blank_twice c (trim_right s) (trim_right_twice s)

pub trim_space-IsTrimmed : (s : String) → IsTrimmed (trim_space s)
unfolding trim_space
trim_space-IsTrimmed s =
    ap trim_right (
      trim_left_plain (trim_right (trim_left s))
        (trim_right-StartsPlain (trim_left s) (trim_left-StartsPlain s)))
    ∙ trim_right_twice (trim_left s)

trim_left-NoComma : (s : String) → NoComma s → NoComma (trim_left s)
unfolding trim_left
trim_left-NoComma String.[] h = tt
trim_left-NoComma (String.◌∷◌ c s) h = elim (Bool-cases (is_space c)) [
  | inl blank ↦ rw blank (trim_left-NoComma s h.1)
  | inr solid ↦ rw solid h
]

unless_blank-NoComma :
    (c : Char) (s : String) → is_comma c ≡ false → NoComma s → NoComma (unless_blank c s)
unfolding unless_blank
unless_blank-NoComma c String.[] n h = if_ind NoComma (is_space c) "" (String.◌∷◌ c "") tt (n, tt)
unless_blank-NoComma c (String.◌∷◌ d s) n h = (n, h)

trim_right-NoComma : (s : String) → NoComma s → NoComma (trim_right s)
unfolding trim_right
trim_right-NoComma String.[] h = tt
trim_right-NoComma (String.◌∷◌ c s) h =
    unless_blank-NoComma c (trim_right s) h.0 (trim_right-NoComma s h.1)

pub trim_space-NoComma : (s : String) → NoComma s → NoComma (trim_space s)
unfolding trim_space
trim_space-NoComma s h = trim_right-NoComma (trim_left s) (trim_left-NoComma s h)

prepend-NoComma :
    (c : Char) (xs : List String) → is_comma c ≡ false → All NoComma xs → All NoComma (prepend c xs)
unfolding prepend
prepend-NoComma c [] n h = ((n, tt), tt)
prepend-NoComma c (x ∷ xs) n h = ((n, h.0), h.1)

split-NoComma : (s : String) → All NoComma (split s)
unfolding split
split-NoComma String.[] = (tt, tt)
split-NoComma (String.◌∷◌ c s) = elim (Bool-cases (is_comma c)) [
  | inl comma ↦ rw comma (tt, split-NoComma s)
  | inr other_ ↦ rw other_ (prepend-NoComma c (split s) other_ (split-NoComma s))
]

trimmed_items-IsName : (xs : List String) → All NoComma xs → All IsName (trimmed_items xs)
unfolding trimmed_items
trimmed_items-IsName [] h = tt
trimmed_items-IsName (x ∷ xs) h = elim (Bool-cases (trim_space x == "")) [
  | inl blank ↦ rw blank (trimmed_items-IsName xs h.1)
  | inr named ↦
      rw named
        ((trim_space-IsTrimmed x, named, trim_space-NoComma x h.0), trimmed_items-IsName xs h.1)
]

-- The items of a text are names.
pub items-IsName : (s : String) → All IsName (trimmed_items (split s))
items-IsName s = trimmed_items-IsName (split s) (split-NoComma s)
