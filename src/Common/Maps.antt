-- ===== src/Common/Maps.antt =====
-- A Go map as an association list. A write of a present key replaces its value, `delete` drops the
-- key, a read of a missing key is `none`.
use Prim.Native.Nat.{ℕ}
use mathlib.Core.Path.{◌≡◌, refl, sym, subst, ◌∙◌}
use mathlib.Core.Logic.{◌≢◌, inl, inr}
use mathlib.Core.Bool.{Bool, true, false}
use mathlib.Core.Option.{Option, none, some}
use mathlib.Core.List.{List, [], ◌∷◌}
use native.Mathlib.Omega.{arith}
use evsys.Common.Tests.{Eq, ◌==◌, if◌then◌else◌, if_true, if_false, Bool-cases}
use evsys.Common.Lists.{length, All}

abbrev pub Dict {ℓ κ} : Type ℓ → Type κ → Type (ℓ ⊔ κ)
Dict K V = List (K × V)

unfoldable pub empty {ℓ κ} : {K : Type ℓ} {V : Type κ} → Dict K V
empty = []

-- len(m)
abbrev pub size {ℓ κ} : {K : Type ℓ} {V : Type κ} → Dict K V → ℕ
size d = length d

module _ {ℓ κ} {K : Type ℓ} {V : Type κ} ⦃e : Eq K⦄ where
  unfoldable pub get : K → Dict K V → Option V
  get k [] = none
  get k ((j, v) ∷ d) = if j == k then some v else get k d

  abbrev pub member : K → Dict K V → Bool
  member k d = elim (get k d) [ none ↦ false | some v ↦ true ]

  unfoldable pub put : K → V → Dict K V → Dict K V
  put k v [] = (k, v) ∷ []
  put k v ((j, w) ∷ d) = if j == k then (k, v) ∷ d else (j, w) ∷ put k v d

  unfoldable pub remove : K → Dict K V → Dict K V
  remove k [] = []
  remove k ((j, w) ∷ d) = let rest = remove k d in if j == k then rest else (j, w) ∷ rest

  pub get-empty : (k : K) → get k empty ≡ none
  unfolding get empty
  get-empty k = refl

  pub get-put :
      (k j : K) (v : V) (d : Dict K V) → get j (put k v d) ≡ (if k == j then some v else get j d)
  unfolding get put
  get-put k j v [] = refl
  get-put k j v ((i, w) ∷ d) =
      ground (arith, e.beq_iff k j, e.beq_iff i k, e.beq_iff i j, get-put k j v d)

  pub get-remove :
      (k j : K) (d : Dict K V) → get j (remove k d) ≡ (if k == j then none else get j d)
  unfolding get remove
  get-remove k j [] = ground arith
  get-remove k j ((i, w) ∷ d) =
      ground (arith, e.beq_iff k j, e.beq_iff i k, e.beq_iff i j, get-remove k j d)

  pub get-put_self : (k : K) (v : V) (d : Dict K V) → get k (put k v d) ≡ some v
  get-put_self k v d = ground (arith, get-put k k v d, e.beq_iff k k)

  pub get-put_ne : (k j : K) (v : V) (d : Dict K V) → k ≢ j → get j (put k v d) ≡ get j d
  get-put_ne k j v d h = ground (arith, get-put k j v d, e.beq_iff k j)

  pub get-remove_self : (k : K) (d : Dict K V) → get k (remove k d) ≡ none
  get-remove_self k d = ground (arith, get-remove k k d, e.beq_iff k k)

  pub get-remove_ne : (k j : K) (d : Dict K V) → k ≢ j → get j (remove k d) ≡ get j d
  get-remove_ne k j d h = ground (arith, get-remove k j d, e.beq_iff k j)

pub ruleset dict_laws = (get-empty, get-put, get-remove)

none_ne_some {ℓ} : {A : Type ℓ} (v : A) → none ≢ some v
none_ne_some v h = ground arith

some_eq {ℓ} : {A : Type ℓ} {v w : A} → some v ≡ some w → v ≡ w
some_eq h = ground arith

module _ {ℓ κ} {K : Type ℓ} {V : Type κ} ⦃e : Eq K⦄ where
  -- What holds of every entry holds of the entry that is found.
  pub get-All {ι} :
      (Q : K → V → Type ι) (d : Dict K V) {k : K} {v : V}
      → All (λ (p : K × V). Q p.0 p.1) d
      → get k d ≡ some v
      → Q k v
  unfolding get
  get-All Q [] {v = v} h found_at = absurd (none_ne_some v found_at)
  get-All Q ((j, w) ∷ d) {k = k} {v = v} (q, h) found_at = elim (Bool-cases (j == k)) [
    | inl same ↦
        subst (λ i. Q i v) ((e.beq_iff j k).0 same)
          (subst (λ u. Q j u) (some_eq (sym (if_true (some w) (get k d) same) ∙ found_at)) q)
    | inr other ↦ get-All Q d h (sym (if_false (some w) (get k d) other) ∙ found_at)
  ]
