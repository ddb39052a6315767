-- ===== src/Power/Balancer/Slots.antt =====
-- The limit that a pass of the balancer assigns.
use evsys.Common.{
  All, Bool-cases, List, [], ap, elem, false, if_false, if_true, inl, inr, int_has_eq, nat_has_eq,
  refl, string_has_eq, subst, sym, true, ℤ, ◌++◌, ◌∙◌, ◌∷◌, ◌≡◌, ◌⊎◌,
}
use evsys.Power.Balancer.{assigned_limit, base_limit, first_free, power_slots}

-- The slot is the first of `slots` that is not in use.
pub record IsFirstFree (slots used : List ℤ) (slot : ℤ) : Type 0 where
  pub before : List ℤ
  pub after : List ℤ
  pub split : slots ≡ before ++ slot ∷ after
  pub taken : All (λ s. elem s used ≡ true) before
  pub free : elem slot used ≡ false

first_free_lem :
    (slots used : List ℤ)
    → IsFirstFree slots used (first_free slots used)
      ⊎ ((first_free slots used ≡ base_limit) × All (λ s. elem s used ≡ true) slots)
unfolding first_free
first_free_lem [] used = inr (refl, tt)
first_free_lem (slot ∷ slots) used = elim (Bool-cases (elem slot used)) [
  | inr free ↦ inl (
      subst (IsFirstFree (slot ∷ slots) used) (sym (if_false _ slot free))
        record { before = []; after = slots; split = refl; taken = tt; free = free })
  | inl taken ↦
      let here = if_true (first_free slots used) slot taken in
      elim (first_free_lem slots used) [
        | inl first ↦ inl (
            subst (IsFirstFree (slot ∷ slots) used) (sym here) record {
              before = slot ∷ first.before;
              after = first.after;
              split = ap (λ (xs : List ℤ). slot ∷ xs) first.split;
              taken = (taken, first.taken);
              free = first.free;
            })
        | inr (base, all) ↦ inr (here ∙ base, (taken, all))
      ]
]

-- The limit for new sessions is the highest slot that is not in use, or, exactly where all four are
-- in use, the base limit.
pub assigned_limit_highest_free :
    (used : List ℤ)
    → IsFirstFree power_slots used (assigned_limit used)
      ⊎ ((assigned_limit used ≡ base_limit) × All (λ s. elem s used ≡ true) power_slots)
unfolding assigned_limit
assigned_limit_highest_free used = first_free_lem power_slots used
