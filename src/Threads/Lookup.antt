-- ===== src/Threads/Lookup.antt =====
-- A container of hw10-threads/topn_container.c as a map from keys to values.
use otus_c_2025_3_kushko.Common.{
  ℕ, ◌≤◌, ◌<◌, ◌≡◌, inl, inr, refl, ap, sym, ◌∙◌, Bool, true, ◌&&◌, if◌then◌else◌, List, [], ◌∷◌,
  arith, Bool-cases, Option, none, some, Option-cases,
}
use otus_c_2025_3_kushko.Common.Int.{ℤ, ◌+ℤ◌}
use otus_c_2025_3_kushko.Threads.Glib.{Glib, Strings, count}
use otus_c_2025_3_kushko.Threads.Topn.{ListItem, same_key, eq_ℤ, bump, then_item}
use otus_c_2025_3_kushko.Common.Int.{wrap_int}
use otus_c_2025_3_kushko.Threads.Order.{eq_ℤ-eq, eq_ℤ_refl, same_key-eq}

module _ (glib : Glib ListItem) (strings : Strings) where
  abbrev same : List ℕ → List ℕ → Bool
  same = same_key glib strings

  -- The value of the first item of a key.
  unfoldable pub lookup : List ListItem → List ℕ → Option ℤ
  lookup [] key = none
  lookup (item ∷ items) key = if same item.key key then some item.value else lookup items key

  abbrev pub has_key : List ℕ → ListItem → Bool
  has_key key item = same item.key key

  abbrev has : List ℕ → ℤ → ListItem → Bool
  has key value item = same item.key key && eq_ℤ item.value value

  -- No two items have one key.
  abbrev pub AreApart : List ListItem → Type 0
  AreApart items = (key : List ℕ) → count (has_key key) items ≤ 1

  lookup-some :
      (items : List ListItem) (key : List ℕ) (value : ℤ)
      → lookup items key ≡ some value
      → 0 < count (has key value) items
  unfolding lookup count
  lookup-some [] key value h = cc
  lookup-some (item ∷ items) key value h =
      ground (arith, eq_ℤ_refl value, lookup-some items key value)

  pub lookup-none :
      (items : List ListItem) (key : List ℕ)
      → lookup items key ≡ none
      → count (has_key key) items ≡ 0
  unfolding lookup count
  lookup-none [] key h = refl
  lookup-none (item ∷ items) key h = ground (arith, lookup-none items key)

  pub none-lookup :
      (items : List ListItem) (key : List ℕ)
      → count (has_key key) items ≡ 0
      → lookup items key ≡ none
  unfolding lookup count
  none-lookup [] key h = refl
  none-lookup (item ∷ items) key h = ground (arith, none-lookup items key)

  has-le :
      (items : List ListItem) (key : List ℕ) (value : ℤ)
      → count (has key value) items ≤ count (has_key key) items
  unfolding count
  has-le [] key value = omega arith
  has-le (item ∷ items) key value = ground (arith, has-le items key value)

  some-lookup :
      (items : List ListItem) (key : List ℕ) (value : ℤ)
      → count (has_key key) items ≤ 1
      → 0 < count (has key value) items
      → lookup items key ≡ some value
  unfolding lookup count
  some-lookup [] key value h k = absurd (omega arith)
  some-lookup (item ∷ items) key value h k =
      ground (arith, eq_ℤ-eq item.value value, has-le items key value, some-lookup items key value)

  -- A list with each item as often as another's has the same lookups.
  pub lookup-counts :
      (items items' : List ListItem)
      → AreApart items
      → ((p : ListItem → Bool) → count p items' ≡ count p items)
      → (key : List ℕ) → lookup items' key ≡ lookup items key
  lookup-counts items items' apart same_counts key = elim (Option-cases (lookup items key)) [
    | inl e ↦ none-lookup items' key (same_counts (has_key key) ∙ lookup-none items key e) ∙ sym e
    | inr (value, e) ↦
        some-lookup items' key value (omega (arith, same_counts (has_key key), apart key))
          (omega (arith, same_counts (has key value), lookup-some items key value e))
        ∙ sym e
  ]

  pub counts-AreApart :
      (items items' : List ListItem)
      → AreApart items
      → ((p : ListItem → Bool) → count p items' ≡ count p items)
      → AreApart items'
  counts-AreApart items items' apart same_counts key =
      omega (arith, same_counts (has_key key), apart key)

  -- The map with `value` added to a key's, which is `value` when the key was not there.
  unfoldable pub upsert : (List ℕ → Option ℤ) → List ℕ → ℤ → List ℕ → Option ℤ
  upsert map key value key' =
      if same key key'
      then elim (map key) [ none ↦ some value | some old ↦ some (wrap_int (old +ℤ value)) ]
      else map key'

  pub same-left : (a b c : List ℕ) → same a b ≡ true → same a c ≡ same b c
  same-left a b c h = ap (λ k. same k c) (same_key-eq glib strings a b h)

  same-right : (a b c : List ℕ) → same b c ≡ true → same a b ≡ same a c
  same-right a b c h = ap (λ k. same a k) (same_key-eq glib strings b c h)

  pub bump-none :
      (items : List ListItem) (key : List ℕ) (value : ℤ)
      → bump glib strings key value items ≡ none
      → lookup items key ≡ none
  unfolding bump lookup then_item
  bump-none [] key value h = refl
  bump-none (item ∷ items) key value h = ground (arith, bump-none items key value)

  pub bump-has_key :
      (items items' : List ListItem) (key : List ℕ) (value : ℤ) (key' : List ℕ)
      → bump glib strings key value items ≡ some items'
      → count (has_key key') items' ≡ count (has_key key') items
  unfolding bump count then_item
  bump-has_key [] items' key value key' h = cc
  bump-has_key (item ∷ items) items' key value key' h = elim (Bool-cases (same item.key key)) [
    | inl e ↦ ground arith
    | inr e ↦ elim (Option-cases (bump glib strings key value items)) [
      | inl absent ↦ absurd (ground arith)
      | inr (rest, found) ↦
          let later = bump-has_key items rest key value key' found in
          let here : item ∷ rest ≡ items' = ground arith in rw (← here) (ground (arith, later))
    ]
  ]

  pub bump-lookup :
      (items items' : List ListItem) (key : List ℕ) (value : ℤ) (key' : List ℕ)
      → bump glib strings key value items ≡ some items'
      → lookup items' key' ≡ upsert (lookup items) key value key'
  unfolding bump lookup upsert then_item
  bump-lookup [] items' key value key' h = cc
  bump-lookup (item ∷ items) items' key value key' h = elim (Bool-cases (same item.key key)) [
    | inl e ↦ ground (arith, same-left item.key key key')
    | inr e ↦ elim (Option-cases (bump glib strings key value items)) [
      | inl absent ↦ absurd (ground arith)
      | inr (rest, found) ↦
          let later = bump-lookup items rest key value key' found in
          let here : item ∷ rest ≡ items' = ground arith in
          rw (← here) (ground (arith, later, same-right item.key key key'))
    ]
  ]
