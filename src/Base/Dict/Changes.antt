-- ===== src/Base/Dict/Changes.antt =====
-- Changes of a dictionary in place, and what a change leaves distinct.
use etiss_xvalid.Base.{◌≡◌, refl, true, none, some, [], ◌∷◌, arith, Bool-cases, inl, inr, All}
use etiss_xvalid.Base.Text.{Text, text_eq, text_eq_refl, text_eq_iff}
use etiss_xvalid.Base.Dict.{Dict, lookup, insert, lookup-insert, update}

module _ {ℓ} {V : Type ℓ} where
  pub update-update :
      (k : Text) (f g : V → V) (d : Dict V) → update k f (update k g d) ≡ update k (λ v. f (g v)) d
  unfolding update
  update-update k f g [] = refl
  update-update k f g ((j, v) ∷ d) = elim (Bool-cases (text_eq j k)) [
    | inl same ↦ rw (same, same) refl
    | inr other ↦ rw (other, other, update-update k f g d) refl
  ]

  pub update-congruent :
      (k : Text) (f g : V → V) (d : Dict V) → ((v : V) → f v ≡ g v) → update k f d ≡ update k g d
  unfolding update
  update-congruent k f g [] h = refl
  update-congruent k f g ((j, v) ∷ d) h = rw (h v, update-congruent k f g d h) refl

  pub lookup-update-some :
      (k : Text) (f : V → V) (v : V) (d : Dict V)
      → lookup k d ≡ some v
      → lookup k (update k f d) ≡ some (f v)
  unfolding update lookup
  lookup-update-some k f v [] h = cc
  lookup-update-some k f v ((j, w) ∷ d) h = ground (arith, lookup-update-some k f v d)

  lookup-update-none :
      (j k : Text) (f : V → V) (d : Dict V) → lookup j d ≡ none → lookup j (update k f d) ≡ none
  unfolding update lookup
  lookup-update-none j k f [] h = refl
  lookup-update-none j k f ((i, w) ∷ d) h = ground (arith, lookup-update-none j k f d)

  -- No key is there twice.
  abbrev pub HasDistinctKeys : Dict V → Type ℓ
  HasDistinctKeys [] = Unit
  HasDistinctKeys ((k, v) ∷ d) = (lookup k d ≡ none) × HasDistinctKeys d

  pub insert-HasDistinctKeys :
      (k : Text) (v : V) (d : Dict V) → HasDistinctKeys d → HasDistinctKeys (insert k v d)
  unfolding insert lookup
  insert-HasDistinctKeys k v [] h = (refl, tt)
  insert-HasDistinctKeys k v ((j, w) ∷ d) h = ground (
    arith,
    text_eq_iff j k,
    text_eq_iff k j,
    lookup-insert k j v d,
    insert-HasDistinctKeys k v d h.1,
  )

  pub insert-All {κ} :
      (P : Text × V → Type κ) (k : Text) (v : V) (d : Dict V)
      → ((j : Text) → text_eq j k ≡ true → P (j, v))
      → All P d
      → All P (insert k v d)
  unfolding insert
  insert-All P k v [] p h = ((p k (text_eq_refl k)), tt)
  insert-All P k v ((j, w) ∷ d) p h = elim (Bool-cases (text_eq j k)) [
    | inl same ↦ rw same (p j same, h.1)
    | inr other ↦ rw other (h.0, insert-All P k v d p h.1)
  ]

  pub update-All {κ} :
      (P : Text × V → Type κ) (k : Text) (f : V → V) (d : Dict V)
      → ((j : Text) (v : V) → P (j, v) → P (j, f v))
      → All P d
      → All P (update k f d)
  unfolding update
  update-All P k f [] p h = tt
  update-All P k f ((j, w) ∷ d) p h = elim (Bool-cases (text_eq j k)) [
    | inl same ↦ rw same (p j w h.0, h.1)
    | inr other ↦ rw other (h.0, update-All P k f d p h.1)
  ]

  pub update-HasDistinctKeys :
      (k : Text) (f : V → V) (d : Dict V) → HasDistinctKeys d → HasDistinctKeys (update k f d)
  unfolding update
  update-HasDistinctKeys k f [] h = tt
  update-HasDistinctKeys k f ((j, w) ∷ d) h =
      ground (arith, lookup-update-none j k f d h.0, update-HasDistinctKeys k f d h.1)
