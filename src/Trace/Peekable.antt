-- ===== src/Trace/Peekable.antt =====
-- py_etiss_xvalid/util/peekable_iter.py. The iterator's items are dictionaries, never `None`, so a
-- `None` in the buffer means that nothing was peeked at. `none` as the result of `next` is
-- `StopIteration`.
use etiss_xvalid.Base.{◌≡◌, refl, ap, ◌∙◌, Option, none, some, List, [], ◌∷◌}

pub record Peekable {ℓ} (A : Type ℓ) : Type ℓ where
  pub it : List A
  pub buffer : Option A

module _ {ℓ} {A : Type ℓ} where
  -- `__init__`
  abbrev pub peekable : List A → Peekable A
  peekable items = record { it = items; buffer = none }

  abbrev fill : List A → Option A × Peekable A
  fill [] = (none, record { it = []; buffer = none })
  fill (x ∷ xs) = (some x, record { it = xs; buffer = some x })

  abbrev peek_from : List A → Option A → Option A × Peekable A
  peek_from xs none = fill xs
  peek_from xs (some x) = (some x, record { it = xs; buffer = some x })

  unfoldable pub peek : Peekable A → Option A × Peekable A
  peek p = peek_from p.it p.buffer

  abbrev pull : List A → Option A × Peekable A
  pull [] = (none, record { it = []; buffer = none })
  pull (x ∷ xs) = (some x, record { it = xs; buffer = none })

  abbrev next_from : List A → Option A → Option A × Peekable A
  next_from xs none = pull xs
  next_from xs (some x) = (some x, record { it = xs; buffer = none })

  -- `__next__`
  unfoldable pub next : Peekable A → Option A × Peekable A
  next p = next_from p.it p.buffer

  -- What is still to come.
  abbrev with_buffer : List A → Option A → List A
  with_buffer xs none = xs
  with_buffer xs (some x) = x ∷ xs

  unfoldable pub upcoming : Peekable A → List A
  upcoming p = with_buffer p.it p.buffer

  abbrev pub first? : List A → Option A
  first? [] = none
  first? (x ∷ xs) = some x

  abbrev pub rest_of : List A → List A
  rest_of [] = []
  rest_of (x ∷ xs) = xs

  peek_from_lem :
      (xs : List A) (b : Option A)
      → ((peek_from xs b).0 ≡ first? (with_buffer xs b))
        × (with_buffer (peek_from xs b).1.it (peek_from xs b).1.buffer ≡ with_buffer xs b)
  peek_from_lem [] none = (refl, refl)
  peek_from_lem (x ∷ xs) none = (refl, refl)
  peek_from_lem xs (some b) = (refl, refl)

  next_from_lem :
      (xs : List A) (b : Option A)
      → ((next_from xs b).0 ≡ first? (with_buffer xs b))
        × (with_buffer (next_from xs b).1.it (next_from xs b).1.buffer ≡ rest_of (with_buffer xs b))
  next_from_lem [] none = (refl, refl)
  next_from_lem (x ∷ xs) none = (refl, refl)
  next_from_lem xs (some b) = (refl, refl)

  -- `peek` returns the first of the items still to come and takes none of them away.
  pub peek-upcoming :
      (p : Peekable A) → ((peek p).0 ≡ first? (upcoming p)) × (upcoming (peek p).1 ≡ upcoming p)
  unfolding peek upcoming
  peek-upcoming p = peek_from_lem p.it p.buffer

  -- `next` returns the first of the items still to come and leaves the others, whether or not
  -- something was peeked at before.
  pub next-upcoming :
      (p : Peekable A)
      → ((next p).0 ≡ first? (upcoming p)) × (upcoming (next p).1 ≡ rest_of (upcoming p))
  unfolding next upcoming
  next-upcoming p = next_from_lem p.it p.buffer

  pub next-cons :
      (p : Peekable A) {x : A} {xs : List A}
      → upcoming p ≡ x ∷ xs
      → ((next p).0 ≡ some x) × (upcoming (next p).1 ≡ xs)
  next-cons p u = ((next-upcoming p).0 ∙ ap first? u, (next-upcoming p).1 ∙ ap rest_of u)

  pub next-nil :
      (p : Peekable A) → upcoming p ≡ [] → ((next p).0 ≡ none) × (upcoming (next p).1 ≡ [])
  next-nil p u = ((next-upcoming p).0 ∙ ap first? u, (next-upcoming p).1 ∙ ap rest_of u)

  -- What `next` returns after a `peek` is what `peek` returned, and both leave the same items as
  -- `next` alone.
  next-peek :
      (p : Peekable A)
      → ((next (peek p).1).0 ≡ (peek p).0) × (upcoming (next (peek p).1).1 ≡ upcoming (next p).1)
  next-peek p = (
    cc ((next-upcoming (peek p).1).0, (peek-upcoming p).0, (peek-upcoming p).1),
    cc ((next-upcoming (peek p).1).1, (next-upcoming p).1, (peek-upcoming p).1),
  )

  pub upcoming-peekable : (items : List A) → upcoming (peekable items) ≡ items
  unfolding upcoming
  upcoming-peekable items = refl
