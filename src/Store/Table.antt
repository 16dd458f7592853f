-- ===== src/Store/Table.antt =====
-- The queries of the services over one table. A `where` clause is a Boolean function of the row and
-- the `data` of an update a function on rows; rows stand newest first, so the first match is the
-- one that `orderBy: { createdAt: 'desc' }` puts first.
use mathlib.Core.Option
use mathlib.Core.Option.{some-injective}
use meduman_backend.Prelude.{
  if◌then◌else◌, Bool-cases, any, All, ℕ, ◌+◌, ◌≤◌, ◌≡◌, refl, subst, inl, inr, Bool, true, false,
  not, Option, none, some, List, [], ◌∷◌, map, arith,
}

module _ {ℓ} {A : Type ℓ} where
  -- `findUnique`, `findFirst`
  unfoldable pub find_first : (A → Bool) → List A → Option A
  find_first p [] = none
  find_first p (x ∷ xs) = if p x then some x else find_first p xs

  -- `findMany`
  unfoldable pub find_many : (A → Bool) → List A → List A
  find_many p [] = []
  find_many p (x ∷ xs) = if p x then x ∷ find_many p xs else find_many p xs

  -- `count`
  unfoldable pub count : (A → Bool) → List A → ℕ
  count p [] = 0
  count p (x ∷ xs) = (if p x then 1 else 0) + count p xs

  -- `update`, `updateMany`: the rows after it
  unfoldable pub update_many : (A → Bool) → (A → A) → List A → List A
  update_many p f [] = []
  update_many p f (x ∷ xs) = (if p x then f x else x) ∷ update_many p f xs

  pub find_first-where :
      (p : A → Bool) (xs : List A) {a : A} → find_first p xs ≡ some a → p a ≡ true
  unfolding find_first
  find_first-where p [] h = ground arith
  find_first-where p (x ∷ xs) {a} h =
      ground (arith, λ (e : find_first p xs ≡ some a). find_first-where p xs {a = a} e)

  -- An update that does not touch the columns of a query changes just the row that it finds.
  pub find_first-update_many :
      (q p : A → Bool) (f : A → A) (xs : List A)
      → ((a : A) → q (f a) ≡ q a)
      → find_first q (update_many p f xs)
        ≡ Option.map (λ a. if p a then f a else a) (find_first q xs)
  unfolding find_first update_many
  find_first-update_many q p f [] h = refl
  find_first-update_many q p f (x ∷ xs) h = ground (arith, h x, find_first-update_many q p f xs h)

  -- Every row that a query lists matches it.
  pub find_many-All : (p : A → Bool) (xs : List A) → All (λ a. p a ≡ true) (find_many p xs)
  unfolding find_many
  find_many-All p [] = tt
  find_many-All p (x ∷ xs) = elim (Bool-cases (p x)) [
    | inl t ↦ rw t (t, find_many-All p xs)
    | inr f ↦ rw f (find_many-All p xs)
  ]

  -- Where no row matches, a removal of the rows that match removes nothing.
  pub find_many-none :
      (p : A → Bool) (xs : List A) → find_first p xs ≡ none → find_many (λ a. not (p a)) xs ≡ xs
  unfolding find_first find_many
  find_many-none p [] h = refl
  find_many-none p (x ∷ xs) h = ground (arith, find_many-none p xs)

  pub update_many_id : (p : A → Bool) (xs : List A) → update_many p (λ a. a) xs ≡ xs
  unfolding update_many
  update_many_id p [] = refl
  update_many_id p (x ∷ xs) = ground (arith, update_many_id p xs)

  -- Where no row matches, an update changes nothing.
  pub update_many_none :
      (p : A → Bool) (f : A → A) (xs : List A) → count p xs ≡ 0 → update_many p f xs ≡ xs
  unfolding update_many count
  update_many_none p f [] h = refl
  update_many_none p f (x ∷ xs) h = ground (arith, update_many_none p f xs)

  pub count_pos_of_find :
      (p : A → Bool) (xs : List A) {a : A} → find_first p xs ≡ some a → 1 ≤ count p xs
  unfolding find_first count
  count_pos_of_find p [] h = ground arith
  count_pos_of_find p (x ∷ xs) {a} h =
      ground (arith, λ (e : find_first p xs ≡ some a). count_pos_of_find p xs {a = a} e)

  pub count-find_none : (p : A → Bool) (xs : List A) → find_first p xs ≡ none → count p xs ≡ 0
  unfolding find_first count
  count-find_none p [] h = refl
  count-find_none p (x ∷ xs) h = ground (arith, count-find_none p xs)

  -- A count over columns that an update leaves alone stays.
  pub count-update_many :
      (q p : A → Bool) (f : A → A) (xs : List A)
      → ((a : A) → q (f a) ≡ q a)
      → count q (update_many p f xs) ≡ count q xs
  unfolding count update_many
  count-update_many q p f [] h = refl
  count-update_many q p f (x ∷ xs) h = ground (arith, h x, count-update_many q p f xs h)

  -- A fact about every row after an update, from what held of the rows before it.
  pub All-update_many {κ} :
      (P Q : A → Type κ) (p : A → Bool) (f : A → A) (xs : List A)
      → ((a : A) → p a ≡ true → P a → Q (f a))
      → ((a : A) → p a ≡ false → P a → Q a)
      → All P xs
      → All Q (update_many p f xs)
  unfolding update_many
  All-update_many P Q p f [] hit miss hs = tt
  All-update_many P Q p f (x ∷ xs) hit miss hs = elim (Bool-cases (p x)) [
    | inl e ↦ rw e (hit x e hs.0, All-update_many P Q p f xs hit miss hs.1)
    | inr e ↦ rw e (miss x e hs.0, All-update_many P Q p f xs hit miss hs.1)
  ]

  pub All-zip {κ} : (P Q : A → Type κ) (xs : List A) → All P xs → All Q xs → All (λ a. P a × Q a) xs
  All-zip P Q [] ps qs = tt
  All-zip P Q (x ∷ xs) ps qs = ((ps.0, qs.0), All-zip P Q xs ps.1 qs.1)

  count_zero_All :
      (p : A → Bool) (a : A) (xs : List A) → count p xs ≡ 0 → All (λ b. p b ≡ true → b ≡ a) xs
  unfolding count
  count_zero_All p a [] h = tt
  count_zero_All p a (x ∷ xs) h =
      ((λ t. absurd (ground arith)), count_zero_All p a xs (ground arith))

  -- Where at most one row matches, the row found is the only one.
  pub unique_row :
      (p : A → Bool) (xs : List A) {a : A}
      → count p xs ≤ 1
      → find_first p xs ≡ some a
      → All (λ b. p b ≡ true → b ≡ a) xs
  unfolding count find_first
  unique_row p [] h e = tt
  unique_row p (x ∷ xs) {a} h e = elim (Bool-cases (p x)) [
    | inl t ↦ ((λ _. some-injective _ _ (rw t at e)), count_zero_All p a xs (ground arith))
    | inr t ↦ ((λ s. absurd (ground arith)), unique_row p xs (ground arith) (rw t at e))
  ]

  pub count-update_many_zero :
      (p : A → Bool) (f : A → A) (xs : List A)
      → ((a : A) → p a ≡ true → p (f a) ≡ false)
      → count p (update_many p f xs) ≡ 0
  unfolding count update_many
  count-update_many_zero p f [] h = refl
  count-update_many_zero p f (x ∷ xs) h = ground (arith, h x, count-update_many_zero p f xs h)

  pub All-find_first {κ} :
      (P : A → Type κ) (p : A → Bool) (xs : List A) {a : A}
      → All P xs
      → find_first p xs ≡ some a
      → P a
  unfolding find_first
  All-find_first P p [] hs e = cc
  All-find_first P p (x ∷ xs) hs e = elim (Bool-cases (p x)) [
    | inl t ↦ subst P (some-injective _ _ (rw t at e)) hs.0
    | inr t ↦ All-find_first P p xs hs.1 (rw t at e)
  ]

  -- An update, and two in a row, as one function on every row.
  pub update_many-map :
      (p : A → Bool) (f h : A → A) (xs : List A)
      → ((a : A) → (if p a then f a else a) ≡ h a)
      → update_many p f xs ≡ map h xs
  unfolding update_many
  update_many-map p f h [] same = refl
  update_many-map p f h (x ∷ xs) same = cc (same x, update_many-map p f h xs same)

  pub update_many_twice :
      (p q : A → Bool) (f g h : A → A) (xs : List A)
      → ((a : A)
          → (if q (if p a then f a else a)
              then g (if p a then f a else a)
              else (if p a then f a else a))
            ≡ h a)
      → update_many q g (update_many p f xs) ≡ map h xs
  unfolding update_many
  update_many_twice p q f g h [] same = refl
  update_many_twice p q f g h (x ∷ xs) same = cc (same x, update_many_twice p q f g h xs same)

  pub find_none-All :
      (p : A → Bool) (xs : List A) → find_first p xs ≡ none → All (λ a. p a ≡ false) xs
  unfolding find_first
  find_none-All p [] h = tt
  find_none-All p (x ∷ xs) h = ground (arith, find_none-All p xs)

  pub any-map-find_first :
      (p q : A → Bool) (f : A → A) (xs : List A) {a : A}
      → ((b : A) → p b ≡ true → q (f b) ≡ true)
      → find_first p xs ≡ some a
      → any q (map f xs) ≡ true
  unfolding find_first
  any-map-find_first p q f [] hit h = cc
  any-map-find_first p q f (x ∷ xs) hit h = elim (Bool-cases (p x)) [
    | inl e ↦ rw (hit x e)
    | inr e ↦ ground (arith, any-map-find_first p q f xs hit (rw e at h))
  ]

  pub find_first-exists :
      (p q : A → Bool) (xs : List A) {a : A}
      → find_first p xs ≡ some a
      → q a ≡ true
      → (b : A) × (find_first q xs ≡ some b)
  unfolding find_first
  find_first-exists p q [] h t = cc
  find_first-exists p q (x ∷ xs) {a} h t = elim (Bool-cases (q x)) [
    | inl e ↦ (x, rw e refl)
    | inr e ↦ elim (Bool-cases (p x)) [
      | inl e' ↦ absurd (ground (arith, e, t, some-injective _ _ (rw e' at h)))
      | inr e' ↦ let (b, g) = find_first-exists p q xs {a = a} (rw e' at h) t in (b, rw e g)
    ]
  ]
