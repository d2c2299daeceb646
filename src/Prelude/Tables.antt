-- ===== src/Prelude/Tables.antt =====
-- Tables as lists of rows, with what SELECT, UPDATE and DELETE do to them.
use Prim.Native.Nat.{ℕ, suc, ◌+◌, ◌≤◌}
use mathlib.Core.Path.{◌≡◌, refl, subst}
use mathlib.Core.Logic.{inl, inr}
use mathlib.Core.Bool.{Bool, true, false, not, ◌&&◌, ◌||◌}
use mathlib.Core.Option.{Option, none, some}
use mathlib.Core.List.{List, [], ◌∷◌, ◌++◌}
use native.Mathlib.Omega.{arith}
use along.Prelude.Tests.{if◌then◌else◌, Bool-cases, is_some}
use along.Prelude.Lists.{any, All}

module _ {ℓ} {A : Type ℓ} where
  -- SELECT … WHERE p: the first row, if any.
  unfoldable pub find : (A → Bool) → List A → Option A
  find p [] = none
  find p (x ∷ xs) = if p x then some x else find p xs

  -- SELECT … WHERE p: all rows.
  unfoldable pub select : (A → Bool) → List A → List A
  select p [] = []
  select p (x ∷ xs) = let rest = select p xs in if p x then x ∷ rest else rest

  -- UPDATE … SET f WHERE p.
  unfoldable pub update : (A → Bool) → (A → A) → List A → List A
  update p f [] = []
  update p f (x ∷ xs) = (if p x then f x else x) ∷ update p f xs

  -- DELETE … WHERE p.
  unfoldable pub delete : (A → Bool) → List A → List A
  delete p [] = []
  delete p (x ∷ xs) = let rest = delete p xs in if p x then rest else x ∷ rest

  -- The number of rows that WHERE p selects.
  unfoldable pub count : (A → Bool) → List A → ℕ
  count p [] = 0
  count p (x ∷ xs) = let rest = count p xs in if p x then suc rest else rest

  pub find-holds : (p : A → Bool) (xs : List A) (x : A) → find p xs ≡ some x → p x ≡ true
  unfolding find
  find-holds p [] x e = cc
  find-holds p (y ∷ ys) x e = ground (arith, find-holds p ys x)

  pub any-find : (p : A → Bool) (xs : List A) → any p xs ≡ is_some (find p xs)
  unfolding find
  any-find p [] = refl
  any-find p (x ∷ xs) = ground (arith, any-find p xs)

  pub find-of-any : (p : A → Bool) (xs : List A) → any p xs ≡ true → (x : A) × (find p xs ≡ some x)
  find-of-any p xs h = ground (arith, any-find p xs)

  -- UPDATE leaves alone what it does not select.
  pub update_none : (p : A → Bool) (f : A → A) (xs : List A) → any p xs ≡ false → update p f xs ≡ xs
  unfolding update
  update_none p f [] h = refl
  update_none p f (x ∷ xs) h = ground (arith, update_none p f xs)

  pub any-update :
      (q p : A → Bool) (f : A → A)
      → ((x : A) → q (f x) ≡ q x)
      → (xs : List A) → any q (update p f xs) ≡ any q xs
  unfolding update
  any-update q p f keep [] = refl
  any-update q p f keep (x ∷ xs) = ground (arith, keep x, any-update q p f keep xs)

  -- UPDATE of the rows that a lookup selects updates the row that it finds.
  pub find-update :
      (p : A → Bool) (f : A → A)
      → ((x : A) → p (f x) ≡ p x)
      → (xs : List A) (x : A) → find p xs ≡ some x
      → find p (update p f xs) ≡ some (f x)
  unfolding find update
  find-update p f keep [] x e = cc
  find-update p f keep (y ∷ ys) x e = ground (arith, keep y, find-update p f keep ys x)

  -- The row that a lookup finds, after an UPDATE that does not change what the lookup tests.
  pub find-update_by :
      (p q : A → Bool) (f : A → A)
      → ((x : A) → p (f x) ≡ p x)
      → (xs : List A) (x : A) → find p xs ≡ some x
      → find p (update q f xs) ≡ some (if q x then f x else x)
  unfolding find update
  find-update_by p q f keep [] x e = cc
  find-update_by p q f keep (y ∷ ys) x e = ground (arith, keep y, find-update_by p q f keep ys x)

  pub find-append :
      (p : A → Bool) (xs ys : List A) (x : A) → find p xs ≡ some x → find p (xs ++ ys) ≡ some x
  unfolding find
  find-append p [] ys x e = cc
  find-append p (y ∷ xs) ys x e = ground (arith, find-append p xs ys x)

  -- UPDATE leaves the rows that it does not select, in their order.
  pub select-update-not :
      (p : A → Bool) (f : A → A)
      → ((x : A) → p (f x) ≡ p x)
      → (xs : List A) → select (λ x. not (p x)) (update p f xs) ≡ select (λ x. not (p x)) xs
  unfolding select update
  select-update-not p f keep [] = refl
  select-update-not p f keep (x ∷ xs) = ground (arith, keep x, select-update-not p f keep xs)

  pub any-append : (p : A → Bool) (xs ys : List A) → any p (xs ++ ys) ≡ (any p xs || any p ys)
  any-append p [] ys = refl
  any-append p (x ∷ xs) ys = ground (arith, any-append p xs ys)

module _ {ℓ} {A : Type ℓ} where
  pub count-append : (p : A → Bool) (xs ys : List A) → count p (xs ++ ys) ≡ count p xs + count p ys
  unfolding count
  count-append p [] ys = omega arith
  count-append p (x ∷ xs) ys = ground (arith, count-append p xs ys)

  -- UPDATE that does not change what is counted.
  pub count-update_keep :
      (p q : A → Bool) (f : A → A)
      → ((x : A) → p (f x) ≡ p x)
      → (xs : List A) → count p (update q f xs) ≡ count p xs
  unfolding count update
  count-update_keep p q f keep [] = refl
  count-update_keep p q f keep (x ∷ xs) = ground (arith, keep x, count-update_keep p q f keep xs)

  -- UPDATE after which no row that it selects is counted.
  pub count-update_drop :
      (p q : A → Bool) (f : A → A)
      → ((x : A) → p (f x) ≡ false)
      → (xs : List A) → count p (update q f xs) + count (λ x. p x && q x) xs ≡ count p xs
  unfolding count update
  count-update_drop p q f drop [] = omega arith
  count-update_drop p q f drop (x ∷ xs) = ground (arith, drop x, count-update_drop p q f drop xs)

  pub count-of-found :
      (p q : A → Bool) (xs : List A) (x : A) → find q xs ≡ some x → p x ≡ true → 1 ≤ count p xs
  unfolding count find
  count-of-found p q [] x e h = cc
  count-of-found p q (y ∷ ys) x e h = ground (arith, count-of-found p q ys x)

module _ {ℓ κ} {A : Type ℓ} (P : A → Type κ) where
  pub All-find : (p : A → Bool) (xs : List A) {x : A} → All P xs → find p xs ≡ some x → P x
  unfolding find
  All-find p [] h e = cc
  All-find p (y ∷ ys) {x} h e = elim (Bool-cases (p y)) [
    | inl hit ↦ subst P (ground arith) h.0
    | inr miss ↦ All-find p ys h.1 (ground arith)
  ]

  pub All-delete : (q : A → Bool) (xs : List A) → All P xs → All P (delete q xs)
  unfolding delete
  All-delete q [] h = tt
  All-delete q (x ∷ xs) h = elim (Bool-cases (q x)) [
    | inl hit ↦ rw hit (All-delete q xs h.1)
    | inr miss ↦ rw miss (h.0, All-delete q xs h.1)
  ]

  pub All-update :
      (p : A → Bool) (f : A → A)
      → ((x : A) → P x → p x ≡ true → P (f x))
      → (xs : List A) → All P xs
      → All P (update p f xs)
  unfolding update
  All-update p f keep [] h = tt
  All-update p f keep (x ∷ xs) h = elim (Bool-cases (p x)) [
    | inl hit ↦ rw hit (keep x h.0 hit, All-update p f keep xs h.1)
    | inr miss ↦ rw miss (h.0, All-update p f keep xs h.1)
  ]

  pub All-update_cases :
      (p : A → Bool) (f : A → A)
      → ((x : A) → p x ≡ true → P (f x))
      → ((x : A) → p x ≡ false → P x)
      → (xs : List A) → All P (update p f xs)
  unfolding update
  All-update_cases p f changed left [] = tt
  All-update_cases p f changed left (x ∷ xs) = elim (Bool-cases (p x)) [
    | inl hit ↦ rw hit (changed x hit, All-update_cases p f changed left xs)
    | inr miss ↦ rw miss (left x miss, All-update_cases p f changed left xs)
  ]

module _ {ℓ} {A : Type ℓ} where
  pub find-none : (p : A → Bool) (xs : List A) → All (λ x. p x ≡ false) xs → find p xs ≡ none
  unfolding find
  find-none p [] h = refl
  find-none p (x ∷ xs) h = ground (arith, h.0, find-none p xs h.1)

  pub All-of-find : (p : A → Bool) (xs : List A) → find p xs ≡ none → All (λ x. p x ≡ false) xs
  unfolding find
  All-of-find p [] h = tt
  All-of-find p (x ∷ xs) h = elim (Bool-cases (p x)) [
    | inl hit ↦ ground arith
    | inr miss ↦ (miss, All-of-find p xs (ground arith))
  ]

  pub count_zero : (p : A → Bool) (xs : List A) → All (λ x. p x ≡ false) xs → count p xs ≡ 0
  unfolding count
  count_zero p [] h = refl
  count_zero p (x ∷ xs) h = ground (arith, h.0, count_zero p xs h.1)

  pub All-of-any : (p : A → Bool) (xs : List A) → any p xs ≡ false → All (λ x. p x ≡ false) xs
  All-of-any p [] h = tt
  All-of-any p (x ∷ xs) h = (ground arith, All-of-any p xs (ground arith))

  pub find-append_none :
      (p : A → Bool) (xs ys : List A) → find p xs ≡ none → find p (xs ++ ys) ≡ find p ys
  unfolding find
  find-append_none p [] ys h = refl
  find-append_none p (x ∷ xs) ys h = ground (arith, find-append_none p xs ys)

  pub select-append :
      (p : A → Bool) (xs ys : List A) → select p (xs ++ ys) ≡ select p xs ++ select p ys
  unfolding select
  select-append p [] ys = refl
  select-append p (x ∷ xs) ys = ground (arith, select-append p xs ys)

  -- Nothing that a DELETE has selected can be found.
  pub delete-All : (q : A → Bool) (xs : List A) → All (λ x. q x ≡ false) (delete q xs)
  unfolding delete
  delete-All q [] = tt
  delete-All q (x ∷ xs) = elim (Bool-cases (q x)) [
    | inl hit ↦ rw hit (delete-All q xs)
    | inr miss ↦ rw miss (miss, delete-All q xs)
  ]

  pub select_none : (p : A → Bool) (xs : List A) → All (λ x. p x ≡ false) xs → select p xs ≡ []
  unfolding select
  select_none p [] h = refl
  select_none p (x ∷ xs) h = ground (arith, h.0, select_none p xs h.1)

  pub select_every : (p : A → Bool) (xs : List A) → All (λ x. p x ≡ true) xs → select p xs ≡ xs
  unfolding select
  select_every p [] h = refl
  select_every p (x ∷ xs) h = ground (arith, h.0, select_every p xs h.1)

  pub any-of-All : (p : A → Bool) (xs : List A) → All (λ x. p x ≡ false) xs → any p xs ≡ false
  any-of-All p [] h = refl
  any-of-All p (x ∷ xs) h = ground (arith, h.0, any-of-All p xs h.1)

  pub any-mono_true :
      (p q : A → Bool)
      → ((x : A) → p x ≡ true → q x ≡ true)
      → (xs : List A) → any p xs ≡ true
      → any q xs ≡ true
  any-mono_true p q h [] e = cc
  any-mono_true p q h (x ∷ xs) e = ground (arith, h x, any-mono_true p q h xs)

  -- DELETE of rows other than those that a test looks for.
  pub any-delete :
      (p q : A → Bool)
      → ((x : A) → p x ≡ true → q x ≡ false)
      → (xs : List A) → any p (delete q xs) ≡ any p xs
  unfolding delete
  any-delete p q spare [] = refl
  any-delete p q spare (x ∷ xs) = ground (arith, spare x, any-delete p q spare xs)

  pub any-delete_none :
      (p q : A → Bool) (xs : List A) → any p xs ≡ false → any p (delete q xs) ≡ false
  unfolding delete
  any-delete_none p q [] h = refl
  any-delete_none p q (x ∷ xs) h = ground (arith, any-delete_none p q xs)

  -- A row that is deleted again after it was inserted.
  pub delete-append_one :
      (q : A → Bool) (xs : List A) (x : A)
      → All (λ y. q y ≡ false) xs
      → q x ≡ true
      → delete q (xs ++ x ∷ []) ≡ xs
  unfolding delete
  delete-append_one q [] x h hit = ground (arith, hit)
  delete-append_one q (y ∷ ys) x h hit = ground (arith, h.0, delete-append_one q ys x h.1 hit)
