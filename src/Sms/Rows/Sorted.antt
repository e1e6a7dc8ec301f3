-- ===== src/Sms/Rows/Sorted.antt =====
-- A sort by the number finds the same items under the same numbers, where these are distinct.
use callstack.Prelude.{
  ℕ, ◌≤◌, ◌<◌, ◌≡◌, refl, ap, sym, ◌∙◌, true, false, List, [], ◌∷◌, Option, none, some, leb,
  if◌then◌else◌, arith, Bool-cases, inl, inr, branches, ==_refl,
}
use callstack.Sms.Rows.{is_key, find, IsKeyed}
use callstack.Sms.Rows.Found.{is_key_other}
use callstack.Sms.Store.Open.{or_zero, insert_by, sort_by, past, next_past}

pub past_le : (n : ℕ) (o : Option ℕ) → n ≤ past n o
past_le n none = omega arith
past_le n (some i) = ground arith

pub past_key : (n i : ℕ) (o : Option ℕ) → is_key o i ≡ true → i < past n o
past_key n i none h = absurd (ground arith)
past_key n i (some j) h = ground arith

module _ {A : Type 0} (key : A → Option ℕ) where
  pub absent :
      (l : ℕ) (y : A) (ys : List A)
      → find key l (y ∷ ys) ≡ none
      → (is_key (key y) l ≡ false) × (find key l ys ≡ none)
  absent l y ys f = elim (Bool-cases (is_key (key y) l)) [
    | inl h ↦ absurd (ground arith)
    | inr h ↦ (h, sym (rw h refl) ∙ f)
  ]

  pub absent_in :
      (l : ℕ) (y : A) (ys : List A)
      → is_key (key y) l ≡ false
      → find key l ys ≡ none
      → find key l (y ∷ ys) ≡ none
  absent_in l y ys h f = rw h f

  find-insert :
      (i l : ℕ) (x : A) (xs : List A)
      → key x ≡ some l
      → find key l xs ≡ none
      → find key i (insert_by key x xs) ≡ find key i (x ∷ xs)
  find-insert i l x [] e f = refl
  find-insert i l x (y ∷ ys) e f =
      branches (λ zs. find key i zs ≡ find key i (x ∷ y ∷ ys))
        (leb (or_zero (key x)) (or_zero (key y))) refl
        (elim (Bool-cases (is_key (key y) i)) [
          | inl g ↦ rw g (rw e (rw (is_key_other (key y) i l (absent l y ys f).0 g) refl))
          | inr g ↦ rw g (find-insert i l x ys e (absent l y ys f).1)
        ])

  insert-IsKeyed :
      (l : ℕ) (x : A) (xs : List A)
      → key x ≡ some l
      → find key l xs ≡ none
      → IsKeyed key xs
      → IsKeyed key (insert_by key x xs)
  insert-IsKeyed l x [] e f k = ((l, e, refl), tt)
  insert-IsKeyed l x (y ∷ ys) e f ((j, ej, fj), k) =
      branches (IsKeyed key) (leb (or_zero (key x)) (or_zero (key y))) ((l, e, f), ((j, ej, fj), k))
        (
          (
            j,
            ej,
            find-insert j l x ys e (absent l y ys f).1
                ∙ rw e (rw (is_key_other (key y) j l (absent l y ys f).0 (rw ej (==_refl j))) fj),
          ),
          insert-IsKeyed l x ys e (absent l y ys f).1 k,
        )

  pub find-sort :
      (i : ℕ) (xs : List A) → IsKeyed key xs → find key i (sort_by key xs) ≡ find key i xs
  find-sort i [] k = refl
  find-sort i (x ∷ xs) ((l, e, f), k) =
      find-insert i l x (sort_by key xs) e (find-sort l xs k ∙ f)
      ∙ ap (λ o. if is_key (key x) i then some x else o) (find-sort i xs k)

  pub sort-IsKeyed : (xs : List A) → IsKeyed key xs → IsKeyed key (sort_by key xs)
  sort-IsKeyed [] k = tt
  sort-IsKeyed (x ∷ xs) ((l, e, f), k) =
      insert-IsKeyed l x (sort_by key xs) e (find-sort l xs k ∙ f) (sort-IsKeyed xs k)

  -- Every number that is found is less.
  abbrev pub IsBelow : ℕ → List A → Type 0
  IsBelow n xs = (i : ℕ) (x : A) → find key i xs ≡ some x → i < n

  next_past_le : (n : ℕ) (xs : List A) → n ≤ next_past key n xs
  next_past_le n [] = omega arith
  next_past_le n (x ∷ xs) = omega (arith, past_le n (key x), next_past_le (past n (key x)) xs)

  pub next_past-IsBelow : (n : ℕ) (xs : List A) → IsBelow (next_past key n xs) xs
  next_past-IsBelow n [] i x e = absurd (ground arith)
  next_past-IsBelow n (y ∷ ys) i x e = elim (Bool-cases (is_key (key y) i)) [
    | inl h ↦ omega (arith, past_key n i (key y) h, next_past_le (past n (key y)) ys)
    | inr h ↦ next_past-IsBelow (past n (key y)) ys i x (sym (rw h refl) ∙ e)
  ]
