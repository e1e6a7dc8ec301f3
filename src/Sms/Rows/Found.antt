-- ===== src/Sms/Rows/Found.antt =====
-- What is found under a number after each change, and that the numbers stay distinct.
use callstack.Prelude.{
  ℕ, ◌≡◌, refl, sym, subst, ◌∙◌, true, false, List, [], ◌∷◌, ◌++◌, Option, none, some, ◌==◌,
  if◌then◌else◌, arith, Bool-cases, Option-cases, inl, inr, ==_iff, ==_refl,
}
use callstack.Sms.Rows.{is_key, find, put, pop, overwrite, erase, IsKeyed}

-- The number that was tested for is the item's.
pub is_key_same : (k : Option ℕ) (i j : ℕ) → is_key k j ≡ true → is_key k i ≡ (j == i)
is_key_same none i j h = absurd (ground arith)
is_key_same (some l) i j h = ground arith

pub is_key_other :
    (k : Option ℕ) (i j : ℕ) → is_key k j ≡ false → is_key k i ≡ true → (j == i) ≡ false
is_key_other none i j h g = absurd (ground arith)
is_key_other (some l) i j h g = ground arith

module _ {A : Type 0} (key : A → Option ℕ) where
  pub find-put :
      (i j : ℕ) (x : A) (xs : List A)
      → key x ≡ some j
      → find key i (put key j x xs) ≡ (if j == i then some x else find key i xs)
  find-put i j x [] e = rw e refl
  find-put i j x (y ∷ ys) e = elim (Bool-cases (is_key (key y) j)) [
    | inl h ↦ rw h (rw (e, is_key_same (key y) i j h) (ground arith))
    | inr h ↦ rw h (elim (Bool-cases (is_key (key y) i)) [
      | inl g ↦ rw g (rw (is_key_other (key y) i j h g) refl)
      | inr g ↦ rw g (find-put i j x ys e)
    ])
  ]

  find-overwrite_ne :
      (i j : ℕ) (x : A) (xs : List A)
      → key x ≡ some j
      → (j == i) ≡ false
      → find key i (overwrite key j x xs) ≡ find key i xs
  find-overwrite_ne i j x [] e n = refl
  find-overwrite_ne i j x (y ∷ ys) e n = elim (Bool-cases (is_key (key y) j)) [
    | inl h ↦ rw h (rw (e, is_key_same (key y) i j h, n) (find-overwrite_ne i j x ys e n))
    | inr h ↦ rw (h, find-overwrite_ne i j x ys e n) refl
  ]

  find-overwrite_self :
      (j : ℕ) (x y : A) (xs : List A)
      → key x ≡ some j
      → find key j xs ≡ some y
      → find key j (overwrite key j x xs) ≡ some x
  find-overwrite_self j x y [] e f = absurd (ground arith)
  find-overwrite_self j x y (z ∷ zs) e f = elim (Bool-cases (is_key (key z) j)) [
    | inl h ↦ rw h (rw (e, ==_refl j) refl)
    | inr h ↦ rw (h, h) (find-overwrite_self j x y zs e (sym (rw h refl) ∙ f))
  ]

  -- A row that is there is overwritten.
  pub find-overwrite :
      (i j : ℕ) (x y : A) (xs : List A)
      → key x ≡ some j
      → find key j xs ≡ some y
      → find key i (overwrite key j x xs) ≡ (if j == i then some x else find key i xs)
  find-overwrite i j x y xs e f = elim (Bool-cases (j == i)) [
    | inl h ↦ rw h (
        subst (λ i. find key i (overwrite key j x xs) ≡ some x) ((==_iff j i).0 h)
          (find-overwrite_self j x y xs e f))
    | inr h ↦ rw h (find-overwrite_ne i j x xs e h)
  ]

  -- A new row at the end.
  pub find-append :
      (i j : ℕ) (x : A) (xs : List A)
      → key x ≡ some j
      → find key j xs ≡ none
      → find key i (xs ++ (x ∷ [])) ≡ (if j == i then some x else find key i xs)
  find-append i j x [] e f = rw e refl
  find-append i j x (y ∷ ys) e f = elim (Bool-cases (is_key (key y) j)) [
    | inl h ↦ absurd (ground arith)
    | inr h ↦ elim (Bool-cases (is_key (key y) i)) [
      | inl g ↦ rw g (rw (is_key_other (key y) i j h g) refl)
      | inr g ↦ rw g (find-append i j x ys e (sym (rw h refl) ∙ f))
    ]
  ]

  pub find-erase :
      (i j : ℕ) (xs : List A)
      → find key i (erase key j xs) ≡ (if j == i then none else find key i xs)
  find-erase i j [] = ground arith
  find-erase i j (y ∷ ys) = elim (Bool-cases (is_key (key y) j)) [
    | inl h ↦ rw h (find-erase i j ys ∙ rw (is_key_same (key y) i j h) (ground arith))
    | inr h ↦ rw h (elim (Bool-cases (is_key (key y) i)) [
      | inl g ↦ rw g (rw (is_key_other (key y) i j h g) refl)
      | inr g ↦ rw g (find-erase i j ys)
    ])
  ]

  pub head_absent :
      (j : ℕ) (y : A) (ys : List A)
      → IsKeyed key (y ∷ ys)
      → is_key (key y) j ≡ true
      → find key j ys ≡ none
  head_absent j y ys ((l, e, f), k) h =
      subst (λ n. find key n ys ≡ none) ((==_iff l j).0 (sym (rw e refl) ∙ h)) f

  popped :
      (i j : ℕ) (y : A) (ys : List A)
      → find key j ys ≡ none
      → find key i ys ≡ (if j == i then none else (if j == i then some y else find key i ys))
  popped i j y ys f = elim (Bool-cases (j == i)) [
    | inl h ↦ rw h (subst (λ i. find key i ys ≡ none) ((==_iff j i).0 h) f)
    | inr h ↦ rw h refl
  ]

  -- Where the numbers are distinct, nothing is left of the one that is taken out.
  pub find-pop :
      (i j : ℕ) (xs : List A)
      → IsKeyed key xs
      → find key i (pop key j xs) ≡ (if j == i then none else find key i xs)
  find-pop i j [] k = ground arith
  find-pop i j (y ∷ ys) k = elim (Bool-cases (is_key (key y) j)) [
    | inl h ↦ rw h (rw (is_key_same (key y) i j h) (popped i j y ys (head_absent j y ys k h)))
    | inr h ↦ rw h (elim (Bool-cases (is_key (key y) i)) [
      | inl g ↦ rw g (rw (is_key_other (key y) i j h g) refl)
      | inr g ↦ rw g (find-pop i j ys k.1)
    ])
  ]

  own_number : (j l : ℕ) (y : A) → key y ≡ some l → is_key (key y) j ≡ false → (j == l) ≡ false
  own_number j l y e h = is_key_other (key y) l j h (rw e (==_refl l))

  pub put-IsKeyed :
      (j : ℕ) (x : A) (xs : List A) → key x ≡ some j → IsKeyed key xs → IsKeyed key (put key j x xs)
  put-IsKeyed j x [] e k = ((j, e, refl), tt)
  put-IsKeyed j x (y ∷ ys) e ((l, el, f), k) = elim (Bool-cases (is_key (key y) j)) [
    | inl h ↦ rw h ((j, e, head_absent j y ys ((l, el, f), k) h), k)
    | inr h ↦
        rw h ((l, el, find-put l j x ys e ∙ rw (own_number j l y el h) f), put-IsKeyed j x ys e k)
  ]

  pub pop-IsKeyed : (j : ℕ) (xs : List A) → IsKeyed key xs → IsKeyed key (pop key j xs)
  pop-IsKeyed j [] k = tt
  pop-IsKeyed j (y ∷ ys) ((l, el, f), k) = elim (Bool-cases (is_key (key y) j)) [
    | inl h ↦ rw h k
    | inr h ↦ rw h ((l, el, find-pop l j ys k ∙ rw (own_number j l y el h) f), pop-IsKeyed j ys k)
  ]

  -- The item that is found has the number.
  pub key-found : (i : ℕ) (x : A) (xs : List A) → find key i xs ≡ some x → key x ≡ some i
  key-found i x [] e = absurd (ground arith)
  key-found i x (y ∷ ys) e = elim (Option-cases (key y)) [
    | inl h ↦ key-found i x ys (sym (rw h refl) ∙ e)
    | inr (l, h) ↦ elim (Bool-cases (l == i)) [
      | inl g ↦
          let same : ◌≡◌ {A = Option A} (some y) (some x) = sym (rw h (rw g refl)) ∙ e in
          let number : l ≡ i = (==_iff l i).0 g in cc
      | inr g ↦ key-found i x ys (sym (rw h (rw g refl)) ∙ e)
    ]
  ]
