-- ===== src/Sms/Rows.antt =====
-- Lists whose items have a number, as the store's lists, its dictionaries and the tables of SQLite
-- are (callstack/sms/store.py).
pub mod Found
pub mod Sorted
use callstack.Prelude.{
  ℕ, ◌≡◌, refl, Bool, true, false, List, [], ◌∷◌, Option, none, some, ◌==◌, if◌then◌else◌,
}

abbrev pub is_key : Option ℕ → ℕ → Bool
is_key none i = false
is_key (some j) i = j == i

module _ {A : Type 0} (key : A → Option ℕ) where
  -- The first item with the number: `for msg in self._messages: if msg.id == id: return msg`.
  abbrev pub find : ℕ → List A → Option A
  find i [] = none
  find i (x ∷ xs) = if is_key (key x) i then some x else find i xs

  -- In the place of the first item with the number, or at the end.
  abbrev pub put : ℕ → A → List A → List A
  put i x [] = x ∷ []
  put i x (y ∷ ys) = if is_key (key y) i then x ∷ ys else y ∷ put i x ys

  -- Without the first item with the number.
  abbrev pub pop : ℕ → List A → List A
  pop i [] = []
  pop i (y ∷ ys) = if is_key (key y) i then ys else y ∷ pop i ys

  -- `UPDATE ... WHERE id=?`: every row with the number.
  abbrev pub overwrite : ℕ → A → List A → List A
  overwrite i x [] = []
  overwrite i x (y ∷ ys) = (if is_key (key y) i then x else y) ∷ overwrite i x ys

  -- `DELETE ... WHERE id = ?`: every row with the number.
  abbrev pub erase : ℕ → List A → List A
  erase i [] = []
  erase i (y ∷ ys) = if is_key (key y) i then erase i ys else y ∷ erase i ys

  -- Every item has a number, and no two have the same.
  abbrev pub IsKeyed : List A → Type 0
  IsKeyed [] = Unit
  IsKeyed (x ∷ xs) = ((i : ℕ) × (key x ≡ some i) × (find i xs ≡ none)) × IsKeyed xs
