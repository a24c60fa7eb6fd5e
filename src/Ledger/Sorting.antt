-- ===== src/Ledger/Sorting.antt =====
-- The lines of a statement are in the order of time.
use prime_detailer_backend.Base.{String, Bool, refl, inl, inr, Bool-cases, List, [], ◌∷◌, arith}
use prime_detailer_backend.Base.Int.{ℤ, ◌≤ℤ◌, leb_ℤ}
use prime_detailer_backend.Ledger.Statement.{Entry, insert_entry, sort_entries}
use mathlib.Core.List.{Permᴰ}
use mathlib.Core.List.Permᴰ

module _ (time_of : String → ℤ) (in_preset : String → Bool) (format : String → String) where
  -- An entry is not later than the first of a list.
  abbrev NotAfter : Entry → List Entry → Type 0
  NotAfter x [] = Unit
  NotAfter x (y ∷ ys) = time_of x.at_time ≤ℤ time_of y.at_time

  abbrev pub IsInOrder : List Entry → Type 0
  IsInOrder [] = Unit
  IsInOrder (x ∷ xs) = NotAfter x xs × IsInOrder xs

  insert_entry-NotAfter :
      (y x : Entry) (ys : List Entry)
      → time_of y.at_time ≤ℤ time_of x.at_time
      → NotAfter y ys
      → NotAfter y (insert_entry time_of in_preset format x ys)
  unfolding insert_entry
  insert_entry-NotAfter y x [] h k = h
  insert_entry-NotAfter y x (z ∷ ys) h k =
      elim (Bool-cases (leb_ℤ (time_of x.at_time) (time_of z.at_time))) [
        | inl before ↦ rw before h
        | inr after ↦ rw after k
      ]

  insert_entry-IsInOrder :
      (x : Entry) (ys : List Entry)
      → IsInOrder ys
      → IsInOrder (insert_entry time_of in_preset format x ys)
  unfolding insert_entry
  insert_entry-IsInOrder x [] h = (tt, tt)
  insert_entry-IsInOrder x (y ∷ ys) h =
      elim (Bool-cases (leb_ℤ (time_of x.at_time) (time_of y.at_time))) [
        | inl before ↦ rw before (ground arith, h)
        | inr after ↦
            rw after
              (insert_entry-NotAfter y x ys (ground arith) h.0, insert_entry-IsInOrder x ys h.1)
      ]

  insert_entry-Permᴰ :
      (x : Entry) (ys : List Entry) → Permᴰ (insert_entry time_of in_preset format x ys) (x ∷ ys)
  unfolding insert_entry
  insert_entry-Permᴰ x [] = Permᴰ.refl (x ∷ [])
  insert_entry-Permᴰ x (y ∷ ys) =
      elim (Bool-cases (leb_ℤ (time_of x.at_time) (time_of y.at_time))) [
        | inl before ↦ rw before (Permᴰ.refl (x ∷ y ∷ ys))
        | inr after ↦
            rw after
              (Permᴰ.trans (Permᴰ.cons refl (insert_entry-Permᴰ x ys)) (Permᴰ.swap refl refl))
      ]

  -- Sorting the entries of a statement puts them in the order of time and neither loses nor repeats
  -- one.
  pub sort_entries-IsInOrder :
      (entries : List Entry)
      → IsInOrder (sort_entries time_of in_preset format entries)
        × Permᴰ (sort_entries time_of in_preset format entries) entries
  unfolding sort_entries
  sort_entries-IsInOrder [] = (tt, Permᴰ.nil)
  sort_entries-IsInOrder (x ∷ xs) =
      let (order, perm) = sort_entries-IsInOrder xs in
      let rest = sort_entries time_of in_preset format xs in
      (
        insert_entry-IsInOrder x rest order,
        Permᴰ.trans (insert_entry-Permᴰ x rest) (Permᴰ.cons refl perm),
      )
