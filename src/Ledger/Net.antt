-- ===== src/Ledger/Net.antt =====
-- What the entries of a statement add to a balance.
use prime_detailer_backend.Base.{
  String, Bool, ◌≡◌, ◌∙◌, refl, ap, sym, subst, inl, inr, Bool-cases, List, [], ◌∷◌, ◌++◌, All,
  or_else,
}
use prime_detailer_backend.Base.Int.{
  ℤ, pos, ◌+ℤ◌, ◌-ℤ◌, leb_ℤ, int_laws, zero_add, +ℤ_assoc, +ℤ_left_comm,
}
use prime_detailer_backend.Base.Money.{sum, IsCents, IsCents-+ℤ, IsCents--ℤ}
use prime_detailer_backend.Ledger.Documents.{total}
use prime_detailer_backend.Ledger.Statement.{
  Entry, PartyStatementLine, insert_entry, sort_entries, post, post_entries,
}

-- The balance of the last line, after another balance.
abbrev pub last_balance : ℤ → List PartyStatementLine → ℤ
last_balance b [] = b
last_balance b (line ∷ lines) = last_balance line.balance lines

abbrev pub debit_of : Entry → ℤ
debit_of entry = or_else entry.debit (pos 0)

abbrev pub credit_of : Entry → ℤ
credit_of entry = or_else entry.credit (pos 0)

-- What the entries add to a balance.
abbrev pub net : List Entry → ℤ
net entries = total (λ entry. debit_of entry -ℤ credit_of entry) entries

abbrev pub EntryIsCents : Entry → Type 0
EntryIsCents entry = IsCents (debit_of entry) × IsCents (credit_of entry)

pub total-append {ℓ} :
    {A : Type ℓ} (f : A → ℤ) (xs ys : List A) → total f (xs ++ ys) ≡ total f xs +ℤ total f ys
unfolding sum
total-append f [] ys = sym (zero_add (total f ys))
total-append f (x ∷ xs) ys =
    ap (λ n. f x +ℤ n) (total-append f xs ys) ∙ sym (+ℤ_assoc (f x) (total f xs) (total f ys))

regroup : (b d c n : ℤ) → ((b +ℤ d) -ℤ c) +ℤ n ≡ b +ℤ ((d -ℤ c) +ℤ n)
regroup b d c n = omega int_laws

module _ (time_of : String → ℤ) (in_preset : String → Bool) (format : String → String) where
  insert_entry-net :
      (x : Entry) (ys : List Entry)
      → net (insert_entry time_of in_preset format x ys) ≡ (debit_of x -ℤ credit_of x) +ℤ net ys
  unfolding insert_entry sum
  insert_entry-net x [] = refl
  insert_entry-net x (y ∷ ys) = elim (Bool-cases (leb_ℤ (time_of x.at_time) (time_of y.at_time))) [
    | inl before ↦ rw before refl
    | inr after ↦ rw after (
        rw (insert_entry-net x ys)
          (+ℤ_left_comm (debit_of y -ℤ credit_of y) (debit_of x -ℤ credit_of x) (net ys)))
  ]

  pub sort_entries-net : (xs : List Entry) → net (sort_entries time_of in_preset format xs) ≡ net xs
  unfolding sort_entries sum
  sort_entries-net [] = refl
  sort_entries-net (x ∷ xs) =
      insert_entry-net x (sort_entries time_of in_preset format xs)
      ∙ ap (λ n. (debit_of x -ℤ credit_of x) +ℤ n) (sort_entries-net xs)

  insert_entry-All :
      (x : Entry) (ys : List Entry)
      → EntryIsCents x
      → All EntryIsCents ys
      → All EntryIsCents (insert_entry time_of in_preset format x ys)
  unfolding insert_entry
  insert_entry-All x [] h k = (h, tt)
  insert_entry-All x (y ∷ ys) h k =
      elim (Bool-cases (leb_ℤ (time_of x.at_time) (time_of y.at_time))) [
        | inl before ↦ rw before (h, k)
        | inr after ↦ rw after (k.0, insert_entry-All x ys h k.1)
      ]

  pub sort_entries-All :
      (xs : List Entry)
      → All EntryIsCents xs
      → All EntryIsCents (sort_entries time_of in_preset format xs)
  unfolding sort_entries
  sort_entries-All [] h = tt
  sort_entries-All (x ∷ xs) h =
      insert_entry-All x (sort_entries time_of in_preset format xs) h.0 (sort_entries-All xs h.1)

  post-IsCents :
      (entry : Entry) (b : ℤ)
      → EntryIsCents entry
      → IsCents b
      → post time_of in_preset format entry b ≡ (b +ℤ debit_of entry) -ℤ credit_of entry
  unfolding post
  post-IsCents entry b h k =
      IsCents--ℤ (b +ℤ debit_of entry) (credit_of entry) (IsCents-+ℤ b (debit_of entry) k h.0) h.1

  pub post_entries-net :
      (closing : ℤ → PartyStatementLine) (b c : ℤ) (entries : List Entry)
      → ((x : ℤ) → (closing x).balance ≡ x)
      → All EntryIsCents entries
      → IsCents b
      → last_balance c (post_entries time_of in_preset format closing b entries) ≡ b +ℤ net entries
  unfolding post_entries sum
  post_entries-net closing b c [] own h k = rw (own b) (omega int_laws)
  post_entries-net closing b c (entry ∷ entries) own h k =
      let exact = post-IsCents entry b h.0 k in
      let next = post time_of in_preset format entry b in
      let after : IsCents next = subst IsCents (sym exact) (exact_IsCents entry b h.0 k) in
      post_entries-net closing next next entries own h.1 after
      ∙ rw exact (regroup b (debit_of entry) (credit_of entry) (net entries))
    where
      exact_IsCents :
          (entry : Entry) (b : ℤ)
          → EntryIsCents entry
          → IsCents b
          → IsCents ((b +ℤ debit_of entry) -ℤ credit_of entry)
      exact_IsCents entry b h k =
          IsCents--ℤ (b +ℤ debit_of entry) (credit_of entry) (IsCents-+ℤ b (debit_of entry) k h.0)
            h.1
