-- ===== src/IteratorPattern/Items.antt =====
-- What `Set` writes, and what `Get` reads at any index.
use personal_project.Common.{
  ℕ, zero, suc, ◌+◌, ◌-◌, ◌*◌, ◌%◌, ◌<◌, ◌≡◌, refl, sym, ap, ◌∙◌, inl, inr, Bool-cases, some, List,
  [], ◌∷◌, ◌++◌, arith, ltb, ◌==◌, if◌then◌else◌, length, length-append, length-set, get_elem?, set,
}
use native.Mathlib.Nat
use personal_project.Decimal.{pos, negsuc}
use personal_project.IteratorPattern.{ItemList, new_from, count, get, doubled, set_item}

-- The list has some memory, and as many items as it says.
abbrev pub IsValid : {A : Type 0} → ItemList A → Type 0
IsValid l = (0 < l.size) × (length l.items ≡ l.size)

module _ {A : Type 0} where
  length-new_from : (fresh : ℕ → A) (at n : ℕ) → length (new_from fresh at n) ≡ n
  length-new_from fresh at zero = refl
  length-new_from fresh at (suc n) = ap suc (length-new_from fresh (at + 1) n)

  get_elem?-set_within :
      (xs : List A) (i j : ℕ) (v : A)
      → j < length xs
      → get_elem? (set xs i v) j ≡ (if j == i then some v else get_elem? xs j)
  get_elem?-set_within [] i j v h = absurd (omega arith)
  get_elem?-set_within (x ∷ xs) zero zero v h = ground arith
  get_elem?-set_within (x ∷ xs) zero (suc j) v h = ground arith
  get_elem?-set_within (x ∷ xs) (suc i) zero v h = ground arith
  get_elem?-set_within (x ∷ xs) (suc i) (suc j) v h = ground (arith, get_elem?-set_within xs i j v)

  get_elem?-append_left :
      (xs ys : List A) (j : ℕ) → j < length xs → get_elem? (xs ++ ys) j ≡ get_elem? xs j
  get_elem?-append_left [] ys j h = absurd (omega arith)
  get_elem?-append_left (x ∷ xs) ys zero h = refl
  get_elem?-append_left (x ∷ xs) ys (suc j) h = get_elem?-append_left xs ys j (omega arith)

  pub get-elem : (l : ItemList A) (j : ℕ) → j < l.size → get l (pos j) ≡ get_elem? l.items j
  unfolding get
  get-elem l j h = rw (Nat.mod-eq_of_lt h)

  -- A negative index reads the item that stands as far from the front as the index is below 0.
  get-negative : (l : ItemList A) (n : ℕ) → 0 < l.size → get l (negsuc n) ≡ get l (pos (n + 1))
  unfolding get
  get-negative l n h =
      ap (get_elem? l.items)
        (Nat.add-mod_left l.size ((n + 1) % l.size) ∙ Nat.mod-mod (n + 1) l.size)

  module _ (fresh : ℕ → A) (l : ItemList A) (valid : IsValid l) where
    doubled-IsValid : IsValid (doubled fresh l)
    unfolding doubled
    doubled-IsValid = omega (
      arith,
      valid.0,
      valid.1,
      length-append l.items (new_from fresh l.size (l.size * 2 - l.size)),
      length-new_from fresh l.size (l.size * 2 - l.size),
    )

    get-doubled : (j : ℕ) → j < l.size → get (doubled fresh l) (pos j) ≡ get l (pos j)
    unfolding doubled
    get-doubled j h =
        get-elem (doubled fresh l) j (omega arith)
        ∙ get_elem?-append_left l.items (new_from fresh l.size (l.size * 2 - l.size)) j
            (omega (arith, valid.1))
        ∙ sym (get-elem l j h)

    -- `Set` at an index that is not negative leaves a list with all its items but the one at the index.
    -- An index behind the last item doubles the memory, and the item is not stored.
    get-set_item :
        (i j : ℕ) (item : A)
        → j < l.size
        → (m : ItemList A) × (set_item fresh (pos i) item l ≡ some m)
          × IsValid m
          × (count m ≡ (if ltb i l.size then l.size else l.size * 2))
          × (get m (pos j) ≡ (if j == i then some item else get l (pos j)))
    unfolding set_item
    get-set_item i j item h = elim (Bool-cases (ltb i l.size)) [
      | inl e ↦ (
        record l { items = set l.items i item },
        rw e,
        (valid.0, length-set l.items i item ∙ valid.1),
        rw e,
        get-elem (record l { items = set l.items i item }) j h
            ∙ get_elem?-set_within l.items i j item (omega (arith, valid.1))
            ∙ rw (get-elem l j h),
      )
      | inr e ↦
          (doubled fresh l, rw e, doubled-IsValid, rw (e, doubled), ground (arith, get-doubled j h))
    ]
