-- ===== src/IteratorPattern/Walk.antt =====
-- A traversal meets the items of the list from the first to the last, or from the last to the first.
use personal_project.Common.{
  ℕ, zero, suc, ◌<◌, ◌≡◌, refl, sym, ap, ◌∙◌, Bool, true, false, inl, inr, Bool-cases, some, List,
  [], ◌∷◌, ◌++◌, append_assoc, append-nil, arith, length, length-append, get_elem?,
}
use mathlib.Core.List
use personal_project.Decimal.{ℤ, pos, negsuc}
use personal_project.Integers.{◌+ℤ◌}
use personal_project.IteratorPattern.{
  ItemList, count, get, Iterator, list_iterator, reverse_list_iterator, Outcome, returned,
  traverse_from, traverse,
}
use personal_project.IteratorPattern.Items.{IsValid, get-elem}

abbrev before : ℕ → ℤ
before n = pos n +ℤ negsuc 0

before-suc : (n : ℕ) → before (suc n) ≡ pos n
before-suc n = ground arith

length-reverse : {A : Type 0} (xs : List A) → length (List.reverse xs) ≡ length xs
length-reverse [] = refl
length-reverse (x ∷ xs) =
    ap length (List.reverse-cons x xs)
    ∙ omega (arith, length-append (List.reverse xs) (x ∷ []), length-reverse xs)

module _ {A S : Type 0} (process_item : A → S → Bool × S) where
  -- Each item is processed in the order of the list, as long as the traverser goes on.
  pub each : Bool → List A → S → Outcome S
  each result [] s = returned result s
  each result (x ∷ xs) s = elim ((process_item x s).0) [
    | true ↦ each true xs (process_item x s).1
    | false ↦ returned false (process_item x s).1
  ]

  get_elem?-at : (xs ys : List A) (y : A) → get_elem? (xs ++ y ∷ ys) (length xs) ≡ some y
  get_elem?-at [] ys y = refl
  get_elem?-at (x ∷ xs) ys y = get_elem?-at xs ys y

  get-at :
      (l : ItemList A) (xs ys : List A) (y : A)
      → IsValid l
      → l.items ≡ xs ++ y ∷ ys
      → get l (pos (length xs)) ≡ some y
  get-at l xs ys y valid e =
      get-elem l (length xs) (omega (arith, valid.1, ap length e, length-append xs (y ∷ ys)))
      ∙ ap (λ items. get_elem? items (length xs)) e
      ∙ get_elem?-at xs ys y

  module _ (it : Iterator A) where
    traverse_from-done :
        (fuel : ℕ) (current : ℤ) (result : Bool) (s : S)
        → it.is_done current ≡ true
        → traverse_from process_item it (suc fuel) current result s ≡ some (returned result s)
    unfolding traverse_from
    traverse_from-done fuel current result s h = rw (traverse_from, h)

    -- A round that processes an item, by what the traversal does behind it.
    traverse_from-item :
        (fuel : ℕ) (current : ℤ) (result : Bool) (x : A) (xs : List A) (s : S)
        → it.is_done current ≡ false
        → it.current_item current ≡ some x
        → ((s' : S)
            → traverse_from process_item it fuel (it.next current) true s' ≡ some (each true xs s'))
        → traverse_from process_item it (suc fuel) current result s ≡ some (each result (x ∷ xs) s)
    unfolding traverse_from each
    traverse_from-item fuel current result x xs s h e rest =
        elim (Bool-cases ((process_item x s).0)) [
          | inl go ↦
              let met : traverse_from process_item it (suc fuel) current result s
                  ≡ traverse_from process_item it fuel (it.next current) true (process_item x s).1 =
                rw (traverse_from, h, e, go) in
              let then_each : each result (x ∷ xs) s ≡ each true xs (process_item x s).1 =
                rw (each, go) in
              met ∙ rest (process_item x s).1 ∙ ap some (sym then_each)
          | inr stop ↦
              let met : traverse_from process_item it (suc fuel) current result s
                  ≡ some (returned false (process_item x s).1) =
                rw (traverse_from, h, e, stop) in
              let last : each result (x ∷ xs) s ≡ returned false (process_item x s).1 =
                rw (each, stop) in
              met ∙ ap some (sym last)
        ]

  module _ (l : ItemList A) (valid : IsValid l) where
    within : (i : ℕ) → i < l.size → (list_iterator l).is_done (pos i) ≡ false
    within i h = ground arith

    walk :
        (fuel : ℕ) (xs ys : List A) (result : Bool) (s : S)
        → l.items ≡ xs ++ ys
        → length ys < fuel
        → traverse_from process_item (list_iterator l) fuel (pos (length xs)) result s
          ≡ some (each result ys s)
    unfolding each
    walk zero xs ys result s e h = absurd (omega arith)
    walk (suc fuel) xs [] result s e h =
        traverse_from-done (list_iterator l) fuel (pos (length xs)) result s
          (ground (arith, valid.1, ap length e, length-append xs []))
    walk (suc fuel) xs (y ∷ ys) result s e h =
        traverse_from-item (list_iterator l) fuel (pos (length xs)) result y ys s inside
          (rw inside (get-at l xs ys y valid e))
          (λ s'. rw at_next (
            walk fuel (xs ++ y ∷ []) ys true s' (e ∙ sym (append_assoc xs (y ∷ []) ys))
              (omega arith)))
      where
        inside : (list_iterator l).is_done (pos (length xs)) ≡ false
        inside = within (length xs) (omega (arith, valid.1, ap length e, length-append xs (y ∷ ys)))

        at_next : pos (length xs) +ℤ pos 1 ≡ pos (length (xs ++ y ∷ []))
        at_next = ap pos (omega (arith, length-append xs (y ∷ [])))

    traverse-list_iterator :
        (s : S)
        → traverse process_item (list_iterator l) (suc (count l)) s ≡ some (each false l.items s)
    unfolding traverse
    traverse-list_iterator s = walk (suc (count l)) [] l.items false s refl (omega (arith, valid.1))

    -- The items that are left, the last one first.
    walk_back :
        (fuel : ℕ) (xs ys : List A) (result : Bool) (s : S)
        → l.items ≡ List.reverse xs ++ ys
        → length xs < fuel
        → traverse_from process_item (reverse_list_iterator l) fuel (before (length xs)) result s
          ≡ some (each result xs s)
    unfolding each
    walk_back zero xs ys result s e h = absurd (omega arith)
    walk_back (suc fuel) [] ys result s e h =
        traverse_from-done (reverse_list_iterator l) fuel (negsuc 0) result s refl
    walk_back (suc fuel) (x ∷ xs) ys result s e h = rw (before-suc (length xs)) (
        traverse_from-item (reverse_list_iterator l) fuel (pos (length xs)) result x xs s refl
          (rw (sym (length-reverse xs)) (get-at l (List.reverse xs) ys x valid moved))
          (λ s'. walk_back fuel xs (x ∷ ys) true s' moved (omega arith)))
      where
        moved : l.items ≡ List.reverse xs ++ x ∷ ys
        moved =
            e
            ∙ ap (λ r. r ++ ys) (List.reverse-cons x xs)
            ∙ append_assoc (List.reverse xs) (x ∷ []) ys

    traverse-reverse_list_iterator :
        (s : S)
        → traverse process_item (reverse_list_iterator l) (suc (count l)) s
          ≡ some (each false (List.reverse l.items) s)
    unfolding traverse
    traverse-reverse_list_iterator s = rw from_end (
        walk_back (suc (count l)) (List.reverse l.items) [] false s
          (sym (List.reverse-reverse l.items)
            ∙ sym (append-nil (List.reverse (List.reverse l.items))))
          (omega (arith, valid.1, length-reverse l.items)))
      where
        from_end : pos (count l) +ℤ negsuc 0 ≡ before (length (List.reverse l.items))
        from_end = ap before (sym valid.1 ∙ sym (length-reverse l.items))

    -- With one round more than items a traversal of a valid list ends; by ListIterator it processes the items
    -- in their order, by ReverseListIterator from the last to the first, until one is refused.
    pub traverse-each :
        (s : S)
        → (traverse process_item (list_iterator l) (suc (count l)) s ≡ some (each false l.items s))
          × (traverse process_item (reverse_list_iterator l) (suc (count l)) s
              ≡ some (each false (List.reverse l.items) s))
    traverse-each s = (traverse-list_iterator s, traverse-reverse_list_iterator s)
