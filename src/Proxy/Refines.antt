-- ===== src/Proxy/Refines.antt =====
-- The proxy behaves as the image does.
use personal_project.Common.{
  ℕ, ◌≡◌, refl, ap, ap₂, ◌∙◌, sym, Option, none, some, List, [], ◌∷◌, ◌++◌, append_assoc,
}
use mathlib.Core.List
use personal_project.Decimal.{Bytes}
use personal_project.Proxy.{
  Image, ImageProxy, new_image, image_graphic, new_proxy, get_image, proxy_graphic, Call, draw,
  handle_mouse, get_extent, load, save, perform, results, final, delete_document, insert_all,
}

module _ {P : Type 0} (origin : P) (getline : Bytes → Bytes × Bytes)
    (put : Bytes → Bytes → Bytes) where
  -- The image that a proxy has after some calls: none before the first one.
  abbrev pub after : List (Call P) → Bytes → Option (Image P)
  after [] file = none
  after (c ∷ cs) file =
      some (final (image_graphic origin getline put) (c ∷ cs) (new_image origin getline put file))

  perform-proxy :
      (c : Call P) (x : ImageProxy P)
      → perform (proxy_graphic origin getline put) c x ≡ (
          let (r, m) =
            perform (image_graphic origin getline put) c (get_image origin getline put x) in
          (r, record x { image = some m }))
  unfolding proxy_graphic
  perform-proxy (draw at) x = refl
  perform-proxy handle_mouse x = refl
  perform-proxy get_extent x = refl
  perform-proxy (load from) x = refl
  perform-proxy (save to) x = refl

  results-proxy :
      (cs : List (Call P)) (x : ImageProxy P)
      → results (proxy_graphic origin getline put) cs x
        ≡ results (image_graphic origin getline put) cs (get_image origin getline put x)
  unfolding get_image
  results-proxy [] x = refl
  results-proxy (c ∷ cs) x =
      ap₂ (λ r rs. r ∷ rs) (ap (λ p. p.0) (perform-proxy c x))
        (ap (λ p. results (proxy_graphic origin getline put) cs p.1) (perform-proxy c x)
          ∙ results-proxy cs (record x {
            image =
                some
                  (perform (image_graphic origin getline put) c (get_image origin getline put x)).1;
          }))

  final-proxy :
      (cs : List (Call P)) (c : Call P) (x : ImageProxy P)
      → final (proxy_graphic origin getline put) (c ∷ cs) x ≡ record x {
        image =
            some
              (final (image_graphic origin getline put) (c ∷ cs) (get_image origin getline put x));
      }
  unfolding get_image
  final-proxy [] c x = ap (λ p. p.1) (perform-proxy c x)
  final-proxy (d ∷ cs) c x =
      ap (λ p. final (proxy_graphic origin getline put) (d ∷ cs) p.1) (perform-proxy c x)
      ∙ final-proxy cs d (record x {
        image =
            some (perform (image_graphic origin getline put) c (get_image origin getline put x)).1;
      })

  -- For any calls, whatever getline and << do: a proxy that was just made answers each of them as the image itself
  -- does that is made of the same file. Before the first call it has made no image, and afterwards it holds
  -- the one image that the calls have left.
  pub proxy-image :
      (file : Bytes) (cs : List (Call P))
      → (results (proxy_graphic origin getline put) cs (new_proxy origin getline put file)
          ≡ results (image_graphic origin getline put) cs (new_image origin getline put file))
        × (final (proxy_graphic origin getline put) cs (new_proxy origin getline put file)
            ≡ record { image_file = file; image = after cs file })
  unfolding get_image new_proxy
  proxy-image file [] = (refl, refl)
  proxy-image file (c ∷ cs) = (
    results-proxy (c ∷ cs) (new_proxy origin getline put file),
    final-proxy cs c (new_proxy origin getline put file),
  )

insert_all-deleted :
    (gs : List ℕ) (g : ℕ) (deleted : List ℕ)
    → (delete_document (insert_all gs (record { graph = some g; deleted = deleted }))).deleted
      ≡ List.reverse gs ++ g ∷ deleted
unfolding insert_all delete_document
insert_all-deleted [] g deleted = refl
insert_all-deleted (h ∷ gs) g deleted =
    insert_all-deleted gs h (g ∷ deleted)
    ∙ sym (append_assoc (List.reverse gs) (h ∷ []) (g ∷ deleted))
    ∙ ap (λ l. l ++ g ∷ deleted) (sym (List.reverse-cons h gs))

-- A document has deleted each graphic that was inserted, as often as it was inserted and in that order, when it
-- is destroyed.
delete_document-insert_all :
    (gs : List ℕ)
    → (delete_document (insert_all gs (record { graph = none; deleted = [] }))).deleted
      ≡ List.reverse gs
unfolding insert_all delete_document
delete_document-insert_all [] = refl
delete_document-insert_all (g ∷ gs) = insert_all-deleted gs g [] ∙ sym (List.reverse-cons g gs)
