-- ===== src/Proxy.antt =====
-- virtual_proxy_pattern.cpp: an image, its proxy, which makes the image when it is first used, and the document
-- that holds one of them. A point is of any type, since it is only stored.
pub mod Refines
mod Witnesses
use personal_project.Common.{ℕ, Option, none, some, List, [], ◌∷◌, ◌++◌}
use personal_project.Decimal.{Bytes}

pub record Image (P : Type 0) : Type 0 where
  pub file_name : Bytes
  pub point : P
  pub line : Bytes

-- The proxy, with the image once it has been made.
pub record ImageProxy (P : Type 0) : Type 0 where
  pub image_file : Bytes
  pub image : Option (Image P)

-- The interface `Graphic` of an object whose state is `S`. `load` gives what is left of the stream, `save` the
-- stream with what was written.
pub record Graphic (P S : Type 0) : Type 0 where
  pub draw : P → S → S
  pub handle_mouse : S → S
  pub get_extent : S → P × S
  pub load : Bytes → S → Bytes × S
  pub save : Bytes → S → Bytes × S

-- `origin` is the point of `Point()`. `getline` gives a line of at most 1023 bytes and what is left, and `put` is
-- `<<` on a stream.
module _ {P : Type 0} (origin : P) (getline : Bytes → Bytes × Bytes)
    (put : Bytes → Bytes → Bytes) where
  pub new_image : Bytes → Image P
  new_image file = record { file_name = file; point = origin; line = [] }

  image_load : Image P → Bytes × Bytes → Bytes × Image P
  image_load m (read, rest) = (rest, record m { line = read })

  pub image_graphic : Graphic P (Image P)
  unfolding image_load
  image_graphic = record {
    draw = λ at m. record m { point = at };
    handle_mouse = λ m. m;
    get_extent = λ m. (m.point, m);
    load = λ from m. image_load m (getline from);
    save = λ to m. (put to m.line, m);
  }

  pub new_proxy : Bytes → ImageProxy P
  new_proxy file = record { image_file = file; image = none }

  -- `GetImage`, which makes the image and keeps it.
  pub get_image : ImageProxy P → Image P
  unfolding new_image
  get_image x = elim x.image [ none ↦ new_image x.image_file | some m ↦ m ]

  abbrev kept : ImageProxy P → Image P → ImageProxy P
  kept x m = record x { image = some m }

  abbrev answered : {R : Type 0} → ImageProxy P → R × Image P → R × ImageProxy P
  answered x (r, m) = (r, kept x m)

  pub proxy_graphic : Graphic P (ImageProxy P)
  unfolding get_image image_graphic
  proxy_graphic = record {
    draw = λ at x. kept x (image_graphic.draw at (get_image x));
    handle_mouse = λ x. kept x (image_graphic.handle_mouse (get_image x));
    get_extent = λ x. answered x (image_graphic.get_extent (get_image x));
    load = λ from x. answered x (image_graphic.load from (get_image x));
    save = λ to x. answered x (image_graphic.save to (get_image x));
  }

-- What a client calls, and what it gets.
pub data Call (P : Type 0) : Type 0 where
  draw : P → Call P
  handle_mouse get_extent : Call P
  load save : Bytes → Call P

pub data Result (P : Type 0) : Type 0 where
  done : Result P
  extent : P → Result P
  stream : Bytes → Result P

module _ {P S : Type 0} (graphic : Graphic P S) where
  abbrev pub perform : Call P → S → Result P × S
  perform (draw at) s = (done, graphic.draw at s)
  perform handle_mouse s = (done, graphic.handle_mouse s)
  perform get_extent s = let (at, t) = graphic.get_extent s in (extent at, t)
  perform (load from) s = let (rest, t) = graphic.load from s in (stream rest, t)
  perform (save to) s = let (written, t) = graphic.save to s in (stream written, t)

  abbrev pub results : List (Call P) → S → List (Result P)
  results [] s = []
  results (c ∷ cs) s = (perform c s).0 ∷ results cs (perform c s).1

  abbrev pub final : List (Call P) → S → S
  final [] s = s
  final (c ∷ cs) s = final cs (perform c s).1

-- The document with the pointer that it holds, and the pointers that it has deleted, the last one first.
pub record TextDocument : Type 0 where
  pub graph : Option ℕ
  pub deleted : List ℕ

abbrev drop_graph : Option ℕ → List ℕ → List ℕ
drop_graph none deleted = deleted
drop_graph (some graph) deleted = graph ∷ deleted

-- `Insert`
unfoldable pub insert : ℕ → TextDocument → TextDocument
insert graph d = record { graph = some graph; deleted = drop_graph d.graph d.deleted }

-- `~TextDocument`
unfoldable pub delete_document : TextDocument → TextDocument
delete_document d = record { graph = none; deleted = drop_graph d.graph d.deleted }

unfoldable pub insert_all : List ℕ → TextDocument → TextDocument
unfolding insert
insert_all [] d = d
insert_all (g ∷ gs) d = insert_all gs (insert g d)
