-- ===== src/Proxy/Witnesses.antt =====
-- A proxy that is drawn and asked for its extent, as the test of the source does.
use personal_project.Common.{ℕ, ◌≡◌, refl, List, [], ◌∷◌, ◌++◌}
use personal_project.Decimal.{Bytes}
use personal_project.Proxy.{
  Call, draw, get_extent, save, extent, done, stream, results, final, image_graphic, proxy_graphic,
  new_image, new_proxy,
}
use personal_project.Proxy.Refines.{after, proxy-image}

abbrev whole_line : Bytes → Bytes × Bytes
whole_line from = (from, [])

abbrev put : Bytes → Bytes → Bytes
put to line = to ++ line

abbrev calls : List (Call ℕ)
calls = get_extent ∷ draw 10 ∷ get_extent ∷ save (b'x' ∷ []) ∷ []

proxy-image_example :
    (results (proxy_graphic 0 whole_line put) calls (new_proxy 0 whole_line put (b'f' ∷ []))
      ≡ results (image_graphic 0 whole_line put) calls (new_image 0 whole_line put (b'f' ∷ [])))
    × (final (proxy_graphic 0 whole_line put) calls (new_proxy 0 whole_line put (b'f' ∷ []))
        ≡ record { image_file = b'f' ∷ []; image = after 0 whole_line put calls (b'f' ∷ []) })
proxy-image_example = proxy-image 0 whole_line put (b'f' ∷ []) calls

drawn :
    results (proxy_graphic 0 whole_line put) calls (new_proxy 0 whole_line put (b'f' ∷ []))
    ≡ extent 0 ∷ done ∷ extent 10 ∷ stream (b'x' ∷ []) ∷ []
unfolding proxy_graphic new_proxy
drawn = refl
