-- ===== src/Tests/Routing.antt =====
-- The multiplexer on a map of a directory, its implicit redirect and the root.
use maock.Prelude.{ℕ, ◌≡◌, refl, true, not, some, [], ◌∷◌}
use maock.Bytes.{Bytes, codes, eqb, starts_with}
use maock.Mux.{
  Mux, user_entry, redirect_entry, find_entry, emplace, assign, add_redirect, is_taken, handle,
  path_match, better, match_entry,
}
use maock.Mux.Install.{or_entry, find_entry-handle}
use maock.Mux.Longest.{Searched, match_entry-Searched}

abbrev foo : Bytes
foo = codes "/foo"

-- What two calls of handle make: "/" with the callback 1 and "/foo/" with 2.
abbrev routes : Mux ℕ
routes =
    (codes "/", user_entry 1 (codes "/"))
    ∷ (codes "/foo", redirect_entry (codes "/foo/"))
    ∷ (codes "/foo/", user_entry 2 (codes "/foo/"))
    ∷ []

handle-routes : handle (codes "/foo/") (some 2) (handle (codes "/") (some 1) []).1 ≡ (true, routes)
unfolding handle add_redirect find_entry emplace assign eqb
handle-routes = refl

-- A callback for /foo is reported as installed, and the redirect stays.
handle-foo : handle foo (some 3) routes ≡ (true, routes)
unfolding handle add_redirect find_entry emplace assign eqb
handle-foo = refl

find_entry-handle_example :
    ((handle foo (some 3) routes).0 ≡ not (is_taken (find_entry foo routes)))
    × (find_entry foo (handle foo (some 3) routes).1
        ≡ some (or_entry (find_entry foo routes) (user_entry 3 foo)))
find_entry-handle_example = find_entry-handle b'/' (codes "foo") 3 routes

match_entry-Searched_example :
    Searched (codes "/foo/bar") (match_entry (codes "/foo/bar") routes) routes
match_entry-Searched_example = match_entry-Searched (codes "/foo/bar") routes

match_entry-bar : match_entry (codes "/foo/bar") routes ≡ some (user_entry 2 (codes "/foo/"))
unfolding match_entry better path_match eqb starts_with
match_entry-bar = refl
