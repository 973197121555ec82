-- ===== src/Mux.antt =====
-- asio_server_serve_mux.cc: the choice of a callback by the path of a request. The map from patterns
-- is a list with one entry for each key. Its order does not matter: two patterns of one length
-- that both match a path are the same text.
pub mod Install
pub mod Longest
use mathlib.Core.List.{foldl}
use maock.Prelude.{
  ℕ, ◌-◌, Bool, true, false, not, ◌&&◌, Option, none, some, List, [], ◌∷◌, ◌++◌, map, ltb, leb,
  ◌==◌, if◌then◌else◌, length, take, last_or,
}
use maock.Bytes.{Bytes, codes, eqb, starts_with}
use maock.Util.Host.{behind}
use maock.Util.Percent.{percent_encode_path}
use maock.Http2.Path.{slash, path_join, clean_path}

module _ (A : Type 0) where
  -- request_cb: a callback of the user, or one that redirect_handler or status_handler makes.
  pub data Callback : Type 0 where
    user : A → Callback
    redirect : ℕ → Bytes → Callback
    page : ℕ → Callback

  pub record Entry : Type 0 where
    pub user_defined : Bool
    pub cb : Callback
    pub pattern : Bytes

  -- mux_
  abbrev pub Mux : Type 0
  Mux = List (Bytes × Entry)

-- The path of the redirect: from the first slash on, which skips the host. The pattern ends with a
-- slash, so there is one.
abbrev pub from_slash : Option Bytes → Bytes
from_slash none = []
from_slash (some s) = slash ∷ s

abbrev pub redirect_path : Bytes → Bytes
redirect_path pattern = from_slash (behind slash pattern)

-- path_match, of a pattern that is not empty
unfoldable pub path_match : Bytes → Bytes → Bool
unfolding eqb starts_with
path_match pattern path =
    if last_or 0 pattern == slash then starts_with path pattern else eqb pattern path

abbrev pub with_query : Bytes → Bytes → Bytes
with_query uri [] = uri
with_query uri (c ∷ q) = uri ++ (b'?' ∷ c ∷ q)

module _ {A : Type 0} where
  unfoldable pub find_entry : Bytes → Mux A → Option (Entry A)
  unfolding eqb
  find_entry k [] = none
  find_entry k ((q, e) ∷ m) = let later = find_entry k m in if eqb q k then some e else later

  -- std::map::emplace keeps an entry that is there already.
  unfoldable pub emplace : Bytes → Entry A → Mux A → Mux A
  unfolding eqb
  emplace k e [] = (k, e) ∷ []
  emplace k e ((q, d) ∷ m) =
      let later = emplace k e m in if eqb q k then (q, d) ∷ m else (q, d) ∷ later

  -- (*it).second = …
  unfoldable pub assign : Bytes → Entry A → Mux A → Mux A
  unfolding eqb
  assign k e [] = []
  assign k e ((q, d) ∷ m) =
      let later = assign k e m in if eqb q k then (q, e) ∷ m else (q, d) ∷ later

  -- handler_entry of an implicit redirect
  abbrev pub redirect_entry : Bytes → Entry A
  redirect_entry pattern = record {
    user_defined = false;
    cb = redirect 301 (redirect_path pattern);
    pattern = pattern;
  }

  abbrev pub user_entry : A → Bytes → Entry A
  user_entry f pattern = record { user_defined = true; cb = user f; pattern = pattern }

  abbrev pub put_redirect : Bytes → Bytes → Option (Entry A) → Mux A → Mux A
  put_redirect r pattern none m = emplace r (redirect_entry pattern) m
  put_redirect r pattern (some e) m =
      if e.user_defined then m else assign r (redirect_entry pattern) m

  -- Of a pattern that ends with a slash, the redirect for the pattern without it.
  unfoldable pub add_redirect : Bytes → Mux A → Mux A
  unfolding find_entry emplace assign behind
  add_redirect pattern m =
      if leb 2 (length pattern) && last_or 0 pattern == slash
      then (let r = take (length pattern - 1) pattern in put_redirect r pattern (find_entry r m) m)
      else m

  abbrev pub is_taken : Option (Entry A) → Bool
  is_taken none = false
  is_taken (some e) = e.user_defined

  -- serve_mux::handle; a callback of `none` is an empty std::function.
  unfoldable pub handle : Bytes → Option A → Mux A → Bool × Mux A
  unfolding find_entry emplace add_redirect
  handle [] cb m = (false, m)
  handle (c ∷ p) none m = (false, m)
  handle (c ∷ p) (some f) m =
      if is_taken (find_entry (c ∷ p) m)
      then (false, m)
      else (true, emplace (c ∷ p) (user_entry f (c ∷ p)) (add_redirect (c ∷ p) m))

  -- One round of the loop of match, over `ent` and `best`.
  unfoldable pub better : Bytes → Option (Entry A) × ℕ → Bytes × Entry A → Option (Entry A) × ℕ
  unfolding path_match
  better path (none, best) (k, e) = if path_match k path then (some e, length k) else (none, best)
  better path (some d, best) (k, e) =
      if path_match k path && ltb best (length k) then (some e, length k) else (some d, best)

  unfoldable pub match_entry : Bytes → Mux A → Option (Entry A)
  unfolding better
  match_entry path m = (foldl (better path) (none, 0) m).0

  abbrev pub callback_of : Option (Entry A) → Callback A → Callback A
  callback_of none other = other
  callback_of (some e) other = e.cb

  -- serve_mux::handler, of the method, and of the host, path and raw_query of the URI.
  unfoldable pub handler : Bytes → Bytes → Bytes → Bytes → Mux A → Callback A
  unfolding eqb match_entry percent_encode_path path_join
  handler method host path raw_query m =
      if not (eqb method (codes "CONNECT")) && not (eqb (clean_path path) path)
      then redirect 301 (with_query (percent_encode_path (clean_path path)) raw_query)
      else callback_of (match_entry (host ++ path) m) (callback_of (match_entry path m) (page 404))
