-- ===== src/Http/Server.antt =====
-- daemon/src/http_server.cpp and `FileContents::fromSearch` of core/vca/userdb.cpp. A request is the
-- value of its query, and a reply to a search what stands in the JSON array, before it is printed.
use vca.Prelude.{
  ℕ, zero, suc, ◌+◌, ◌-◌, Bool, true, false, not, List, [], ◌∷◌, Option, none, some, if◌then◌else◌,
  leb, ltb, filter, map,
}
use vca.Text.Boost.{Boost}
use vca.Text.Chars.{space_char}
use vca.Text.Split.{split, trim, is_empty}
use vca.Utf8.Codec.{wide_to_narrow, narrow_to_wide}
use vca.UserDb.Contents.{FileContents}
use vca.UserDb.Results.{SearchResult}
use vca.UserDb.Sql.{Sql}
use vca.UserDb.Store.{Impl}
use vca.UserDb.Search.{search}

-- How the loop of the constructor ends, if it does on its fuel.
pub data Serving : Type 0 where
  serves : ℕ → Serving
  throws out_of_fuel : Serving

-- That loop, on fuel. `binds port` says whether a server can be made at the port, which gives the
-- port to the configuration; else the exception is thrown on from the hundredth time on.
unfoldable pub serve : (ℕ → Bool) → ℕ → ℕ → ℕ → Serving
serve binds zero retry port = out_of_fuel
serve binds (suc fuel) retry port =
    let rest = serve binds fuel (retry + 1) (port + 1) in
    if binds port then serves port else if leb 100 (retry + 1) then throws else rest

unfoldable pub narrow_words : List (List ℕ) → Option (List (List ℕ))
narrow_words [] = some []
narrow_words (v ∷ values) = elim (wide_to_narrow v) [
  | none ↦ none
  | some w ↦ elim (narrow_words values) [ none ↦ none | some ws ↦ some (w ∷ ws) ]
]

module _ (b : Boost) where
  -- `FileContents::fromSearch`; `none` is the exception of the codec.
  unfoldable pub from_search : List (List ℕ) → Option FileContents
  from_search values = elim (narrow_words (filter (λ v. not (is_empty v)) (map (trim b) values))) [
    | none ↦ none
    | some ws ↦ some (record { words = ws })
  ]

  -- What a search is for: the inner `none` where there is no word.
  unfoldable pub searched_for : List ℕ → Option (Option FileContents)
  searched_for value = elim (narrow_to_wide value) [
    | none ↦ none
    | some wide ↦
        let values = split b (trim b wide) space_char in
        if (elim values [ [] ↦ true | _ ∷ _ ↦ false ])
        then some none
        else elim (from_search values) [ none ↦ none | some contents ↦ some (some contents) ]
  ]

  -- `HttpServer::search`, the search itself on the main thread. An exception there comes through
  -- the future; `none` is any exception.
  unfoldable pub handle_search :
      {D : Type 0} → Sql D → List ℕ → Impl D → Impl D × Option (List SearchResult)
  handle_search sql value s = elim (searched_for value) [
    | none ↦ (s, none)
    | some o ↦ elim o [ none ↦ (s, some []) | some contents ↦ search sql s contents ]
  ]

-- `HttpServer::status`: whether a file was updated in the last two seconds, by the clock in
-- microseconds.
unfoldable pub status : {D : Type 0} → ℕ → Impl D → Bool
status now s = ltb (now - s.last_file_update) 2000000
