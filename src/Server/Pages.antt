-- ===== src/Server/Pages.antt =====
-- Where a full page of `list_objects_v2` of crates/pgvs3/src/server.rs stops.
use lakewing.Prelude.{ℕ, ◌≡◌, Option, none, some, Bool, false, List, ◌∷◌, ◌++◌, if◌then◌else◌}
use lakewing.Prelude.Text.{Text}
use lakewing.Store.Tables.{Db}
use lakewing.Server.Listing.{
  Listed, Page, empty_page, list_rows, list, list_loop, ListInput, ListOutput, encode, prefix_end,
  max_of, after_of,
}

-- The same keys and common prefixes are listed.
abbrev pub ListsSame : Page → Page → Type 0
ListsSame s t = (s.contents ≡ t.contents) × (s.common ≡ t.common)

module _ (prefix delimiter : Text) (max : ℕ) where
  -- The listing stopped at the row `at`: the rows before it made the page, and the cursor is the key
  -- of `at`.
  pub record IsStopped (rows : List Listed) (after : Text) (s : Page) (cursor : Text) (page : Page)
      : Type 0 where
    pub before : List Listed
    pub at : Listed
    pub behind : List Listed
    pub split : rows ≡ before ++ (at ∷ behind)
    pub room : (list_rows prefix delimiter max before after s).1 ≡ false
    pub listed : ListsSame page (list_rows prefix delimiter max before after s).2
    pub stop : cursor ≡ at.key

  module _ (bucket bound : Text) (db : Db) where
    -- The listing stopped in one of its queries.
    abbrev pub StopsAt : Text → Page → Type 0
    StopsAt cursor page =
        (after : Text) × (s : Page) × IsStopped (list bucket prefix bound after 1024 db) after s
          cursor page

abbrev looped : ℕ → ListInput → Db → Option (Text × Bool × Page)
looped fuel input db =
    list_loop fuel input.bucket (encode input.prefix) (prefix_end input.prefix) input.delimiter
      (max_of input.max_keys) db (after_of input.continuation_token input.start_after) empty_page

abbrev answer : Text → Bool → Page → ListOutput
answer cursor full page = record {
  page = page;
  is_truncated = full;
  next_continuation_token = if full then some cursor else none;
}
