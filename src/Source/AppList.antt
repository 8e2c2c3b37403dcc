-- ===== src/Source/AppList.antt =====
-- crates/steam-source/src/app_list.rs and the cursor of crates/steam-source/src/cursor.rs. The JSON
-- parser is a parameter: a page starts as its parsed body. Numbers are of 32 bits; the content hash,
-- which is carried along unread, is left out. The proposals are those of
-- crates/steam-source/src/proposal.rs.
pub mod Page
mod Examples
use lobbytally.Base.{
  ℕ, ◌+◌, ◌-◌, ◌^◌, min, max, String, Bool, true, false, not, ◌&&◌, Option, none, some, List, [],
  ◌∷◌, ◌++◌, leb, ltb, ◌==◌, if◌then◌else◌, is_blank,
}

pub record AppListCursor : Type 0 where
  pub last_appid : ℕ
  pub if_modified_since : ℕ
  pub high_water_last_modified : ℕ
  pub have_more_results : Bool

unfoldable pub new_pass : ℕ → AppListCursor
new_pass since = record {
  last_appid = 0;
  if_modified_since = since;
  high_water_last_modified = since;
  have_more_results = true;
}

unfoldable pub advance_page : AppListCursor → ℕ → ℕ → Bool → AppListCursor
advance_page cursor page_last_appid page_max_last_modified have_more_results = record cursor {
  last_appid = page_last_appid;
  have_more_results = have_more_results;
  high_water_last_modified = max cursor.high_water_last_modified page_max_last_modified;
}

unfoldable pub complete_pass : AppListCursor → AppListCursor
complete_pass cursor = record cursor {
  last_appid = 0;
  have_more_results = false;
  if_modified_since = cursor.high_water_last_modified;
}

pub record AppDto : Type 0 where
  pub appid : ℕ
  pub name : Option String
  pub last_modified : Option ℕ
  pub price_change_number : Option ℕ

pub record ResponseBody : Type 0 where
  pub apps : List AppDto
  pub have_more_results : Bool
  pub last_appid : Option ℕ

pub data SourceStability : Type 0 where
  official_stable approved_volatile human_maintained : SourceStability

-- `Mod` is `modification`.
pub data AppTypeProposal : Type 0 where
  game demo playtest dlc tool application music video series comic : AppTypeProposal
  advertising modification hardware unknown : AppTypeProposal

pub record AppCatalogProposal : Type 0 where
  pub app_id : ℕ
  pub name : String
  pub app_type : AppTypeProposal
  pub last_modified : Option ℕ
  pub price_change_number : Option ℕ
  pub source : String
  pub stability : SourceStability
  pub adapter_version : String

abbrev pub source_name : String
source_name = "steam_istore_getapplist"

abbrev pub adapter_version : String
adapter_version = "app-list-0.1.0"

pub record AppListPage : Type 0 where
  pub proposals : List AppCatalogProposal
  pub have_more_results : Bool
  pub page_last_appid : ℕ
  pub page_max_last_modified : ℕ
  pub skipped_missing_name : ℕ

-- The reasons of `SourceError::invalid_structure`.
pub data SourceFault : Type 0 where
  empty_page zero_appid no_last_appid wrong_last_appid not_advanced : SourceFault

pub data Checked (A : Type 0) : Type 0 where
  accepted : A → Checked A
  refused : SourceFault → Checked A

-- The variables of the loop over the rows.
pub record Scan : Type 0 where
  pub proposals : List AppCatalogProposal
  pub page_max_last_modified : ℕ
  pub max_appid : ℕ
  pub skipped_missing_name : ℕ

abbrev pub max_some : ℕ → Option ℕ → ℕ
max_some n none = n
max_some n (some m) = max n m

-- `app.name.filter(|n| !n.trim().is_empty())`
abbrev pub real_name : Option String → Option String
real_name none = none
real_name (some name) = if is_blank name then none else some name

-- `saturating_add(1)` on `u32`.
abbrev pub add_one_u32 : ℕ → ℕ
add_one_u32 n = min (n + 1) (2 ^ 32 - 1)

abbrev pub scan_named : Option String → AppDto → Scan → Scan
scan_named none app s = record s { skipped_missing_name = add_one_u32 s.skipped_missing_name }
scan_named (some name) app s = record s {
  proposals =
      s.proposals
      ++ record {
        app_id = app.appid;
        name = name;
        app_type = game;
        last_modified = app.last_modified;
        price_change_number = app.price_change_number;
        source = source_name;
        stability = official_stable;
        adapter_version = adapter_version;
      }
        ∷ [];
}

-- One row that has an App ID.
unfoldable pub scan_row : AppDto → Scan → Scan
scan_row app s = scan_named (real_name app.name) app (record s {
  max_appid = max s.max_appid app.appid;
  page_max_last_modified = max_some s.page_max_last_modified app.last_modified;
})

unfoldable pub scan : List AppDto → Scan → Checked Scan
unfolding scan_row
scan [] s = accepted s
scan (app ∷ apps) s =
    let rest = scan apps (scan_row app s) in if app.appid == 0 then refused zero_appid else rest

abbrev pub unwrap_or : Option ℕ → ℕ → ℕ
unwrap_or none n = n
unwrap_or (some m) n = m

abbrev pub is_empty : List AppDto → Bool
is_empty [] = true
is_empty (app ∷ apps) = false

-- What follows the loop.
unfoldable pub finish_page : ResponseBody → Checked Scan → Checked AppListPage
finish_page body (refused fault) = refused fault
finish_page body (accepted s) =
    let page_last_appid = unwrap_or body.last_appid s.max_appid in
    if body.have_more_results && (page_last_appid == 0)
    then refused no_last_appid
    else if ltb 0 s.max_appid && not (page_last_appid == s.max_appid)
    then refused wrong_last_appid
    else accepted (record {
      proposals = s.proposals;
      have_more_results = body.have_more_results;
      page_last_appid = page_last_appid;
      page_max_last_modified = s.page_max_last_modified;
      skipped_missing_name = s.skipped_missing_name;
    })

unfoldable pub parse_app_list_page : ResponseBody → Checked AppListPage
unfolding scan finish_page
parse_app_list_page body =
    if is_empty body.apps && body.have_more_results
    then refused empty_page
    else finish_page body (
        scan body.apps (record {
          proposals = [];
          page_max_last_modified = 0;
          max_appid = 0;
          skipped_missing_name = 0;
        }))

abbrev pub is_done : {A : Type 0} → List A → Bool
is_done [] = true
is_done (x ∷ xs) = false

-- `AppListPage::validate_for_request`, for the `last_appid` of the request.
unfoldable pub validate_for_request : AppListPage → ℕ → Checked (Unit {0})
validate_for_request page last_appid =
    if is_done page.proposals
    then accepted tt
    else if leb page.page_last_appid last_appid
    then refused not_advanced
    else accepted tt

unfoldable pub apply_page_to_cursor : AppListCursor → AppListPage → AppListCursor
unfolding advance_page complete_pass
apply_page_to_cursor cursor page =
    let advanced =
      advance_page cursor page.page_last_appid page.page_max_last_modified page.have_more_results in
    if page.have_more_results then advanced else complete_pass advanced

abbrev pub and_then : {A B : Type 0} → Checked A → (A → Checked B) → Checked B
and_then (refused fault) next = refused fault
and_then (accepted a) next = next a

-- The loop of `collect_pages`, on the parsed bodies.
unfoldable pub collect_from :
    List ResponseBody
    → AppListCursor
    → List AppCatalogProposal
    → Checked (List AppCatalogProposal × AppListCursor)
unfolding parse_app_list_page validate_for_request apply_page_to_cursor
collect_from [] cursor all = accepted (all, cursor)
collect_from (body ∷ bodies) cursor all =
    and_then (parse_app_list_page body) (λ (page : AppListPage).
      and_then (validate_for_request page cursor.last_appid)
        (λ _. collect_from bodies (apply_page_to_cursor cursor page) (all ++ page.proposals)))

unfoldable pub collect_pages : List ResponseBody → Checked (List AppCatalogProposal × AppListCursor)
unfolding collect_from new_pass
collect_pages bodies = collect_from bodies (new_pass 0) []
