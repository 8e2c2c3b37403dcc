-- ===== src/Source/AppList/Examples.antt =====
-- A page of two games and a row without a name.
use lobbytally.Base.{
  ℕ, ◌≤◌, ◌≡◌, refl, true, Option, none, some, [], ◌∷◌, All, is_blank, is_whitespace, String,
}
use lobbytally.Source.AppList.{
  AppCatalogProposal, game, official_stable, AppDto, ResponseBody, AppListPage, accepted, scan_row,
  scan, finish_page, parse_app_list_page,
}
use lobbytally.Source.AppList.Page.{largest, IsWithin, parse_app_list_page-last}

abbrev proposal : ℕ → String → AppCatalogProposal
proposal id name = record {
  app_id = id;
  name = name;
  app_type = game;
  last_modified = some 7;
  price_change_number = none;
  source = "steam_istore_getapplist";
  stability = official_stable;
  adapter_version = "app-list-0.1.0";
}

abbrev app : ℕ → Option String → AppDto
app id name = record { appid = id; name = name; last_modified = some 7; price_change_number = none }

abbrev body : ResponseBody
body = record {
  apps = app 10 (some "One") ∷ app 20 none ∷ app 15 (some "Two") ∷ [];
  have_more_results = true;
  last_appid = some 20;
}

abbrev page : AppListPage
page = record {
  proposals = proposal 10 "One" ∷ proposal 15 "Two" ∷ [];
  have_more_results = true;
  page_last_appid = 20;
  page_max_last_modified = 7;
  skipped_missing_name = 1;
}

parses : parse_app_list_page body ≡ accepted page
unfolding parse_app_list_page scan scan_row finish_page is_blank is_whitespace
parses = refl

parse_app_list_page-last_example :
    (20 ≡ largest body.apps 0)
    × All (λ (a : AppDto). (1 ≤ a.appid) × (a.appid ≤ 20)) body.apps
    × All (IsWithin 20) page.proposals
parse_app_list_page-last_example = parse_app_list_page-last body page (λ e. cc) parses
