-- ===== src/Source/AppList/Page.antt =====
-- What a page that is accepted contains.
use lobbytally.Base.{
  ℕ, ◌≤◌, ◌<◌, ◌≡◌, ◌≢◌, refl, max, false, Option, none, some, List, [], ◌∷◌, arith, inl, inr,
  String, All, All-append, All-imp, Bool-cases, ◌∙◌, ◌==◌, subst, sym,
}
use lobbytally.Source.AppList.{
  AppDto, ResponseBody, AppCatalogProposal, AppListPage, Checked, accepted, refused, Scan, scan_row,
  scan, scan_named, real_name, finish_page, parse_app_list_page, zero_appid, is_empty,
}

-- The largest App ID of the rows, and of a number.
abbrev pub largest : List AppDto → ℕ → ℕ
largest [] n = n
largest (app ∷ apps) n = largest apps (max n app.appid)

abbrev pub IsWithin : ℕ → AppCatalogProposal → Type 0
IsWithin bound p = (1 ≤ p.app_id) × (p.app_id ≤ bound)

abbrev IsScan : Scan → Type 0
IsScan s = All (IsWithin s.max_appid) s.proposals

widen : (m n : ℕ) (ps : List AppCatalogProposal) → m ≤ n → All (IsWithin m) ps → All (IsWithin n) ps
widen m n ps h = All-imp ps (λ p w. (w.0, omega (arith, w.1, h)))

scan_named-IsScan :
    (name : Option String) (app : AppDto) (s : Scan)
    → 1 ≤ app.appid
    → app.appid ≤ s.max_appid
    → IsScan s
    → IsScan (scan_named name app s) × ((scan_named name app s).max_appid ≡ s.max_appid)
scan_named-IsScan none app s low high h = (h, refl)
scan_named-IsScan (some name) app s low high h =
    (All-append (IsWithin s.max_appid) s.proposals _ h ((low, high), tt), refl)

scan_row-IsScan :
    (app : AppDto) (s : Scan)
    → 1 ≤ app.appid
    → IsScan s
    → IsScan (scan_row app s) × ((scan_row app s).max_appid ≡ max s.max_appid app.appid)
unfolding scan_row
scan_row-IsScan app s low h =
    scan_named-IsScan (real_name app.name) app _ low (omega arith)
      (widen s.max_appid (max s.max_appid app.appid) s.proposals (omega arith) h)

scan-IsScan :
    (apps : List AppDto) (s t : Scan)
    → IsScan s
    → scan apps s ≡ accepted t
    → IsScan t × (t.max_appid ≡ largest apps s.max_appid) × All (λ (a : AppDto). 1 ≤ a.appid) apps
unfolding scan
scan-IsScan [] s t h e = let same : s ≡ t = cc in (subst IsScan same h, rw (sym same) refl, tt)
scan-IsScan (app ∷ apps) s t h e = elim (Bool-cases (app.appid == 0)) [
  | inl z ↦ let no : ◌≡◌ {A = Checked Scan} (refused zero_appid) (accepted t) = rw z at e in cc
  | inr z ↦
      let low : 1 ≤ app.appid = ground arith in
      let (kept, now) = scan_row-IsScan app s low h in
      let (a, b, c) = scan-IsScan apps (scan_row app s) t kept (rw z at e) in
      (a, b ∙ rw now refl, (low, c))
]

largest_le :
    (apps : List AppDto) (n : ℕ)
    → (n ≤ largest apps n) × All (λ (a : AppDto). a.appid ≤ largest apps n) apps
largest_le [] n = (omega arith, tt)
largest_le (app ∷ apps) n =
    let (a, b) = largest_le apps (max n app.appid) in (omega (arith, a), (omega (arith, a), b))

finish_page-last :
    (body : ResponseBody) (s : Scan) (page : AppListPage)
    → finish_page body (accepted s) ≡ accepted page
    → 0 < s.max_appid
    → (page.page_last_appid ≡ s.max_appid) × (page.proposals ≡ s.proposals)
unfolding finish_page
finish_page-last body s page e h = ground arith

some_positive :
    (apps : List AppDto) → apps ≢ [] → All (λ (a : AppDto). 1 ≤ a.appid) apps → 1 ≤ largest apps 0
some_positive [] b h = absurd (b refl)
some_positive (app ∷ apps) b h = omega (arith, h.0, (largest_le apps (max 0 app.appid)).0)

All-both :
    {A : Type 0} (P Q : A → Type 0) (xs : List A) → All P xs → All Q xs → All (λ x. P x × Q x) xs
All-both P Q [] h k = tt
All-both P Q (x ∷ xs) h k = ((h.0, k.0), All-both P Q xs h.1 k.1)

abbrev at_start : Scan
at_start = record {
  proposals = [];
  page_max_last_modified = 0;
  max_appid = 0;
  skipped_missing_name = 0;
}

finish_page-IsWithin :
    (body : ResponseBody) (page : AppListPage) (c : Checked Scan)
    → body.apps ≢ []
    → scan body.apps at_start ≡ c
    → finish_page body c ≡ accepted page
    → (page.page_last_appid ≡ largest body.apps 0)
      × All (λ (a : AppDto). (1 ≤ a.appid) × (a.appid ≤ page.page_last_appid)) body.apps
      × All (IsWithin page.page_last_appid) page.proposals
unfolding finish_page
finish_page-IsWithin body page (refused fault) b h e = cc
finish_page-IsWithin body page (accepted t) b h e =
    let (within, top, positive) = scan-IsScan body.apps at_start t tt h in
    let low = some_positive body.apps b positive in
    let (last, same) = finish_page-last body t page e (omega (arith, low, top)) in
    let whole : page.page_last_appid ≡ largest body.apps 0 = last ∙ top in
    (
      whole,
      rw whole (
          All-both (λ (a : AppDto). 1 ≤ a.appid) (λ (a : AppDto). a.appid ≤ largest body.apps 0)
            body.apps positive (largest_le body.apps 0).1),
      rw (last, same) within,
    )

-- The page of a response with rows that is accepted ends at the largest App ID of its rows, also of
-- those that were skipped for want of a name; every App ID is positive, and every game proposed has
-- an App ID up to that end.
pub parse_app_list_page-last :
    (body : ResponseBody) (page : AppListPage)
    → body.apps ≢ []
    → parse_app_list_page body ≡ accepted page
    → (page.page_last_appid ≡ largest body.apps 0)
      × All (λ (a : AppDto). (1 ≤ a.appid) × (a.appid ≤ page.page_last_appid)) body.apps
      × All (IsWithin page.page_last_appid) page.proposals
unfolding parse_app_list_page
parse_app_list_page-last body page some_rows e =
    finish_page-IsWithin body page (scan body.apps at_start) some_rows refl
      (rw (busy body.apps some_rows) at e)
  where
    busy : (apps : List AppDto) → apps ≢ [] → is_empty apps ≡ false
    busy [] b = absurd (b refl)
    busy (app ∷ apps) b = refl
