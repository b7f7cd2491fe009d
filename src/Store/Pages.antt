-- ===== src/Store/Pages.antt =====
-- src/store.rs and src/reverse_match.rs: the parts of a statement that records a page and a
-- revision of its content. The parts of a statement all read the tables as they were when it
-- began, `s`, and see what another part wrote only in the rows that this part returns; their
-- writes go to the tables that the action passes on.
use eal_api.Prelude.{
  ℕ, Bool, true, false, not, ◌&&◌, Option, none, some, [], ◌∷◌, ◌++◌, map, keep, any, ◌==◌,
  if◌then◌else◌, is_empty, ok, err, unwrap_or,
}
use eal_api.Prelude.Ordered.{text_ord}
use eal_api.Prelude.TreeSet.{eqb}
use eal_api.Text.{Text}
use eal_api.Uuids.{Uuid}
use eal_api.HttpError
use eal_api.Headers.{first}
use eal_api.Store.Rows.{Time, PageRow, PageRevisionRow, Store}
use eal_api.Store.Action.{Action}
use eal_api.Store.Engine.{Constraints}
use eal_api.Store.Identity.{as_i16}

-- The values that both statements bind.
pub record Visit : Type 0 where
  pub now : Time
  pub tenant_id : Uuid
  pub source_id : Uuid
  pub canonical_url : Text
  pub original_url : Text
  pub title : Option Text
  pub content_text : Text
  pub content_sha256 : Text
  pub content_type : Text
  pub http_status : ℕ
  pub published_at : Option Time
  pub fetched_at : Time

-- `NULLIF(title.unwrap_or_default(), '')`
abbrev nullif_empty : Option Text → Option Text
nullif_empty title = if is_empty (unwrap_or title []) then none else title

-- The unique columns of the tables.
abbrev pub is_page : Visit → PageRow → Bool
is_page visit row =
    row.tenant_id == visit.tenant_id
    && (row.source_id == visit.source_id && eqb row.canonical_url visit.canonical_url)

abbrev pub is_content : Visit → Uuid → PageRevisionRow → Bool
is_content visit page_id row =
    row.tenant_id == visit.tenant_id
    && (row.page_id == page_id && eqb row.content_sha256 visit.content_sha256)

-- `DO UPDATE SET last_seen_at = EXCLUDED.last_seen_at, updated_at = now()`
abbrev seen_again : Visit → PageRow → PageRow
seen_again visit row = record row { last_seen_at = visit.fetched_at; updated_at = visit.now }

abbrev pub page_row : Visit → Uuid → PageRow
page_row visit id = record {
  id = id;
  tenant_id = visit.tenant_id;
  source_id = visit.source_id;
  canonical_url = visit.canonical_url;
  first_seen_at = visit.fetched_at;
  last_seen_at = visit.fetched_at;
  latest_revision_id = none;
  updated_at = visit.now;
}

abbrev pub page_revision_row : Visit → Uuid → Uuid → Option Uuid → PageRevisionRow
page_revision_row visit id page_id predecessor = record {
  id = id;
  tenant_id = visit.tenant_id;
  page_id = page_id;
  predecessor_revision_id = predecessor;
  original_url = visit.original_url;
  final_url = visit.canonical_url;
  title = nullif_empty visit.title;
  content_text = visit.content_text;
  content_sha256 = visit.content_sha256;
  content_type = visit.content_type;
  http_status = as_i16 visit.http_status;
  published_at = visit.published_at;
  fetched_at = visit.fetched_at;
}

module _ {Single Double : Type 0} (constraints : Constraints Single Double) (visit : Visit) where
  open constraints use {
    checks_page, checks_page_revision, admits_page, admits_page_revision, gen_random_uuid,
  }

  unfoldable pub insert_page : PageRow → Action (Store Single Double) PageRow
  insert_page row t =
      if admits_page t row
      then (ok row, record t { pages = t.pages ++ (row ∷ []) })
      else (err HttpError.internal, t)

  abbrev touch_page : PageRow → Action (Store Single Double) PageRow
  touch_page old t = (
    ok (seen_again visit old),
    record t {
      pages = map (λ row. if is_page visit row then seen_again visit row else row) t.pages;
    },
  )

  -- `upserted_page`: INSERT ... ON CONFLICT DO UPDATE ... RETURNING
  abbrev pub upsert_found : Option PageRow → Action (Store Single Double) PageRow
  upsert_found none t = insert_page (page_row visit (gen_random_uuid t)) t
  upsert_found (some old) t = touch_page old t

  unfoldable pub upserted_page : Store Single Double → Action (Store Single Double) PageRow
  upserted_page s t =
      if not (checks_page t (page_row visit (gen_random_uuid t)))
      then (err HttpError.internal, t)
      else upsert_found (first (keep (is_page visit) s.pages)) t

  -- INSERT ... ON CONFLICT DO NOTHING RETURNING id, into the page revisions.
  unfoldable pub insert_page_revision :
      Uuid → Option Uuid → Action (Store Single Double) (Option Uuid)
  insert_page_revision page_id predecessor t =
      let row = page_revision_row visit (gen_random_uuid t) page_id predecessor in
      if not (checks_page_revision t row)
      then (err HttpError.internal, t)
      else if any (is_content visit page_id) t.page_revisions
      then (ok none, t)
      else if admits_page_revision t row
      then (ok (some row.id), record t { page_revisions = t.page_revisions ++ (row ∷ []) })
      else (err HttpError.internal, t)

abbrev pub unchanged : Option PageRevisionRow → Option (Uuid × Bool)
unchanged none = none
unchanged (some row) = some (row.id, false)

-- `selected_revision`: the inserted one, changed, or else the one that was there, unchanged.
unfoldable pub selected_revision :
    {Single Double : Type 0}
    → Visit
    → Store Single Double
    → Uuid
    → Option Uuid
    → Option (Uuid × Bool)
selected_revision visit s page_id (some id) = some (id, true)
selected_revision visit s page_id none =
    unchanged (first (keep (is_content visit page_id) s.page_revisions))
