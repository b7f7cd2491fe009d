-- ===== src/Store/Reverse/Revision.antt =====
-- src/reverse_match.rs: `upsert_page_revision`, two statements.
use eal_api.Prelude.{Bool, ◌&&◌, Option, none, some, map, ◌==◌, if◌then◌else◌}
use eal_api.Prelude.Ordered.{text_ord}
use eal_api.Uuids.{Uuid}
use eal_api.HttpError
use eal_api.HttpError.{HttpError}
use eal_api.Store.Rows.{PageRow, Store}
use eal_api.Store.Action.{Action, pure, modify, or_raise, transaction, ◌>>=◌, ◌>>◌}
use eal_api.Store.Engine.{Constraints}
use eal_api.Store.Pages.{Visit, upserted_page, insert_page_revision, selected_revision}
use eal_api.Store.Reverse.{PageWire}

module _ {Single Double : Type 0} (constraints : Constraints Single Double) (visit : Visit) where
  abbrev page_wire : Uuid → Option (Uuid × Bool) → Option PageWire
  page_wire page_id none = none
  page_wire page_id (some (revision_id, changed)) = some (record {
    page_id = page_id;
    page_revision_id = revision_id;
    content_sha256 = visit.content_sha256;
    changed = changed;
  })

  -- The first statement: here the page's row comes from `upserted_page` itself.
  unfoldable pub page_statement : Action (Store Single Double) (Option PageWire)
  page_statement s =
      transaction
        (do
          page ← upserted_page constraints visit s
          inserted ← insert_page_revision constraints visit page.id page.latest_revision_id
          pure (page_wire page.id (selected_revision visit s page.id inserted)))
        s

  abbrev latest_set : PageWire → PageRow → PageRow
  latest_set page row =
      if row.tenant_id == visit.tenant_id && row.id == page.page_id
      then record row {
        latest_revision_id = some page.page_revision_id;
        last_seen_at = visit.fetched_at;
        updated_at = visit.now;
      }
      else row

  unfoldable pub upsert_page_revision : Action (Store Single Double) PageWire
  upsert_page_revision = do
    row ← page_statement
    page ← or_raise row HttpError.internal
    modify (λ t. record t { pages = map (latest_set page) t.pages })
    pure page
