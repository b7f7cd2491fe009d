-- ===== src/Store/Sources.antt =====
-- src/store.rs: the sources of a tenant.
pub mod Reads
use eal_api.Prelude.{
  ℕ, Bool, true, false, not, ◌&&◌, ◌||◌, Option, none, some, List, [], ◌∷◌, ◌++◌, take, keep, any,
  ltb, leb, ◌==◌, if◌then◌else◌, ok, err,
}
use eal_api.Prelude.Ordered.{text_ord}
use eal_api.Prelude.TreeSet.{eqb}
use eal_api.Text.{Text, text}
use eal_api.Uuids.{Uuid}
use eal_api.HttpError
use eal_api.Headers.{first}
use eal_api.Contracts.{CreateSourcePolicy}
use eal_api.Store.Rows.{Time, SourceRow, Store}
use eal_api.Store.Action.{Action, gets, or_raise, ◌>>=◌}
use eal_api.Store.Order.{order_by}
use eal_api.Store.Engine.{Constraints}
use eal_api.Store.Rules.{max_rows}
use eal_api.Store.Identity.{as_i16, as_i32}

-- `ORDER BY updated_at DESC, id ASC`
abbrev newest_source_first : SourceRow → SourceRow → Bool
newest_source_first a b =
    ltb b.updated_at a.updated_at || (a.updated_at == b.updated_at && leb a.id b.id)

abbrev pub is_source : Uuid → Uuid → SourceRow → Bool
is_source tenant_id source_id row = row.tenant_id == tenant_id && row.id == source_id

-- The unique columns of the table.
abbrev pub is_root : Uuid → Text → SourceRow → Bool
is_root tenant_id root_url row = row.tenant_id == tenant_id && eqb row.root_url root_url

module _ {Single Double : Type 0} where
  unfoldable pub list_sources : Uuid → Action (Store Single Double) (List SourceRow)
  list_sources tenant_id = gets λ s.
      take max_rows
        (order_by newest_source_first (keep (λ row. row.tenant_id == tenant_id) s.sources))

  unfoldable pub get_source : Uuid → Uuid → Action (Store Single Double) (Option SourceRow)
  get_source tenant_id source_id = gets λ s. first (keep (is_source tenant_id source_id) s.sources)

-- The row that is inserted, its defaults included.
abbrev pub source_row : Time → Uuid → Uuid → CreateSourcePolicy → Text → SourceRow
source_row now id tenant_id input canonical_root_url = record {
  id = id;
  tenant_id = tenant_id;
  name = input.name;
  root_url = canonical_root_url;
  allowed_hosts = input.allowed_hosts;
  allowed_path_prefixes = input.allowed_path_prefixes;
  include_subdomains = input.include_subdomains;
  discovery_modes = input.discovery_modes;
  crawl_interval_seconds = as_i32 input.crawl_interval_seconds;
  max_depth = as_i16 input.max_depth;
  max_pages_per_run = as_i32 input.max_pages_per_run;
  obey_robots = input.obey_robots;
  enabled = input.enabled;
  created_at = now;
  updated_at = now;
}

module _ {Single Double : Type 0} (constraints : Constraints Single Double) where
  open constraints use {checks_source, admits_source, gen_random_uuid}

  -- `INSERT ... ON CONFLICT (tenant_id, root_url) DO NOTHING RETURNING *`
  unfoldable pub insert_source : SourceRow → Action (Store Single Double) (Option SourceRow)
  insert_source row s =
      if not (checks_source s row)
      then (err HttpError.internal, s)
      else if any (is_root row.tenant_id row.root_url) s.sources
      then (ok none, s)
      else if admits_source s row
      then (ok (some row), record s { sources = s.sources ++ (row ∷ []) })
      else (err HttpError.internal, s)

  unfoldable pub create_source :
      Time → Uuid → CreateSourcePolicy → Text → Action (Store Single Double) SourceRow
  create_source now tenant_id input canonical_root_url s =
      (insert_source (source_row now (gen_random_uuid s) tenant_id input canonical_root_url)
          >>= λ row.
              or_raise row
                (HttpError.conflict (text "a source with this canonical root URL already exists")))
        s
