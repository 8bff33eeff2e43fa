-- ===== src/Tests/RegistryTests.antt =====
-- A Registry of two Pipelines.
use filedge.Base.{String, ◌<>◌, ◌≡◌, refl, true, Option, some, [], ◌∷◌}
use filedge.Base.Dict
use filedge.Base.Result.{Result, ok}
use filedge.Registry.Reference.{resolve_reference}
use filedge.Registry.Parse.{
  RegistryEntry, RawRegistry, Workspace, to_dict, parse_registry, add_entry,
}
use filedge.Registry.Valid.{IsRegistry, parse_registry-IsRegistry}
use filedge.Registry.Added.{Extends, add_entry-Extends}
use filedge.Registry.Resolve.{
  ResolvedPipeline, ResolveError, EntryOf, ResolvedFrom, resolve_pipeline,
  resolve_pipeline-audit_db,
}

abbrev orders : RegistryEntry
orders = record {
  id = "orders";
  folder = "orders";
  watched_directory = "in/orders";
  audit_db = "env:ORDERS_DB";
  audit_export = "site";
}

abbrev stocks : RegistryEntry
stocks = record orders { id = "stocks"; folder = "stocks"; audit_db = "secrets:/run/stocks" }

abbrev everything : Workspace
everything = record { is_folder = λ f. true; has_config = λ f. true }

abbrev file : RawRegistry
file = to_dict (orders ∷ [])

abbrev both : RawRegistry
both = to_dict (orders ∷ stocks ∷ [])

parsed : parse_registry (some everything) both ≡ ok (orders ∷ stocks ∷ [])
unfolding parse_registry to_dict Dict.lookup Dict.insert
parsed = refl

parse_registry-IsRegistry_example : IsRegistry (some everything) (orders ∷ stocks ∷ [])
parse_registry-IsRegistry_example =
    parse_registry-IsRegistry (some everything) both (orders ∷ stocks ∷ []) parsed

added : add_entry everything (some file) stocks ≡ (some both, ok (orders ∷ stocks ∷ []))
unfolding add_entry to_dict Dict.lookup Dict.insert
added = refl

add_entry-Extends_example : Extends everything (some file) stocks (some both) (orders ∷ stocks ∷ [])
add_entry-Extends_example =
    add_entry-Extends everything (some file) (some both) stocks (orders ∷ stocks ∷ []) added

abbrev environ : String → Option String
environ name = some "sqlite://"

abbrev join : String → String → String
join a b = a <> "/" <> b

abbrev resolve : String → Result ResolveError ResolvedPipeline
resolve = resolve_pipeline environ environ join "." everything (some both)

abbrev resolved : RegistryEntry → ResolvedPipeline
resolved e = record {
  id = e.id;
  config_path = join (join "." e.folder) "pipeline.yaml";
  watched_directory = e.watched_directory;
  audit_db_url = "sqlite://";
  audit_export = e.audit_export;
}

orders-resolved : resolve "orders" ≡ ok (resolved orders)
unfolding resolve_pipeline parse_registry to_dict Dict.lookup Dict.insert resolve_reference
orders-resolved = refl

stocks-resolved : resolve "stocks" ≡ ok (resolved stocks)
unfolding resolve_pipeline parse_registry to_dict Dict.lookup Dict.insert resolve_reference
stocks-resolved = refl

resolve_pipeline-audit_db_example :
    (e : RegistryEntry) × (f : RegistryEntry) × EntryOf everything both "orders" e
    × EntryOf everything both "stocks" f
    × ResolvedFrom environ environ join "." everything both e (resolved orders)
    × ResolvedFrom environ environ join "." everything both f (resolved stocks)
    × (orders.id ≡ "orders")
    × (stocks.id ≡ "stocks")
    × (e.audit_db ≡ f.audit_db → orders.id ≡ stocks.id)
resolve_pipeline-audit_db_example =
    resolve_pipeline-audit_db environ environ join "." everything both "orders" "stocks"
      (resolved orders) (resolved stocks) orders-resolved stocks-resolved
