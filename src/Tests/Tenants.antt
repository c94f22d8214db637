-- ===== src/Tests/Tenants.antt =====
-- Runs of the project resolution on two namespaces of one project.
use dotvirt.Prelude.{
  refl, sym, subst, inl, inr, none, List, [], Elem, bytes, bytes_eq, bytes_lt, ◌≡◌, ◌↔◌, ◌∷◌,
}
use dotvirt.Prelude.Maps.{lookup, insert, without}
use dotvirt.Prelude.Sort.{sort_by, insert_by}
use dotvirt.Forge.{Net, trim_right, trim_left, parse_url, resolve_ref}
use dotvirt.Project.{
  ProjectInfo, Namespace, Resolver, read_key, is_visible, add_repo, or_new, repo_of, info_of,
  label_of, repo_ref, join_accum, group_one, group, resolve,
}
use dotvirt.Project.Member.{Holds}
use dotvirt.Project.Tenancy.{resolve_exact, resolve_agreed}

-- every text is a path, written in lower case and without spaces
abbrev pub plain : Net
plain = record { parse = λ u. none; trim_space = λ u. u; to_lower = λ u. u }

abbrev pub resolver : Resolver
resolver = record {
  project_label = bytes "project";
  repo_anno = bytes "repo";
  forge_base = bytes "http://git/";
}

abbrev pub web : Namespace
web = record {
  name = bytes "web";
  labels = (bytes "project", bytes "shop") ∷ [];
  annotations = (bytes "repo", bytes "ann/shop") ∷ [];
}

abbrev db : Namespace
db = record {
  name = bytes "db";
  labels = (bytes "project", bytes "shop") ∷ [];
  annotations = (bytes "repo", bytes "/ann/shop") ∷ [];
}

abbrev pub cluster_namespaces : List Namespace
cluster_namespaces = web ∷ db ∷ []

resolve_exact_example :
    ((info : ProjectInfo) × Elem info (resolve plain resolver none cluster_namespaces)
      × (info.name ≡ bytes "shop")
      × Elem (bytes "db") info.namespaces)
    ↔ Holds plain resolver none (bytes "shop") (bytes "db") cluster_namespaces
resolve_exact_example =
    resolve_exact plain resolver none (bytes "shop") (bytes "db") cluster_namespaces

abbrev shop : ProjectInfo
shop = record {
  name = bytes "shop";
  repo = bytes "http://git/ann/shop";
  namespaces = bytes "db" ∷ bytes "web" ∷ [];
  error = [];
}

shop-resolved : resolve plain resolver none cluster_namespaces ≡ shop ∷ []
unfolding resolve group group_one is_visible label_of repo_ref read_key join_accum add_repo or_new
    lookup insert without resolve_ref parse_url trim_right trim_left bytes_eq info_of repo_of
    bytes_lt sort_by insert_by
shop-resolved = refl

resolve_agreed_example :
    (resolve_ref plain resolver.forge_base (repo_ref plain resolver db) ≡ shop.repo)
    × (shop.error ≡ [])
unfolding is_visible label_of repo_ref read_key lookup bytes_eq
resolve_agreed_example =
    resolve_agreed plain resolver none shop db cluster_namespaces
      (subst (λ (ps : List ProjectInfo). Elem shop ps) (sym shop-resolved) (inl refl)) (λ e. cc e)
      (inr (inl refl)) refl refl
