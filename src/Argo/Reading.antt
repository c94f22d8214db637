-- ===== src/Argo/Reading.antt =====
-- internal/argo/argo.go: the drift of each object, the view of the virtual machines, and what an
-- Application says is wrong.
use dotvirt.Prelude.Maps.{insert}
use dotvirt.Prelude.Sort.{sort_by}
use dotvirt.Argo.{
  is_synced, Drift, ObjectHealth, Fields, Reader, as_string, nested_objects, nested_string,
  sync_status, one_of,
}
use dotvirt.Argo.Keys.{ResKey, key_of, find_key, set_key, same_key}
use dotvirt.Prelude.{
  all, Bool, false, not, Option, none, some, List, [], map, Bytes, bytes, bytes_eq, bytes_lt,
  if◌then◌else◌, ◌&&◌, ◌||◌, ◌∷◌, ◌++◌,
}

abbrev name_key : Bytes
name_key = bytes "name"

abbrev status_key : Bytes
status_key = bytes "status"

abbrev health_status : List Bytes
health_status = bytes "health" ∷ bytes "status" ∷ []

abbrev pub status_resources : List Bytes
status_resources = bytes "status" ∷ bytes "resources" ∷ []

abbrev pub sync_results : List Bytes
sync_results = bytes "status" ∷ bytes "operationState" ∷ bytes "syncResult" ∷ bytes "resources" ∷ []

unfoldable pub is_named : Fields → Bool
is_named res = not (bytes_eq (as_string res name_key) [])

-- A message counts unless its object was applied.
unfoldable pub is_refusal : Fields → Bool
is_refusal res =
    not (bytes_eq (as_string res (bytes "message")) [])
    && not (bytes_eq (as_string res status_key) (bytes "Synced"))

-- strings.HasSuffix
unfoldable pub has_suffix : Bytes → Bytes → Bool
has_suffix suffix [] = bytes_eq suffix []
has_suffix suffix (c ∷ s) = let rest = has_suffix suffix s in bytes_eq (c ∷ s) suffix || rest

unfoldable pub first_error : List Fields → Bytes
first_error [] = []
first_error (cond ∷ rest) =
    let msg = as_string cond (bytes "message") in
    let later = first_error rest in
    if has_suffix (bytes "Error") (as_string cond (bytes "type")) && not (bytes_eq msg [])
    then msg
    else later

-- an entry of `out`, made when there is none: `byKey` points into `out`
unfoldable pub entry :
    (ObjectHealth → ObjectHealth)
    → ResKey
    → Option ObjectHealth
    → List (ResKey × ObjectHealth)
    → List (ResKey × ObjectHealth)
entry update k (some o) out = set_key k (update o) out
entry update k none out =
    set_key k
      (update (record {
        kind = k.kind;
        namespace = k.namespace;
        name = k.name;
        health = [];
        message = [];
      }))
      out

unfoldable pub is_quiet_health : Bytes → Bool
is_quiet_health h =
    one_of [] (bytes "Healthy") h || one_of (bytes "Progressing") (bytes "Suspended") h

-- the set `synced`
unfoldable pub is_synced_in : ResKey → List Fields → Bool
is_synced_in k [] = false
is_synced_in k (res ∷ rest) =
    (is_named res
      && (is_synced (sync_status (as_string res status_key)) && same_key (key_of res) k))
    || is_synced_in k rest

unfoldable pub by_identity : ObjectHealth → ObjectHealth → Bool
by_identity a b =
    if not (bytes_eq a.kind b.kind)
    then bytes_lt a.kind b.kind
    else if not (bytes_eq a.namespace b.namespace)
    then bytes_lt a.namespace b.namespace
    else bytes_lt a.name b.name

module _ (rd : Reader) where
  unfoldable pub live_drift : Fields → Drift
  live_drift res = record {
    sync = sync_status (as_string res status_key);
    health = nested_string rd res health_status;
    message = [];
  }

  unfoldable pub add_resources : List Fields → List (ResKey × Drift) → List (ResKey × Drift)
  add_resources [] out = out
  add_resources (res ∷ rest) out =
      add_resources rest (if is_named res then set_key (key_of res) (live_drift res) out else out)

  -- on the drift of an object that the live tree has, and that is not synced since
  unfoldable pub with_message :
      Fields → Option Drift → List (ResKey × Drift) → List (ResKey × Drift)
  with_message res none out = out
  with_message res (some d) out =
      if is_synced d.sync
      then out
      else set_key (key_of res) (record d { message = rd.scrub (as_string res (bytes "message")) })
          out

  unfoldable pub merge_result : Fields → List (ResKey × Drift) → List (ResKey × Drift)
  merge_result res out =
      if is_refusal res then with_message res (find_key (key_of res) out) out else out

  unfoldable pub merge_results : List Fields → List (ResKey × Drift) → List (ResKey × Drift)
  merge_results [] out = out
  merge_results (res ∷ rest) out = merge_results rest (merge_result res out)

  unfoldable pub merge_sync_messages : List (ResKey × Drift) → Fields → List (ResKey × Drift)
  merge_sync_messages out app = merge_results (nested_objects rd app sync_results) out

  unfoldable pub drift_from : List Fields → List (ResKey × Drift) → List (ResKey × Drift)
  drift_from [] out = out
  drift_from (app ∷ apps) out =
      drift_from apps
        (merge_sync_messages (add_resources (nested_objects rd app status_resources) out) app)

  unfoldable pub resource_drift_from_apps : List Fields → List (ResKey × Drift)
  resource_drift_from_apps apps = drift_from apps []

  unfoldable pub error_condition : Fields → Bytes
  error_condition app =
      first_error (nested_objects rd app (bytes "status" ∷ bytes "conditions" ∷ []))

  unfoldable pub add_health : Fields → List (ResKey × ObjectHealth) → List (ResKey × ObjectHealth)
  add_health res out =
      let h = nested_string rd res health_status in
      let msg = nested_string rd res (bytes "health" ∷ bytes "message" ∷ []) in
      if is_quiet_health h
      then out
      else entry (λ o. record o { health = h; message = msg }) (key_of res)
          (find_key (key_of res) out) out

  unfoldable pub add_healths :
      List Fields → List (ResKey × ObjectHealth) → List (ResKey × ObjectHealth)
  add_healths [] out = out
  add_healths (res ∷ rest) out = add_healths rest (if is_named res then add_health res out else out)

  unfoldable pub add_refusal :
      List Fields → Fields → List (ResKey × ObjectHealth) → List (ResKey × ObjectHealth)
  add_refusal live res out =
      if is_named res && (is_refusal res && not (is_synced_in (key_of res) live))
      then entry (λ o. record o { message = rd.scrub (as_string res (bytes "message")) })
          (key_of res) (find_key (key_of res) out) out
      else out

  unfoldable pub add_refusals :
      List Fields → List Fields → List (ResKey × ObjectHealth) → List (ResKey × ObjectHealth)
  add_refusals live [] out = out
  add_refusals live (res ∷ rest) out = add_refusals live rest (add_refusal live res out)

  unfoldable pub unhealthy_entries : Fields → Bool → List (ResKey × ObjectHealth)
  unhealthy_entries app op_stands =
      let live = nested_objects rd app status_resources in
      let out = add_healths live [] in
      if op_stands then add_refusals live (nested_objects rd app sync_results) out else out

  unfoldable pub unhealthy_resources : Fields → Bool → List ObjectHealth
  unhealthy_resources app op_stands =
      sort_by by_identity (map (λ e. e.1) (unhealthy_entries app op_stands))

unfoldable pub vm_view : List (ResKey × Drift) → List (Bytes × Drift)
vm_view [] = []
vm_view ((k, d) ∷ all) =
    let rest = vm_view all in
    if bytes_eq k.group (bytes "kubevirt.io") && bytes_eq k.kind (bytes "VirtualMachine")
    then insert (k.namespace ++ 47 ∷ k.name) d rest
    else rest
