-- ===== src/Errors/Responses.antt =====
-- utils/response.go: the replies that report an error. A switch over `errors.Is` is the list of its
-- cases in order, each with the errors it names and the reply it returns.
pub mod Wrapping
pub mod Tests
use antimony_backend.Base.{
  Eq, ◌==◌, nat_eq, string_eq, ==_refl, ltb, leb, nat_beq, if◌then◌else◌, ltb→lt, leb→le, ltb-of_lt,
  ltb-of_le, nat_beq_iff, Bool-cases, Option-cases, ◌>>=◌, length, get_elem?, take, drop, replicate,
  store, length-append, length-take, length-drop, length-replicate, take-append-drop, take_all,
  drop_all, drop-append, drop-drop, get_elem?-some, Stores, store-some, All, In, All-In, All-of_In,
  All-imp, All-append, In-append_left, In-append_right, lookup, put, delete, Map, lookup-put,
  lookup-delete, lookup-put_self, lookup-put_ne, lookup-delete_self, lookup-delete_ne,
  lookup-put-some, lookup-delete-some, ℕ, zero, suc, ◌+◌, ◌-◌, ◌*◌, ◌/◌, ◌%◌, ◌^◌, ◌≤◌, ◌<◌, min,
  String, ◌≡◌, refl, sym, ap, subst, ◌∙◌, ◌≢◌, ◌↔◌, ◌⊎◌, inl, inr, Bool, true, false, not, ◌&&◌,
  ◌||◌, Option, none, some, List, [], ◌∷◌, ◌++◌, map, append-nil, append_assoc, arith,
}
use antimony_backend.Errors.{
  Error, errors_new, errorf, address, message_of, is, err_antimony, err_provider,
  err_database_error, err_uuid_not_found, err_node_not_found, err_shell_not_found, err_lab_running,
  err_lab_name_exists, err_invalid_lab_name, err_topology_name_exists, err_invalid_topology_name,
  err_unsafe_topology, err_bind_file_exists, err_collection_exists, err_invalid_topology,
  err_invalid_bind_file_path, err_admin_auth_disabled_error, err_open_id_auth_disabled_error,
  err_desktop_auth_disabled_error, err_invalid_credentials, err_desktop_token_invalid,
  err_access_token_invalid, err_unauthorized, err_forbidden, err_no_access_to_lab,
  err_no_access_to_topology, err_no_write_access_to_lab, err_no_write_access_to_topology,
  err_no_write_access_to_bind_file, err_no_write_access_to_collection, err_no_deploy_access_to_lab,
  err_no_destroy_access_to_lab, err_no_deploy_access_to_collection,
  err_no_permission_to_create_collections, err_lab_not_found, err_lab_not_running,
  err_shell_limit_reached, err_node_not_running, err_lab_operation_in_progress,
  err_invalid_node_operation, err_invalid_runtime_command, err_no_access_to_shell,
  err_invalid_socket_request,
}

pub data ℤ : Type 0 where
  pos negsuc : ℕ → ℤ

pub record ErrorResponse : Type 0 where
  pub code : ℤ
  pub message : String

pub record Case {ℓ} (R : Type ℓ) : Type ℓ where
  pub targets : List Error
  pub reply : R

unfoldable pub matches : Error → List Error → Bool
matches e [] = false
matches e (t ∷ ts) = is e t || matches e ts

-- The reply of the first case that names the error, or else the one after the switch.
unfoldable pub switch {ℓ} : {R : Type ℓ} → Error → List (Case R) → R → R
switch e [] otherwise = otherwise
switch e (c ∷ cs) otherwise =
    let below = switch e cs otherwise in if matches e c.targets then c.reply else below

abbrev pub on {ℓ} : {R : Type ℓ} → List Error → R → Case R
on targets reply = record { targets = targets; reply = reply }

abbrev pub http_cases : List (Case (ℕ × ℤ))
http_cases =
    on (err_uuid_not_found ∷ []) (404, negsuc 0)
    ∷ on (err_invalid_credentials ∷ []) (400, pos 1001)
    ∷ on (err_collection_exists ∷ []) (400, pos 2001)
    ∷ on (err_topology_name_exists ∷ []) (400, pos 3001)
    ∷ on (err_invalid_topology ∷ []) (400, pos 3003)
    ∷ on (err_invalid_topology_name ∷ []) (400, pos 3004)
    ∷ on (err_unsafe_topology ∷ []) (400, pos 3005)
    ∷ on (err_bind_file_exists ∷ []) (400, pos 4001)
    ∷ on (err_invalid_bind_file_path ∷ []) (400, pos 4002)
    ∷ on (err_lab_running ∷ []) (400, pos 4003)
    ∷ on (err_lab_name_exists ∷ []) (400, pos 5001)
    ∷ on (err_invalid_lab_name ∷ []) (400, pos 5002)
    ∷ on (err_database_error ∷ []) (500, pos 500)
    ∷ on
        (err_unauthorized ∷ err_admin_auth_disabled_error ∷ err_open_id_auth_disabled_error
          ∷ err_desktop_auth_disabled_error ∷ [])
        (401, pos 401)
    ∷ on (err_access_token_invalid ∷ []) (498, pos 498)
    ∷ on
        (err_forbidden ∷ err_desktop_token_invalid ∷ err_no_access_to_lab
          ∷ err_no_access_to_topology ∷ err_no_write_access_to_lab
          ∷ err_no_write_access_to_bind_file ∷ err_no_write_access_to_topology
          ∷ err_no_write_access_to_collection ∷ err_no_deploy_access_to_collection
          ∷ err_no_deploy_access_to_lab ∷ err_no_permission_to_create_collections ∷ [])
        (403, pos 403)
    ∷ []

abbrev pub socket_cases : List (Case ℤ)
socket_cases =
    on (err_antimony ∷ []) (pos 5000)
    ∷ on (err_invalid_runtime_command ∷ []) (pos 5400)
    ∷ on (err_invalid_socket_request ∷ []) (pos 5422)
    ∷ on (err_uuid_not_found ∷ []) (pos 5404)
    ∷ on (err_provider ∷ []) (pos 5500)
    ∷ on (err_lab_not_found ∷ []) (pos 5011)
    ∷ on (err_lab_not_running ∷ []) (pos 5012)
    ∷ on (err_lab_operation_in_progress ∷ []) (pos 5013)
    ∷ on (err_node_not_found ∷ []) (pos 5021)
    ∷ on (err_node_not_running ∷ []) (pos 5022)
    ∷ on (err_invalid_node_operation ∷ []) (pos 5023)
    ∷ on (err_shell_not_found ∷ []) (pos 5031)
    ∷ on (err_shell_limit_reached ∷ []) (pos 5032)
    ∷ on
        (err_no_destroy_access_to_lab ∷ err_no_deploy_access_to_lab ∷ err_no_access_to_shell
          ∷ err_no_access_to_lab ∷ err_no_access_to_topology ∷ [])
        (pos 5403)
    ∷ []

-- The HTTP status and the body of the reply.
unfoldable pub create_error_response : Error → ℕ × ErrorResponse
create_error_response e =
    let (status, code) = switch e http_cases (500, negsuc 0) in
    (status, record { code = code; message = message_of e })

unfoldable pub create_validation_error : Error → ℕ × ErrorResponse
create_validation_error e = (422, record { code = pos 422; message = message_of e })

unfoldable pub create_socket_error_response : Error → ErrorResponse
create_socket_error_response e = record {
  code = switch e socket_cases (pos 5000);
  message = message_of e;
}
