-- ===== src/Errors.antt =====
-- utils/errors.go: the sentinel errors. Go compares them by identity, so that each has an address
-- of its own; `errorf` is `fmt.Errorf` with one `%w`, a new error that wraps another.
pub mod Result
pub mod Responses
use antimony_backend.Base.{
  Eq, ◌==◌, nat_eq, string_eq, ==_refl, ltb, leb, nat_beq, if◌then◌else◌, ltb→lt, leb→le, ltb-of_lt,
  ltb-of_le, nat_beq_iff, Bool-cases, Option-cases, ◌>>=◌, length, get_elem?, take, drop, replicate,
  store, length-append, length-take, length-drop, length-replicate, take-append-drop, take_all,
  drop_all, drop-append, drop-drop, get_elem?-some, Stores, store-some, All, In, All-In, All-of_In,
  All-imp, All-append, In-append_left, In-append_right, lookup, put, delete, Map, lookup-put,
  lookup-delete, lookup-put_self, lookup-put_ne, lookup-delete_self, lookup-delete_ne,
  lookup-put-some, lookup-delete-some, ℕ, zero, suc, ◌+◌, ◌-◌, ◌*◌, ◌/◌, ◌%◌, ◌^◌, ◌≤◌, ◌<◌, min,
  String, ◌≡◌, refl, sym, ap, subst, ◌∙◌, ◌≢◌, ◌↔◌, ◌⊎◌, inl, inr, Bool, true, false, not, ◌&&◌,
  ◌||◌, Option, none, some, List, [], ◌∷◌, ◌++◌, map, append-nil, append_assoc, arith,
}

pub data Error : Type 0 where
  errors_new : ℕ → String → Error
  errorf : ℕ → String → Error → Error

-- `==` on two errors, which compares the pointers.
unfoldable pub address : Error → ℕ
address (errors_new a _) = a
address (errorf a _ _) = a

-- `err.Error()`.
unfoldable pub message_of : Error → String
message_of (errors_new _ m) = m
message_of (errorf _ m _) = m

-- `errors.Is(err, target)`.
unfoldable pub is : Error → Error → Bool
is (errors_new a m) target = nat_beq a (address target)
is (errorf a m e) target =
    let wrapped = is e target in if nat_beq a (address target) then true else wrapped

abbrev pub err_antimony : Error
err_antimony = errors_new 0 "the antimony server encountered an error. please check the logs"

abbrev pub err_provider : Error
err_provider = errors_new 1 "the provider subprocess encountered an error"

-- It wraps `ErrProvider`.
abbrev pub err_capture_not_supported : Error
err_capture_not_supported =
    errorf 2
      "the provider subprocess encountered an error: packet capture is not supported by this provider"
      err_provider

abbrev pub err_database_error : Error
err_database_error =
    errors_new 3 "the antimony database encountered an error. please check the logs"

abbrev pub err_file_storage : Error
err_file_storage =
    errors_new 4 "the antimony storage service encountered an error. please check the logs"

abbrev pub err_open_id_error : Error
err_open_id_error = errors_new 5 "failed to authenticate via openid connect"

abbrev pub err_uuid_not_found : Error
err_uuid_not_found = errors_new 6 "the specified uuid was not found"

abbrev pub err_node_not_found : Error
err_node_not_found = errors_new 7 "the specified node was not found"

abbrev pub err_shell_not_found : Error
err_shell_not_found = errors_new 8 "the provided shell id does not exist"

abbrev pub err_lab_running : Error
err_lab_running = errors_new 9 "the lab is still running"

abbrev pub err_lab_name_exists : Error
err_lab_name_exists = errors_new 10 "a lab with that name already exists in that collection"

abbrev pub err_invalid_lab_name : Error
err_invalid_lab_name = errors_new 11 "the name of the lab is invalid"

abbrev pub err_topology_name_exists : Error
err_topology_name_exists =
    errors_new 12 "a topology with that name already exists in that collection"

abbrev pub err_invalid_topology_name : Error
err_invalid_topology_name = errors_new 13 "the name for the topology is invalid"

abbrev pub err_unsafe_topology : Error
err_unsafe_topology = errors_new 14 "the topology contains unsafe features that the server rejected"

abbrev pub err_bind_file_exists : Error
err_bind_file_exists = errors_new 15 "a file with that path already exists for that topology"

abbrev pub err_collection_exists : Error
err_collection_exists = errors_new 16 "a collection with that name already exists"

abbrev pub err_invalid_topology : Error
err_invalid_topology = errors_new 17 "the topology provided was invalid"

abbrev pub err_invalid_bind_file_path : Error
err_invalid_bind_file_path = errors_new 18 "the provided bind file path was invalid"

abbrev pub err_admin_auth_disabled_error : Error
err_admin_auth_disabled_error = errors_new 19 "authentication via admin login is disabled"

abbrev pub err_open_id_auth_disabled_error : Error
err_open_id_auth_disabled_error = errors_new 20 "authentication via openid is disabled"

abbrev pub err_desktop_auth_disabled_error : Error
err_desktop_auth_disabled_error = errors_new 21 "authentication via desktop token is disabled"

abbrev pub err_invalid_credentials : Error
err_invalid_credentials = errors_new 22 "the provided native credentials were invalid"

abbrev pub err_desktop_token_invalid : Error
err_desktop_token_invalid = errors_new 23 "the provided desktop token was invalid"

abbrev pub err_access_token_invalid : Error
err_access_token_invalid = errors_new 24 "the provided access token was invalid"

abbrev pub err_unauthorized : Error
err_unauthorized = errors_new 25 "the request was unauthorized"

abbrev pub err_forbidden : Error
err_forbidden = errors_new 26 "access to the requested resource is forbidden"

abbrev pub err_no_access_to_lab : Error
err_no_access_to_lab = errors_new 27 "access to the provided lab is not granted"

abbrev pub err_no_access_to_topology : Error
err_no_access_to_topology = errors_new 28 "access to the provided topology is not granted"

abbrev pub err_no_write_access_to_lab : Error
err_no_write_access_to_lab = errors_new 29 "write access to the provided lab is not granted"

abbrev pub err_no_write_access_to_topology : Error
err_no_write_access_to_topology =
    errors_new 30 "write access to the provided topology is not granted"

abbrev pub err_no_write_access_to_bind_file : Error
err_no_write_access_to_bind_file = errors_new 31 "write access to the provided file is not granted"

abbrev pub err_no_write_access_to_collection : Error
err_no_write_access_to_collection =
    errors_new 32 "write access to the provided collection is not granted"

abbrev pub err_no_deploy_access_to_lab : Error
err_no_deploy_access_to_lab = errors_new 33 "deploy access to the provided lab is not granted"

abbrev pub err_no_destroy_access_to_lab : Error
err_no_destroy_access_to_lab = errors_new 34 "destroy access to the provided lab is not granted"

abbrev pub err_no_deploy_access_to_collection : Error
err_no_deploy_access_to_collection =
    errors_new 35 "deploy access to the provided collection is not granted"

abbrev pub err_no_permission_to_create_collections : Error
err_no_permission_to_create_collections =
    errors_new 36 "permission to create collections is not granted"

abbrev pub err_lab_not_found : Error
err_lab_not_found = errors_new 37 "the specified lab has not been found"

abbrev pub err_lab_not_running : Error
err_lab_not_running = errors_new 38 "the specified lab is not running"

abbrev pub err_shell_limit_reached : Error
err_shell_limit_reached = errors_new 39 "user shell limit reached"

abbrev pub err_node_not_running : Error
err_node_not_running = errors_new 40 "the specified node is not running"

abbrev pub err_lab_operation_in_progress : Error
err_lab_operation_in_progress =
    errors_new 41 "lab is busy, try again once the current operation has finished"

abbrev pub err_invalid_node_operation : Error
err_invalid_node_operation = errors_new 42 "the provided node operation was not allowed"

abbrev pub err_invalid_runtime_command : Error
err_invalid_runtime_command = errors_new 43 "the provided runtime command was invalid"

abbrev pub err_no_access_to_shell : Error
err_no_access_to_shell = errors_new 44 "access to the provided shell is not granted"

abbrev pub err_invalid_socket_request : Error
err_invalid_socket_request = errors_new 45 "the socket request was invalid"
