-- ===== src/Errors/Responses/Tests.antt =====
-- An error of a provider that a deployment wraps.
use antimony_backend.Base.{nat_eq, string_eq, ◌≡◌, arith}
use antimony_backend.Errors.{Error, errorf, err_no_access_to_lab}
use antimony_backend.Errors.Responses.{create_error_response, create_socket_error_response}
use antimony_backend.Errors.Responses.Wrapping.{create_error_response-errorf}

abbrev wrapper : Error
wrapper = errorf 50 "deploy: access to the provided lab is not granted" err_no_access_to_lab

create_error_response-errorf_example :
    (create_error_response wrapper ≡ (
      (create_error_response err_no_access_to_lab).0,
      record (create_error_response err_no_access_to_lab).1 {
        message = "deploy: access to the provided lab is not granted";
      },
    ))
    × (create_socket_error_response wrapper
        ≡ record (create_socket_error_response err_no_access_to_lab) {
          message = "deploy: access to the provided lab is not granted";
        })
create_error_response-errorf_example =
    create_error_response-errorf 50 "deploy: access to the provided lab is not granted"
      err_no_access_to_lab (omega arith)
