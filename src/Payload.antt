-- ===== src/Payload.antt =====
-- src/payload.h: what travels in a slot. A `char[N]` is the list of its bytes up to the terminator, the
-- union of the bodies a data type, with `no_body` for the bytes that MemSet clears.
use postfga.Prelude.{ℕ, Bool, List, []}

pub record Tuple : Type 0 where
  pub object_type : List ℕ
  pub object_id : List ℕ
  pub subject_type : List ℕ
  pub subject_id : List ℕ
  pub relation : List ℕ

pub data ResponseStatus : Type 0 where
  response_ok : ResponseStatus
  client_error : ResponseStatus
  transport_error : ResponseStatus
  server_error : ResponseStatus

pub data RequestType : Type 0 where
  no_type : RequestType
  request_check : RequestType
  request_read : RequestType
  request_write_tuple : RequestType
  request_delete_tuple : RequestType
  request_list : RequestType
  request_get_store : RequestType
  request_create_store : RequestType
  request_delete_store : RequestType

pub data RequestBody : Type 0 where
  no_body : RequestBody
  check_tuple : Tuple → RequestBody
  write_tuple : Tuple → RequestBody
  delete_tuple : Tuple → RequestBody
  get_store : RequestBody
  create_store : List ℕ → RequestBody
  delete_store : RequestBody

-- In the order of the source: `allow`, `success`, `success`, `found` and `name`, `id` and `name`, nothing.
pub data ResponseBody : Type 0 where
  no_answer : ResponseBody
  checked : Bool → ResponseBody
  written : Bool → ResponseBody
  deleted : Bool → ResponseBody
  store_found : Bool → List ℕ → ResponseBody
  store_created : List ℕ → List ℕ → ResponseBody
  store_deleted : ResponseBody

pub record Request : Type 0 where
  pub request_id : ℕ
  pub type : RequestType
  pub store_id : List ℕ
  pub model_id : List ℕ
  pub body : RequestBody

pub record Response : Type 0 where
  pub status : ResponseStatus
  pub error_message : List ℕ
  pub body : ResponseBody

pub record Payload : Type 0 where
  pub request : Request
  pub response : Response

-- `MemSet(&payload, 0, sizeof(payload))`
abbrev pub zero_payload : Payload
zero_payload = record {
  request = record { request_id = 0; type = no_type; store_id = []; model_id = []; body = no_body };
  response = record { status = response_ok; error_message = []; body = no_answer };
}
