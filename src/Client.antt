-- ===== src/Client.antt =====
-- The client of src/client: requests for OpenFGA from the payloads of the slots, and their answers. The calls
-- of gRPC are values; what the server answers is an argument. A payload is named by its address, and a callback
-- by the slot that it completes.
pub mod Answers
pub mod Callbacks
pub mod Decimal
pub mod Batch
pub mod Decisions
pub mod Batches
pub mod Server
pub mod Health
mod Tests
use Prim.Native.String.{String}
use postfga.Prelude.{
  ℕ, ◌+◌, ◌-◌, ◌/◌, ◌%◌, zero, suc, Bool, true, false, Option, none, some, List, [], ◌∷◌, ◌++◌, map,
  take, ltb, ◌==◌, if◌then◌else◌,
}
use postfga.Payload.{
  Tuple, ResponseStatus, response_ok, client_error, server_error, RequestType, no_type,
  request_check, request_read, request_write_tuple, request_delete_tuple, request_list,
  request_get_store, request_create_store, request_delete_store, RequestBody, no_body, check_tuple,
  write_tuple, delete_tuple, get_store, create_store, delete_store, checked, deleted, store_created,
  Response, Payload,
}

abbrev pub Memory : Type 0
Memory = ℕ → Payload

-- `BatchCheckItem`, and a request with the callback that it is handled with.
pub record Item : Type 0 where
  pub payload : ℕ
  pub callback : ℕ

pub data RequestVariant : Type 0 where
  check_tuple_at : ℕ → RequestVariant
  write_tuple_at : ℕ → RequestVariant
  delete_tuple_at : ℕ → RequestVariant
  get_store_at : ℕ → RequestVariant
  create_store_at : ℕ → RequestVariant
  delete_store_at : ℕ → RequestVariant
  invalid_at : ℕ → RequestVariant

unfoldable pub make_request_variant : Memory → ℕ → RequestVariant
make_request_variant mem p = by_type (mem p).request.type
  where
    by_type : RequestType → RequestVariant
    by_type request_check = check_tuple_at p
    by_type request_write_tuple = write_tuple_at p
    by_type request_delete_tuple = delete_tuple_at p
    by_type request_get_store = get_store_at p
    by_type request_create_store = create_store_at p
    by_type request_delete_store = delete_store_at p
    by_type no_type = invalid_at p
    by_type request_read = invalid_at p
    by_type request_list = invalid_at p

abbrev pub request_id : Memory → ℕ → ℕ
request_id mem p = (mem p).request.request_id

abbrev pub store_id : Memory → ℕ → List ℕ
store_id mem p = (mem p).request.store_id

abbrev pub model_id : Memory → ℕ → List ℕ
model_id mem p = (mem p).request.model_id

-- `request().tuple` of the three requests that have one: their members of the union begin alike, and what no
-- member wrote is clear.
unfoldable pub tuple_of : RequestBody → Tuple
tuple_of (check_tuple t) = t
tuple_of (write_tuple t) = t
tuple_of (delete_tuple t) = t
tuple_of (create_store name) = record {
  object_type = name;
  object_id = [];
  subject_type = [];
  subject_id = [];
  relation = [];
}
tuple_of no_body = record {
  object_type = [];
  object_id = [];
  subject_type = [];
  subject_id = [];
  relation = [];
}
tuple_of get_store = record {
  object_type = [];
  object_id = [];
  subject_type = [];
  subject_id = [];
  relation = [];
}
tuple_of delete_store = record {
  object_type = [];
  object_id = [];
  subject_type = [];
  subject_id = [];
  relation = [];
}

-- `request().name` of a CreateStore.
unfoldable pub name_of : RequestBody → List ℕ
name_of (create_store name) = name
name_of (check_tuple t) = t.object_type
name_of (write_tuple t) = t.object_type
name_of (delete_tuple t) = t.object_type
name_of no_body = []
name_of get_store = []
name_of delete_store = []

-- `std::to_string` of a 64-bit number, which has at most 20 digits.
pub decimal : ℕ → ℕ → List ℕ
decimal zero n = []
decimal (suc f) n =
    let rest = decimal f (n / 10) in
    if ltb n 10 then (48 + n) ∷ [] else rest ++ ((48 + n % 10) ∷ [])

abbrev pub to_string : ℕ → List ℕ
to_string n = decimal 20 n

-- The bytes before the first NUL.
pub c_str : List ℕ → List ℕ
c_str [] = []
c_str (c ∷ cs) = let rest = c_str cs in if c == 0 then [] else c ∷ rest

pub strlcpy : ℕ → List ℕ → List ℕ
unfolding c_str
strlcpy size src = take (size - 1) (c_str src)

-- The messages of the protocol: the fields that the client sets.
pub record TupleKey : Type 0 where
  pub user : List ℕ
  pub relation : List ℕ
  pub object : List ℕ

pub record CheckRequest : Type 0 where
  pub store_id : List ℕ
  pub authorization_model_id : List ℕ
  pub tuple_key : TupleKey

pub record BatchCheck : Type 0 where
  pub tuple_key : TupleKey
  pub correlation_id : List ℕ

pub record BatchCheckRequest : Type 0 where
  pub store_id : List ℕ
  pub authorization_model_id : List ℕ
  pub checks : List BatchCheck

pub record WriteRequest : Type 0 where
  pub store_id : List ℕ
  pub authorization_model_id : List ℕ
  pub writes : Option (String × List TupleKey)
  pub deletes : Option (String × List TupleKey)

unfoldable pub fill_tuple_key : Tuple → TupleKey
fill_tuple_key t = record {
  object = t.object_type ++ (58 ∷ t.object_id);
  user = t.subject_type ++ (58 ∷ t.subject_id);
  relation = t.relation;
}

unfoldable pub fill_check_request : Memory → ℕ → CheckRequest
unfolding tuple_of
fill_check_request mem p =
    let tuple = tuple_of (mem p).request.body in
    record {
      store_id = store_id mem p;
      authorization_model_id = model_id mem p;
      tuple_key = record {
        object = tuple.object_type ++ (58 ∷ tuple.object_id);
        user = tuple.subject_type ++ (58 ∷ tuple.subject_id);
        relation = tuple.relation;
      };
    }

unfoldable pub fill_write_request : Memory → ℕ → WriteRequest
unfolding tuple_of fill_tuple_key
fill_write_request mem p = record {
  store_id = store_id mem p;
  authorization_model_id = model_id mem p;
  writes = some ("ignore", fill_tuple_key (tuple_of (mem p).request.body) ∷ []);
  deletes = none;
}

-- No model is set here.
unfoldable pub fill_delete_request : Memory → ℕ → WriteRequest
unfolding tuple_of fill_tuple_key
fill_delete_request mem p = record {
  store_id = store_id mem p;
  authorization_model_id = [];
  writes = none;
  deletes = some ("ignore", fill_tuple_key (tuple_of (mem p).request.body) ∷ []);
}

unfoldable pub batch_check : Memory → Item → BatchCheck
unfolding tuple_of fill_tuple_key decimal
batch_check mem item = record {
  tuple_key = fill_tuple_key (tuple_of (mem item.payload).request.body);
  correlation_id = to_string (request_id mem item.payload);
}

-- The request of `handle_check_batch`: the store and the model are those of the first item.
unfoldable pub batch_request : Memory → Item → List Item → BatchCheckRequest
unfolding batch_check
batch_request mem first rest = record {
  store_id = store_id mem first.payload;
  authorization_model_id = model_id mem first.payload;
  checks = map (batch_check mem) (first ∷ rest);
}

-- A call that the client has started, with what its callback has captured.
pub data Call : Type 0 where
  check_call : Item → CheckRequest → Call
  batch_call : List Item → BatchCheckRequest → Call
  write_call : Item → WriteRequest → Call
  delete_call : Item → WriteRequest → Call
  create_store_call : Item → List ℕ → Call
  delete_store_call : Item → List ℕ → Call

-- The overloads of `handle_request`. Those of GetStore and InvalidRequest are empty.
unfoldable pub handle_request : Memory → RequestVariant → ℕ → List Call
unfolding fill_check_request fill_write_request fill_delete_request name_of
handle_request mem (check_tuple_at p) cb =
    check_call (record { payload = p; callback = cb }) (fill_check_request mem p) ∷ []
handle_request mem (write_tuple_at p) cb =
    write_call (record { payload = p; callback = cb }) (fill_write_request mem p) ∷ []
handle_request mem (delete_tuple_at p) cb =
    delete_call (record { payload = p; callback = cb }) (fill_delete_request mem p) ∷ []
handle_request mem (create_store_at p) cb =
    create_store_call (record { payload = p; callback = cb }) (name_of (mem p).request.body) ∷ []
handle_request mem (delete_store_at p) cb =
    delete_store_call (record { payload = p; callback = cb }) (store_id mem p) ∷ []
handle_request mem (get_store_at p) cb = []
handle_request mem (invalid_at p) cb = []

unfoldable pub handle_check_batch : Memory → List Item → List Call
unfolding batch_request
handle_check_batch mem [] = []
handle_check_batch mem (first ∷ rest) =
    batch_call (first ∷ rest) (batch_request mem first rest) ∷ []

unfoldable pub process : Memory → Item → List Call
unfolding make_request_variant handle_request
process mem item = handle_request mem (make_request_variant mem item.payload) item.callback

-- The loop of `process_batch`: the calls that it starts, and the checks that it collects.
unfoldable pub sort_items : Memory → List Item → List Call × List Item
unfolding make_request_variant handle_request
sort_items mem [] = ([], [])
sort_items mem (item ∷ items) =
    let rest = sort_items mem items in place (make_request_variant mem item.payload) rest
  where
    place : RequestVariant → List Call × List Item → List Call × List Item
    place (check_tuple_at p) rest =
        (rest.0, record { payload = p; callback = item.callback } ∷ rest.1)
    place variant rest = (handle_request mem variant item.callback ++ rest.0, rest.1)

unfoldable pub process_batch : Memory → List Item → List Call
unfolding process sort_items handle_check_batch
process_batch mem [] = []
process_batch mem (item ∷ []) = process mem item
process_batch mem (item ∷ second ∷ items) =
    let (calls, checks) = sort_items mem (item ∷ second ∷ items) in
    calls ++ handle_check_batch mem checks
