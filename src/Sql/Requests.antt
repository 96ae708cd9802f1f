-- ===== src/Sql/Requests.antt =====
-- What OpenFGA is asked for: the requests of the SQL functions, as the client of src/client reads them.
use postfga.Prelude.{ℕ, ◌≡◌, ap, sym, ◌∙◌, none, some, List, [], ◌∷◌, ◌++◌, take, arith}
use postfga.Payload.{
  Request, request_check, request_write_tuple, request_delete_tuple, request_create_store,
  request_delete_store, check_tuple, write_tuple, delete_tuple, create_store,
}
use postfga.Cache.Encode.{bytes}
use postfga.Args.{
  no_store_id, TupleArgs, Settings, Result, ok, err, model_of, fill_tuple, fill_request,
}
use postfga.Args.Tuples.{write_text-take}
use postfga.Sql.{
  check_request, fill, write_request, delete_request, create_store_request, delete_store_request,
}
use postfga.Client.Decisions.{key_at}
use postfga.Client.{
  Memory, Item, TupleKey, Call, check_call, write_call, delete_call, create_store_call,
  delete_store_call, fill_tuple_key, tuple_of,
}

-- A call of one of the five functions, with arguments that it takes.
pub data Function : Type 0 where
  fga_check : TupleArgs → Function
  fga_write_tuple : TupleArgs → Function
  fga_delete_tuple : TupleArgs → Function
  fga_create_store : List ℕ → Function
  fga_delete_store : List ℕ → Function

-- What it makes of the request in its slot.
abbrev pub request_of : Settings → Function → Request → Result Request
unfolding fill_tuple
request_of config (fga_check args) old = elim (check_request config args old) [
  | none ↦ err no_store_id
  | some r ↦ ok r
]
request_of config (fga_write_tuple args) old = write_request config args old
request_of config (fga_delete_tuple args) old = delete_request config args old
request_of config (fga_create_store name) old = create_store_request name old
request_of config (fga_delete_store id) old = delete_store_request id old

-- The arguments as OpenFGA should see them, each of at most 63 bytes: `type:id` for the object and the user.
abbrev typed : List ℕ → List ℕ → List ℕ
typed type id = take 63 type ++ (58 ∷ take 63 id)

abbrev pub key_of : TupleArgs → TupleKey
key_of args = record {
  object = typed args.object_type args.object_id;
  user = typed args.subject_type args.subject_id;
  relation = take 63 args.relation;
}

abbrev store_of : Settings → List ℕ
store_of config = take 63 (bytes config.store_id)

abbrev pub call_of : Settings → Request → Function → Item → Call
call_of config old (fga_check args) item = check_call item (record {
  store_id = store_of config;
  authorization_model_id = model_of config.model_id old.model_id;
  tuple_key = key_of args;
})
call_of config old (fga_write_tuple args) item = write_call item (record {
  store_id = store_of config;
  authorization_model_id = model_of config.model_id old.model_id;
  writes = some ("ignore", key_of args ∷ []);
  deletes = none;
})
call_of config old (fga_delete_tuple args) item = delete_call item (record {
  store_id = store_of config;
  authorization_model_id = [];
  writes = none;
  deletes = some ("ignore", key_of args ∷ []);
})
call_of config old (fga_create_store name) item = create_store_call item (take 63 name)
call_of config old (fga_delete_store id) item = delete_store_call item (take 63 id)

-- The request that this is.
filled : Settings → Request → Function → Request
unfolding fill_tuple
filled config old (fga_check args) = record old {
  type = request_check;
  store_id = store_of config;
  model_id = model_of config.model_id old.model_id;
  body = check_tuple (fill_tuple args);
}
filled config old (fga_write_tuple args) = record old {
  type = request_write_tuple;
  store_id = store_of config;
  model_id = model_of config.model_id old.model_id;
  body = write_tuple (fill_tuple args);
}
filled config old (fga_delete_tuple args) = record old {
  type = request_delete_tuple;
  store_id = store_of config;
  model_id = model_of config.model_id old.model_id;
  body = delete_tuple (fill_tuple args);
}
filled config old (fga_create_store name) = record old {
  type = request_create_store;
  body = create_store (take 63 name);
}
filled config old (fga_delete_store id) = record old {
  type = request_delete_store;
  store_id = take 63 id;
}

abbrev value : Request → Result Request → Request
value r (ok a) = a
value r (err e) = r

request_of-filled :
    (config : Settings) (f : Function) (old r : Request)
    → request_of config f old ≡ ok r
    → r ≡ filled config old f
unfolding filled fill_request fill
request_of-filled config (fga_check args) old r e = ground (arith, e)
request_of-filled config (fga_write_tuple args) old r e = ground (arith, e)
request_of-filled config (fga_delete_tuple args) old r e = ground (arith, e)
request_of-filled config (fga_create_store name) old r e = sym (ap (value r) e)
request_of-filled config (fga_delete_store id) old r e = sym (ap (value r) e)

pub key_at-request_of :
    (config : Settings) (args : TupleArgs) (old r : Request) (mem : Memory) (p : ℕ)
    → request_of config (fga_check args) old ≡ ok r
    → (mem p).request ≡ r
    → key_at mem p ≡ key_of args
unfolding filled tuple_of fill_tuple_key fill_tuple
key_at-request_of config args old r mem p e same =
    ap (λ (q : Request). fill_tuple_key (tuple_of q.body))
      (same ∙ request_of-filled config (fga_check args) old r e)
    ∙ simp (write_text-take 63)
