-- ===== src/Args.antt =====
-- The arguments and the settings of the SQL functions of src/func_fga.c, and what of them goes into a request. A
-- text argument is its bytes, `none` for NULL; a `char[N]` holds the bytes before the terminator, so `strlcpy`
-- into it keeps the first N - 1.
pub mod Tuples
mod Tests
use Prim.Native.String.{String}
use postfga.Prelude.{
  ℕ, ◌-◌, Bool, true, false, Option, none, some, List, [], ◌∷◌, length, take, set, leb,
  if◌then◌else◌,
}
use postfga.FreeList.{SlotList}
use postfga.Payload.{
  Tuple, ResponseStatus, response_ok, client_error, transport_error, server_error, Request,
  request_check, request_write_tuple, request_delete_tuple, request_create_store,
  request_delete_store, check_tuple, write_tuple, delete_tuple, create_store, delete_store,
  ResponseBody, no_answer, checked, written, deleted, store_found, store_created, store_deleted,
  Response,
}
use postfga.Channel
use postfga.Channel.{
  Error, Outcome, executed, failed, waiting, Wake, Channel, slot_at, acquire, release, execute,
}
use postfga.Cache.Key.{Key}
use postfga.Cache.Index.{Index}
use postfga.Cache.Encode.{bytes, KeyArgs, cache_key}
use postfga.Cache.Front
use postfga.Cache.Front.{Front}

abbrev pub Text : Type 0
Text = Option (List ℕ)

pub data SqlError : Type 0 where
  null_argument : String → SqlError
  empty_argument : String → SqlError
  no_store_id : SqlError
  slots_exhausted : SqlError
  channel_error : Error → SqlError
  rpc_failed : String → List ℕ → SqlError
  not_composite : SqlError

pub data Result {ℓ} (A : Type ℓ) : Type ℓ where
  ok : A → Result A
  err : SqlError → Result A

infixl 5 ◌>>=◌
abbrev pub ◌>>=◌ {ℓ κ} : {A : Type ℓ} {B : Type κ} → Result A → (A → Result B) → Result B
ok a >>= f = f a
err e >>= f = err e

-- The arguments of a call, and those of `TupleArgsView` that are text.
pub record RawArgs : Type 0 where
  pub object_type : Text
  pub object_id : Text
  pub subject_type : Text
  pub subject_id : Text
  pub relation : Text

pub record TupleArgs : Type 0 where
  pub object_type : List ℕ
  pub object_id : List ℕ
  pub subject_type : List ℕ
  pub subject_id : List ℕ
  pub relation : List ℕ

-- The settings that the functions read.
pub record Settings : Type 0 where
  pub store_id : Text
  pub model_id : Text

-- `write_text`: a text that does not fit is cut.
unfoldable pub write_text : ℕ → List ℕ → List ℕ
write_text dst_size src = if leb dst_size (length src) then take (dst_size - 1) src else src

unfoldable pub fill_tuple : TupleArgs → Tuple
unfolding write_text
fill_tuple v = record {
  object_type = write_text 64 v.object_type;
  object_id = write_text 64 v.object_id;
  subject_type = write_text 64 v.subject_type;
  subject_id = write_text 64 v.subject_id;
  relation = write_text 64 v.relation;
}

unfoldable pub validate_not_empty : Text → String → Result (List ℕ)
validate_not_empty none name = err (null_argument name)
validate_not_empty (some []) name = err (empty_argument name)
validate_not_empty (some (c ∷ cs)) name = ok (c ∷ cs)

unfoldable pub read_tuple_args : RawArgs → Result TupleArgs
unfolding validate_not_empty
read_tuple_args raw = do
  object_type ← validate_not_empty raw.object_type "object_type"
  object_id ← validate_not_empty raw.object_id "object_id"
  subject_type ← validate_not_empty raw.subject_type "subject_type"
  subject_id ← validate_not_empty raw.subject_id "subject_id"
  relation ← validate_not_empty raw.relation "relation"
  ok (record {
    object_type = object_type;
    object_id = object_id;
    subject_type = subject_type;
    subject_id = subject_id;
    relation = relation;
  })

unfoldable pub is_missing : Text → Bool
is_missing none = true
is_missing (some []) = true
is_missing (some (c ∷ cs)) = false

abbrev pub model_of : Text → List ℕ → List ℕ
model_of none old = old
model_of (some m) old = take 63 m

-- `fill_request`: `none` is the error on a store that is not configured.
unfoldable pub fill_request : Settings → Request → Option Request
unfolding is_missing
fill_request config request =
    if is_missing config.store_id
    then none
    else some (record request {
      store_id = take 63 (bytes config.store_id);
      model_id = model_of config.model_id request.model_id;
    })

unfoldable pub is_ok : ResponseStatus → Bool
is_ok response_ok = true
is_ok client_error = false
is_ok transport_error = false
is_ok server_error = false

-- `build_cache_key`: the arguments of `fga_cache_key`.
unfoldable pub key_args : Settings → TupleArgs → KeyArgs
key_args config args = record {
  store_id = config.store_id;
  model_id = config.model_id;
  object_type = some args.object_type;
  object_id = some args.object_id;
  subject_type = some args.subject_type;
  subject_id = some args.subject_id;
  relation = some args.relation;
}
