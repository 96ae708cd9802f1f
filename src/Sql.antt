-- ===== src/Sql.antt =====
-- The SQL functions of src/func_fga.c. What `ereport(ERROR)` raises is a value, and PG_CATCH is what follows it.
-- `garbage` stands for what an uninitialised variable holds.
pub mod Checks
pub mod Writes
pub mod Requests
pub mod Replies
pub mod Decided
mod Tests
use Prim.Native.String.{String}
use mathlib.Core.Option
use postfga.Prelude.{
  ℕ, ◌-◌, Bool, true, false, Option, none, some, List, [], ◌∷◌, length, take, set, leb,
  if◌then◌else◌,
}
use postfga.FreeList.{SlotList}
use postfga.Payload.{
  Tuple, ResponseStatus, response_ok, client_error, transport_error, server_error, Request,
  request_check, request_write_tuple, request_delete_tuple, request_create_store,
  request_delete_store, check_tuple, write_tuple, delete_tuple, create_store, delete_store,
  ResponseBody, no_answer, checked, written, deleted, store_found, store_created, store_deleted,
  Response,
}
use postfga.Channel
use postfga.Channel.{
  Error, Outcome, executed, failed, waiting, Wake, Channel, slot_at, acquire, release, execute,
}
use postfga.Cache.Key.{Key}
use postfga.Cache.Index.{Index}
use postfga.Cache.Encode.{bytes, KeyArgs, cache_key}
use postfga.Cache.Front
use postfga.Cache.Front.{Front}
use postfga.Args.{
  Text, SqlError, Result, ◌>>=◌, RawArgs, TupleArgs, Settings, write_text, fill_tuple,
  validate_not_empty, read_tuple_args, is_missing, model_of, fill_request, is_ok, key_args,
  null_argument, empty_argument, no_store_id, slots_exhausted, channel_error, rpc_failed,
  not_composite, ok, err,
}

-- How a call ends: with a value, with an error, or not yet.
pub data Reply {ℓ} (A : Type ℓ) : Type ℓ where
  replied : A → Reply A
  raised : SqlError → Reply A
  suspended : Reply A

unfoldable pub fill : Settings → Request → Result Request
unfolding fill_request
fill config request = elim (fill_request config request) [ none ↦ err no_store_id | some r ↦ ok r ]

-- What each function writes into its request.
abbrev pub check_body : TupleArgs → Request → Request
unfolding fill_tuple
check_body args request = record request { body = check_tuple (fill_tuple args) }

-- The type that it writes before, and the request that it has made when it hands the slot on; `none` is the
-- error of `fill_request`.
abbrev pub check_typed : Request → Request
check_typed request = record request { type = request_check }

abbrev pub check_request : Settings → TupleArgs → Request → Option Request
check_request config args request =
    Option.map (check_body args) (fill_request config (check_typed request))

abbrev pub write_request : Settings → TupleArgs → Request → Result Request
unfolding fill fill_tuple
write_request config args request = do
  r ← fill config (record request { type = request_write_tuple })
  ok (record r { body = write_tuple (fill_tuple args) })

abbrev pub delete_request : Settings → TupleArgs → Request → Result Request
unfolding fill fill_tuple
delete_request config args request = do
  r ← fill config (record request { type = request_delete_tuple })
  ok (record r { body = delete_tuple (fill_tuple args) })

abbrev pub create_store_request : List ℕ → Request → Result Request
create_store_request store_name request =
    ok (record request { type = request_create_store; body = create_store (take 63 store_name) })

abbrev pub delete_store_request : List ℕ → Request → Result Request
delete_store_request store_id request =
    ok (record request { type = request_delete_store; store_id = take 63 store_id })

module _ {T : Type 0} (S : SlotList T) where
  abbrev pub request_at : Channel T → ℕ → Request
  request_at ch i = (slot_at S ch.pool i).payload.request

  abbrev pub response_at : Channel T → ℕ → Response
  response_at ch i = (slot_at S ch.pool i).payload.response

  -- Writing through `request`.
  unfoldable pub put_request : Channel T → ℕ → Request → Channel T
  put_request ch i request =
      let slot = slot_at S ch.pool i in
      let payload = record slot.payload { request = request } in
      record ch {
        pool = record ch.pool { slots = set ch.pool.slots i (record slot { payload = payload }) };
      }

  -- `fga_check` once it waits no more.
  unfoldable pub answer_check : Bool → ℕ → Outcome × Channel T → Reply Bool × Channel T
  unfolding is_ok
  answer_check garbage i (executed, ch) =
      let response = response_at ch i in
      (replied (if is_ok response.status then allow response.body else garbage), release S ch i)
    where
      -- The first byte of the union, which a CHECK request's answer has as `allow`.
      allow : ResponseBody → Bool
      allow no_answer = false
      allow (checked b) = b
      allow (written b) = b
      allow (deleted b) = b
      allow (store_found b name) = b
      allow (store_created id name) = garbage
      allow store_deleted = false
  answer_check garbage i (failed e, ch) = (raised (channel_error e), ch)
  answer_check garbage i (waiting, ch) = (suspended, ch)

  -- With the request filled, or the error of `fill_request`.
  pub ask_filled : Bool → List (Wake T) → ℕ → Channel T → Option Request → Reply Bool × Channel T
  unfolding answer_check
  ask_filled garbage wakes i ch none = (raised no_store_id, ch)
  ask_filled garbage wakes i ch (some request) =
      answer_check garbage i (execute S (put_request ch i request) i wakes)

  -- From the acquisition of the slot on; there is no PG_TRY here.
  pub ask :
      Settings → Bool → TupleArgs → List (Wake T) → Option ℕ × Channel T → Reply Bool × Channel T
  unfolding ask_filled
  ask config garbage args wakes (none, ch) = (raised slots_exhausted, ch)
  ask config garbage args wakes (some i, ch) =
      ask_filled garbage wakes i (put_request ch i (check_typed (request_at ch i)))
        (check_request config args (request_at ch i))

  module _ {U : Type 0} (index : Index U) (xxh3_64 : List ℕ → ℕ) (xxh3_128 : List ℕ → ℕ × ℕ)
      (config : Settings) (my_pid : ℕ) (me : Option ℕ) (now_us : ℕ) where
    -- What `fga_check` works on: the cache of this backend and the channel.
    abbrev pub Session : Type 0
    Session = Front U × Channel T

    pub check_cached :
        Bool → TupleArgs → List (Wake T) → Option Bool × Front U → Channel T → Reply Bool × Session
    unfolding ask
    check_cached garbage args wakes (some allowed, front) ch = (replied allowed, (front, ch))
    check_cached garbage args wakes (none, front) ch =
        let (reply, ch') = ask config garbage args wakes (acquire S ch my_pid) in
        (reply, (front, ch'))

    -- `fga_check`; `old` is what the key's memory held.
    pub check : Bool → Key → RawArgs → List (Wake T) → Session → Reply Bool × Session
    unfolding read_tuple_args key_args check_cached
    check garbage old raw wakes (front, ch) = elim (read_tuple_args raw) [
      | err e ↦ (raised e, (front, ch))
      | ok args ↦
          let key = cache_key xxh3_64 xxh3_128 old (key_args config args) in
          check_cached garbage args wakes (Front.lookup index front me now_us key) ch
    ]

  module _ {A : Type 0} where
    -- The other functions run between PG_TRY and PG_CATCH: whatever fails after the acquisition, the slot is
    -- released once more. What was written to a slot that is released then is not kept here: an acquisition
    -- clears it.
    pub settle_read : ℕ → Channel T → Result A → Reply A × Channel T
    settle_read i ch (err e) = (raised e, release S ch i)
    settle_read i ch (ok a) = (replied a, release S ch i)

    pub settle : (Response → Result A) → ℕ → Outcome × Channel T → Reply A × Channel T
    unfolding settle_read
    settle read i (executed, ch) = settle_read i ch (read (response_at ch i))
    settle read i (failed e, ch) = (raised (channel_error e), release S ch i)
    settle read i (waiting, ch) = (suspended, ch)

    pub guard_filled :
        (Response → Result A) → List (Wake T) → ℕ → Channel T → Result Request → Reply A × Channel T
    unfolding settle
    guard_filled read wakes i ch (err e) = (raised e, release S ch i)
    guard_filled read wakes i ch (ok request) =
        settle read i (execute S (put_request ch i request) i wakes)

    pub guarded :
        (Request → Result Request)
        → (Response → Result A)
        → List (Wake T)
        → Option ℕ × Channel T
        → Reply A × Channel T
    unfolding guard_filled
    guarded fill read wakes (none, ch) = (raised slots_exhausted, ch)
    guarded fill read wakes (some i, ch) = guard_filled read wakes i ch (fill (request_at ch i))

  pub read_status : String → Response → Result Bool
  unfolding is_ok
  read_status what response =
      if is_ok response.status then ok true else err (rpc_failed what response.error_message)

  module _ (config : Settings) (my_pid : ℕ) where
    -- `fga_write_tuple`
    pub write : RawArgs → List (Wake T) → Channel T → Reply Bool × Channel T
    unfolding read_tuple_args fill_tuple fill guarded read_status
    write raw wakes ch = elim (read_tuple_args raw) [
      | err e ↦ (raised e, ch)
      | ok args ↦
          guarded (write_request config args) (read_status "write tuple") wakes
            (acquire S ch my_pid)
    ]

    -- `fga_delete_tuple`
    pub delete : RawArgs → List (Wake T) → Channel T → Reply Bool × Channel T
    unfolding read_tuple_args fill_tuple fill guarded read_status
    delete raw wakes ch = elim (read_tuple_args raw) [
      | err e ↦ (raised e, ch)
      | ok args ↦
          guarded (delete_request config args) (read_status "delete tuple") wakes
            (acquire S ch my_pid)
    ]

  module _ (my_pid : ℕ) where
    -- `fga_create_store`; the first argument says whether the caller takes a row.
    pub create : Bool → Text → List (Wake T) → Channel T → Reply (List ℕ × List ℕ) × Channel T
    unfolding guarded is_ok
    create is_composite none wakes ch = (raised (null_argument "store name"), ch)
    create is_composite (some store_name) wakes ch =
        guarded (create_store_request store_name) read_store wakes (acquire S ch my_pid)
      where
        row : ResponseBody → List ℕ × List ℕ
        row (store_created id name) = (id, name)
        row body = ([], [])

        read_store : Response → Result (List ℕ × List ℕ)
        read_store response =
            if is_ok response.status
            then (if is_composite then ok (row response.body) else err not_composite)
            else err (rpc_failed "create store" response.error_message)

    -- `fga_delete_store`
    pub drop_store : List ℕ → List (Wake T) → Channel T → Reply Bool × Channel T
    unfolding guarded read_status
    drop_store store_id wakes ch =
        guarded (delete_store_request store_id) (read_status "delete store") wakes
          (acquire S ch my_pid)
