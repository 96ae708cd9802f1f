-- ===== src/Client/Answers.antt =====
-- The callbacks of the client: what the answer of a call writes, and which of its own callbacks it runs. They
-- read the payload when the answer comes.
use postfga.Prelude.{
  ℕ, Bool, true, false, Option, none, some, List, [], ◌∷◌, ◌++◌, ◌==◌, if◌then◌else◌,
}
use postfga.Payload.{
  response_ok, client_error, server_error, checked, deleted, store_created, Response, Payload,
}
use postfga.Client.{
  Memory, Item, to_string, decimal, strlcpy, Call, check_call, batch_call, write_call, delete_call,
  create_store_call, delete_store_call,
}

pub data Status : Type 0 where
  status_ok : Status
  status_failed : List ℕ → Status

-- `BatchCheckSingleResult`: a oneof.
pub data SingleResult : Type 0 where
  allowed : Bool → SingleResult
  failed : List ℕ → SingleResult
  no_result : SingleResult

-- What comes back: the status, and the fields of the response of each kind of call.
pub record Answer : Type 0 where
  pub status : Status
  pub allowed : Bool
  pub result : List ℕ → Option SingleResult
  pub id : List ℕ
  pub name : List ℕ

-- "Invalid response received"
abbrev pub invalid_response : List ℕ
invalid_response =
    73 ∷ 110 ∷ 118 ∷ 97 ∷ 108 ∷ 105 ∷ 100 ∷ 32 ∷ 114 ∷ 101 ∷ 115 ∷ 112 ∷ 111 ∷ 110 ∷ 115 ∷ 101 ∷ 32
    ∷ 114 ∷ 101 ∷ 99 ∷ 101 ∷ 105 ∷ 118 ∷ 101 ∷ 100 ∷ []

abbrev pub refused : List ℕ → Response → Response
refused message out = record out { status = client_error; error_message = strlcpy 128 message }

-- The response of a check, from the answer to a call of its own,
unfoldable pub check_response : Answer → Response → Response
unfolding strlcpy
check_response answer res = by_status answer.status
  where
    by_status : Status → Response
    by_status status_ok = record res { status = response_ok; body = checked answer.allowed }
    by_status (status_failed message) = record (refused message res) { body = checked false }

-- and from its entry in the answer to a batch.
unfoldable pub single_response : Option SingleResult → Response → Response
unfolding strlcpy
single_response none out = record out { body = checked false; status = client_error }
single_response (some (allowed b)) out = record out { status = response_ok; body = checked b }
single_response (some (failed message)) out = record out {
  status = server_error;
  body = checked false;
  error_message = strlcpy 128 message;
}
single_response (some no_result) out = record (refused invalid_response out) {
  body = checked false;
}

unfoldable pub batch_response : Answer → Payload → Response
unfolding single_response strlcpy decimal
batch_response answer payload = by_status answer.status
  where
    by_status : Status → Response
    by_status status_ok =
        single_response (answer.result (to_string payload.request.request_id)) payload.response
    by_status (status_failed message) = record (refused message payload.response) {
      body = checked false;
    }

pub write_response : Answer → Response → Response
unfolding strlcpy
write_response answer res = by_status answer.status
  where
    by_status : Status → Response
    by_status status_ok = record res { status = response_ok }
    by_status (status_failed message) = refused message res

pub delete_response : Answer → Response → Response
unfolding strlcpy
delete_response answer res = by_status answer.status
  where
    by_status : Status → Response
    by_status status_ok = record res { status = response_ok; body = deleted true }
    by_status (status_failed message) = refused message res

pub create_store_response : Answer → Response → Response
unfolding strlcpy
create_store_response answer res = by_status answer.status
  where
    by_status : Status → Response
    by_status status_ok = record res {
      status = response_ok;
      body = store_created (strlcpy 64 answer.id) (strlcpy 64 answer.name);
    }
    by_status (status_failed message) = refused message res

pub delete_store_response : Answer → Response → Response
unfolding strlcpy
delete_store_response answer res = by_status answer.status
  where
    by_status : Status → Response
    by_status status_ok = record res { status = response_ok }
    by_status (status_failed message) = refused message res

-- Writing through `response()`, where `f` computes what is written from the payload as it stands.
unfoldable pub respond : (Payload → Response) → ℕ → Memory → Memory
respond f p mem = λ q. if p == q then record (mem q) { response = f (mem q) } else mem q

-- One item after the other, each of them with its callback.
unfoldable pub respond_all : (Payload → Response) → List Item → Memory → Memory × List ℕ
unfolding respond
respond_all f [] mem = (mem, [])
respond_all f (item ∷ items) mem =
    let (mem', callbacks) = respond_all f items (respond f item.payload mem) in
    (mem', item.callback ∷ callbacks)

-- The callback of each call.
unfoldable pub complete : Call → Answer → Memory → Memory × List ℕ
unfolding respond_all check_response batch_response write_response delete_response
    create_store_response delete_store_response
complete (check_call item request) answer mem =
    respond_all (λ p. check_response answer p.response) (item ∷ []) mem
complete (batch_call items request) answer mem = respond_all (batch_response answer) items mem
complete (write_call item request) answer mem =
    respond_all (λ p. write_response answer p.response) (item ∷ []) mem
complete (delete_call item request) answer mem =
    respond_all (λ p. delete_response answer p.response) (item ∷ []) mem
complete (create_store_call item name) answer mem =
    respond_all (λ p. create_store_response answer p.response) (item ∷ []) mem
complete (delete_store_call item id) answer mem =
    respond_all (λ p. delete_store_response answer p.response) (item ∷ []) mem

-- Calls that are answered one after the other, and the callbacks that ran.
unfoldable pub complete_all : List (Call × Answer) → Memory → Memory × List ℕ
unfolding complete
complete_all [] mem = (mem, [])
complete_all ((call, answer) ∷ calls) mem =
    let (mem', callbacks) = complete call answer mem in
    let (mem'', more) = complete_all calls mem' in (mem'', callbacks ++ more)
