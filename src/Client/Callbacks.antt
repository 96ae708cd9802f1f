-- ===== src/Client/Callbacks.antt =====
-- Which items of `process_batch` are completed.
use postfga.Prelude.{
  ℕ, ◌+◌, ◌≡◌, refl, ap, ap₂, ◌∙◌, Bool, true, false, List, [], ◌∷◌, ◌++◌, map, if◌then◌else◌,
  arith,
}
use mathlib.Core.List.{Permᴰ}
use postfga.FreeList.{occurrences, occurrences-append}
use postfga.Payload.{
  RequestType, no_type, request_check, request_read, request_write_tuple, request_delete_tuple,
  request_list, request_get_store, request_create_store, request_delete_store, Payload, Response,
}
use postfga.Client.{
  Memory, Item, Call, check_call, batch_call, write_call, delete_call, create_store_call,
  delete_store_call, make_request_variant, handle_request, handle_check_batch, process, sort_items,
  process_batch,
}
use postfga.Client.Answers.{Answer, respond, respond_all, complete, complete_all, batch_response}

-- The requests that OpenFGA is asked for.
abbrev pub is_sent : RequestType → Bool
is_sent request_check = true
is_sent request_write_tuple = true
is_sent request_delete_tuple = true
is_sent request_create_store = true
is_sent request_delete_store = true
is_sent request_get_store = false
is_sent no_type = false
is_sent request_read = false
is_sent request_list = false

abbrev pub sent : Memory → List Item → List ℕ
sent mem [] = []
sent mem (item ∷ items) =
    let rest = sent mem items in
    if is_sent (mem item.payload).request.type then item.callback ∷ rest else rest

abbrev callbacks : Call → List ℕ
callbacks (check_call item r) = item.callback ∷ []
callbacks (batch_call items r) = map (λ (i : Item). i.callback) items
callbacks (write_call item r) = item.callback ∷ []
callbacks (delete_call item r) = item.callback ∷ []
callbacks (create_store_call item r) = item.callback ∷ []
callbacks (delete_store_call item r) = item.callback ∷ []

abbrev all_callbacks : List Call → List ℕ
all_callbacks [] = []
all_callbacks (call ∷ calls) = callbacks call ++ all_callbacks calls

respond_all-callbacks :
    (f : Payload → Response) (items : List Item) (mem : Memory)
    → (respond_all f items mem).1 ≡ map (λ (i : Item). i.callback) items
unfolding respond_all
respond_all-callbacks f [] mem = refl
respond_all-callbacks f (item ∷ items) mem =
    ap (◌∷◌ item.callback) (respond_all-callbacks f items (respond f item.payload mem))

complete-callbacks :
    (call : Call) (answer : Answer) (mem : Memory) → (complete call answer mem).1 ≡ callbacks call
unfolding complete respond_all
complete-callbacks (check_call item r) answer mem = refl
complete-callbacks (batch_call items r) answer mem =
    respond_all-callbacks (batch_response answer) items mem
complete-callbacks (write_call item r) answer mem = refl
complete-callbacks (delete_call item r) answer mem = refl
complete-callbacks (create_store_call item r) answer mem = refl
complete-callbacks (delete_store_call item r) answer mem = refl

complete_all-callbacks :
    (calls : List (Call × Answer)) (mem : Memory)
    → (complete_all calls mem).1 ≡ all_callbacks (map (λ (c : Call × Answer). c.0) calls)
unfolding complete_all
complete_all-callbacks [] mem = refl
complete_all-callbacks ((call, answer) ∷ calls) mem =
    ap₂ (λ (x y : List ℕ). x ++ y) (complete-callbacks call answer mem)
      (complete_all-callbacks calls _)

-- The loop of `process_batch` loses none.
sort_items-count :
    (mem : Memory) (items : List Item) (i : ℕ)
    → occurrences i (all_callbacks (sort_items mem items).0)
        + occurrences i (map (λ (x : Item). x.callback) (sort_items mem items).1)
      ≡ occurrences i (sent mem items)
unfolding sort_items make_request_variant handle_request
sort_items-count mem [] i = refl
sort_items-count mem (item ∷ items) i =
    by_type (mem item.payload).request.type refl (sort_items-count mem items i)
  where
    by_type :
        (t : RequestType)
        → (mem item.payload).request.type ≡ t
        → occurrences i (all_callbacks (sort_items mem items).0)
            + occurrences i (map (λ (x : Item). x.callback) (sort_items mem items).1)
          ≡ occurrences i (sent mem items)
        → occurrences i (all_callbacks (sort_items mem (item ∷ items)).0)
            + occurrences i (map (λ (x : Item). x.callback) (sort_items mem (item ∷ items)).1)
          ≡ occurrences i (sent mem (item ∷ items))
    by_type request_check e rest = rw e (omega (arith, rest))
    by_type request_write_tuple e rest = rw e (omega (arith, rest))
    by_type request_delete_tuple e rest = rw e (omega (arith, rest))
    by_type request_create_store e rest = rw e (omega (arith, rest))
    by_type request_delete_store e rest = rw e (omega (arith, rest))
    by_type request_get_store e rest = rw e rest
    by_type no_type e rest = rw e rest
    by_type request_read e rest = rw e rest
    by_type request_list e rest = rw e rest

process-count :
    (mem : Memory) (item : Item) (i : ℕ)
    → occurrences i (all_callbacks (process mem item)) ≡ occurrences i (sent mem (item ∷ []))
unfolding process make_request_variant handle_request
process-count mem item i = by_type (mem item.payload).request.type refl
  where
    by_type :
        (t : RequestType)
        → (mem item.payload).request.type ≡ t
        → occurrences i (all_callbacks (process mem item)) ≡ occurrences i (sent mem (item ∷ []))
    by_type request_check e = rw e refl
    by_type request_write_tuple e = rw e refl
    by_type request_delete_tuple e = rw e refl
    by_type request_create_store e = rw e refl
    by_type request_delete_store e = rw e refl
    by_type request_get_store e = rw e refl
    by_type no_type e = rw e refl
    by_type request_read e = rw e refl
    by_type request_list e = rw e refl

all_callbacks-append :
    (xs ys : List Call) (i : ℕ)
    → occurrences i (all_callbacks (xs ++ ys))
      ≡ occurrences i (all_callbacks xs) + occurrences i (all_callbacks ys)
all_callbacks-append [] ys i = omega arith
all_callbacks-append (x ∷ xs) ys i = omega (
  arith,
  occurrences-append i (callbacks x) (all_callbacks (xs ++ ys)),
  occurrences-append i (callbacks x) (all_callbacks xs),
  all_callbacks-append xs ys i,
)

handle_check_batch-count :
    (mem : Memory) (items : List Item) (i : ℕ)
    → occurrences i (all_callbacks (handle_check_batch mem items))
      ≡ occurrences i (map (λ (x : Item). x.callback) items)
unfolding handle_check_batch
handle_check_batch-count mem [] i = refl
handle_check_batch-count mem (item ∷ items) i =
    occurrences-append i (map (λ (x : Item). x.callback) (item ∷ items)) [] ∙ omega arith

pub process_batch-nil : (mem : Memory) → process_batch mem [] ≡ []
unfolding process_batch
process_batch-nil mem = refl

pub process_batch-single :
    (mem : Memory) (item : Item) → process mem item ≡ process_batch mem (item ∷ [])
unfolding process_batch
process_batch-single mem item = refl

process_batch-count :
    (mem : Memory) (items : List Item) (i : ℕ)
    → occurrences i (all_callbacks (process_batch mem items)) ≡ occurrences i (sent mem items)
unfolding process_batch
process_batch-count mem [] i = refl
process_batch-count mem (item ∷ []) i = process-count mem item i
process_batch-count mem (item ∷ second ∷ items) i =
    let (calls, checks) = sort_items mem (item ∷ second ∷ items) in
    omega (
      arith,
      all_callbacks-append calls (handle_check_batch mem checks) i,
      handle_check_batch-count mem checks i,
      sort_items-count mem (item ∷ second ∷ items) i,
    )

all_callbacks-Permᴰ :
    {xs ys : List Call} (i : ℕ)
    → Permᴰ xs ys
    → occurrences i (all_callbacks xs) ≡ occurrences i (all_callbacks ys)
all_callbacks-Permᴰ i Permᴰ.nil = refl
all_callbacks-Permᴰ i (Permᴰ.cons {a} {b} {l₁} {l₂} e p) = omega (
  arith,
  occurrences-append i (callbacks a) (all_callbacks l₁),
  occurrences-append i (callbacks b) (all_callbacks l₂),
  all_callbacks-Permᴰ i p,
  ap (λ (c : Call). occurrences i (callbacks c)) e,
)
all_callbacks-Permᴰ i (Permᴰ.swap {a} {b} {a'} {b'} {l} e f) = omega (
  arith,
  occurrences-append i (callbacks a) (callbacks b ++ all_callbacks l),
  occurrences-append i (callbacks b) (all_callbacks l),
  occurrences-append i (callbacks a') (callbacks b' ++ all_callbacks l),
  occurrences-append i (callbacks b') (all_callbacks l),
  ap (λ (c : Call). occurrences i (callbacks c)) e,
  ap (λ (c : Call). occurrences i (callbacks c)) f,
)
all_callbacks-Permᴰ i (Permᴰ.trans p q) = all_callbacks-Permᴰ i p ∙ all_callbacks-Permᴰ i q

-- Once the calls that `process_batch` starts have been answered, in any order and with whatever answers, each
-- check, write, deletion and creation or deletion of a store has been completed as often as it was among the
-- items, and no item of another type has: `GetStore` and unknown types are never completed.
pub process_batch_completes :
    (mem mem' : Memory) (items : List Item) (calls : List (Call × Answer))
    → Permᴰ (map (λ (c : Call × Answer). c.0) calls) (process_batch mem items)
    → (i : ℕ) → occurrences i (complete_all calls mem').1 ≡ occurrences i (sent mem items)
process_batch_completes mem mem' items calls same i =
    ap (occurrences i) (complete_all-callbacks calls mem')
    ∙ all_callbacks-Permᴰ i same
    ∙ process_batch-count mem items i
