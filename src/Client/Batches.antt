-- ===== src/Client/Batches.antt =====
-- What the batch is that `process_batch` sends.
use mathlib.Core.List.{Memᴰ}
use mathlib.Core.List.Memᴰ
use postfga.Prelude.{◌≡◌, refl, ap, ap₂, ◌∙◌, List, [], ◌∷◌, ◌++◌}
use postfga.Payload.{
  RequestType, no_type, request_check, request_read, request_write_tuple, request_delete_tuple,
  request_list, request_get_store, request_create_store, request_delete_store,
}
use postfga.Client.{
  Memory, Item, Call, check_call, batch_call, write_call, delete_call, create_store_call,
  delete_store_call, BatchCheckRequest, batch_request, make_request_variant, handle_request,
  handle_check_batch, process, sort_items, process_batch,
}

abbrev Batch : Type 0
Batch = List Item × BatchCheckRequest

abbrev batches : List Call → List Batch
batches [] = []
batches (batch_call items request ∷ calls) = (items, request) ∷ batches calls
batches (check_call item r ∷ calls) = batches calls
batches (write_call item r ∷ calls) = batches calls
batches (delete_call item r ∷ calls) = batches calls
batches (create_store_call item r ∷ calls) = batches calls
batches (delete_store_call item r ∷ calls) = batches calls

batches-append : (xs ys : List Call) → batches (xs ++ ys) ≡ batches xs ++ batches ys
batches-append [] ys = refl
batches-append (batch_call items request ∷ xs) ys = ap (◌∷◌ (items, request)) (batches-append xs ys)
batches-append (check_call item r ∷ xs) ys = batches-append xs ys
batches-append (write_call item r ∷ xs) ys = batches-append xs ys
batches-append (delete_call item r ∷ xs) ys = batches-append xs ys
batches-append (create_store_call item r ∷ xs) ys = batches-append xs ys
batches-append (delete_store_call item r ∷ xs) ys = batches-append xs ys

-- Calls of other kinds may stand before it.
Memᴰ-batches :
    (b : Batch) (calls : List Call) → Memᴰ (batch_call b.0 b.1) calls → Memᴰ b (batches calls)
Memᴰ-batches b [] h = absurd (Memᴰ.not-nil h)
Memᴰ-batches b (batch_call items request ∷ calls) (Memᴰ.head e) =
    Memᴰ.head (ap₂ (λ (x : List Item) (y : BatchCheckRequest). (x, y)) (cc) (cc))
Memᴰ-batches b (batch_call items request ∷ calls) (Memᴰ.tail h) = Memᴰ.tail (Memᴰ-batches b calls h)
Memᴰ-batches b (check_call item r ∷ calls) (Memᴰ.head e) = absurd (cc)
Memᴰ-batches b (check_call item r ∷ calls) (Memᴰ.tail h) = Memᴰ-batches b calls h
Memᴰ-batches b (write_call item r ∷ calls) (Memᴰ.head e) = absurd (cc)
Memᴰ-batches b (write_call item r ∷ calls) (Memᴰ.tail h) = Memᴰ-batches b calls h
Memᴰ-batches b (delete_call item r ∷ calls) (Memᴰ.head e) = absurd (cc)
Memᴰ-batches b (delete_call item r ∷ calls) (Memᴰ.tail h) = Memᴰ-batches b calls h
Memᴰ-batches b (create_store_call item r ∷ calls) (Memᴰ.head e) = absurd (cc)
Memᴰ-batches b (create_store_call item r ∷ calls) (Memᴰ.tail h) = Memᴰ-batches b calls h
Memᴰ-batches b (delete_store_call item r ∷ calls) (Memᴰ.head e) = absurd (cc)
Memᴰ-batches b (delete_store_call item r ∷ calls) (Memᴰ.tail h) = Memᴰ-batches b calls h

-- What the loop of `process_batch` does with the items: it sends none of them together, and collects no others.
record Sorted (items : List Item) (r : List Call × List Item) : Type 0 where
  apart : batches r.0 ≡ []
  among : (p : Item) → Memᴰ p r.1 → Memᴰ p items

later-Sorted :
    (item : Item) (items : List Item) (calls calls' : List Call) (checks : List Item)
    → batches calls' ≡ batches calls
    → Sorted items (calls, checks)
    → Sorted (item ∷ items) (calls', checks)
later-Sorted item items calls calls' checks e s = record {
  apart = e ∙ s.apart;
  among = λ p h. Memᴰ.tail (s.among p h);
}

checked-Sorted :
    (item : Item) (items : List Item) (calls : List Call) (checks : List Item)
    → Sorted items (calls, checks)
    → Sorted (item ∷ items) (calls, item ∷ checks)
checked-Sorted item items calls checks s = record { apart = s.apart; among = later }
  where
    later : (p : Item) → Memᴰ p (item ∷ checks) → Memᴰ p (item ∷ items)
    later p (Memᴰ.head e) = Memᴰ.head e
    later p (Memᴰ.tail h) = Memᴰ.tail (s.among p h)

sort_items-Sorted : (mem : Memory) (items : List Item) → Sorted items (sort_items mem items)
unfolding sort_items make_request_variant handle_request
sort_items-Sorted mem [] = record { apart = refl; among = λ p h. h }
sort_items-Sorted mem (item ∷ items) =
    by_type (mem item.payload).request.type refl (sort_items-Sorted mem items)
  where
    by_type :
        (t : RequestType)
        → (mem item.payload).request.type ≡ t
        → Sorted items (sort_items mem items)
        → Sorted (item ∷ items) (sort_items mem (item ∷ items))
    by_type request_check e s = rw e (checked-Sorted item items _ _ s)
    by_type request_write_tuple e s = rw e (later-Sorted item items _ _ _ refl s)
    by_type request_delete_tuple e s = rw e (later-Sorted item items _ _ _ refl s)
    by_type request_create_store e s = rw e (later-Sorted item items _ _ _ refl s)
    by_type request_delete_store e s = rw e (later-Sorted item items _ _ _ refl s)
    by_type request_get_store e s = rw e (later-Sorted item items _ _ _ refl s)
    by_type no_type e s = rw e (later-Sorted item items _ _ _ refl s)
    by_type request_read e s = rw e (later-Sorted item items _ _ _ refl s)
    by_type request_list e s = rw e (later-Sorted item items _ _ _ refl s)

-- A batch among the calls: it asks for its own items, which are some of those given.
pub record IsBatchOf (mem : Memory) (given : List Item) (b : List Item × BatchCheckRequest)
    : Type 0 where
  pub first : Item
  pub rest : List Item
  pub items : b.0 ≡ first ∷ rest
  pub request : b.1 ≡ batch_request mem first rest
  pub among : (p : Item) → Memᴰ p (first ∷ rest) → Memᴰ p given

process-batches : (mem : Memory) (item : Item) → batches (process mem item) ≡ []
unfolding process make_request_variant handle_request
process-batches mem item = by_type (mem item.payload).request.type refl
  where
    by_type :
        (t : RequestType) → (mem item.payload).request.type ≡ t → batches (process mem item) ≡ []
    by_type request_check e = rw e refl
    by_type request_write_tuple e = rw e refl
    by_type request_delete_tuple e = rw e refl
    by_type request_create_store e = rw e refl
    by_type request_delete_store e = rw e refl
    by_type request_get_store e = rw e refl
    by_type no_type e = rw e refl
    by_type request_read e = rw e refl
    by_type request_list e = rw e refl

handle_check_batch-IsBatchOf :
    (mem : Memory) (given items : List Item) (b : Batch)
    → ((p : Item) → Memᴰ p items → Memᴰ p given)
    → Memᴰ b (batches (handle_check_batch mem items))
    → IsBatchOf mem given b
unfolding handle_check_batch
handle_check_batch-IsBatchOf mem given [] b among h = absurd (Memᴰ.not-nil h)
handle_check_batch-IsBatchOf mem given (first ∷ rest) b among (Memᴰ.head e) = record {
  first = first;
  rest = rest;
  items = ap (λ (x : Batch). x.0) e;
  request = ap (λ (x : Batch). x.1) e;
  among = among;
}
handle_check_batch-IsBatchOf mem given (first ∷ rest) b among (Memᴰ.tail h) =
    absurd (Memᴰ.not-nil h)

pub process_batch-IsBatchOf :
    (mem : Memory) (given items : List Item) (request : BatchCheckRequest)
    → Memᴰ (batch_call items request) (process_batch mem given)
    → IsBatchOf mem given (items, request)
unfolding process_batch
process_batch-IsBatchOf mem [] items request h = absurd (Memᴰ.not-nil h)
process_batch-IsBatchOf mem (item ∷ []) items request h =
    let b : Memᴰ {A = Batch} (items, request) [] =
      rw (← process-batches mem item) (Memᴰ-batches (items, request) _ h) in
    absurd (Memᴰ.not-nil b)
process_batch-IsBatchOf mem (item ∷ second ∷ more) items request h =
    let (calls, checks) = sort_items mem (item ∷ second ∷ more) in
    let s = sort_items-Sorted mem (item ∷ second ∷ more) in
    let e : batches (calls ++ handle_check_batch mem checks)
        ≡ batches (handle_check_batch mem checks) =
      batches-append calls (handle_check_batch mem checks)
      ∙ ap (λ (x : List Batch). x ++ batches (handle_check_batch mem checks)) s.apart in
    handle_check_batch-IsBatchOf mem (item ∷ second ∷ more) checks (items, request) s.among
      (rw (← e) (Memᴰ-batches (items, request) _ h))
