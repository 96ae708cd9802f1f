-- ===== src/Channel/Execute.antt =====
-- A request from its queueing to its end, in src/channel.c: what it does to the pool.
use postfga.Prelude.{
  ℕ, ◌<◌, ◌≡◌, ◌⊎◌, refl, ap, ◌∙◌, sym, true, false, none, List, [], ◌∷◌, length, set,
  get_or-set_self, get_or-set_ne, length-set, ◌==◌, ==_iff, arith, inl, inr, Bool-cases, u16,
}
use postfga.FreeList.{SlotList}
use postfga.Queue
use postfga.Channel.{
  Slot, SlotState, empty, canceled, pending, processing, done, Pool, Channel, Wake, Waited,
  returned, raised, asleep, Outcome, executed, failed, waiting, pool_exhausted, enqueue_failed,
  request_canceled, interrupted, outside, slot_at, state_of, answered, write_state, release,
  catch_interrupt, wait_response, finish, execute,
}
use postfga.Channel.Vacancy.{vacancy, IsConsistent}
use postfga.Channel.Busy.{Busy, write_state-Busy, release-Busy, canceled-ne-empty}

module _ {T : Type 0} (S : SlotList T) where
  -- Writing the process of slot `i` changes no state.
  disowned : Pool T → ℕ → Pool T
  disowned pool i = record pool {
    slots = set pool.slots i (record (slot_at S pool i) { backend_pid = none });
  }

  disowned-state :
      (pool : Pool T) (i j : ℕ)
      → i < length pool.slots
      → state_of S (disowned pool i) j ≡ state_of S pool j
  unfolding disowned
  disowned-state pool i j h = elim (Bool-cases (i == j)) [
    | inl e ↦ rw (← (==_iff i j).0 e) (seen (get_or-set_self pool.slots i _ outside h))
    | inr e ↦ seen (get_or-set_ne pool.slots i j _ outside (λ p. ground (arith, ==_iff i j)))
  ]
    where
      seen : {a b : Slot} → a ≡ b → a.state ≡ b.state
      seen p = ap (λ (x : Slot). x.state) p

  -- An interrupt leaves the slot without a process, put back or for the worker to put back.
  abbrev pub IsGivenUp : ℕ → Pool T → Type 0
  IsGivenUp i pool =
      IsConsistent S pool
      × ((state_of S pool i ≡ empty) ⊎ (state_of S pool i ≡ canceled))
      × ((slot_at S pool i).backend_pid ≡ none)

  disowned-IsGivenUp :
      (pool : Pool T) (i : ℕ)
      → IsConsistent S pool
      → i < length pool.slots
      → (state_of S pool i ≡ empty) ⊎ (state_of S pool i ≡ canceled)
      → IsGivenUp i (disowned pool i)
  unfolding disowned
  disowned-IsGivenUp pool i c h s = (
    λ j. c j ∙ sym (ap vacancy (disowned-state pool i j h)),
    elim s [
      | inl e ↦ inl (disowned-state pool i i h ∙ e)
      | inr e ↦ inr (disowned-state pool i i h ∙ e)
    ],
    ap (λ (x : Slot). x.backend_pid) (get_or-set_self pool.slots i _ outside h),
  )

  catch_interrupt-IsGivenUp :
      (ch : Channel T) (i : ℕ) → Busy S i ch.pool → IsGivenUp i (catch_interrupt S ch i).pool
  unfolding catch_interrupt disowned
  catch_interrupt-IsGivenUp ch i b = by_state (state_of S ch.pool i) refl
    where
      under_way : IsGivenUp i (disowned (write_state S ch.pool i canceled) i)
      under_way =
          let (b', at) = write_state-Busy S ch.pool i canceled b canceled-ne-empty in
          disowned-IsGivenUp _ i b'.consistent b'.inside (inr at)

      by_state :
          (s : SlotState) → state_of S ch.pool i ≡ s → IsGivenUp i (catch_interrupt S ch i).pool
      by_state empty e = absurd (b.used e)
      by_state canceled e = rw e (disowned-IsGivenUp ch.pool i b.consistent b.inside (inr e))
      by_state pending e = rw e under_way
      by_state processing e = rw e under_way
      by_state done e =
          let (c, at) = release-Busy S ch i b in
          rw e (disowned-IsGivenUp (release S ch i).pool i c (rw length-set b.inside) (inl at))

  -- While backend sleeps on slot `i`, no other process frees it or breaks the pool.
  abbrev pub IsCareful : ℕ → Wake T → Type 0
  IsCareful i w = (ch : Channel T) → Busy S i ch.pool → Busy S i (w.change ch).pool

  pub data AllCareful (i : ℕ) : List (Wake T) → Type 0 where
    no_wakes : AllCareful i []
    more_wakes :
        (w : Wake T) (wakes : List (Wake T))
        → IsCareful i w
        → AllCareful i wakes
        → AllCareful i (w ∷ wakes)

  abbrev pub WaitEnd : ℕ → Waited × Channel T → Type 0
  WaitEnd i (returned s, ch) = Busy S i ch.pool × (answered s ≡ true) × (state_of S ch.pool i ≡ s)
  WaitEnd i (raised, ch) = IsGivenUp i ch.pool
  WaitEnd i (asleep, ch) = Busy S i ch.pool × (answered (state_of S ch.pool i) ≡ false)

  wait_response-WaitEnd :
      (ch : Channel T) (i : ℕ) (wakes : List (Wake T))
      → Busy S i ch.pool
      → AllCareful i wakes
      → WaitEnd i (wait_response S ch i wakes)
  unfolding wait_response
  wait_response-WaitEnd ch i [] b no_wakes = elim (Bool-cases (answered (state_of S ch.pool i))) [
    | inl e ↦ rw e (b, e, refl)
    | inr e ↦ rw e (b, e)
  ]
  wait_response-WaitEnd ch i (w ∷ wakes) b (more_wakes _ _ careful others) =
      let b' = careful ch b in
      elim (Bool-cases (answered (state_of S ch.pool i))) [
        | inl e ↦ rw e (b, e, refl)
        | inr e ↦ elim (Bool-cases w.interrupt) [
          | inl due ↦ rw (e, due) (catch_interrupt-IsGivenUp (w.change ch) i b')
          | inr quiet ↦ rw (e, quiet) (wait_response-WaitEnd (w.change ch) i wakes b' others)
        ]
      ]

  abbrev pub ExecuteEnd : ℕ → Outcome × Channel T → Type 0
  ExecuteEnd i (executed, ch) = Busy S i ch.pool × (state_of S ch.pool i ≡ done)
  ExecuteEnd i (waiting, ch) = Busy S i ch.pool × (answered (state_of S ch.pool i) ≡ false)
  ExecuteEnd i (failed interrupted, ch) = IsGivenUp i ch.pool
  ExecuteEnd i (failed pool_exhausted, ch) = ⊥
  ExecuteEnd i (failed enqueue_failed, ch) = IsConsistent S ch.pool × (state_of S ch.pool i ≡ empty)
  ExecuteEnd i (failed request_canceled, ch) =
      IsConsistent S ch.pool × (state_of S ch.pool i ≡ empty)

  finish-ExecuteEnd : (i : ℕ) (r : Waited × Channel T) → WaitEnd i r → ExecuteEnd i (finish S i r)
  unfolding finish answered
  finish-ExecuteEnd i (raised, ch) g = g
  finish-ExecuteEnd i (asleep, ch) g = g
  finish-ExecuteEnd i (returned canceled, ch) (b, _, _) = release-Busy S ch i b
  finish-ExecuteEnd i (returned empty, ch) (_, e, _) = absurd (cc)
  finish-ExecuteEnd i (returned pending, ch) (_, e, _) = absurd (cc)
  finish-ExecuteEnd i (returned processing, ch) (_, e, _) = absurd (cc)
  finish-ExecuteEnd i (returned done, ch) (b, _, e) = (b, e)

  abbrev pub queued : Channel T → ℕ → Channel T
  queued ch i = record ch { queue = (Queue.enqueue ch.queue (u16 i)).1 }

  queued-Busy : (ch : Channel T) (i : ℕ) → Busy S i ch.pool → Busy S i (queued ch i).pool
  queued-Busy ch i b = b

  -- `fga_channel_execute_slot` of a slot in use, while the other processes neither free it nor break the
  -- pool. It returns only with the slot DONE and still in use. When it raises its own error the slot is EMPTY
  -- and the pool consistent; after an interrupt the pool is consistent and the slot has no process and is
  -- EMPTY or CANCELED. While the wakes given do not end the wait, the slot is in use and not answered.
  pub execute-ExecuteEnd :
      (ch : Channel T) (i : ℕ) (wakes : List (Wake T))
      → Busy S i ch.pool
      → AllCareful i wakes
      → ExecuteEnd i (execute S ch i wakes)
  unfolding execute answered
  execute-ExecuteEnd ch i wakes b careful = elim (Bool-cases (Queue.enqueue ch.queue (u16 i)).0) [
    | inl e ↦ rw e (
        finish-ExecuteEnd i _
          (wait_response-WaitEnd (queued ch i) i wakes (queued-Busy ch i b) careful))
    | inr e ↦ rw e (release-Busy S ch i b)
  ]

  -- An interrupt that is due when the backend first sleeps.
  pub execute-interrupted :
      (ch : Channel T) (i : ℕ) (w : Wake T) (wakes : List (Wake T))
      → (Queue.enqueue ch.queue (u16 i)).0 ≡ true
      → answered (state_of S ch.pool i) ≡ false
      → w.interrupt ≡ true
      → execute S ch i (w ∷ wakes)
        ≡ (failed interrupted, catch_interrupt S (w.change (queued ch i)) i)
  unfolding execute wait_response finish
  execute-interrupted ch i w wakes accepted open_yet due = rw (accepted, open_yet, due) refl
